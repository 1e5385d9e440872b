-- ===== src/BookSequence.antt =====
-- execution_truth/book_sequence.py: the limits of a capture, the capture, and the checks of a captured
-- sequence. A bundle is one of any type: `Bundles` says what the code reads of it, with its times where
-- they can be read, and what `normalize_bundle` makes of it. The hash of the sequence and the compact
-- summaries are left out.
pub mod Timeline
use quantconnect.Prelude.{
  ℕ, zero, suc, ◌+◌, ◌-◌, ◌*◌, ltb, leb, ◌==◌, Bool, true, false, not, ◌&&◌, ◌||◌, Option, none,
  some, List, [], ◌∷◌, ◌++◌, length, String, str_eq, if◌then◌else◌, Result, ok, err, contract_error,
  raise_if, ◌>>=◌, ◌>>◌,
}

-- A market's id, the id of its condition and its outcomes, as one text.
pub record Bundles {ℓ} (Raw : Type ℓ) : Type ℓ where
  pub is_bundle : Raw → Bool
  pub market_id_requested : Raw → String
  -- `str.strip`
  pub strip : String → String
  pub acquired_at : Raw → Option ℕ
  -- The times of the observations in their order; `none` where one of them is missing.
  pub observed_at : Raw → Option (List (Option ℕ))
  pub identity : Raw → Result String
  pub is_numeric : String → Bool

-- `validate_sequence_limits`, of numbers that are integers.
unfoldable pub validate_sequence_limits : ℕ → ℕ → Result (Unit {0})
validate_sequence_limits sample_count interval_seconds = do
  raise_if (not (leb 2 sample_count && leb sample_count 120)) contract_error
  raise_if (not (leb 1 interval_seconds && leb interval_seconds 60)) contract_error
  raise_if (ltb 3600 ((sample_count - 1) * interval_seconds)) contract_error

pub record Sequence {ℓ} (Raw : Type ℓ) : Type ℓ where
  pub market_id_requested : String
  pub capture_started_at : Option ℕ
  pub capture_completed_at : Option ℕ
  pub requested_sample_count : ℕ
  pub requested_interval_seconds : ℕ
  pub samples : List Raw

-- `_time`
abbrev pub time_of : Option ℕ → Result ℕ
time_of none = err contract_error
time_of (some t) = ok t

abbrev pub times_of : List (Option ℕ) → Result (List ℕ)
times_of [] = ok []
times_of (t ∷ ts) = do first ← time_of t; rest ← times_of ts; ok (first ∷ rest)

abbrev pub observations_of : Option (List (Option ℕ)) → Result (List ℕ)
observations_of none = err contract_error
observations_of (some ts) = times_of ts

-- The loop over a sample's moments, which moves the cursor.
unfoldable pub move_cursor : ℕ → ℕ → List ℕ → Result ℕ
move_cursor completed cursor [] = ok cursor
move_cursor completed cursor (moment ∷ moments) = do
  raise_if (ltb moment cursor) contract_error
  raise_if (ltb completed moment) contract_error
  move_cursor completed moment moments

abbrev pub is_repeated_time : Option ℕ → ℕ → Bool
is_repeated_time none acquired = false
is_repeated_time (some previous) acquired = leb acquired previous

abbrev pub is_other : Option String → String → Bool
is_other none identity = false
is_other (some first) identity = not (str_eq identity first)

abbrev pub identity_or : Option String → String → String
identity_or none identity = identity
identity_or (some first) identity = first

-- What the loop over the samples carries on.
pub record Cursor : Type 0 where
  pub timeline_cursor : ℕ
  pub previous_acquired : Option ℕ
  pub identity : Option String

module _ {ℓ} {Raw : Type ℓ} (B : Bundles Raw) (market_id : String) (started completed : ℕ) where
  unfoldable pub check_sample : Cursor → Raw → Result Cursor
  unfolding move_cursor
  check_sample c raw = do
    raise_if (not (B.is_bundle raw)) contract_error
    raise_if (not (str_eq (B.market_id_requested raw) market_id)) contract_error
    acquired ← time_of (B.acquired_at raw)
    raise_if (ltb acquired started || ltb completed acquired) contract_error
    raise_if (is_repeated_time c.previous_acquired acquired) contract_error
    observed ← observations_of (B.observed_at raw)
    cursor ← move_cursor completed c.timeline_cursor (acquired ∷ observed)
    identity ← B.identity raw
    raise_if (is_other c.identity identity) contract_error
    ok (record {
      timeline_cursor = cursor;
      previous_acquired = some acquired;
      identity = some (identity_or c.identity identity);
    })

  unfoldable pub check_samples : Cursor → List Raw → Result Cursor
  unfolding check_sample
  check_samples c [] = ok c
  check_samples c (raw ∷ samples) = do after ← check_sample c raw; check_samples after samples

module _ {ℓ} {Raw : Type ℓ} (B : Bundles Raw) where
  -- `normalize_book_sequence`, of a sequence whose hash has been verified.
  unfoldable pub normalize_book_sequence : Sequence Raw → Result Cursor
  unfolding check_samples validate_sequence_limits
  normalize_book_sequence s =
      validate_sequence_limits s.requested_sample_count s.requested_interval_seconds
      >> (raise_if (not (B.is_numeric (B.strip s.market_id_requested))) contract_error
          >> (raise_if (not (length s.samples == s.requested_sample_count)) contract_error
              >> (time_of s.capture_started_at >>= λ started.
                  time_of s.capture_completed_at >>= λ completed.
                  raise_if (ltb completed started) contract_error
                  >> check_samples B (B.strip s.market_id_requested) started completed
                      (record {
                        timeline_cursor = started;
                        previous_acquired = none;
                        identity = none;
                      })
                      s.samples)))

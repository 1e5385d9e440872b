-- ===== src/BookSequence/Timeline.antt =====
-- execution_truth/book_sequence.py: a sequence that is accepted has one timeline and one market.
use quantconnect.Prelude.{
  ℕ, ◌≤◌, ◌≡◌, sym, ap, ◌∙◌, subst, arith, ltb, leb, ◌==◌, true, false, not, ◌&&◌, ◌||◌, Bool-cases,
  inl, inr, Option, none, some, List, [], ◌∷◌, ◌++◌, length, String, str_eq, eq_iff, ok,
  contract_error, >>=-eq-ok, raise_if-eq-ok, ok-injective,
}
use quantconnect.BookSequence.{
  Bundles, Sequence, validate_sequence_limits, time_of, observations_of, move_cursor,
  is_repeated_time, is_other, identity_or, Cursor, check_sample, check_samples,
  normalize_book_sequence,
}

-- Times that do not fall, from `low` and up to `high`.
abbrev pub IsTimeline : ℕ → ℕ → List ℕ → Type 0
IsTimeline low high [] = Unit
IsTimeline low high (t ∷ ts) = (low ≤ t) × (t ≤ high) × IsTimeline t high ts

abbrev last_of : ℕ → List ℕ → ℕ
last_of low [] = low
last_of low (t ∷ ts) = last_of t ts

move_cursor-IsTimeline :
    (completed cursor : ℕ) (moments : List ℕ) (after : ℕ)
    → move_cursor completed cursor moments ≡ ok after
    → IsTimeline cursor completed moments × (last_of cursor moments ≡ after)
unfolding move_cursor
move_cursor-IsTimeline completed cursor [] after h = (tt, ok-injective h)
move_cursor-IsTimeline completed cursor (m ∷ moments) after h =
    let late = raise_if-eq-ok (ltb m cursor) contract_error _ h in
    let early = raise_if-eq-ok (ltb completed m) contract_error _ late.1 in
    let rest = move_cursor-IsTimeline completed m moments after early.1 in
    ((ground (arith, late.0), ground (arith, early.0), rest.0), rest.1)

IsTimeline-append :
    (low high : ℕ) (xs ys : List ℕ)
    → IsTimeline low high xs
    → IsTimeline (last_of low xs) high ys
    → IsTimeline low high (xs ++ ys)
IsTimeline-append low high [] ys h k = k
IsTimeline-append low high (x ∷ xs) ys h k = (h.0, h.1, IsTimeline-append x high xs ys h.2 k)

module _ {ℓ} {Raw : Type ℓ} (B : Bundles Raw) where
  -- A sample with its times as they were read, and the market that it names.
  pub record Sample (market_id : String) (raw : Raw) : Type ℓ where
    pub acquired : ℕ
    pub observed : List ℕ
    pub requested : str_eq (B.market_id_requested raw) market_id ≡ true
    pub acquired_at : B.acquired_at raw ≡ some acquired
    pub observed_at : observations_of (B.observed_at raw) ≡ ok observed

  -- The moments of the samples in their order, each sample named by one market, and acquired after
  -- the one before it.
  pub data Samples (market_id identity : String) : List Raw → Option ℕ → List ℕ → Type ℓ where
    no_samples : (previous : Option ℕ) → Samples market_id identity [] previous []
    a_sample :
        (raw : Raw) (samples : List Raw) (previous : Option ℕ) (moments : List ℕ)
        (s : Sample market_id raw)
        → is_repeated_time previous s.acquired ≡ false
        → B.identity raw ≡ ok identity
        → Samples market_id identity samples (some s.acquired) moments
        → Samples market_id identity (raw ∷ samples) previous (s.acquired ∷ s.observed ++ moments)

  -- What a checked sample was, and where it left the cursor.
  record Checked (market_id : String) (completed : ℕ) (c : Cursor) (raw : Raw) (after : Cursor)
      : Type ℓ where
    pub sample : Sample market_id raw
    pub later : is_repeated_time c.previous_acquired sample.acquired ≡ false
    pub timeline : IsTimeline c.timeline_cursor completed (sample.acquired ∷ sample.observed)
    pub moved :
        last_of c.timeline_cursor (sample.acquired ∷ sample.observed) ≡ after.timeline_cursor
    pub previous : after.previous_acquired ≡ some sample.acquired
    pub market : String
    pub identity : B.identity raw ≡ ok market
    pub same : is_other c.identity market ≡ false
    pub kept : after.identity ≡ some (identity_or c.identity market)

  time_of-ok : (o : Option ℕ) (t : ℕ) → time_of o ≡ ok t → o ≡ some t
  time_of-ok none t h = cc
  time_of-ok (some u) t h = ap some (ok-injective h)

  check_sample-Checked :
      (market_id : String) (started completed : ℕ) (c : Cursor) (raw : Raw) (after : Cursor)
      → check_sample B market_id started completed c raw ≡ ok after
      → Checked market_id completed c raw after
  unfolding check_sample
  check_sample-Checked market_id started completed c raw after h =
      let bundle = raise_if-eq-ok (not (B.is_bundle raw)) contract_error _ h in
      let named =
        raise_if-eq-ok (not (str_eq (B.market_id_requested raw) market_id)) contract_error _
          bundle.1 in
      let acquired = >>=-eq-ok (time_of (B.acquired_at raw)) _ named.1 in
      let t = acquired.0 in
      let inside = raise_if-eq-ok (ltb t started || ltb completed t) contract_error _ acquired.2 in
      let fresh =
        raise_if-eq-ok (is_repeated_time c.previous_acquired t) contract_error _ inside.1 in
      let observed = >>=-eq-ok (observations_of (B.observed_at raw)) _ fresh.1 in
      let moved =
        >>=-eq-ok (move_cursor completed c.timeline_cursor (t ∷ observed.0)) _ observed.2 in
      let market = >>=-eq-ok (B.identity raw) _ moved.2 in
      let same = raise_if-eq-ok (is_other c.identity market.0) contract_error _ market.2 in
      let line =
        move_cursor-IsTimeline completed c.timeline_cursor (t ∷ observed.0) moved.0 moved.1 in
      let end = ok-injective same.1 in
      record {
        sample = record {
          acquired = t;
          observed = observed.0;
          requested = ground (arith, named.0);
          acquired_at = time_of-ok (B.acquired_at raw) t acquired.1;
          observed_at = observed.1;
        };
        later = fresh.0;
        timeline = line.0;
        moved = line.1 ∙ ap (λ (d : Cursor). d.timeline_cursor) end;
        previous = sym (ap (λ (d : Cursor). d.previous_acquired) end);
        market = market.0;
        identity = market.1;
        same = same.0;
        kept = sym (ap (λ (d : Cursor). d.identity) end);
      }

  is_other-same : (first market : String) → is_other (some first) market ≡ false → market ≡ first
  is_other-same first market h = elim (Bool-cases (str_eq market first)) [
    | inl equal ↦ (eq_iff market first).0 equal
    | inr other ↦ absurd (let no = rw other at h in cc)
  ]

  -- The moments of the samples from a cursor on.
  pub record Traced (market_id identity : String) (completed : ℕ) (c : Cursor) (samples : List Raw)
      : Type ℓ where
    pub moments : List ℕ
    pub told : Samples market_id identity samples c.previous_acquired moments
    pub timeline : IsTimeline c.timeline_cursor completed moments

  Traced-sample :
      (market_id identity : String) (completed : ℕ) (c : Cursor) (raw : Raw) (after : Cursor)
      (samples : List Raw) (k : Checked market_id completed c raw after)
      → B.identity raw ≡ ok identity
      → Traced market_id identity completed after samples
      → Traced market_id identity completed c (raw ∷ samples)
  Traced-sample market_id identity completed c raw after samples k named rest =
      let s = k.sample in
      record {
        moments = s.acquired ∷ s.observed ++ rest.moments;
        told =
            a_sample raw samples c.previous_acquired rest.moments s k.later named
              (subst (λ o. Samples market_id identity samples o rest.moments) k.previous rest.told);
        timeline =
            IsTimeline-append c.timeline_cursor completed (s.acquired ∷ s.observed) rest.moments
              k.timeline
              (subst (λ t. IsTimeline t completed rest.moments) (sym k.moved) rest.timeline);
      }

  check_samples-Traced :
      (market_id identity : String) (started completed : ℕ) (c : Cursor) (samples : List Raw)
      (after : Cursor)
      → c.identity ≡ some identity
      → check_samples B market_id started completed c samples ≡ ok after
      → Traced market_id identity completed c samples
  unfolding check_samples
  check_samples-Traced market_id identity started completed c [] after known h = record {
    moments = [];
    told = no_samples c.previous_acquired;
    timeline = tt;
  }
  check_samples-Traced market_id identity started completed c (raw ∷ samples) after known h =
      let first = >>=-eq-ok (check_sample B market_id started completed c raw) _ h in
      let k = check_sample-Checked market_id started completed c raw first.0 first.1 in
      let same : k.market ≡ identity =
        is_other-same identity k.market (ap (λ o. is_other o k.market) (sym known) ∙ k.same) in
      let still : first.0.identity ≡ some identity =
        k.kept ∙ ap (λ o. some (identity_or o k.market)) known in
      Traced-sample market_id identity completed c raw first.0 samples k (k.identity ∙ ap ok same) (
        check_samples-Traced market_id identity started completed first.0 samples after still
          first.2)

  begin-Traced :
      (market_id : String) (started completed : ℕ) (samples : List Raw) (after : Cursor)
      → 2 ≤ length samples
      → check_samples B market_id started completed
          (record { timeline_cursor = started; previous_acquired = none; identity = none })
          samples
        ≡ ok after
      → (identity : String) × Traced market_id identity completed
          (record { timeline_cursor = started; previous_acquired = none; identity = none })
          samples
  unfolding check_samples
  begin-Traced market_id started completed [] after two h = absurd (omega (arith, two))
  begin-Traced market_id started completed (raw ∷ samples) after two h =
      let c : Cursor = record {
        timeline_cursor = started;
        previous_acquired = none;
        identity = none;
      } in
      let first = >>=-eq-ok (check_sample B market_id started completed c raw) _ h in
      let k = check_sample-Checked market_id started completed c raw first.0 first.1 in
      (
        k.market,
        Traced-sample market_id k.market completed c raw first.0 samples k k.identity (
            check_samples-Traced market_id k.market started completed first.0 samples after k.kept
              first.2),
      )

  -- An accepted sequence has its number of samples, between 2 and 120, of one market. The times of
  -- its start, of every acquisition and observation, and of its end do not fall, and each sample is
  -- acquired after the one before it.
  pub normalize_book_sequence-Traced :
      (s : Sequence Raw) (after : Cursor)
      → normalize_book_sequence B s ≡ ok after
      → (2 ≤ length s.samples)
        × (length s.samples ≤ 120)
        × ((identity : String) × (started : ℕ) × (completed : ℕ) × (s.capture_started_at
              ≡ some started)
            × (s.capture_completed_at ≡ some completed)
            × Traced
                (B.strip s.market_id_requested)
                identity
                completed
                (record { timeline_cursor = started; previous_acquired = none; identity = none })
                s.samples)
  unfolding normalize_book_sequence validate_sequence_limits
  normalize_book_sequence-Traced s after h =
      let limits =
        >>=-eq-ok (validate_sequence_limits s.requested_sample_count s.requested_interval_seconds) _
          h in
      let count =
        raise_if-eq-ok (not (leb 2 s.requested_sample_count && leb s.requested_sample_count 120))
          contract_error _ limits.1 in
      let numeric =
        raise_if-eq-ok (not (B.is_numeric (B.strip s.market_id_requested))) contract_error _
          limits.2 in
      let size =
        raise_if-eq-ok (not (length s.samples == s.requested_sample_count)) contract_error _
          numeric.1 in
      let started = >>=-eq-ok (time_of s.capture_started_at) _ size.1 in
      let completed = >>=-eq-ok (time_of s.capture_completed_at) _ started.2 in
      let forward = raise_if-eq-ok (ltb completed.0 started.0) contract_error _ completed.2 in
      let traced =
        begin-Traced (B.strip s.market_id_requested) started.0 completed.0 s.samples after
          (ground (arith, count.0, size.0)) forward.1 in
      (
        ground (arith, count.0, size.0),
        ground (arith, count.0, size.0),
        (
          traced.0,
          started.0,
          completed.0,
          time_of-ok s.capture_started_at started.0 started.1,
          time_of-ok s.capture_completed_at completed.0 completed.1,
          traced.1,
        ),
      )

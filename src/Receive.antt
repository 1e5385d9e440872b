-- ===== src/Receive.antt =====
-- execution_truth/receive_path.py and execution_truth/receive_recovery.py: the state of the tracker
-- that pairs observed messages with delivered ones, its reset, and the checks of its inputs. Clock
-- readings are whole nanoseconds; `datetime` and `hashlib` are the record `Library`. The tracker is
-- the v3 one, whose base class only gives it its state.
pub mod Frames
pub mod Delivery
pub mod Orderly
pub mod Observing
pub mod Matching
pub mod Binding
pub mod Events
use quantconnect.Prelude.{
  ℕ, zero, suc, ◌+◌, ◌-◌, ◌*◌, ◌^◌, ltb, leb, ◌==◌, Bool, true, false, not, ◌&&◌, ◌||◌, Option,
  none, some, is_some, List, [], ◌∷◌, length, String, str_eq, if◌then◌else◌, Result, ok, err,
  contract_error, raise_if, ◌>>=◌, ◌>>◌,
}
use quantconnect.Prelude.Int.{ℤ, sub_ℕ}

pub data Disabled : Type 0 where
  invalid_receiver_clock receiver_monotonic_regression invalid_frame_metadata : Disabled
  occurrence_counter_budget invalid_control_frame interleaved_data_messages : Disabled
  unexpected_continuation_or_opcode message_telemetry_budget pending_marker_budget : Disabled
  invalid_application_clock application_monotonic_regression : Disabled
  delivery_occurrence_ahead_of_observation fifo_message_mismatch delivery_timing_error : Disabled
  missing_receive_marker : Disabled

-- What the code takes from the libraries: whether a text is a date and time in UTC, and the hash of a
-- sequence of bytes.
pub record Library : Type 0 where
  pub is_utc : String → Bool
  pub sha256 : List ℕ → String

-- The limits of the policy.
pub record Limits : Type 0 where
  pub max_pending : ℕ
  pub max_fragments : ℕ
  pub max_bytes : ℕ
  pub max_messages : ℕ
  pub max_frames : ℕ

abbrev pub policy_v3 : Limits
policy_v3 = record {
  max_pending = 64;
  max_fragments = 64;
  max_bytes = 262144;
  max_messages = 1000000;
  max_frames = 64000000;
}

-- A bracketed clock as it arrives; `none` is a reading that is no finite nonnegative number.
pub record Stamp : Type 0 where
  pub schema_version : String
  pub clock_domain : String
  pub utc : String
  pub monotonic_before : Option ℕ
  pub monotonic_after : Option ℕ

pub record Clock : Type 0 where
  pub utc : String
  pub before : ℕ
  pub after : ℕ

pub record Marker : Type 0 where
  pub message_sequence : ℕ
  pub first_frame_sequence : ℕ
  pub last_frame_sequence : ℕ
  pub fragment_count : ℕ
  pub message_bytes : ℕ
  pub opcode : ℕ
  pub raw_message_sha256 : String
  pub first_observation : Clock
  pub last_observation : Clock

-- `digest` is what has been fed to the hash, `none` where nothing is hashed.
pub record Fragment : Type 0 where
  pub first : Clock
  pub first_frame : ℕ
  pub opcode : ℕ
  pub bytes : ℕ
  pub fragments : ℕ
  pub digest : Option (List ℕ)

pub record Overflow : Type 0 where
  pub generation_before : ℕ
  pub last_retained : ℕ
  pub first_unretained : ℕ
  pub observation : Clock

pub record Fence : Type 0 where
  pub generation : ℕ
  pub observed_messages : ℕ
  pub delivered_messages : ℕ
  pub observed_frames : ℕ
  pub observation : Clock

pub record Tracker : Type 0 where
  pub domain : String
  pub connection : ℕ
  pub pending : List Marker
  pub fragment : Option Fragment
  pub disabled_reason : Option Disabled
  pub frame_sequence : ℕ
  pub message_sequence : ℕ
  pub last_receiver_after : Option ℕ
  pub last_delivery_after : Option ℕ
  pub delivered_messages : ℕ
  pub generation : ℕ
  pub overflow : Option Overflow
  pub recovery_fence : Option Fence

abbrev pub init_tracker : String → Tracker
init_tracker domain = record {
  domain = domain;
  connection = 0;
  pending = [];
  fragment = none;
  disabled_reason = none;
  frame_sequence = 0;
  message_sequence = 0;
  last_receiver_after = none;
  last_delivery_after = none;
  delivered_messages = 0;
  generation = 0;
  overflow = none;
  recovery_fence = none;
}

pub record Reset : Type 0 where
  pub previous_connection : ℕ
  pub new_connection : ℕ
  pub discarded_pending_markers : ℕ
  pub discarded_incomplete_fragment : Bool
  pub previous_disabled_reason : Option Disabled
  pub discarded_unknown_backlog : ℕ
  pub previous_generation : ℕ

unfoldable pub begin_connection : Tracker → ℕ → Result (Tracker × Reset)
begin_connection t connection = do
  raise_if (not (connection == t.connection + 1)) contract_error
  ok (
    record t {
      connection = connection;
      pending = [];
      fragment = none;
      disabled_reason = none;
      frame_sequence = 0;
      message_sequence = 0;
      delivered_messages = 0;
      generation = 0;
      overflow = none;
      recovery_fence = none;
    },
    record {
      previous_connection = t.connection;
      new_connection = connection;
      discarded_pending_markers = length t.pending;
      discarded_incomplete_fragment = is_some t.fragment;
      previous_disabled_reason = t.disabled_reason;
      discarded_unknown_backlog = t.message_sequence - t.delivered_messages - length t.pending;
      previous_generation = t.generation;
    },
  )

-- `_disable`
abbrev pub disable : Tracker → Disabled → Tracker
disable t reason = record t { disabled_reason = some reason; pending = []; fragment = none }

abbrev pub is_stale : Tracker → ℕ → Bool
is_stale t connection = not (connection == t.connection) || t.connection == 0

abbrev pub is_aligned : Option Disabled → Bool
is_aligned none = true
is_aligned (some reason) = false

abbrev pub is_draining : Option Disabled → Bool
is_draining (some pending_marker_budget) = true
is_draining _ = false

-- `self.disabled_reason in (None, "pending_marker_budget")`
abbrev pub is_going : Option Disabled → Bool
is_going none = true
is_going reason = is_draining reason

-- A reading that is before the last one, if there was one.
abbrev pub is_before : ℕ → Option ℕ → Bool
is_before reading none = false
is_before reading (some last) = ltb reading last

abbrev pub bracket : String → Option ℕ → Option ℕ → Result Clock
bracket utc (some before) (some after) = do
  raise_if (ltb after before) contract_error
  ok (record { utc = utc; before = before; after = after })
bracket utc _ _ = err contract_error

unfoldable pub validate_stamp : Library → Stamp → String → Result Clock
validate_stamp L stamp domain = do
  raise_if
      (not (str_eq stamp.schema_version "qcrl.bracketed_clock.v1")
        || not (str_eq stamp.clock_domain domain))
      contract_error
  clock ← bracket stamp.utc stamp.monotonic_before stamp.monotonic_after
  raise_if (not (L.is_utc stamp.utc)) contract_error
  ok clock

pub data Warning : Type 0 where
  overlapping_clock_brackets wide_clock_bracket : Warning

pub record Interval : Type 0 where
  pub lower : ℤ
  pub upper : ℕ
  pub warnings : List Warning

abbrev pub is_wide : Clock → Bool
is_wide clock = ltb (10 ^ 6) (clock.after - clock.before)

-- The two clocks have been validated; an upper bound below zero raises.
unfoldable pub elapsed_bounds : Clock → Clock → Result Interval
elapsed_bounds first last = do
  raise_if (ltb last.after first.before) contract_error
  let wide = if is_wide first || is_wide last then wide_clock_bracket ∷ [] else []
  ok (record {
    lower = sub_ℕ last.before first.after;
    upper = last.after - first.before;
    warnings = if ltb last.before first.after then overlapping_clock_brackets ∷ wide else wide;
  })

-- The optional measurements: the queue's depth and the reader's stall, where `some none` is a value
-- of a wrong kind.
pub record Diagnostics : Type 0 where
  pub library_queue_depth : Option (Option ℕ)
  pub library_backpressure_active : Option (Option Bool)
  pub reader_loop_stall : Option (Option ℕ)

abbrev pub is_measured {ℓ} : {A : Type ℓ} → (A → Bool) → Option (Option A) → Bool
is_measured fits none = true
is_measured fits (some none) = false
is_measured fits (some (some a)) = fits a

unfoldable pub validate_diagnostics : Diagnostics → Result (Unit {0})
validate_diagnostics d = do
  raise_if (not (is_measured (λ n. leb n 1000000) d.library_queue_depth)) contract_error
  raise_if (not (is_measured (λ b. true) d.library_backpressure_active)) contract_error
  raise_if (not (is_measured (λ n. true) d.reader_loop_stall)) contract_error

-- ===== src/Receive/Delivery.antt =====
-- execution_truth/receive_recovery.py: `deliver`. A call that raises keeps what it changed, so every
-- step answers with the tracker and with what it returns or raises.
use quantconnect.Prelude.{
  ℕ, ◌+◌, ltb, leb, ◌==◌, Bool, true, false, not, ◌&&◌, Option, none, some, is_some, List, [], ◌∷◌,
  length, str_eq, if◌then◌else◌, Result, ok, err, type_error, contract_error, ◌>>=◌,
}
use quantconnect.Receive.{
  Disabled, occurrence_counter_budget, invalid_application_clock, application_monotonic_regression,
  delivery_occurrence_ahead_of_observation, fifo_message_mismatch, delivery_timing_error,
  missing_receive_marker, Library, Limits, Stamp, Clock, Marker, Fence, Overflow, Tracker, disable,
  is_stale, is_draining, is_going, is_before, validate_stamp, Interval, elapsed_bounds, Diagnostics,
  validate_diagnostics,
}

-- A text has its UTF-8 bytes, if it has an encoding.
pub data Message : Type 0 where
  text : Option (List ℕ) → Message
  binary : List ℕ → Message
  other : Message

abbrev pub raw_of : Message → Option (List ℕ)
raw_of (text raw) = raw
raw_of (binary raw) = some raw
raw_of other = none

abbrev pub is_text : Message → Bool
is_text (text raw) = true
is_text _ = false

pub record Delivered : Type 0 where
  pub connection : ℕ
  pub application_delivery : Clock
  pub receive_marker : Option Marker
  pub unavailable_reason : Option Disabled
  pub pending_marker_depth : ℕ
  pub diagnostics : Diagnostics
  pub observed_messages : ℕ
  pub delivered_messages : ℕ
  pub observed_frames : ℕ
  pub generation : ℕ
  pub disabled_reason : Option Disabled
  pub overflow : Option Overflow
  pub recovery_fence : Option Fence
  pub first_elapsed : Option Interval
  pub last_elapsed : Option Interval

abbrev pub rearm : Tracker → Clock → Option ℕ → Result Tracker
rearm t clock none = err type_error
rearm t clock (some last) =
    if leb last clock.before
    then ok (record t {
      generation = t.generation + 1;
      recovery_fence = some (record {
        generation = t.generation + 1;
        observed_messages = t.message_sequence;
        delivered_messages = t.delivered_messages;
        observed_frames = t.frame_sequence;
        observation = clock;
      });
      disabled_reason = none;
    })
    else ok t

abbrev pub is_empty : List Marker → Bool
is_empty [] = true
is_empty _ = false

-- A drained tracker starts a new generation once the counters agree.
unfoldable pub recover : Tracker → Clock → Result Tracker
recover t clock =
    if is_draining t.disabled_reason
      && is_empty t.pending
      && not (is_some t.fragment)
      && t.message_sequence == t.delivered_messages
    then rearm t clock t.last_receiver_after
    else ok t

abbrev pub intervals : Option Marker → Clock → Result (Option Interval × Option Interval)
intervals none clock = ok (none, none)
intervals (some m) clock = elapsed_bounds m.first_observation clock >>= λ first.
    elapsed_bounds m.last_observation clock >>= λ last. ok (some first, some last)

-- The record of the delivery, and the end of the call.
unfoldable pub report :
    Tracker
    → Option Marker
    → Option Disabled
    → Diagnostics
    → Clock
    → Result (Option Interval × Option Interval)
    → Tracker × Result Delivered
report t marker reason d clock (err e) = (t, err e)
report t marker reason d clock (ok (first, last)) = (
  record t { last_delivery_after = some clock.after },
  ok (record {
    connection = t.connection;
    application_delivery = clock;
    receive_marker = marker;
    unavailable_reason = reason;
    pending_marker_depth = length t.pending;
    diagnostics = d;
    observed_messages = t.message_sequence;
    delivered_messages = t.delivered_messages;
    observed_frames = t.frame_sequence;
    generation = t.generation;
    disabled_reason = t.disabled_reason;
    overflow = t.overflow;
    recovery_fence = t.recovery_fence;
    first_elapsed = first;
    last_elapsed = last;
  }),
)

abbrev pub after_recovery :
    Tracker → Option Marker → Diagnostics → Clock → Result Tracker → Tracker × Result Delivered
after_recovery t marker d clock (err e) = (t, err e)
after_recovery t marker d clock (ok t') =
    report t' marker (if is_some marker then none else t.disabled_reason) d clock
      (intervals marker clock)

abbrev pub after_match :
    Diagnostics → Clock → Tracker × Result (Option Marker) → Tracker × Result Delivered
after_match d clock (t, err e) = (t, err e)
after_match d clock (t, ok marker) = after_recovery t marker d clock (recover t clock)

module _ (L : Library) (P : Limits) where
  -- The delivered occurrence is counted before it is matched.
  unfoldable pub count_delivery : Tracker → Tracker
  count_delivery t =
      if ltb t.delivered_messages P.max_messages
      then record t { delivered_messages = t.delivered_messages + 1 }
      else disable t occurrence_counter_budget

  abbrev pub raw_matches : Marker → Option (List ℕ) → Bool
  raw_matches m none = false
  raw_matches m (some raw) =
      leb (length raw) P.max_bytes && str_eq (L.sha256 raw) m.raw_message_sha256

  -- The candidate is the delivered occurrence, of the message's kind and with its bytes.
  unfoldable pub matches : ℕ → Marker → Message → Bool
  matches delivered m message =
      m.message_sequence == delivered
      && raw_matches m (raw_of message)
      && (if is_text message then m.opcode == 1 else not (m.opcode == 1))

  unfoldable pub take_marker :
      Tracker → List Marker → Message → Clock → Tracker × Result (Option Marker)
  unfolding matches
  take_marker t [] message clock =
      if is_draining t.disabled_reason
      then (t, ok none)
      else (disable t missing_receive_marker, ok none)
  take_marker t (m ∷ rest) message clock =
      if matches t.delivered_messages m message
      then (if ltb clock.after m.last_observation.before
          then (disable t delivery_timing_error, err contract_error)
          else (record t { pending = rest }, ok (some m)))
      else (disable t fifo_message_mismatch, ok none)

  unfoldable pub match_marker : Tracker → Message → Clock → Tracker × Result (Option Marker)
  unfolding take_marker
  match_marker t message clock =
      if not (is_going t.disabled_reason)
      then (t, ok none)
      else if ltb t.message_sequence t.delivered_messages
      then (disable t delivery_occurrence_ahead_of_observation, ok none)
      else take_marker t t.pending message clock

  unfoldable pub deliver_at : Tracker → Message → Diagnostics → Clock → Tracker × Result Delivered
  unfolding count_delivery match_marker recover report
  deliver_at t message d clock =
      if is_before clock.before t.last_delivery_after
      then (disable t application_monotonic_regression, err contract_error)
      else after_match d clock (match_marker (count_delivery t) message clock)

  abbrev pub deliver_with :
      Tracker
      → Message
      → Diagnostics
      → Result (Unit {0})
      → Result Clock
      → Tracker × Result Delivered
  deliver_with t message d (err e) clock = (t, err e)
  deliver_with t message d (ok u) (err e) = (disable t invalid_application_clock, err e)
  deliver_with t message d (ok u) (ok clock) = deliver_at t message d clock

  unfoldable pub deliver : Tracker → ℕ → Message → Stamp → Diagnostics → Tracker × Result Delivered
  unfolding deliver_at
  deliver t connection message stamp d =
      if is_stale t connection
      then (t, err contract_error)
      else deliver_with t message d (validate_diagnostics d) (validate_stamp L stamp t.domain)

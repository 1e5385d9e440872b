-- ===== src/Receive/Frames.antt =====
-- execution_truth/receive_recovery.py: `observe_frame`. A call that raises keeps what it changed, so
-- every step answers with the tracker and with what it returns or raises.
use quantconnect.Prelude.{
  ℕ, ◌+◌, ◌-◌, ltb, leb, ◌==◌, Bool, true, false, not, ◌||◌, Option, none, some, List, [], ◌∷◌,
  ◌++◌, length, if◌then◌else◌, Result, ok, err, type_error, contract_error,
}
use quantconnect.Receive.{
  invalid_receiver_clock, receiver_monotonic_regression, invalid_frame_metadata,
  occurrence_counter_budget, invalid_control_frame, interleaved_data_messages,
  unexpected_continuation_or_opcode, message_telemetry_budget, pending_marker_budget, Library,
  Limits, Stamp, Clock, Marker, Fragment, Tracker, disable, is_stale, is_aligned, is_draining,
  is_going, is_before, validate_stamp,
}

pub record Frame : Type 0 where
  pub opcode : ℕ
  pub final : Bool
  pub data_bytes : List ℕ

abbrev pub feed : Option (List ℕ) → List ℕ → Option (List ℕ)
feed none more = none
feed (some bytes) more = some (bytes ++ more)

abbrev pub grow : Fragment → Frame → Fragment
grow f frame = record f {
  bytes = f.bytes + length frame.data_bytes;
  fragments = f.fragments + 1;
  digest = feed f.digest frame.data_bytes;
}

abbrev pub start_of : Tracker → Frame → Clock → Fragment
start_of t frame clock = record {
  first = clock;
  first_frame = t.frame_sequence;
  opcode = frame.opcode;
  bytes = 0;
  fragments = 0;
  digest = if is_aligned t.disabled_reason then some [] else none;
}

abbrev pub marker_of : Library → Tracker → Fragment → List ℕ → Clock → Marker
marker_of L t f bytes clock = record {
  message_sequence = t.message_sequence;
  first_frame_sequence = f.first_frame;
  last_frame_sequence = t.frame_sequence;
  fragment_count = f.fragments;
  message_bytes = f.bytes;
  opcode = f.opcode;
  raw_message_sha256 = L.sha256 bytes;
  first_observation = f.first;
  last_observation = clock;
}

module _ (L : Library) (P : Limits) where
  -- A message whose last frame has come, counted already: its marker is kept where there is room.
  unfoldable pub keep_marker : Tracker → Fragment → List ℕ → Clock → Tracker × Result Bool
  keep_marker t f bytes clock =
      if length t.pending == P.max_pending
      then (
        record t {
          overflow = some (record {
            generation_before = t.generation;
            last_retained = t.message_sequence - 1;
            first_unretained = t.message_sequence;
            observation = clock;
          });
          disabled_reason = some pending_marker_budget;
        },
        ok false,
      )
      else (record t { pending = t.pending ++ marker_of L t f bytes clock ∷ [] }, ok true)

  -- A draining tracker only counts the message. A full queue drops it before its hash is read.
  unfoldable pub complete : Tracker → Fragment → Option (List ℕ) → Clock → Tracker × Result Bool
  unfolding keep_marker
  complete t f (some bytes) clock =
      if is_draining t.disabled_reason then (t, ok false) else keep_marker t f bytes clock
  complete t f none clock =
      if is_draining t.disabled_reason
      then (t, ok false)
      else if length t.pending == P.max_pending
      then keep_marker t f [] clock
      else (t, err type_error)

  -- The frame's bytes join the fragment `f`.
  unfoldable pub extend : Tracker → Fragment → Frame → Clock → Tracker × Result Bool
  unfolding complete
  extend t f frame clock =
      let g = grow f frame in
      if ltb P.max_bytes g.bytes || ltb P.max_fragments g.fragments
      then (disable t message_telemetry_budget, ok false)
      else if not frame.final
      then (record t { fragment = some g }, ok true)
      else if leb P.max_messages t.message_sequence
      then (disable t occurrence_counter_budget, ok false)
      else complete (record t { message_sequence = t.message_sequence + 1; fragment = none }) g
          g.digest clock

  -- A data frame: it starts a message, or it goes on with the one that was started.
  unfoldable pub data_frame : Tracker → Option Fragment → Frame → Clock → Tracker × Result Bool
  unfolding extend
  data_frame t none frame clock =
      if frame.opcode == 1 || frame.opcode == 2
      then extend t (start_of t frame clock) frame clock
      else (disable t unexpected_continuation_or_opcode, ok false)
  data_frame t (some f) frame clock =
      if frame.opcode == 1 || frame.opcode == 2
      then (disable t interleaved_data_messages, ok false)
      else if frame.opcode == 0
      then extend t f frame clock
      else (disable t unexpected_continuation_or_opcode, ok false)

  unfoldable pub any_frame : Tracker → Frame → Clock → Tracker × Result Bool
  unfolding data_frame
  any_frame t frame clock =
      if frame.opcode == 8 || frame.opcode == 9 || frame.opcode == 10
      then (if not frame.final || ltb 125 (length frame.data_bytes)
          then (disable t invalid_control_frame, ok false)
          else (t, ok true))
      else data_frame t t.fragment frame clock

  -- A frame with a valid clock; `none` is metadata of a wrong kind.
  unfoldable pub count_frame : Tracker → Option Frame → Clock → Tracker × Result Bool
  unfolding any_frame
  count_frame t none clock =
      if is_before clock.before t.last_receiver_after
      then (disable t receiver_monotonic_regression, ok false)
      else (disable t invalid_frame_metadata, ok false)
  count_frame t (some frame) clock =
      if is_before clock.before t.last_receiver_after
      then (disable t receiver_monotonic_regression, ok false)
      else (let seen = record t { last_receiver_after = some clock.after } in
          if leb P.max_frames t.frame_sequence
          then (disable seen occurrence_counter_budget, ok false)
          else any_frame (record seen { frame_sequence = t.frame_sequence + 1 }) frame clock)

  abbrev pub with_clock : Tracker → Option Frame → Result Clock → Tracker × Result Bool
  with_clock t frame (err e) = (disable t invalid_receiver_clock, err e)
  with_clock t frame (ok clock) = count_frame t frame clock

  unfoldable pub observe_frame : Tracker → ℕ → Option Frame → Stamp → Tracker × Result Bool
  unfolding count_frame
  observe_frame t connection frame stamp =
      if is_stale t connection
      then (t, err contract_error)
      else if not (is_going t.disabled_reason)
      then (t, ok false)
      else with_clock t frame (validate_stamp L stamp t.domain)

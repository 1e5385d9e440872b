-- ===== src/Tests/Receiving.antt =====
-- execution_truth/receive_recovery.py: a message of one frame, observed and delivered.
use quantconnect.Prelude.{ℕ, true, none, some, List, [], ◌∷◌, ◌≡◌, refl, Ensures, Returns}
use quantconnect.Receive.{
  begin_connection, validate_stamp, validate_diagnostics, elapsed_bounds, Library, policy_v3, Stamp,
  Tracker, Diagnostics, init_tracker,
}
use quantconnect.Receive.Frames.{observe_frame, Frame}
use quantconnect.Receive.Delivery.{text, deliver}
use quantconnect.Receive.Orderly.{IsOrderly}
use quantconnect.Receive.Binding.{IsBound, deliver-IsBound}
use quantconnect.Receive.Events.{
  Event, begins, observed, delivered, handle_all, handle_all-IsOrderly,
}

-- A library whose hash has one value, and for which every text is a time.
abbrev library : Library
library = record { is_utc = λ s. true; sha256 = λ bytes. "0" }

abbrev stamp : ℕ → Stamp
stamp reading = record {
  schema_version = "qcrl.bracketed_clock.v1";
  clock_domain = "host";
  utc = "2024-01-01T00:00:00Z";
  monotonic_before = some reading;
  monotonic_after = some reading;
}

abbrev hello : Frame
hello = record { opcode = 1; final = true; data_bytes = 104 ∷ 105 ∷ [] }

abbrev unmeasured : Diagnostics
unmeasured = record {
  library_queue_depth = none;
  library_backpressure_active = none;
  reader_loop_stall = none;
}

abbrev events : List Event
events =
    begins 1
    ∷ observed 1 (some hello) (stamp 10)
    ∷ delivered 1 (text (some (104 ∷ 105 ∷ []))) (stamp 20) unmeasured
    ∷ []

handle_all-IsOrderly_example :
    IsOrderly policy_v3 (handle_all library policy_v3 (init_tracker "host") events)
handle_all-IsOrderly_example = handle_all-IsOrderly library policy_v3 "host" events

-- The tracker once the message is observed.
abbrev waiting : Tracker
waiting =
    handle_all library policy_v3 (init_tracker "host")
      (begins 1 ∷ observed 1 (some hello) (stamp 10) ∷ [])

deliver-IsBound_example :
    Ensures
      (λ r.
        IsBound library policy_v3
          (text (some (104 ∷ 105 ∷ [])))
          r.delivered_messages
          r.receive_marker)
      (deliver library policy_v3 waiting 1 (text (some (104 ∷ 105 ∷ []))) (stamp 20) unmeasured).1
deliver-IsBound_example =
    deliver-IsBound library policy_v3 waiting 1 (text (some (104 ∷ 105 ∷ []))) (stamp 20) unmeasured

-- The delivery gets the marker of the message.
deliver_marked :
    Returns
      (λ r. r.unavailable_reason ≡ none)
      (deliver library policy_v3 waiting 1 (text (some (104 ∷ 105 ∷ []))) (stamp 20) unmeasured).1
unfolding deliver begin_connection observe_frame validate_stamp validate_diagnostics elapsed_bounds
deliver_marked = refl

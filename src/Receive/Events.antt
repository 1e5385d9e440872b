-- ===== src/Receive/Events.antt =====
-- execution_truth/receive_recovery.py: every order of the tracker's calls. A lock makes each call one
-- step, so the two threads' calls are one sequence.
use quantconnect.Prelude.{
  ℕ, ◌+◌, ◌==◌, not, refl, inl, inr, Option, List, [], ◌∷◌, String, Result, ok, err, arith,
  Bool-cases,
}
use quantconnect.Receive.{
  Library, Limits, Tracker, Stamp, Diagnostics, Reset, init_tracker, begin_connection,
}
use quantconnect.Receive.Frames.{Frame, observe_frame}
use quantconnect.Receive.Delivery.{Message, deliver}
use quantconnect.Receive.Orderly.{IsOrderly}
use quantconnect.Receive.Observing.{observe_frame-IsOrderly}
use quantconnect.Receive.Matching.{deliver-IsOrderly}

pub data Event : Type 0 where
  begins : ℕ → Event
  observed : ℕ → Option Frame → Stamp → Event
  delivered : ℕ → Message → Stamp → Diagnostics → Event

abbrev pub after_begin : Tracker → Result (Tracker × Reset) → Tracker
after_begin t (ok (t', reset)) = t'
after_begin t (err e) = t

module _ (L : Library) (P : Limits) where
  -- The tracker after a call, whatever the call returned or raised.
  abbrev pub handle : Tracker → Event → Tracker
  handle t (begins connection) = after_begin t (begin_connection t connection)
  handle t (observed connection frame stamp) = (observe_frame L P t connection frame stamp).0
  handle t (delivered connection message stamp d) = (deliver L P t connection message stamp d).0

  abbrev pub handle_all : Tracker → List Event → Tracker
  handle_all t [] = t
  handle_all t (e ∷ es) = handle_all (handle t e) es

  begin_connection-IsOrderly :
      (t : Tracker) (connection : ℕ)
      → IsOrderly P t
      → IsOrderly P (after_begin t (begin_connection t connection))
  unfolding begin_connection
  begin_connection-IsOrderly t connection h =
      elim (Bool-cases (not (connection == t.connection + 1))) [
        | inl wrong ↦ rw wrong h
        | inr next ↦ rw next (record {
          depth = ground arith;
          frames = ground arith;
          messages = ground arith;
          delivered = ground arith;
          queued = tt;
          aligned = λ e. omega arith;
          hashed = λ e. tt;
          stopped = λ e. refl;
        })
      ]

  handle-IsOrderly : (t : Tracker) (e : Event) → IsOrderly P t → IsOrderly P (handle t e)
  handle-IsOrderly t (begins connection) h = begin_connection-IsOrderly t connection h
  handle-IsOrderly t (observed connection frame stamp) h =
      observe_frame-IsOrderly L P t connection frame stamp h
  handle-IsOrderly t (delivered connection message stamp d) h =
      deliver-IsOrderly L P t connection message stamp d h

  handle_all-IsOrderly' :
      (t : Tracker) (es : List Event) → IsOrderly P t → IsOrderly P (handle_all t es)
  handle_all-IsOrderly' t [] h = h
  handle_all-IsOrderly' t (e ∷ es) h =
      handle_all-IsOrderly' (handle t e) es (handle-IsOrderly t e h)

  -- After every sequence of calls on a new tracker, those that raise included, the queue and the
  -- counters are within the limits, the queue holds the markers of messages one after the other, from the one
  -- that follows the delivered ones, and an aligned tracker has one for every observed message that is
  -- not delivered. A tracker that has stopped holds none.
  pub handle_all-IsOrderly :
      (domain : String) (es : List Event) → IsOrderly P (handle_all (init_tracker domain) es)
  handle_all-IsOrderly domain es = handle_all-IsOrderly' (init_tracker domain) es (record {
    depth = ground arith;
    frames = ground arith;
    messages = ground arith;
    delivered = ground arith;
    queued = tt;
    aligned = λ e. omega arith;
    hashed = λ e. tt;
    stopped = λ e. refl;
  })

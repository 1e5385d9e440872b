-- ===== src/Receive/Observing.antt =====
-- execution_truth/receive_recovery.py: what an observed frame keeps of an orderly tracker.
use quantconnect.Prelude.{
  ℕ, ◌+◌, ◌<◌, ltb, leb, ◌==◌, ◌≡◌, ◌≢◌, refl, true, not, ◌||◌, Option, none, some, List, [], ◌∷◌,
  ◌++◌, length, length-append, arith, Bool-cases, inl, inr, Result, ok, err,
}
use quantconnect.Receive.{
  message_telemetry_budget, occurrence_counter_budget, Library, Limits, Clock, Fragment, Tracker,
  is_draining, is_going, is_before, is_stale, Stamp, validate_stamp,
}
use quantconnect.Receive.Frames.{
  Frame, keep_marker, complete, grow, feed, extend, start_of, marker_of, data_frame, any_frame,
  count_frame, with_clock, observe_frame,
}
use quantconnect.Receive.Orderly.{
  AreFrom-append_one, IsHashed, IsOrderly, going_cases, stopped_going, draining_some,
  disable-IsOrderly,
}

module _ (L : Library) (P : Limits) where
  -- A message more, while none of its marker is kept.
  abbrev counted : Tracker → Tracker
  counted t = record t { message_sequence = t.message_sequence + 1; fragment = none }

  uncounted-IsOrderly :
      (t : Tracker)
      → IsOrderly P t
      → t.message_sequence < P.max_messages
      → t.disabled_reason ≢ none
      → IsOrderly P (counted t)
  uncounted-IsOrderly t h room off = record {
    depth = h.depth;
    frames = h.frames;
    messages = ground arith;
    delivered = h.delivered;
    queued = h.queued;
    aligned = λ e. absurd (off e);
    hashed = λ e. tt;
    stopped = h.stopped;
  }

  keep_marker-IsOrderly :
      (t : Tracker) (f : Fragment) (bytes : List ℕ) (clock : Clock)
      → IsOrderly P t
      → t.message_sequence < P.max_messages
      → t.disabled_reason ≡ none
      → IsOrderly P (keep_marker L P (counted t) f bytes clock).0
  unfolding keep_marker
  keep_marker-IsOrderly t f bytes clock h room on =
      let marker = marker_of L (counted t) f bytes clock in
      elim (Bool-cases (length t.pending == P.max_pending)) [
        | inl full ↦ rw full (record {
          depth = h.depth;
          frames = h.frames;
          messages = ground arith;
          delivered = h.delivered;
          queued = h.queued;
          aligned = λ e. cc;
          hashed = λ e. cc;
          stopped = λ e. cc;
        })
        | inr fits ↦
            let within : length t.pending ≢ P.max_pending = ground arith in
            rw fits (record {
              depth =
                  let more : length (t.pending ++ marker ∷ []) ≡ length t.pending + 1 =
                    length-append t.pending (marker ∷ []) in
                  omega (arith, more, h.depth, within);
              frames = h.frames;
              messages = ground arith;
              delivered = h.delivered;
              queued =
                  AreFrom-append_one t.delivered_messages t.pending _ h.queued
                    (omega (arith, h.aligned on));
              aligned = λ e. omega (arith, h.aligned on, length-append t.pending (marker ∷ []));
              hashed = λ e. tt;
              stopped = λ e. absurd (stopped_going on e);
            })
      ]

  complete-IsOrderly :
      (t : Tracker) (f : Fragment) (digest : Option (List ℕ)) (clock : Clock)
      → IsOrderly P t
      → t.message_sequence < P.max_messages
      → is_going t.disabled_reason ≡ true
      → (t.disabled_reason ≡ none → digest ≢ none)
      → IsOrderly P (complete L P (counted t) f digest clock).0
  unfolding complete
  complete-IsOrderly t f (some bytes) clock h room going has =
      elim (Bool-cases (is_draining t.disabled_reason)) [
        | inl draining ↦
            rw draining (uncounted-IsOrderly t h room (draining_some t.disabled_reason draining))
        | inr on ↦
            rw on (
              keep_marker-IsOrderly t f bytes clock h room (going_cases t.disabled_reason going on))
      ]
  complete-IsOrderly t f none clock h room going has =
      elim (Bool-cases (is_draining t.disabled_reason)) [
        | inl draining ↦
            rw draining (uncounted-IsOrderly t h room (draining_some t.disabled_reason draining))
        | inr on ↦ absurd (has (going_cases t.disabled_reason going on) refl)
      ]

  feed_some : (digest : Option (List ℕ)) (more : List ℕ) → digest ≢ none → feed digest more ≢ none
  feed_some none more h = absurd (h refl)
  feed_some (some bytes) more h = λ e. cc

  extend-IsOrderly :
      (t : Tracker) (f : Fragment) (frame : Frame) (clock : Clock)
      → IsOrderly P t
      → is_going t.disabled_reason ≡ true
      → (t.disabled_reason ≡ none → f.digest ≢ none)
      → IsOrderly P (extend L P t f frame clock).0
  unfolding extend
  extend-IsOrderly t f frame clock h going has =
      let g = grow f frame in
      let hashed : t.disabled_reason ≡ none → g.digest ≢ none =
        λ e. feed_some f.digest frame.data_bytes (has e) in
      elim (Bool-cases (ltb P.max_bytes g.bytes || ltb P.max_fragments g.fragments)) [
        | inl over ↦ rw over (disable-IsOrderly P t message_telemetry_budget h)
        | inr within ↦ elim (Bool-cases frame.final) [
          | inl last ↦ elim (Bool-cases (leb P.max_messages t.message_sequence)) [
            | inl over ↦ rw (within, last, over) (disable-IsOrderly P t occurrence_counter_budget h)
            | inr room ↦
                rw (within, last, room)
                  (complete-IsOrderly t g g.digest clock h (ground arith) going hashed)
          ]
          | inr more ↦
              rw (within, more)
                (record {
                  depth = h.depth;
                  frames = h.frames;
                  messages = h.messages;
                  delivered = h.delivered;
                  queued = h.queued;
                  aligned = h.aligned;
                  hashed = hashed;
                  stopped = h.stopped;
                })
        ]
      ]

  start_hashed :
      (t : Tracker) (frame : Frame) (clock : Clock)
      → t.disabled_reason ≡ none
      → (start_of t frame clock).digest ≢ none
  start_hashed t frame clock on = rw on (λ e. cc)

  data_frame-IsOrderly :
      (t : Tracker) (fragment : Option Fragment) (frame : Frame) (clock : Clock)
      → IsOrderly P t
      → is_going t.disabled_reason ≡ true
      → (t.disabled_reason ≡ none → IsHashed fragment)
      → IsOrderly P (data_frame L P t fragment frame clock).0
  unfolding data_frame
  data_frame-IsOrderly t none frame clock h going has =
      elim (Bool-cases (frame.opcode == 1 || frame.opcode == 2)) [
        | inl first ↦ rw first (
            extend-IsOrderly t (start_of t frame clock) frame clock h going
              (start_hashed t frame clock))
        | inr bad ↦ rw bad (disable-IsOrderly P t _ h)
      ]
  data_frame-IsOrderly t (some f) frame clock h going has =
      elim (Bool-cases (frame.opcode == 1 || frame.opcode == 2)) [
        | inl first ↦ rw first (disable-IsOrderly P t _ h)
        | inr next ↦ elim (Bool-cases (frame.opcode == 0)) [
          | inl more ↦ rw (next, more) (extend-IsOrderly t f frame clock h going has)
          | inr bad ↦ rw (next, bad) (disable-IsOrderly P t _ h)
        ]
      ]

  any_frame-IsOrderly :
      (t : Tracker) (frame : Frame) (clock : Clock)
      → IsOrderly P t
      → is_going t.disabled_reason ≡ true
      → IsOrderly P (any_frame L P t frame clock).0
  unfolding any_frame
  any_frame-IsOrderly t frame clock h going =
      elim (Bool-cases (frame.opcode == 8 || frame.opcode == 9 || frame.opcode == 10)) [
        | inl control ↦ elim (Bool-cases (not frame.final || ltb 125 (length frame.data_bytes))) [
          | inl bad ↦ rw (control, bad) (disable-IsOrderly P t _ h)
          | inr fine ↦ rw (control, fine) h
        ]
        | inr other ↦ rw other (data_frame-IsOrderly t t.fragment frame clock h going h.hashed)
      ]

  count_frame-IsOrderly :
      (t : Tracker) (frame : Option Frame) (clock : Clock)
      → IsOrderly P t
      → is_going t.disabled_reason ≡ true
      → IsOrderly P (count_frame L P t frame clock).0
  unfolding count_frame
  count_frame-IsOrderly t none clock h going =
      elim (Bool-cases (is_before clock.before t.last_receiver_after)) [
        | inl back ↦ rw back (disable-IsOrderly P t _ h)
        | inr on ↦ rw on (disable-IsOrderly P t _ h)
      ]
  count_frame-IsOrderly t (some frame) clock h going =
      elim (Bool-cases (is_before clock.before t.last_receiver_after)) [
        | inl back ↦ rw back (disable-IsOrderly P t _ h)
        | inr on ↦
            let seen = record t { last_receiver_after = some clock.after } in
            elim (Bool-cases (leb P.max_frames t.frame_sequence)) [
              | inl over ↦
                  rw (on, over)
                    (disable-IsOrderly P seen _ (record {
                      depth = h.depth;
                      frames = h.frames;
                      messages = h.messages;
                      delivered = h.delivered;
                      queued = h.queued;
                      aligned = h.aligned;
                      hashed = h.hashed;
                      stopped = h.stopped;
                    }))
              | inr room ↦
                  rw (on, room)
                    (any_frame-IsOrderly (record seen { frame_sequence = t.frame_sequence + 1 })
                      frame clock
                      (record {
                        depth = h.depth;
                        frames = ground arith;
                        messages = h.messages;
                        delivered = h.delivered;
                        queued = h.queued;
                        aligned = h.aligned;
                        hashed = h.hashed;
                        stopped = h.stopped;
                      })
                      going)
            ]
      ]

  with_clock-IsOrderly :
      (t : Tracker) (frame : Option Frame) (r : Result Clock)
      → IsOrderly P t
      → is_going t.disabled_reason ≡ true
      → IsOrderly P (with_clock L P t frame r).0
  with_clock-IsOrderly t frame (err e) h going = disable-IsOrderly P t _ h
  with_clock-IsOrderly t frame (ok clock) h going = count_frame-IsOrderly t frame clock h going

  -- Whatever frame is observed, and whatever its clock and metadata are, the tracker stays orderly.
  pub observe_frame-IsOrderly :
      (t : Tracker) (connection : ℕ) (frame : Option Frame) (stamp : Stamp)
      → IsOrderly P t
      → IsOrderly P (observe_frame L P t connection frame stamp).0
  unfolding observe_frame
  observe_frame-IsOrderly t connection frame stamp h = elim (Bool-cases (is_stale t connection)) [
    | inl stale ↦ rw stale h
    | inr fresh ↦ elim (Bool-cases (is_going t.disabled_reason)) [
      | inl going ↦
          rw (fresh, going) (with_clock-IsOrderly t frame (validate_stamp L stamp t.domain) h going)
      | inr off ↦ rw (fresh, off) h
    ]
  ]

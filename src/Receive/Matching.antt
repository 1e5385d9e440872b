-- ===== src/Receive/Matching.antt =====
-- execution_truth/receive_recovery.py: what a delivery keeps, and which marker it is given.
use quantconnect.Prelude.{
  ℕ, suc, ◌+◌, ◌<◌, ltb, leb, ◌==◌, ◌≡◌, refl, true, false, not, ◌&&◌, Option, none, some, is_some,
  List, [], ◌∷◌, length, arith, Bool-cases, inl, inr, Result, ok, err, Ensures,
}
use quantconnect.Receive.{
  Disabled, occurrence_counter_budget, Library, Limits, Clock, Marker, Fragment, Tracker, disable,
  is_draining, is_going, is_before, is_stale, Stamp, validate_stamp, Diagnostics, Interval,
  validate_diagnostics,
}
use quantconnect.Receive.Orderly.{
  AreFrom, stopped_going, draining_some, IsOrderly, disable-IsOrderly,
}
use quantconnect.Receive.Delivery.{
  Message, count_delivery, matches, take_marker, match_marker, rearm, is_empty, recover, intervals,
  report, after_recovery, after_match, deliver_at, deliver_with, deliver,
}

-- A delivered message, counted.
abbrev step : Tracker → Tracker
step t = record t { delivered_messages = t.delivered_messages + 1 }

is_empty_nil : (ms : List Marker) → is_empty ms ≡ true → ms ≡ []
is_empty_nil [] h = refl
is_empty_nil (m ∷ ms) h = cc

not_some : (f : Option Fragment) → is_some f ≡ false → f ≡ none
not_some none h = refl
not_some (some f) h = cc

module _ (L : Library) (P : Limits) where
  disable_step :
      (t : Tracker) (reason : Disabled)
      → IsOrderly P t
      → t.delivered_messages < P.max_messages
      → IsOrderly P (disable (step t) reason)
  disable_step t reason h room = record {
    depth = ground arith;
    frames = h.frames;
    messages = h.messages;
    delivered = ground arith;
    queued = tt;
    aligned = λ e. cc;
    hashed = λ e. cc;
    stopped = λ e. refl;
  }

  take_marker-IsOrderly :
      (t : Tracker) (pending : List Marker) (message : Message) (clock : Clock)
      → IsOrderly P t
      → t.delivered_messages < P.max_messages
      → t.pending ≡ pending
      → AreFrom t.delivered_messages pending
      → IsOrderly P (take_marker L P (step t) pending message clock).0
  unfolding take_marker
  take_marker-IsOrderly t [] message clock h room e from =
      elim (Bool-cases (is_draining t.disabled_reason)) [
        | inl draining ↦ rw draining (record {
          depth = h.depth;
          frames = h.frames;
          messages = h.messages;
          delivered = ground arith;
          queued = rw e tt;
          aligned = λ on. absurd (draining_some t.disabled_reason draining on);
          hashed = h.hashed;
          stopped = h.stopped;
        })
        | inr on ↦ rw on (disable_step t _ h room)
      ]
  take_marker-IsOrderly t (m ∷ rest) message clock h room e from =
      elim (Bool-cases (matches L P (t.delivered_messages + 1) m message)) [
        | inl same ↦ elim (Bool-cases (ltb clock.after m.last_observation.before)) [
          | inl early ↦ rw (same, early) (disable_step t _ h room)
          | inr fine ↦
              let whole : length t.pending ≡ suc (length rest) = rw e refl in
              rw (same, fine)
                (record {
                  depth = omega (arith, whole, h.depth);
                  frames = h.frames;
                  messages = h.messages;
                  delivered = ground arith;
                  queued = from.1;
                  aligned = λ on. omega (arith, h.aligned on, whole);
                  hashed = h.hashed;
                  stopped = λ off. absurd (let nil = h.stopped off in cc);
                })
        ]
        | inr differs ↦ rw differs (disable_step t _ h room)
      ]

  match_marker-IsOrderly :
      (t : Tracker) (message : Message) (clock : Clock)
      → IsOrderly P t
      → IsOrderly P (match_marker L P (count_delivery L P t) message clock).0
  unfolding match_marker count_delivery
  match_marker-IsOrderly t message clock h =
      elim (Bool-cases (ltb t.delivered_messages P.max_messages)) [
        | inr over ↦ rw over (disable-IsOrderly P t occurrence_counter_budget h)
        | inl more ↦
            let room : t.delivered_messages < P.max_messages = ground arith in
            elim (Bool-cases (is_going t.disabled_reason)) [
              | inl going ↦ elim (Bool-cases (ltb t.message_sequence (t.delivered_messages + 1))) [
                | inl ahead ↦ rw (more, going, ahead) (disable_step t _ h room)
                | inr behind ↦
                    rw (more, going, behind)
                      (take_marker-IsOrderly t t.pending message clock h room refl h.queued)
              ]
              | inr off ↦
                  rw (more, off)
                    (record {
                      depth = h.depth;
                      frames = h.frames;
                      messages = h.messages;
                      delivered = ground arith;
                      queued = rw (h.stopped off) tt;
                      aligned = λ on. absurd (stopped_going on off);
                      hashed = h.hashed;
                      stopped = h.stopped;
                    })
            ]
      ]

  rearm-IsOrderly :
      (t : Tracker) (clock : Clock) (last : Option ℕ)
      → IsOrderly P t
      → t.pending ≡ []
      → t.fragment ≡ none
      → t.message_sequence ≡ t.delivered_messages
      → Ensures (IsOrderly P) (rearm t clock last)
  rearm-IsOrderly t clock none h empty whole same = tt
  rearm-IsOrderly t clock (some last) h empty whole same =
      elim (Bool-cases (leb last clock.before)) [
        | inl after ↦ rw after (record {
          depth = h.depth;
          frames = h.frames;
          messages = h.messages;
          delivered = h.delivered;
          queued = h.queued;
          aligned = λ e. rw empty (omega (arith, same));
          hashed = λ e. rw whole tt;
          stopped = λ e. empty;
        })
        | inr early ↦ rw early h
      ]

  recover-IsOrderly :
      (t : Tracker) (clock : Clock) → IsOrderly P t → Ensures (IsOrderly P) (recover t clock)
  unfolding recover
  recover-IsOrderly t clock h =
      elim (Bool-cases (
        is_draining t.disabled_reason
        && is_empty t.pending
        && not (is_some t.fragment)
        && t.message_sequence == t.delivered_messages)) [
          | inl drained ↦ rw drained (
              rearm-IsOrderly t clock t.last_receiver_after h
                (is_empty_nil t.pending (ground arith)) (not_some t.fragment (ground arith))
                (ground arith))
          | inr other ↦ rw other h
        ]

  report-IsOrderly :
      (t : Tracker) (marker : Option Marker) (reason : Option Disabled) (d : Diagnostics)
      (clock : Clock) (r : Result (Option Interval × Option Interval))
      → IsOrderly P t
      → IsOrderly P (report t marker reason d clock r).0
  unfolding report
  report-IsOrderly t marker reason d clock (err e) h = h
  report-IsOrderly t marker reason d clock (ok (first, last)) h = record {
    depth = h.depth;
    frames = h.frames;
    messages = h.messages;
    delivered = h.delivered;
    queued = h.queued;
    aligned = h.aligned;
    hashed = h.hashed;
    stopped = h.stopped;
  }

  after_match-IsOrderly :
      (d : Diagnostics) (clock : Clock) (t : Tracker) (r : Result (Option Marker))
      → IsOrderly P t
      → IsOrderly P (after_match d clock (t, r)).0
  after_match-IsOrderly d clock t (err e) h = h
  after_match-IsOrderly d clock t (ok marker) h =
      recovered (recover t clock) (recover-IsOrderly t clock h)
    where
      recovered :
          (r : Result Tracker)
          → Ensures (IsOrderly P) r
          → IsOrderly P (after_recovery t marker d clock r).0
      recovered (err e) k = h
      recovered (ok t') k = report-IsOrderly t' marker _ d clock (intervals marker clock) k

  deliver_at-IsOrderly :
      (t : Tracker) (message : Message) (d : Diagnostics) (clock : Clock)
      → IsOrderly P t
      → IsOrderly P (deliver_at L P t message d clock).0
  unfolding deliver_at
  deliver_at-IsOrderly t message d clock h =
      let out = match_marker L P (count_delivery L P t) message clock in
      elim (Bool-cases (is_before clock.before t.last_delivery_after)) [
        | inl back ↦ rw back (disable-IsOrderly P t _ h)
        | inr on ↦
            rw on
              (after_match-IsOrderly d clock out.0 out.1 (match_marker-IsOrderly t message clock h))
      ]

  deliver_with-IsOrderly :
      (t : Tracker) (message : Message) (d : Diagnostics) (checked : Result (Unit {0}))
      (clock : Result Clock)
      → IsOrderly P t
      → IsOrderly P (deliver_with L P t message d checked clock).0
  deliver_with-IsOrderly t message d (err e) clock h = h
  deliver_with-IsOrderly t message d (ok u) (err e) h = disable-IsOrderly P t _ h
  deliver_with-IsOrderly t message d (ok u) (ok clock) h = deliver_at-IsOrderly t message d clock h

  -- Whatever is delivered, with whatever clock and measurements, the tracker stays orderly.
  pub deliver-IsOrderly :
      (t : Tracker) (connection : ℕ) (message : Message) (stamp : Stamp) (d : Diagnostics)
      → IsOrderly P t
      → IsOrderly P (deliver L P t connection message stamp d).0
  unfolding deliver
  deliver-IsOrderly t connection message stamp d h = elim (Bool-cases (is_stale t connection)) [
    | inl stale ↦ rw stale h
    | inr fresh ↦ rw fresh (
        deliver_with-IsOrderly t message d (validate_diagnostics d)
          (validate_stamp L stamp t.domain) h)
  ]

-- ===== src/Receive/Binding.antt =====
-- execution_truth/receive_recovery.py: the marker that a delivery is given.
use quantconnect.Prelude.{
  ℕ, ltb, leb, ◌==◌, ◌≡◌, refl, true, not, ◌&&◌, Option, none, some, is_some, List, [], ◌∷◌, arith,
  if◌then◌else◌, Bool-cases, inl, inr, Result, ok, err, Ensures,
}
use quantconnect.Receive.{
  Disabled, Library, Limits, Clock, Marker, Tracker, is_draining, is_going, is_before, is_stale,
  Stamp, validate_stamp, Diagnostics, Interval, validate_diagnostics,
}
use quantconnect.Receive.Delivery.{
  Message, raw_of, is_text, Delivered, count_delivery, raw_matches, matches, take_marker,
  match_marker, rearm, is_empty, recover, intervals, report, after_recovery, after_match,
  deliver_at, deliver_with, deliver,
}

module _ (L : Library) (P : Limits) where
  -- The marker of a delivery, if it has one, is that of the delivered occurrence, and it has the hash
  -- of the delivered bytes, which are within the limit.
  abbrev pub IsBound : Message → ℕ → Option Marker → Type 0
  IsBound message delivered none = Unit
  IsBound message delivered (some m) =
      (m.message_sequence ≡ delivered) × (raw_matches L P m (raw_of message) ≡ true)

  -- A delivery's tracker and what it matched agree.
  abbrev Bound : Message → Tracker × Result (Option Marker) → Type 0
  Bound message (t, r) = Ensures (IsBound message t.delivered_messages) r

  take_marker-Bound :
      (t : Tracker) (pending : List Marker) (message : Message) (clock : Clock)
      → Bound message (take_marker L P t pending message clock)
  unfolding take_marker matches
  take_marker-Bound t [] message clock = elim (Bool-cases (is_draining t.disabled_reason)) [
    | inl draining ↦ rw draining tt
    | inr on ↦ rw on tt
  ]
  take_marker-Bound t (m ∷ rest) message clock =
      elim (Bool-cases (
        m.message_sequence == t.delivered_messages
        && raw_matches L P m (raw_of message)
        && (if is_text message then m.opcode == 1 else not (m.opcode == 1)))) [
          | inl same ↦ elim (Bool-cases (ltb clock.after m.last_observation.before)) [
            | inl early ↦ rw (same, early) tt
            | inr fine ↦ rw (same, fine) (ground arith, ground arith)
          ]
          | inr differs ↦ rw differs tt
        ]

  match_marker-Bound :
      (t : Tracker) (message : Message) (clock : Clock)
      → Bound message (match_marker L P t message clock)
  unfolding match_marker
  match_marker-Bound t message clock = elim (Bool-cases (is_going t.disabled_reason)) [
    | inl going ↦ elim (Bool-cases (ltb t.message_sequence t.delivered_messages)) [
      | inl ahead ↦ rw (going, ahead) tt
      | inr behind ↦ rw (going, behind) (take_marker-Bound t t.pending message clock)
    ]
    | inr off ↦ rw off tt
  ]

  abbrev IsBoundRecord : Message → Delivered → Type 0
  IsBoundRecord message r = IsBound message r.delivered_messages r.receive_marker

  report_bound :
      (t : Tracker) (marker : Option Marker) (reason : Option Disabled) (d : Diagnostics)
      (clock : Clock) (r : Result (Option Interval × Option Interval)) (message : Message)
      → IsBound message t.delivered_messages marker
      → Ensures (IsBoundRecord message) (report t marker reason d clock r).1
  unfolding report
  report_bound t marker reason d clock (err e) message h = tt
  report_bound t marker reason d clock (ok (first, last)) message h = h

  rearm_delivered :
      (t : Tracker) (clock : Clock) (last : Option ℕ)
      → Ensures (λ t'. t'.delivered_messages ≡ t.delivered_messages) (rearm t clock last)
  rearm_delivered t clock none = tt
  rearm_delivered t clock (some last) = elim (Bool-cases (leb last clock.before)) [
    | inl after ↦ rw after refl
    | inr early ↦ rw early refl
  ]

  recover_delivered :
      (t : Tracker) (clock : Clock)
      → Ensures (λ t'. t'.delivered_messages ≡ t.delivered_messages) (recover t clock)
  unfolding recover
  recover_delivered t clock =
      elim (Bool-cases (
        is_draining t.disabled_reason
        && is_empty t.pending
        && not (is_some t.fragment)
        && t.message_sequence == t.delivered_messages)) [
          | inl drained ↦ rw drained (rearm_delivered t clock t.last_receiver_after)
          | inr other ↦ rw other refl
        ]

  after_match-Bound :
      (d : Diagnostics) (clock : Clock) (t : Tracker) (r : Result (Option Marker))
      (message : Message)
      → Bound message (t, r)
      → Ensures (IsBoundRecord message) (after_match d clock (t, r)).1
  after_match-Bound d clock t (err e) message h = tt
  after_match-Bound d clock t (ok marker) message h =
      recovered (recover t clock) (recover_delivered t clock)
    where
      recovered :
          (r : Result Tracker)
          → Ensures (λ t'. t'.delivered_messages ≡ t.delivered_messages) r
          → Ensures (IsBoundRecord message) (after_recovery t marker d clock r).1
      recovered (err e) k = tt
      recovered (ok t') k =
          report_bound t' marker _ d clock (intervals marker clock) message (rw k h)

  deliver_at_bound :
      (t : Tracker) (message : Message) (d : Diagnostics) (clock : Clock)
      → Ensures (IsBoundRecord message) (deliver_at L P t message d clock).1
  unfolding deliver_at
  deliver_at_bound t message d clock =
      let out = match_marker L P (count_delivery L P t) message clock in
      elim (Bool-cases (is_before clock.before t.last_delivery_after)) [
        | inl back ↦ rw back tt
        | inr on ↦ rw on (
            after_match-Bound d clock out.0 out.1 message
              (match_marker-Bound (count_delivery L P t) message clock))
      ]

  deliver_with_bound :
      (t : Tracker) (message : Message) (d : Diagnostics) (checked : Result (Unit {0}))
      (clock : Result Clock)
      → Ensures (IsBoundRecord message) (deliver_with L P t message d checked clock).1
  deliver_with_bound t message d (err e) clock = tt
  deliver_with_bound t message d (ok u) (err e) = tt
  deliver_with_bound t message d (ok u) (ok clock) = deliver_at_bound t message d clock

  -- Whatever the tracker's state is, a record with a receive marker has the marker of the very message
  -- it counts: the marker's number is the number of delivered messages, and its hash is that of the
  -- delivered bytes, which are within the message limit.
  pub deliver-IsBound :
      (t : Tracker) (connection : ℕ) (message : Message) (stamp : Stamp) (d : Diagnostics)
      → Ensures
          (λ r. IsBound message r.delivered_messages r.receive_marker)
          (deliver L P t connection message stamp d).1
  unfolding deliver
  deliver-IsBound t connection message stamp d = elim (Bool-cases (is_stale t connection)) [
    | inl stale ↦ rw stale tt
    | inr fresh ↦
        rw fresh (
          deliver_with_bound t message d (validate_diagnostics d) (validate_stamp L stamp t.domain))
  ]

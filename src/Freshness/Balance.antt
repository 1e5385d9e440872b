-- ===== src/Freshness/Balance.antt =====
-- execution_truth/connection_freshness.py: the counts and the transitions of a connection agree.
use quantconnect.Prelude.{
  ℕ, ◌+◌, ◌-◌, ◌%◌, ◌≤◌, ◌≡◌, refl, ap, sym, ◌∙◌, arith, min, ltb, leb, ◌==◌, Bool, true, false,
  not, ◌&&◌, Bool-cases, inl, inr, Option, none, some, List, [], ◌∷◌, String, length, length-append,
  length-take_last, any, is_empty, is_some,
}
use quantconnect.Watchdog.{is_data}
use quantconnect.Freshness.{
  DeliveryRecord, EventClass, Freshness, Observation, new_freshness, transition, TransitionKind,
  stale_flow_onset, stale_cleared_by_fresh_event, note_event, note_events, add_known, is_fresh,
  count_selected, clear_stale, begin_stale, note_flow, observe_json, observe_stamped,
  observe_message, pairs_of, is_early, emit,
}

-- Every selected event is counted once for what it was, no message lacks more stamps than there are
-- messages, the last eight transitions are kept, and the flow is stale when their number is odd.
pub record IsBalanced (f : Freshness) : Type 0 where
  pub events :
      f.counts.selected_events
      ≡ f.counts.invalid_timestamps + f.counts.negative_ages + f.counts.fresh_events
        + f.counts.stale_events
  pub stamps : f.counts.missing_stamps ≤ f.counts.messages
  pub kept : length f.transitions ≡ min 8 f.transition_count
  pub stale : is_some f.stale_since ≡ (f.transition_count % 2 == 1)
  pub sampled : f.samples ≤ 123

length-transition :
    (kind : TransitionKind) (stamp : ℕ) (f : Freshness)
    → length f.transitions ≡ min 8 f.transition_count
    → length (transition kind stamp f).transitions ≡ min 8 (f.transition_count + 1)
length-transition kind stamp f h =
    length-take_last 8 _ ∙ ap (min 8) (length-append f.transitions _) ∙ omega (arith, h)

module _ (r : DeliveryRecord) (stamp : ℕ) where
  note_event-IsBalanced :
      (f : Freshness) (cls : EventClass) (source : Option ℕ)
      → IsBalanced f
      → IsBalanced (note_event (record f { counts = count_selected f.counts }) r stamp cls source).0
  note_event-IsBalanced f cls none h = record {
    events = omega (arith, h.events);
    stamps = h.stamps;
    kept = h.kept;
    stale = h.stale;
    sampled = h.sampled;
  }
  note_event-IsBalanced f cls (some source) h = elim (Bool-cases (ltb stamp source)) [
    | inl early ↦ rw early (record {
      events = omega (arith, h.events);
      stamps = h.stamps;
      kept = h.kept;
      stale = h.stale;
      sampled = h.sampled;
    })
    | inr later ↦ elim (Bool-cases (is_fresh (stamp - source))) [
      | inl fresh ↦
          rw (later, fresh)
            (record {
              events = omega (arith, h.events);
              stamps = h.stamps;
              kept = h.kept;
              stale = h.stale;
              sampled = h.sampled;
            })
      | inr old ↦
          rw (later, old)
            (record {
              events = omega (arith, h.events);
              stamps = h.stamps;
              kept = h.kept;
              stale = h.stale;
              sampled = h.sampled;
            })
    ]
  ]

  note_events-IsBalanced :
      (f : Freshness) (events : List (EventClass × Option ℕ)) (ages : List ℕ)
      → IsBalanced f
      → IsBalanced (note_events f r stamp events ages).0
  unfolding note_events
  note_events-IsBalanced f [] ages h = h
  note_events-IsBalanced f ((cls, source) ∷ events) ages h =
      let out = note_event (record f { counts = count_selected f.counts }) r stamp cls source in
      elim (Bool-cases (cls.selected && is_data cls.event_type)) [
        | inl taken ↦ rw taken (
            note_events-IsBalanced out.0 events (add_known out.1 ages)
              (note_event-IsBalanced f cls source h))
        | inr passed ↦ rw passed (note_events-IsBalanced f events ages h)
      ]

clear_stale-IsBalanced :
    (since : Option ℕ) (stamp : ℕ) (f : Freshness)
    → f.stale_since ≡ since
    → IsBalanced f
    → IsBalanced (clear_stale since stamp f)
clear_stale-IsBalanced none stamp f e h = record {
  events = h.events;
  stamps = h.stamps;
  kept = h.kept;
  stale = sym (ap is_some e) ∙ h.stale;
  sampled = h.sampled;
}
clear_stale-IsBalanced (some since) stamp f e h =
    let odd : (f.transition_count % 2 == 1) ≡ true = sym h.stale ∙ ap is_some e in
    record {
      events = h.events;
      stamps = h.stamps;
      kept = length-transition stale_cleared_by_fresh_event stamp f h.kept;
      stale = ground (arith, odd);
      sampled = h.sampled;
    }

begin_stale-IsBalanced :
    (since : Option ℕ) (stamp : ℕ) (f : Freshness)
    → f.stale_since ≡ since
    → IsBalanced f
    → IsBalanced (begin_stale since stamp f)
begin_stale-IsBalanced none stamp f e h =
    let even : (f.transition_count % 2 == 1) ≡ false = sym h.stale ∙ ap is_some e in
    record {
      events = h.events;
      stamps = h.stamps;
      kept = length-transition stale_flow_onset stamp f h.kept;
      stale = ground (arith, even);
      sampled = h.sampled;
    }
begin_stale-IsBalanced (some since) stamp f e h = h

note_flow-IsBalanced :
    (f : Freshness) (stamp : ℕ) (ages : List ℕ) → IsBalanced f → IsBalanced (note_flow f stamp ages)
unfolding note_flow
note_flow-IsBalanced f stamp ages h = elim (Bool-cases (is_empty ages)) [
  | inl quiet ↦ rw quiet h
  | inr aged ↦ elim (Bool-cases (any is_fresh ages)) [
    | inl fresh ↦ rw (aged, fresh) (clear_stale-IsBalanced f.stale_since stamp f refl h)
    | inr old ↦ rw (aged, old) (begin_stale-IsBalanced f.stale_since stamp f refl h)
  ]
]

observe_json-IsBalanced :
    (f : Freshness) (o : Observation) (stamp : ℕ) (timestamps : Option (List (Option ℕ)))
    → IsBalanced f
    → IsBalanced (observe_json f o stamp timestamps).0
observe_json-IsBalanced f o stamp none h = h
observe_json-IsBalanced f o stamp (some timestamps) h =
    let out = note_events f o.record_of stamp (pairs_of o.classes timestamps) [] in
    elim (Bool-cases (length timestamps == length o.classes)) [
      | inl same ↦ rw same (
          note_flow-IsBalanced out.0 stamp out.1
            (note_events-IsBalanced o.record_of stamp f (pairs_of o.classes timestamps) [] h))
      | inr other ↦ rw other h
    ]

observe_stamped-IsBalanced :
    (f : Freshness) (o : Observation) (stamp : Option ℕ)
    → IsBalanced f
    → f.counts.missing_stamps + 1 ≤ f.counts.messages
    → IsBalanced (observe_stamped f o stamp).0
observe_stamped-IsBalanced f o none h more = record {
  events = h.events;
  stamps = more;
  kept = h.kept;
  stale = h.stale;
  sampled = h.sampled;
}
observe_stamped-IsBalanced f o (some stamp) h more =
    observe_json-IsBalanced f o stamp o.timestamps h

observe_message-IsBalanced :
    (f : Freshness) (o : Observation) → IsBalanced f → IsBalanced (observe_message f o).0
unfolding observe_message
observe_message-IsBalanced f o h =
    observe_stamped-IsBalanced
      (record f { counts = record f.counts { messages = f.counts.messages + 1 } }) o
      o.record_of.application_delivery
      (record {
        events = h.events;
        stamps = omega (arith, h.stamps);
        kept = h.kept;
        stale = h.stale;
        sampled = h.sampled;
      })
      (omega (arith, h.stamps))

emit-IsBalanced :
    (f : Freshness) (now : ℕ) (force : Bool) → IsBalanced f → IsBalanced (emit f now force).0
unfolding emit
emit-IsBalanced f now force h = elim (Bool-cases (not force && is_early f.last_sample now)) [
  | inl early ↦ rw early h
  | inr due ↦ elim (Bool-cases (leb 123 f.samples)) [
    | inl full ↦ rw (due, full) h
    | inr room ↦
        rw (due, room)
          (record {
            events = h.events;
            stamps = h.stamps;
            kept = h.kept;
            stale = h.stale;
            sampled = ground arith;
          })
  ]
]

-- What happens to a connection's diagnostics, whether or not a call raises.
pub data Happening : Type 0 where
  observes : Observation → Happening
  emits : ℕ → Bool → Happening

abbrev pub follow : Freshness → List Happening → Freshness
follow f [] = f
follow f (observes o ∷ rest) = follow (observe_message f o).0 rest
follow f (emits now force ∷ rest) = follow (emit f now force).0 rest

follow_from :
    (f : Freshness) (happenings : List Happening) → IsBalanced f → IsBalanced (follow f happenings)
follow_from f [] h = h
follow_from f (observes o ∷ rest) h =
    follow_from (observe_message f o).0 rest (observe_message-IsBalanced f o h)
follow_from f (emits now force ∷ rest) h =
    follow_from (emit f now force).0 rest (emit-IsBalanced f now force h)

-- After every sequence of messages and samples, raising ones included, each selected event is counted
-- once as invalid, negative, fresh or stale, the last eight transitions are kept, the flow is stale
-- exactly when the number of transitions is odd, and at most 123 samples were taken.
pub follow-IsBalanced :
    (assets : List String) (happenings : List Happening)
    → IsBalanced (follow (new_freshness assets) happenings)
unfolding new_freshness
follow-IsBalanced assets happenings = follow_from (new_freshness assets) happenings (record {
  events = refl;
  stamps = omega arith;
  kept = refl;
  stale = refl;
  sampled = omega arith;
})

-- ===== src/Watchdog/Silence.antt =====
-- execution_truth/stream_resilience.py: a silent stream is reported, and the bounds of a retry's delay.
use quantconnect.Prelude.{
  ℕ, zero, suc, ◌+◌, ◌-◌, ◌/◌, ◌^◌, ◌≤◌, ◌≡◌, refl, ap, ◌∙◌, arith, leb, true, false, not, ◌&&◌,
  Bool-cases, inl, inr, Option, none, some, is_some, List, [], ◌∷◌, Every, ◌⊎◌,
}
use quantconnect.Watchdog.{
  seconds, retry_ceiling, retry_delay, DataWatchdog, MarketEvent, other_type, reason, is_relevant,
  observe, observe_events, note_ages, same_set,
}

-- A message at a reading of the clock, with the time of its receipt.
pub record Message : Type 0 where
  pub events : Option (List MarketEvent)
  pub now : ℕ
  pub receipt : ℕ

abbrev pub observe_all : DataWatchdog → List Message → DataWatchdog
observe_all d [] = d
observe_all d (m ∷ messages) = observe_all (observe d m.events m.now m.receipt) messages

-- A message with no book and no price change of the selected market.
abbrev pub IsIrrelevant : Option (List MarketEvent) → Type 0
IsIrrelevant none = Unit
IsIrrelevant (some events) =
    Every (λ event. (event.selected ≡ false) ⊎ (event.event_type ≡ other_type)) events

irrelevant :
    (event : MarketEvent)
    → (event.selected ≡ false) ⊎ (event.event_type ≡ other_type)
    → is_relevant event ≡ false
irrelevant event (inl unselected) = rw unselected refl
irrelevant event (inr other) = rw other (ground arith)

observe_events-irrelevant :
    (d : DataWatchdog) (ages : List ℕ) (now receipt : ℕ) (events : List MarketEvent)
    → Every (λ event. (event.selected ≡ false) ⊎ (event.event_type ≡ other_type)) events
    → observe_events d ages now receipt events ≡ (d, ages)
observe_events-irrelevant d ages now receipt [] h = refl
observe_events-irrelevant d ages now receipt (event ∷ events) h =
    rw (irrelevant event h.0) (observe_events-irrelevant d ages now receipt events h.1)

observe-irrelevant :
    (d : DataWatchdog) (events : Option (List MarketEvent)) (now receipt : ℕ)
    → IsIrrelevant events
    → observe d events now receipt ≡ d
unfolding observe note_ages
observe-irrelevant d none now receipt h = refl
observe-irrelevant d (some events) now receipt h =
    rw (observe_events-irrelevant d [] now receipt events h) refl

observe_all-irrelevant :
    (d : DataWatchdog) (messages : List Message)
    → Every (λ m. IsIrrelevant m.events) messages
    → observe_all d messages ≡ d
observe_all-irrelevant d [] h = refl
observe_all-irrelevant d (m ∷ messages) h =
    ap (λ w. observe_all w messages) (observe-irrelevant d m.events m.now m.receipt h.0)
    ∙ observe_all-irrelevant d messages h.1

reason-silent :
    (d : DataWatchdog) (now : ℕ)
    → leb (seconds 30) (now - d.last_data) ≡ true
    → is_some (reason d now true) ≡ true
unfolding reason
reason-silent d now h =
    elim (Bool-cases (not (same_set d.books d.assets) && leb (seconds 10) (now - d.started))) [
      | inl early ↦ rw early refl
      | inr later ↦ rw (later, h) refl
    ]

-- While a stream is active, thirty seconds after the last data of the selected market the watchdog
-- gives a reason, whatever messages it saw in between
-- whose events are of other markets or neither books nor price changes.
pub observe_all-reason :
    (d : DataWatchdog) (messages : List Message) (now : ℕ)
    → Every (λ m. IsIrrelevant m.events) messages
    → d.last_data + 30000 ≤ now
    → is_some (reason (observe_all d messages) now true) ≡ true
observe_all-reason d messages now h late =
    ap (λ w. is_some (reason w now true)) (observe_all-irrelevant d messages h)
    ∙ reason-silent d now (ground arith)

one_le_pow : (n : ℕ) → 1 ≤ 2 ^ n
one_le_pow zero = omega arith
one_le_pow (suc n) = omega (arith, one_le_pow n)

-- With connections counted from one, the delay of every retry is at least one second and at most
-- eight, if the random number lies within the bounds that it is drawn from.
pub retry_delay-bounds :
    (uniform : ℕ → ℕ → ℕ) (connection : ℕ)
    → 1 ≤ connection
    → ((low high : ℕ) → low ≤ high → (low ≤ uniform low high) × (uniform low high ≤ high))
    → (seconds 1 ≤ retry_delay uniform connection) × (retry_delay uniform connection ≤ seconds 8)
unfolding retry_delay
retry_delay-bounds uniform zero counted lawful = absurd (omega (arith, counted))
retry_delay-bounds uniform (suc retries) counted lawful =
    let c = retry_ceiling (suc retries) in
    let grown = one_le_pow retries in
    let half : c / 2 ≤ c = omega arith in
    let drawn = lawful (c / 2) c half in (omega (arith, grown, drawn.0), omega (arith, drawn.1))

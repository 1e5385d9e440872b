-- ===== src/Lab/Engine/Payable.antt =====
-- main.py: the wagers of a run can be computed, if the powers of its multiplier up to `max_steps` can.
use quantconnect.Prelude.{
  ℕ, ◌≤◌, ◌⊎◌, ◌≡◌, refl, sym, subst, Bool, true, false, Bool-cases, inl, inr, String, str_eq,
  Option, some, arith, ok, Ensures,
}
use quantconnect.Num.{Num}
use quantconnect.Lab.Market.{Direction, Bar}
use quantconnect.Lab.Stake.{StakeModel, get_wager, create_stake}
use quantconnect.Lab.Risk.{RiskTracker, init_risk, can_place_wager, record_trade}
use quantconnect.Lab.Stats.{StatsTracker, MarketRegime}
use quantconnect.Lab.Engine.{Engine, place, decide}
use quantconnect.Lab.Engine.Bankroll.{IsStepped, place-IsStepped}
use quantconnect.Lab.Engine.Decision.{decide_keeps}

module _ {N : Num} where
  -- The stake model returns a wager at this loss step.
  abbrev pub Pays : StakeModel N → ℕ → Type 0
  Pays stake n = (wager : N.F) × (get_wager N stake n ≡ ok wager)

  -- Wagers at every loss step, or at those that a martingale may reach.
  abbrev pub IsPayable : StakeModel N → Bool → RiskTracker N → Type 0
  IsPayable stake martingale r =
      ((n : ℕ) → Pays stake n)
      ⊎ ((martingale ≡ true) × IsStepped r × ((n : ℕ) → n ≤ r.max_steps → Pays stake n))

  pub IsPayable-Pays :
      (stake : StakeModel N) (martingale : Bool) (r : RiskTracker N)
      → IsPayable stake martingale r
      → r.ruined ≡ false
      → Pays stake r.loss_step
  IsPayable-Pays stake martingale r (inl always) live = always r.loss_step
  IsPayable-Pays stake martingale r (inr within) live = within.2 r.loss_step (within.1.within live)

  record_trade-max_steps :
      (r : RiskTracker N) (won : Bool) (wager : N.F) (time : Option ℕ) (martingale : Bool)
      → (record_trade N r won wager time martingale).0.max_steps ≡ r.max_steps
  unfolding record_trade
  record_trade-max_steps r true wager time martingale = refl
  record_trade-max_steps r false wager time martingale = refl

  place-max_steps :
      (r : RiskTracker N) (s : StatsTracker N) (wager : N.F) (martingale : Bool) (bar : Bar N)
      (time : ℕ) (d : Direction) (regime : String) (market : MarketRegime)
      → (place N r s wager martingale bar time d regime market).0.max_steps ≡ r.max_steps
  unfolding place can_place_wager
  place-max_steps r s wager martingale bar time d regime market =
      elim (Bool-cases (N.lt r.bankroll wager)) [
        | inl short ↦ rw short refl
        | inr covers ↦ rw covers (record_trade-max_steps r _ wager (some time) martingale)
      ]

  place-IsPayable :
      (stake : StakeModel N) (martingale : Bool) (r : RiskTracker N) (s : StatsTracker N)
      (wager : N.F) (bar : Bar N) (time : ℕ) (d : Direction) (regime : String)
      (market : MarketRegime)
      → IsPayable stake martingale r
      → r.ruined ≡ false
      → IsPayable stake martingale (place N r s wager martingale bar time d regime market).0
  place-IsPayable stake martingale r s wager bar time d regime market (inl always) live = inl always
  place-IsPayable stake martingale r s wager bar time d regime market (inr within) live = inr (
    within.0,
    subst (λ b. IsStepped (place N r s wager b bar time d regime market).0) (sym within.0)
        (place-IsStepped r s wager bar time d regime market live within.1),
    λ n le.
        within.2 n
          (subst (λ k. n ≤ k) (place-max_steps r s wager martingale bar time d regime market) le),
  )

  pub decide-IsPayable :
      (e : Engine N) (bar : Bar N) (time : ℕ)
      → IsPayable e.stake_model e.is_martingale e.risk
      → e.risk.ruined ≡ false
      → (direction : Option Direction) (ready allowed : Bool) (telemetry : Option N.F)
        (regime : String) (market : MarketRegime) (out : RiskTracker N × StatsTracker N)
      → decide N e.risk e.stats e.stake_model e.is_martingale bar time direction ready allowed
          telemetry regime market
        ≡ ok out
      → IsPayable e.stake_model e.is_martingale out.0
  decide-IsPayable e bar time h live direction ready allowed telemetry regime market out made =
      decide_keeps (IsPayable e.stake_model e.is_martingale) e bar time
        (λ live s d regime market wager asked.
          place-IsPayable e.stake_model e.is_martingale e.risk s wager bar time d regime market h
            live)
        h live e.stats direction ready allowed telemetry regime market out made

module _ (N : Num) where
  pub create_stake-IsPayable :
      (mode : String) (base_wager multiplier bankroll : N.F) (max_steps : ℕ)
      → ((n : ℕ) → n ≤ max_steps → (factor : N.F) × (N.pow multiplier n ≡ some factor))
      → Ensures
          (λ stake. IsPayable stake (str_eq mode "martingale") (init_risk N bankroll max_steps))
          (create_stake N mode base_wager multiplier)
  unfolding create_stake init_risk get_wager
  create_stake-IsPayable mode base_wager multiplier bankroll max_steps powers =
      elim (Bool-cases (str_eq mode "flat")) [
        | inl is_flat ↦ rw is_flat (inl (λ n. (base_wager, refl)))
        | inr other ↦ elim (Bool-cases (str_eq mode "martingale")) [
          | inl doubles ↦
              rw (other, doubles)
                (inr (
                  refl,
                  record { within = λ live. omega arith },
                  λ n le. (N.mul base_wager (powers n le).0, rw (powers n le).1 refl),
                ))
          | inr neither ↦ rw (other, neither) tt
        ]
      ]

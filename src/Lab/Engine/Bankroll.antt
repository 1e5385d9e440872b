-- ===== src/Lab/Engine/Bankroll.antt =====
-- main.py: the bankroll over a run of the handler, and the depth of a martingale.
use quantconnect.Prelude.{
  ℕ, ◌≤◌, ◌≡◌, sym, subst, Bool, true, false, inl, inr, Option, some, String, arith, Bool-cases, ok,
}
use quantconnect.Num.{Num, IsOrdered}
use quantconnect.Num.Signs.{NonNeg}
use quantconnect.Lab.Market.{Direction, Bar}
use quantconnect.Lab.Stake.{get_wager}
use quantconnect.Lab.Risk.{RiskTracker, can_place_wager, record_trade}
use quantconnect.Lab.Risk.Money.{IsSolvent, record_trade-IsSolvent}
use quantconnect.Lab.Stats.{StatsTracker, MarketRegime}
use quantconnect.Lab.Engine.{Engine, has_won, place, on_bar}
use quantconnect.Lab.Engine.Decision.{on_bar_keeps}

module _ {N : Num} (laws : IsOrdered N) where
  refused-IsSolvent :
      (r : RiskTracker N) (wager : N.F) (time : Option ℕ)
      → IsSolvent laws r
      → IsSolvent laws (can_place_wager N r wager time).1
  unfolding can_place_wager
  refused-IsSolvent r wager time s = elim (Bool-cases (N.lt r.bankroll wager)) [
    | inl short ↦ rw short (ground (arith, s))
    | inr covers ↦ rw covers s
  ]

  place-IsSolvent :
      (r : RiskTracker N) (s : StatsTracker N) (wager : N.F) (martingale : Bool) (bar : Bar N)
      (time : ℕ) (d : Direction) (regime : String) (market : MarketRegime)
      → NonNeg N wager
      → IsSolvent laws r
      → IsSolvent laws (place N r s wager martingale bar time d regime market).0
  unfolding place
  place-IsSolvent r s wager martingale bar time d regime market positive h =
      elim (Bool-cases (can_place_wager N r wager (some time)).0) [
        | inl placed ↦ rw placed (
            record_trade-IsSolvent laws r (has_won N d bar) wager (some time) martingale h positive
              placed)
        | inr refused ↦ rw refused (refused-IsSolvent r wager (some time) h)
      ]

  -- Over numbers with the laws of `IsOrdered`, where the stake model never asks for a negative
  -- wager, and from such a state, a handled bar leaves the bankroll at
  -- zero or above, the peak no lower than it and than the initial bankroll, and the greatest
  -- drawdown no less than the present one, whatever the models answer and the prices are.
  pub on_bar-IsSolvent :
      (e : Engine N) (bar : Bar N) (time : ℕ) (e' : Engine N)
      → ((n : ℕ) (wager : N.F) → get_wager N e.stake_model n ≡ ok wager → NonNeg N wager)
      → IsSolvent laws e.risk
      → on_bar N e bar time ≡ ok e'
      → IsSolvent laws e'.risk
  on_bar-IsSolvent e bar time e' positive h k =
      on_bar_keeps (IsSolvent laws) e bar time
        (λ live s d regime market wager asked.
          place-IsSolvent e.risk s wager e.is_martingale bar time d regime market
            (positive e.risk.loss_step wager asked) h)
        h e' k

module _ {N : Num} where
  -- A run that is not ruined has lost at most `max_steps` times in a row.
  pub record IsStepped (r : RiskTracker N) : Type 0 where
    pub within : r.ruined ≡ false → r.loss_step ≤ r.max_steps

  record_trade-IsStepped :
      (r : RiskTracker N) (won : Bool) (wager : N.F) (time : Option ℕ)
      → r.ruined ≡ false
      → IsStepped r
      → IsStepped (record_trade N r won wager time true).0
  unfolding record_trade
  record_trade-IsStepped r true wager time live h = record { within = λ e. omega arith }
  record_trade-IsStepped r false wager time live h = record { within = λ e. ground (arith, e) }

  pub place-IsStepped :
      (r : RiskTracker N) (s : StatsTracker N) (wager : N.F) (bar : Bar N) (time : ℕ)
      (d : Direction) (regime : String) (market : MarketRegime)
      → r.ruined ≡ false
      → IsStepped r
      → IsStepped (place N r s wager true bar time d regime market).0
  unfolding place can_place_wager
  place-IsStepped r s wager bar time d regime market live h =
      elim (Bool-cases (N.lt r.bankroll wager)) [
        | inl short ↦ rw short (record { within = λ e. cc })
        | inr covers ↦
            rw covers (record_trade-IsStepped r (has_won N d bar) wager (some time) live h)
      ]

  -- A martingale that stood at a loss step of at most `max_steps`, or was ruined, and is not ruined
  -- after a handled bar, stands at one of at most
  -- `max_steps`, which is the exponent of its next wager.
  pub on_bar-IsStepped :
      (e : Engine N) (bar : Bar N) (time : ℕ) (e' : Engine N)
      → e.is_martingale ≡ true
      → IsStepped e.risk
      → on_bar N e bar time ≡ ok e'
      → IsStepped e'.risk
  on_bar-IsStepped e bar time e' martingale h k =
      on_bar_keeps IsStepped e bar time
        (λ live s d regime market wager asked.
          subst (λ b. IsStepped (place N e.risk s wager b bar time d regime market).0)
            (sym martingale) (place-IsStepped e.risk s wager bar time d regime market live h))
        h e' k

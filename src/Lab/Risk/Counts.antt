-- ===== src/Lab/Risk/Counts.antt =====
-- risk_models.py: the counters, the streaks and the two histograms. The abstract view of a
-- histogram is the number of trades that its streaks cover.
use quantconnect.Prelude.{
  ℕ, ◌+◌, ◌*◌, ◌≤◌, ◌≡◌, Bool, true, false, Option, List, [], ◌∷◌, ◌++◌, arith, length,
}
use quantconnect.Num.{Num}
use quantconnect.Lab.Risk.{
  Histogram, bump, record_histogram, RiskTracker, init_risk, can_place_wager, record_win,
  record_loss, settle, count_trade, record_trade, finalize,
}

-- The trades in the streaks of a histogram, and the number of its streaks.
abbrev pub covered : Histogram → ℕ
covered [] = 0
covered ((k, n) ∷ h) = k * n + covered h

abbrev pub streaks : Histogram → ℕ
streaks [] = 0
streaks ((_, n) ∷ h) = n + streaks h

abbrev pub sum : List ℕ → ℕ
sum [] = 0
sum (x ∷ xs) = x + sum xs

covered-bump : (h : Histogram) (k : ℕ) → covered (bump h k) ≡ covered h + k
unfolding bump
covered-bump [] k = omega arith
covered-bump ((j, n) ∷ h) k = ground (arith, covered-bump h k)

streaks-bump : (h : Histogram) (k : ℕ) → streaks (bump h k) ≡ streaks h + 1
unfolding bump
streaks-bump [] k = omega arith
streaks-bump ((j, n) ∷ h) k = ground (arith, streaks-bump h k)

covered-record_histogram : (h : Histogram) (k : ℕ) → covered (record_histogram h k) ≡ covered h + k
unfolding record_histogram
covered-record_histogram h k = ground (arith, covered-bump h k)

sum-append_one : (xs : List ℕ) (k : ℕ) → sum (xs ++ k ∷ []) ≡ sum xs + k
sum-append_one [] k = omega arith
sum-append_one (x ∷ xs) k = omega (arith, sum-append_one xs k)

length-append_one : (xs : List ℕ) (k : ℕ) → length (xs ++ k ∷ []) ≡ length xs + 1
length-append_one [] k = omega arith
length-append_one (x ∷ xs) k = omega (arith, length-append_one xs k)

module _ {N : Num} where
  -- What the counters of a tracker say of one another while it runs.
  pub record IsCounted (r : RiskTracker N) : Type 0 where
    pub total : r.trades ≡ r.wins + r.losses
    pub wins_covered : r.wins ≡ covered r.win_streak_histogram + r.current_win_streak
    pub losses_covered : r.losses ≡ covered r.loss_streak_histogram + r.current_loss_streak
    pub recoveries : r.losses ≡ sum r.recovery_depths + r.current_loss_streak
    pub win_max : r.current_win_streak ≤ r.max_win_streak
    pub loss_max : r.current_loss_streak ≤ r.max_loss_streak
    pub step : r.loss_step ≡ r.current_loss_streak

  pub IsCounted-init : (bankroll : N.F) (max_steps : ℕ) → IsCounted (init_risk N bankroll max_steps)
  unfolding init_risk
  IsCounted-init bankroll max_steps = omega arith

  record_win-IsCounted :
      (r : RiskTracker N) (wager : N.F)
      → IsCounted r
      → IsCounted (record_win N (count_trade N r wager) wager)
  unfolding record_win count_trade
  record_win-IsCounted r wager h = ground (
    arith,
    covered-record_histogram r.loss_streak_histogram r.current_loss_streak,
    sum-append_one r.recovery_depths r.current_loss_streak,
  )

  record_loss-IsCounted :
      (r : RiskTracker N) (wager : N.F) (timestamp : Option ℕ) (is_martingale : Bool)
      → IsCounted r
      → IsCounted (record_loss N (count_trade N r wager) wager timestamp is_martingale)
  unfolding record_loss count_trade
  record_loss-IsCounted r wager timestamp is_martingale h =
      ground (arith, covered-record_histogram r.win_streak_histogram r.current_win_streak)

  settle-IsCounted : (r : RiskTracker N) → IsCounted r → IsCounted (settle N r).0
  unfolding settle
  settle-IsCounted r h = ground arith

  -- From a consistent tracker every trade, won or lost, leads to a consistent one: the trades are
  -- the wins and the losses, the wins are those of the win histogram and of the running streak, the
  -- losses are those of the loss histogram, and those of the recovery depths, with the running
  -- streak, no running streak is above its maximum, and the loss step is the running loss streak.
  pub record_trade-IsCounted :
      (r : RiskTracker N) (won : Bool) (wager : N.F) (timestamp : Option ℕ) (is_martingale : Bool)
      → IsCounted r
      → IsCounted (record_trade N r won wager timestamp is_martingale).0
  unfolding record_trade
  record_trade-IsCounted r true wager timestamp is_martingale h =
      settle-IsCounted _ (record_win-IsCounted r wager h)
  record_trade-IsCounted r false wager timestamp is_martingale h =
      settle-IsCounted _ (record_loss-IsCounted r wager timestamp is_martingale h)

  pub can_place_wager-IsCounted :
      (r : RiskTracker N) (wager : N.F) (timestamp : Option ℕ)
      → IsCounted r
      → IsCounted (can_place_wager N r wager timestamp).1
  unfolding can_place_wager
  can_place_wager-IsCounted r wager timestamp h = ground arith

  -- After `finalize` on a consistent tracker the streaks of the win histogram cover exactly the
  -- wins, those of the loss histogram exactly the losses, and the recovery depths add up to the
  -- losses.
  pub finalize_covers :
      (r : RiskTracker N)
      → IsCounted r
      → (covered (finalize N r).win_streak_histogram ≡ r.wins)
        × (covered (finalize N r).loss_streak_histogram ≡ r.losses)
        × (sum (finalize N r).recovery_depths ≡ r.losses)
  unfolding finalize
  finalize_covers r h = ground (
    arith,
    covered-record_histogram r.win_streak_histogram r.current_win_streak,
    covered-record_histogram r.loss_streak_histogram r.current_loss_streak,
    sum-append_one r.recovery_depths r.current_loss_streak,
  )

-- ===== src/Lab/Risk/Money.antt =====
-- risk_models.py: the bankroll, its peak and the drawdown, over any number system with the order
-- of finite doubles.
use quantconnect.Prelude.{ℕ, ◌≡◌, Bool, true, false, Option, arith}
use quantconnect.Num.{Num, IsOrdered, max_of}
use quantconnect.Lab.Risk.{
  RiskTracker, can_place_wager, record_win, record_loss, settle, count_trade, record_trade,
}

module _ {N : Num} (laws : IsOrdered N) where
  open N use {F, lt, add, sub, of_ℕ}

  le_max_left : (a b : F) → lt (max_of N a b) a ≡ false
  le_max_left a b = ground (arith, laws.irrefl a, laws.asym a b)

  le_max_right : (a b : F) → lt (max_of N a b) b ≡ false
  le_max_right a b = ground (arith, laws.irrefl b)

  le_max_of_le : (a b c : F) → lt a c ≡ false → lt (max_of N a b) c ≡ false
  le_max_of_le a b c h = laws.le_trans c a (max_of N a b) h (le_max_left a b)

  -- The bankroll is not negative, the peak is no less than the bankroll nor than the initial
  -- bankroll, and the greatest drawdown is no less than the present one.
  pub record IsSolvent (r : RiskTracker N) : Type 0 where
    pub nonneg : lt r.bankroll (of_ℕ 0) ≡ false
    pub below_peak : lt r.peak_bankroll r.bankroll ≡ false
    pub started : lt r.peak_bankroll r.initial_bankroll ≡ false
    pub drawdown : lt r.max_drawdown (sub r.peak_bankroll r.bankroll) ≡ false

  settle-IsSolvent :
      (r : RiskTracker N)
      → lt r.bankroll (of_ℕ 0) ≡ false
      → lt r.peak_bankroll r.initial_bankroll ≡ false
      → IsSolvent (settle N r).0
  unfolding settle
  settle-IsSolvent r h k = record {
    nonneg = h;
    below_peak = le_max_right r.peak_bankroll r.bankroll;
    started = le_max_of_le r.peak_bankroll r.bankroll r.initial_bankroll k;
    drawdown = le_max_right r.max_drawdown (sub (max_of N r.peak_bankroll r.bankroll) r.bankroll);
  }

  win_nonneg :
      (r : RiskTracker N) (wager : F)
      → lt r.bankroll (of_ℕ 0) ≡ false
      → lt wager (of_ℕ 0) ≡ false
      → lt (add r.bankroll wager) (of_ℕ 0) ≡ false
  win_nonneg r wager h w =
      laws.le_trans (of_ℕ 0) r.bankroll (add r.bankroll wager) h (laws.add_grows r.bankroll wager w)

  record_trade-IsSolvent' :
      (r : RiskTracker N) (won : Bool) (wager : F) (timestamp : Option ℕ) (is_martingale : Bool)
      → IsSolvent r
      → lt wager (of_ℕ 0) ≡ false
      → lt r.bankroll wager ≡ false
      → IsSolvent (record_trade N r won wager timestamp is_martingale).0
  unfolding record_trade record_win record_loss count_trade
  record_trade-IsSolvent' r true wager timestamp is_martingale s w covers =
      settle-IsSolvent _ (win_nonneg r wager s.nonneg w) s.started
  record_trade-IsSolvent' r false wager timestamp is_martingale s w covers =
      settle-IsSolvent _ (laws.sub_nonneg wager r.bankroll covers) s.started

  covers_of_placed :
      (r : RiskTracker N) (wager : F) (timestamp : Option ℕ)
      → (can_place_wager N r wager timestamp).0 ≡ true
      → (lt r.bankroll wager ≡ false) × ((can_place_wager N r wager timestamp).1 ≡ r)
  unfolding can_place_wager
  covers_of_placed r wager timestamp p = ground arith

  -- Over numbers with the laws of `IsOrdered`, a trade whose wager is not negative and was let
  -- through by `can_place_wager` keeps the
  -- bankroll from going below zero, won or lost, and keeps the peak and the greatest drawdown up to
  -- date.
  pub record_trade-IsSolvent :
      (r : RiskTracker N) (won : Bool) (wager : F) (timestamp : Option ℕ) (is_martingale : Bool)
      → IsSolvent r
      → lt wager (of_ℕ 0) ≡ false
      → (can_place_wager N r wager timestamp).0 ≡ true
      → IsSolvent
          (record_trade N
            (can_place_wager N r wager timestamp).1
            won
            wager
            timestamp
            is_martingale).0
  record_trade-IsSolvent r won wager timestamp is_martingale s w p =
      let c = covers_of_placed r wager timestamp p in
      rw (c.1) (record_trade-IsSolvent' r won wager timestamp is_martingale s w c.0)

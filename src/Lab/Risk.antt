-- ===== src/Lab/Risk.antt =====
-- risk_models.py: the simulated bankroll, its streaks and its ruin. The formatted ruin reason is
-- kept as data, with the numbers that the text shows; `max_steps` and the counters are naturals.
pub mod Counts
pub mod Money
use quantconnect.Prelude.{
  ℕ, length, ◌+◌, ltb, ◌==◌, max, Bool, true, false, ◌&&◌, Option, none, List, [], ◌∷◌, ◌++◌,
  if◌then◌else◌,
}
use quantconnect.Num.{Num, max_of}

-- A dict from a streak length to its count, in insertion order.
abbrev pub Histogram : Type 0
Histogram = List (ℕ × ℕ)

-- `histogram[k] = histogram.get(k, 0) + 1`
unfoldable pub bump : Histogram → ℕ → Histogram
bump [] k = (k, 1) ∷ []
bump ((j, n) ∷ h) k = if j == k then (j, n + 1) ∷ h else (j, n) ∷ bump h k

-- `_record_histogram`
unfoldable pub record_histogram : Histogram → ℕ → Histogram
record_histogram histogram streak_length =
    if ltb 0 streak_length then bump histogram streak_length else histogram

module _ (N : Num) where
  open N use {F, lt, add, sub, div, of_ℕ}

  pub data RuinReason : Type 0 where
    no_reason : RuinReason
    needed_wager : F → F → ℕ → RuinReason
    max_step_exceeded : ℕ → ℕ → RuinReason

  pub record RiskTracker : Type 0 where
    pub initial_bankroll : F
    pub bankroll : F
    pub peak_bankroll : F
    pub max_steps : ℕ
    pub loss_step : ℕ
    pub trades : ℕ
    pub wins : ℕ
    pub losses : ℕ
    pub current_win_streak : ℕ
    pub current_loss_streak : ℕ
    pub max_win_streak : ℕ
    pub max_loss_streak : ℕ
    pub win_streak_histogram : Histogram
    pub loss_streak_histogram : Histogram
    pub recovery_depths : List ℕ
    pub max_drawdown : F
    pub max_single_wager : F
    pub ruined : Bool
    pub ruin_reason : RuinReason
    pub ruin_time : Option ℕ

  unfoldable pub init_risk : F → ℕ → RiskTracker
  init_risk bankroll max_steps = record {
    initial_bankroll = bankroll;
    bankroll = bankroll;
    peak_bankroll = bankroll;
    max_steps = max_steps;
    loss_step = 0;
    trades = 0;
    wins = 0;
    losses = 0;
    current_win_streak = 0;
    current_loss_streak = 0;
    max_win_streak = 0;
    max_loss_streak = 0;
    win_streak_histogram = [];
    loss_streak_histogram = [];
    recovery_depths = [];
    max_drawdown = of_ℕ 0;
    max_single_wager = of_ℕ 0;
    ruined = false;
    ruin_reason = no_reason;
    ruin_time = none;
  }

  unfoldable pub can_place_wager : RiskTracker → F → Option ℕ → Bool × RiskTracker
  can_place_wager r wager timestamp =
      if lt r.bankroll wager
      then (
        false,
        record r {
          ruined = true;
          ruin_time = timestamp;
          ruin_reason = needed_wager wager r.bankroll r.loss_step;
        },
      )
      else (true, r)

  -- The branch `if won` of `record_trade`.
  unfoldable pub record_win : RiskTracker → F → RiskTracker
  record_win r wager = record r {
    wins = r.wins + 1;
    bankroll = add r.bankroll wager;
    loss_streak_histogram =
        if ltb 0 r.current_loss_streak
        then record_histogram r.loss_streak_histogram r.current_loss_streak
        else r.loss_streak_histogram;
    recovery_depths =
        if ltb 0 r.current_loss_streak
        then r.recovery_depths ++ r.current_loss_streak ∷ []
        else r.recovery_depths;
    current_win_streak = r.current_win_streak + 1;
    current_loss_streak = 0;
    max_win_streak = max r.max_win_streak (r.current_win_streak + 1);
    loss_step = 0;
  }

  -- The branch `else` of `record_trade`.
  unfoldable pub record_loss : RiskTracker → F → Option ℕ → Bool → RiskTracker
  record_loss r wager timestamp is_martingale =
      let exceeded = is_martingale && ltb r.max_steps (r.loss_step + 1) in
      record r {
        losses = r.losses + 1;
        bankroll = sub r.bankroll wager;
        win_streak_histogram =
            if ltb 0 r.current_win_streak
            then record_histogram r.win_streak_histogram r.current_win_streak
            else r.win_streak_histogram;
        current_loss_streak = r.current_loss_streak + 1;
        current_win_streak = 0;
        max_loss_streak = max r.max_loss_streak (r.current_loss_streak + 1);
        loss_step = r.loss_step + 1;
        ruined = if exceeded then true else r.ruined;
        ruin_time = if exceeded then timestamp else r.ruin_time;
        ruin_reason =
            if exceeded then max_step_exceeded (r.loss_step + 1) r.max_steps else r.ruin_reason;
      }

  -- The peak and the drawdown, with which `record_trade` ends.
  unfoldable pub settle : RiskTracker → RiskTracker × F
  settle r =
      let peak = max_of N r.peak_bankroll r.bankroll in
      let drawdown = sub peak r.bankroll in
      (record r { peak_bankroll = peak; max_drawdown = max_of N r.max_drawdown drawdown }, drawdown)

  -- The two lines with which `record_trade` begins.
  unfoldable pub count_trade : RiskTracker → F → RiskTracker
  count_trade r wager = record r {
    trades = r.trades + 1;
    max_single_wager = max_of N r.max_single_wager wager;
  }

  unfoldable pub record_trade : RiskTracker → Bool → F → Option ℕ → Bool → RiskTracker × F
  unfolding count_trade settle record_win record_loss
  record_trade r won wager timestamp is_martingale = settle (
      if won
      then record_win (count_trade r wager) wager
      else record_loss (count_trade r wager) wager timestamp is_martingale)

  unfoldable pub finalize : RiskTracker → RiskTracker
  finalize r = record r {
    win_streak_histogram = record_histogram r.win_streak_histogram r.current_win_streak;
    loss_streak_histogram = record_histogram r.loss_streak_histogram r.current_loss_streak;
    recovery_depths =
        if ltb 0 r.current_loss_streak
        then r.recovery_depths ++ r.current_loss_streak ∷ []
        else r.recovery_depths;
  }

  unfoldable pub win_rate : RiskTracker → F
  win_rate r = if r.trades == 0 then of_ℕ 0 else div (of_ℕ r.wins) (of_ℕ r.trades)

  unfoldable pub net_profit : RiskTracker → F
  net_profit r = sub r.bankroll r.initial_bankroll

  -- `sum` and `max` of the recovery depths
  abbrev pub depths_sum : List ℕ → ℕ
  depths_sum [] = 0
  depths_sum (x ∷ xs) = x + depths_sum xs

  abbrev pub depths_max : List ℕ → ℕ
  depths_max [] = 0
  depths_max (x ∷ xs) = max x (depths_max xs)

  unfoldable pub average_recovery_depth : RiskTracker → F
  average_recovery_depth r =
      if length r.recovery_depths == 0
      then of_ℕ 0
      else div (of_ℕ (depths_sum r.recovery_depths)) (of_ℕ (length r.recovery_depths))

  unfoldable pub max_recovery_depth : RiskTracker → ℕ
  max_recovery_depth r = depths_max r.recovery_depths

-- ===== src/Tests/Trading.antt =====
-- main.py: the handler at a small martingale run over the integers.
use quantconnect.Prelude.{
  ℕ, zero, suc, ◌≡◌, refl, true, false, some, [], ◌∷◌, Result, ok, err, Returns, inl, subst,
  ok-injective, arith,
}
use quantconnect.Prelude.Int.{ℤ, pos, ltb_ℤ, pow_ℤ, ◌-ℤ◌}
use quantconnect.Num.Integers.{int_num, int_num-IsOrdered, int_num-IsSigned}
use quantconnect.Num.Signs.{NonNeg}
use quantconnect.Lab.Market.{up, down, Bar}
use quantconnect.Lab.Stake.{martingale, get_wager}
use quantconnect.Lab.Risk.{init_risk}
use quantconnect.Lab.Stats.{init_stats}
use quantconnect.Lab.Entry.{EntryModel, previous_candle, fixed_bias, get_direction}
use quantconnect.Lab.Filter.{no_filter, filter_update, filter_regime, allow_trade, is_ready}
use quantconnect.Lab.Regime.{no_regime, market_regime}
use quantconnect.Lab.Engine.{Engine, Options, initialize, on_bar}
use quantconnect.Lab.Engine.Run.{IsSound, on_bar-IsSound, run, run-IsSound}
use quantconnect.Lab.Engine.Lookahead.{SameTrade, on_bar_no_lookahead}
use quantconnect.Lab.Engine.Bankroll.{on_bar-IsSolvent, IsStepped, on_bar-IsStepped}
use quantconnect.Lab.Engine.Payable.{Pays}
use quantconnect.Lab.Engine.Accounts.{IsAccounted-init}
use quantconnect.Lab.Risk.Money.{IsSolvent}

abbrev pub options : Options int_num
options = record {
  start_year = 2024;
  start_month = 1;
  start_day = 1;
  entry = record {
    entry_model = "fixed_bias";
    bias = "up";
    streak_length = 3;
    streak_mode = "follow";
    ema_fast = 9;
    ema_slow = 21;
    macd_fast = 12;
    macd_slow = 26;
    macd_signal = 9;
    rsi_period = 14;
    rsi_oversold = pos 30;
    rsi_overbought = pos 70;
  };
  filter = record {
    filter_model = "none";
    ema_fast = 20;
    ema_slow = 50;
    adx_period = 14;
    adx_threshold = pos 20;
    atr_period = 14;
    atr_min_pct = pos 0;
    atr_max_pct = pos 10;
  };
  stake_mode = "martingale";
  base_wager = pos 5;
  multiplier = pos 2;
  bankroll = pos 100;
  max_steps = 3;
  regime_model = "none";
  regime_lookback = 20;
  regime_threshold = pos 0;
}

abbrev engine : Engine int_num
engine = record {
  start_year = 2024;
  start_month = 1;
  start_day = 1;
  is_martingale = true;
  entry_model = fixed_bias up;
  stake_model = martingale (pos 5) (pos 2);
  filter_model = no_filter;
  regime_model = no_regime;
  risk = init_risk int_num (pos 100) 3;
  stats = init_stats int_num;
}

engine_made : initialize int_num options ≡ ok engine
unfolding initialize
engine_made = refl

-- A bar that closes above its open, and one that closes below it.
abbrev pub rising : Bar int_num
rising = record {
  year = 2024;
  month = 2;
  day = 3;
  open_price = pos 100;
  high = pos 112;
  low = pos 98;
  close = pos 110;
}

abbrev falling : Bar int_num
falling = record {
  year = 2024;
  month = 2;
  day = 3;
  open_price = pos 100;
  high = pos 101;
  low = pos 80;
  close = pos 90;
}

abbrev value_or : Engine int_num → Result (Engine int_num) → Engine int_num
value_or e (ok e') = e'
value_or e (err x) = e

abbrev after_rising : Engine int_num
after_rising = value_or engine (on_bar int_num engine rising 0)

rising_handled : on_bar int_num engine rising 0 ≡ ok after_rising
unfolding on_bar init_risk get_direction filter_regime market_regime is_ready allow_trade
    filter_update
rising_handled = refl

abbrev after_falling : Engine int_num
after_falling = value_or engine (on_bar int_num engine falling 0)

falling_handled : on_bar int_num engine falling 0 ≡ ok after_falling
unfolding on_bar init_risk get_direction filter_regime market_regime is_ready allow_trade
    filter_update
falling_handled = refl

wagers_made : (n : ℕ) → Pays engine.stake_model n
unfolding get_wager
wagers_made n = (_, refl)

engine-IsSound : IsSound engine
engine-IsSound = record {
  entry = tt;
  filter = tt;
  books = IsAccounted-init (pos 100) 3;
  wagers = inl wagers_made;
}

engine-IsSolvent : IsSolvent int_num-IsOrdered engine.risk
unfolding init_risk ◌-ℤ◌
engine-IsSolvent = record { nonneg = refl; below_peak = refl; started = refl; drawdown = refl }

run-IsSound_example :
    Returns IsSound (run int_num engine ((rising, 0) ∷ (falling, 1) ∷ (falling, 2) ∷ []))
run-IsSound_example =
    run-IsSound int_num-IsOrdered int_num-IsSigned options engine
      ((rising, 0) ∷ (falling, 1) ∷ (falling, 2) ∷ []) engine_made (λ n le. (_, refl))

on_bar-IsSound_example : Returns IsSound (on_bar int_num engine rising 0)
on_bar-IsSound_example =
    on_bar-IsSound int_num-IsOrdered int_num-IsSigned engine rising 0 engine-IsSound

on_bar_no_lookahead_example : SameTrade after_rising.stats after_falling.stats
on_bar_no_lookahead_example =
    on_bar_no_lookahead engine rising falling 0 after_rising after_falling (refl, refl, refl) refl
      rising_handled falling_handled

pow_nonneg : (n : ℕ) → ltb_ℤ (pow_ℤ (pos 2) n) (pos 0) ≡ false
unfolding pow_ℤ
pow_nonneg zero = refl
pow_nonneg (suc n) = int_num-IsSigned.mul_nonneg (pos 2) (pow_ℤ (pos 2) n) refl (pow_nonneg n)

wager_nonneg :
    (n : ℕ) (wager : ℤ) → get_wager int_num engine.stake_model n ≡ ok wager → NonNeg int_num wager
unfolding get_wager
wager_nonneg n wager asked =
    subst (NonNeg int_num) (ok-injective asked)
      (int_num-IsSigned.mul_nonneg (pos 5) (pow_ℤ (pos 2) n) refl (pow_nonneg n))

on_bar-IsSolvent_example : IsSolvent int_num-IsOrdered after_falling.risk
on_bar-IsSolvent_example =
    on_bar-IsSolvent int_num-IsOrdered engine falling 0 after_falling wager_nonneg engine-IsSolvent
      falling_handled

engine-IsStepped : IsStepped engine.risk
unfolding init_risk
engine-IsStepped = record { within = λ e. ground arith }

on_bar-IsStepped_example : IsStepped after_falling.risk
on_bar-IsStepped_example =
    on_bar-IsStepped engine falling 0 after_falling refl engine-IsStepped falling_handled

abbrev previous : EntryModel int_num
previous = previous_candle (some up)

up_after_rising : get_direction int_num previous rising ≡ ok (some up, previous_candle (some up))
unfolding get_direction
up_after_rising = refl

up_after_falling :
    get_direction int_num previous falling ≡ ok (some up, previous_candle (some down))
unfolding get_direction
up_after_falling = refl

-- ===== src/Lab/Entry.antt =====
-- entry_models.py: the entry models behind one interface, and their factory. Each model answers from
-- the bars before the current one and then takes the current one in.
mod Candles
mod Averages
mod Rsi
pub mod Safety
pub mod History
unfoldable pub use Candles.*
unfoldable pub use Averages.*
unfoldable pub use Rsi.*
use quantconnect.Prelude.{
  ℕ, ◌+◌, ltb, leb, min, not, ◌&&◌, ◌||◌, Option, none, some, [], String, str_eq, if◌then◌else◌,
  Result, ok, err, value_error, raise_if, ◌>>=◌, ◌>>◌,
}
use quantconnect.Num.{Num, le}
use quantconnect.Lab.Market.{Direction, up, down, Bar, candle}

module _ (N : Num) where
  open N use {F, lt, div, of_ℕ}

  pub data EntryModel : Type 0 where
    fixed_bias : Direction → EntryModel
    candle_streak : CandleStreak → EntryModel
    previous_candle : Option Direction → EntryModel
    previous_candle_reverse : Option Direction → EntryModel
    ema_entry : EmaEntry N → EntryModel
    macd_entry : MacdEntry N → EntryModel
    rsi_entry : RsiEntry N → EntryModel

  -- `get_direction`: the answer, and the model after the bar.
  unfoldable pub get_direction : EntryModel → Bar N → Result (Option Direction × EntryModel)
  unfolding streak_direction streak_update previous_update reverse_direction ema_direction
      ema_update macd_direction macd_update
  get_direction (fixed_bias bias) bar = ok (some bias, fixed_bias bias)
  get_direction (candle_streak m) bar =
      ok (streak_direction m, candle_streak (streak_update m (candle N bar)))
  get_direction (previous_candle previous) bar =
      ok (previous, previous_candle (previous_update previous (candle N bar)))
  get_direction (previous_candle_reverse previous) bar = ok (
    reverse_direction previous,
    previous_candle_reverse (previous_update previous (candle N bar)),
  )
  get_direction (ema_entry m) bar = do
    direction ← ema_direction N m
    ok (direction, ema_entry (ema_update N m bar.close))
  get_direction (macd_entry m) bar = do
    direction ← macd_direction N m
    ok (direction, macd_entry (macd_update N m bar.close))
  get_direction (rsi_entry m) bar = do
    direction ← rsi_direction N m
    updated ← rsi_update N m bar.close
    ok (direction, rsi_entry updated)

  -- `2 / (period + 1)`
  abbrev pub ema_multiplier : ℕ → F
  ema_multiplier period = div (of_ℕ 2) (of_ℕ (period + 1))

  unfoldable pub new_ema_entry : ℕ → ℕ → Result EntryModel
  new_ema_entry fast_period slow_period = do
    raise_if (ltb fast_period 1 || ltb slow_period 1) value_error
    raise_if (leb slow_period fast_period) value_error
    ok (
        ema_entry (record {
          fast_period = fast_period;
          slow_period = slow_period;
          fast_value = none;
          slow_value = none;
          fast_multiplier = ema_multiplier fast_period;
          slow_multiplier = ema_multiplier slow_period;
          samples = 0;
        }))

  unfoldable pub new_macd_entry : ℕ → ℕ → ℕ → Result EntryModel
  new_macd_entry fast_period slow_period signal_period = do
    raise_if (ltb (min (min fast_period slow_period) signal_period) 1) value_error
    raise_if (leb slow_period fast_period) value_error
    ok (
        macd_entry (record {
          fast_period = fast_period;
          slow_period = slow_period;
          signal_period = signal_period;
          fast_value = none;
          slow_value = none;
          signal_value = none;
          fast_multiplier = ema_multiplier fast_period;
          slow_multiplier = ema_multiplier slow_period;
          signal_multiplier = ema_multiplier signal_period;
          samples = 0;
        }))

  unfoldable pub new_rsi_entry : ℕ → F → F → Result EntryModel
  new_rsi_entry period oversold overbought = do
    raise_if (ltb period 1) value_error
    raise_if (not (le N (of_ℕ 0) oversold && lt oversold overbought && le N overbought (of_ℕ 100)))
        value_error
    ok (
        rsi_entry (record {
          period = period;
          oversold = oversold;
          overbought = overbought;
          previous_close = none;
          gains = [];
          losses = [];
          average_gain = none;
          average_loss = none;
        }))

  unfoldable pub new_candle_streak : ℕ → String → Result EntryModel
  new_candle_streak streak_length streak_mode = do
    raise_if (ltb streak_length 1) value_error
    mode ←
        if str_eq streak_mode "follow"
        then ok follow
        else if str_eq streak_mode "reverse"
        then ok reverse
        else err value_error
    ok (
        candle_streak
          (record { streak_length = streak_length; streak_mode = mode; recent_directions = [] }))

  unfoldable pub new_fixed_bias : String → Result EntryModel
  new_fixed_bias bias =
      if str_eq bias "up"
      then ok (fixed_bias up)
      else if str_eq bias "down"
      then ok (fixed_bias down)
      else err value_error

  -- The arguments of `EntryModelFactory.create`, texts in lower case.
  pub record EntryOptions : Type 0 where
    pub entry_model : String
    pub bias : String
    pub streak_length : ℕ
    pub streak_mode : String
    pub ema_fast : ℕ
    pub ema_slow : ℕ
    pub macd_fast : ℕ
    pub macd_slow : ℕ
    pub macd_signal : ℕ
    pub rsi_period : ℕ
    pub rsi_oversold : F
    pub rsi_overbought : F

  unfoldable pub create_entry : EntryOptions → Result EntryModel
  unfolding new_ema_entry new_macd_entry new_rsi_entry new_candle_streak new_fixed_bias
  create_entry o =
      if str_eq o.entry_model "fixed_bias"
      then new_fixed_bias o.bias
      else if str_eq o.entry_model "previous_candle"
      then ok (previous_candle none)
      else if str_eq o.entry_model "previous_candle_reverse"
      then ok (previous_candle_reverse none)
      else if str_eq o.entry_model "candle_streak"
      then new_candle_streak o.streak_length o.streak_mode
      else if str_eq o.entry_model "ema_trend"
      then new_ema_entry o.ema_fast o.ema_slow
      else if str_eq o.entry_model "macd_trend"
      then new_macd_entry o.macd_fast o.macd_slow o.macd_signal
      else if str_eq o.entry_model "rsi_mean_reversion"
      then new_rsi_entry o.rsi_period o.rsi_oversold o.rsi_overbought
      else err value_error

-- ===== src/Lab/Entry/Averages.antt =====
-- entry_models.py: the models that compare exponential moving averages. Arithmetic or an order
-- comparison with `None` raises.
use quantconnect.Prelude.{
  ℕ, ◌+◌, ◌-◌, leb, Option, none, some, if◌then◌else◌, Result, ok, value_of, ◌>>=◌,
}
use quantconnect.Num.{Num}
use quantconnect.Lab.Market.{Direction, up, down}

module _ (N : Num) where
  open N use {F, lt, add, sub, mul, of_ℕ}

  pub record EmaEntry : Type 0 where
    pub fast_period : ℕ
    pub slow_period : ℕ
    pub fast_value : Option F
    pub slow_value : Option F
    pub fast_multiplier : F
    pub slow_multiplier : F
    pub samples : ℕ

  pub record MacdEntry : Type 0 where
    pub fast_period : ℕ
    pub slow_period : ℕ
    pub signal_period : ℕ
    pub fast_value : Option F
    pub slow_value : Option F
    pub signal_value : Option F
    pub fast_multiplier : F
    pub slow_multiplier : F
    pub signal_multiplier : F
    pub samples : ℕ

  -- `_update_ema`
  unfoldable pub update_ema : Option F → F → F → F
  update_ema none price multiplier = price
  update_ema (some current) price multiplier =
      add (mul price multiplier) (mul current (sub (of_ℕ 1) multiplier))

  -- `"up" if a > b else "down" if a < b else None`
  unfoldable pub compare_values : F → F → Option Direction
  compare_values a b = if lt b a then some up else if lt a b then some down else none

  unfoldable pub ema_direction : EmaEntry → Result (Option Direction)
  unfolding compare_values
  ema_direction m =
      if leb m.slow_period m.samples
      then (do
        fast ← value_of m.fast_value
        slow ← value_of m.slow_value
        ok (compare_values fast slow))
      else ok none

  unfoldable pub ema_update : EmaEntry → F → EmaEntry
  unfolding update_ema
  ema_update m close = record m {
    fast_value = some (update_ema m.fast_value close m.fast_multiplier);
    slow_value = some (update_ema m.slow_value close m.slow_multiplier);
    samples = m.samples + 1;
  }

  unfoldable pub macd_direction : MacdEntry → Result (Option Direction)
  unfolding compare_values
  macd_direction m =
      if leb (m.slow_period + m.signal_period - 1) m.samples
      then (do
        fast ← value_of m.fast_value
        slow ← value_of m.slow_value
        signal ← value_of m.signal_value
        ok (compare_values (sub fast slow) signal))
      else ok none

  unfoldable pub macd_update : MacdEntry → F → MacdEntry
  unfolding update_ema
  macd_update m close =
      let fast = update_ema m.fast_value close m.fast_multiplier in
      let slow = update_ema m.slow_value close m.slow_multiplier in
      record m {
        fast_value = some fast;
        slow_value = some slow;
        signal_value = some (update_ema m.signal_value (sub fast slow) m.signal_multiplier);
        samples = m.samples + 1;
      }

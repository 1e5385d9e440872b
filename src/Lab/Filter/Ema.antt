-- ===== src/Lab/Filter/Ema.antt =====
-- filter_models.py: the EMA trend filter.
use quantconnect.Prelude.{
  ℕ, ◌+◌, ltb, leb, Bool, false, Option, none, some, String, if◌then◌else◌, Result, ok, value_of,
  value_error, raise_if, ◌>>=◌, ◌>>◌,
}
use quantconnect.Num.{Num}
use quantconnect.Lab.Market.{Direction, up, down}

module _ (N : Num) where
  open N use {F, lt, add, sub, mul, div, of_ℕ}

  pub record EmaTrend : Type 0 where
    pub fast_period : ℕ
    pub slow_period : ℕ
    pub fast_value : Option F
    pub slow_value : Option F
    pub fast_multiplier : F
    pub slow_multiplier : F
    pub samples : ℕ

  unfoldable pub ema_ready : EmaTrend → Bool
  ema_ready m = leb m.slow_period m.samples

  unfoldable pub ema_step : Option F → F → F → F
  ema_step none price multiplier = price
  ema_step (some value) price multiplier =
      add (mul price multiplier) (mul value (sub (of_ℕ 1) multiplier))

  unfoldable pub ema_take : EmaTrend → F → EmaTrend
  unfolding ema_step
  ema_take m price = record m {
    fast_value = some (ema_step m.fast_value price m.fast_multiplier);
    slow_value = some (ema_step m.slow_value price m.slow_multiplier);
    samples = m.samples + 1;
  }

  abbrev pub ema_agrees : Direction → F → F → Bool
  ema_agrees up fast slow = lt slow fast
  ema_agrees down fast slow = lt fast slow

  unfoldable pub ema_allows : EmaTrend → Direction → Result Bool
  unfolding ema_ready
  ema_allows m direction =
      if ema_ready m
      then (do
        fast ← value_of m.fast_value
        slow ← value_of m.slow_value
        ok (ema_agrees direction fast slow))
      else ok false

  unfoldable pub ema_regime : EmaTrend → Result String
  unfolding ema_ready
  ema_regime m =
      if ema_ready m
      then (do
        fast ← value_of m.fast_value
        slow ← value_of m.slow_value
        ok (if lt slow fast then "bullish" else if lt fast slow then "bearish" else "neutral"))
      else ok "not_ready"

  unfoldable pub new_ema_trend : ℕ → ℕ → Result EmaTrend
  new_ema_trend fast_period slow_period = do
    raise_if (ltb fast_period 1) value_error
    raise_if (ltb slow_period 1) value_error
    raise_if (leb slow_period fast_period) value_error
    ok (record {
      fast_period = fast_period;
      slow_period = slow_period;
      fast_value = none;
      slow_value = none;
      fast_multiplier = div (of_ℕ 2) (of_ℕ (fast_period + 1));
      slow_multiplier = div (of_ℕ 2) (of_ℕ (slow_period + 1));
      samples = 0;
    })

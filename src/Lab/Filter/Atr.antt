-- ===== src/Lab/Filter/Atr.antt =====
-- filter_models.py: the ATR volatility filter.
use quantconnect.Prelude.{
  ℕ, ◌-◌, ◌==◌, ltb, Bool, false, ◌&&◌, Option, none, some, List, [], ◌∷◌, ◌++◌, String,
  if◌then◌else◌, length, is_some, Result, ok, value_of, value_error, raise_if, ◌>>=◌, ◌>>◌,
}
use quantconnect.Num.{Num, le, max_of, abs_of, divide, sum_of}
use quantconnect.Lab.Market.{Bar}

module _ (N : Num) where
  open N use {F, lt, add, sub, mul, of_ℕ}

  pub record AtrVolatility : Type 0 where
    pub period : ℕ
    pub minimum_percent : F
    pub maximum_percent : F
    pub previous_close : Option F
    pub true_ranges : List F
    pub atr_value : Option F
    pub atr_percent : Option F

  unfoldable pub atr_ready : AtrVolatility → Bool
  atr_ready m = is_some m.atr_percent

  abbrev pub atr_range : Bar N → F → F
  atr_range bar previous =
      max_of N (max_of N (sub bar.high bar.low) (abs_of N (sub bar.high previous)))
        (abs_of N (sub bar.low previous))

  -- The range is collected, or averaged in.
  unfoldable pub atr_average : AtrVolatility → Option F → F → Result AtrVolatility
  atr_average m none range =
      let ranges = m.true_ranges ++ range ∷ [] in
      if length ranges == m.period
      then (do
        average ← divide N (sum_of N ranges) (of_ℕ m.period)
        ok (record m { true_ranges = ranges; atr_value = some average }))
      else ok (record m { true_ranges = ranges })
  atr_average m (some value) range = do
    average ← divide N (add (mul value (of_ℕ (m.period - 1))) range) (of_ℕ m.period)
    ok (record m { atr_value = some average })

  -- The percentage is renewed where there is an average and the close is above zero.
  unfoldable pub atr_rate : AtrVolatility → Option F → F → Result AtrVolatility
  atr_rate m none close = ok m
  atr_rate m (some value) close =
      if lt (of_ℕ 0) close
      then (do
        share ← divide N value close
        ok (record m { atr_percent = some (mul share (of_ℕ 100)) }))
      else ok m

  -- The body of `if self.previous_close is not None`.
  unfoldable pub atr_move : AtrVolatility → Option F → Bar N → Result AtrVolatility
  atr_move m none bar = ok m
  atr_move m (some previous) bar = do
    averaged ← atr_average m m.atr_value (atr_range bar previous)
    atr_rate averaged averaged.atr_value bar.close

  unfoldable pub atr_take : AtrVolatility → Bar N → Result AtrVolatility
  unfolding atr_move
  atr_take m bar = do
    moved ← atr_move m m.previous_close bar
    ok (record moved { previous_close = some bar.close })

  unfoldable pub atr_allows : AtrVolatility → Result Bool
  unfolding atr_ready
  atr_allows m =
      if atr_ready m
      then (do
        percent ← value_of m.atr_percent
        ok (le N m.minimum_percent percent && lt percent m.maximum_percent))
      else ok false

  unfoldable pub atr_regime : AtrVolatility → Result String
  unfolding atr_ready
  atr_regime m =
      if atr_ready m
      then (do
        percent ← value_of m.atr_percent
        ok (
            if lt percent m.minimum_percent
            then "low_volatility"
            else if le N m.maximum_percent percent
            then "high_volatility"
            else "eligible_volatility"))
      else ok "not_ready"

  unfoldable pub new_atr_volatility : ℕ → F → F → Result AtrVolatility
  new_atr_volatility period minimum_percent maximum_percent = do
    raise_if (ltb period 1) value_error
    raise_if (lt minimum_percent (of_ℕ 0)) value_error
    raise_if (le N maximum_percent minimum_percent) value_error
    ok (record {
      period = period;
      minimum_percent = minimum_percent;
      maximum_percent = maximum_percent;
      previous_close = none;
      true_ranges = [];
      atr_value = none;
      atr_percent = none;
    })

-- ===== src/Lab/Entry/Rsi.antt =====
-- entry_models.py: the RSI model. A division by zero raises, and so does arithmetic with `None`.
use quantconnect.Prelude.{
  ℕ, ◌-◌, ◌==◌, Option, none, some, List, [], ◌∷◌, ◌++◌, if◌then◌else◌, length, Result, ok,
  value_of, ◌>>=◌,
}
use quantconnect.Num.{Num, le, max_of, divide, sum_of}
use quantconnect.Lab.Market.{Direction, up, down}

module _ (N : Num) where
  open N use {F, lt, eq, add, sub, mul, neg, of_ℕ}

  pub record RsiEntry : Type 0 where
    pub period : ℕ
    pub oversold : F
    pub overbought : F
    pub previous_close : Option F
    pub gains : List F
    pub losses : List F
    pub average_gain : Option F
    pub average_loss : Option F

  -- `_rsi`
  unfoldable pub rsi_value : F → F → Result F
  rsi_value average_gain average_loss =
      if eq average_loss (of_ℕ 0)
      then ok (if lt (of_ℕ 0) average_gain then of_ℕ 100 else of_ℕ 50)
      else do
        relative_strength ← divide N average_gain average_loss
        share ← divide N (of_ℕ 100) (add (of_ℕ 1) relative_strength)
        ok (sub (of_ℕ 100) share)

  -- The answer, from the average gain, which is `None` at the start.
  unfoldable pub rsi_signal : RsiEntry → Option F → Result (Option Direction)
  rsi_signal m none = ok none
  rsi_signal m (some gain) = do
    loss ← value_of m.average_loss
    rsi ← rsi_value gain loss
    ok (if le N rsi m.oversold then some up else if le N m.overbought rsi then some down else none)

  unfoldable pub rsi_direction : RsiEntry → Result (Option Direction)
  unfolding rsi_signal
  rsi_direction m = rsi_signal m m.average_gain

  -- `(average * (period - 1) + x) / period`
  unfoldable pub smooth : ℕ → F → F → Result F
  smooth period average x = divide N (add (mul average (of_ℕ (period - 1))) x) (of_ℕ period)

  -- A change is collected, or averaged in, by whether there is an average gain.
  unfoldable pub rsi_average : RsiEntry → Option F → F → F → Result RsiEntry
  rsi_average m none gain loss =
      let gains = m.gains ++ gain ∷ [] in
      let losses = m.losses ++ loss ∷ [] in
      if length gains == m.period
      then (do
        average_gain ← divide N (sum_of N gains) (of_ℕ m.period)
        average_loss ← divide N (sum_of N losses) (of_ℕ m.period)
        ok (record m {
          gains = gains;
          losses = losses;
          average_gain = some average_gain;
          average_loss = some average_loss;
        }))
      else ok (record m { gains = gains; losses = losses })
  rsi_average m (some average_gain) gain loss = do
    new_gain ← smooth m.period average_gain gain
    average_loss ← value_of m.average_loss
    new_loss ← smooth m.period average_loss loss
    ok (record m { average_gain = some new_gain; average_loss = some new_loss })

  -- The change from the previous close, if there is one.
  unfoldable pub rsi_change : RsiEntry → Option F → F → Result RsiEntry
  rsi_change m none close = ok m
  rsi_change m (some previous) close =
      let change = sub close previous in
      rsi_average m m.average_gain (max_of N change (of_ℕ 0)) (max_of N (neg change) (of_ℕ 0))

  unfoldable pub rsi_update : RsiEntry → F → Result RsiEntry
  unfolding rsi_change
  rsi_update m close = do
    changed ← rsi_change m m.previous_close close
    ok (record changed { previous_close = some close })

-- ===== src/Lab/Regime.antt =====
-- regime_models.py: the observer of the market regime, which never decides on a trade.
pub mod Window
use quantconnect.Prelude.{
  ℕ, ◌+◌, ◌==◌, ltb, Bool, Option, none, some, List, [], ◌∷◌, ◌++◌, String, str_eq, if◌then◌else◌,
  length, drop, Result, ok, err, value_error, raise_if, ◌>>=◌, ◌>>◌,
}
use quantconnect.Num.{Num, divide}
use quantconnect.Lab.Market.{Bar}
use quantconnect.Lab.Stats.{MarketRegime, positive, nonpositive, not_ready, unobserved}

module _ (N : Num) where
  open N use {F, lt, eq, sub, mul, of_ℕ}

  pub record RocSign : Type 0 where
    pub lookback : ℕ
    pub threshold_percent : F
    pub closes : List F

  pub data RegimeModel : Type 0 where
    no_regime : RegimeModel
    roc_sign : RocSign → RegimeModel

  unfoldable pub roc_ready : RocSign → Bool
  roc_ready m = length m.closes == (m.lookback + 1)

  unfoldable pub roc_take : RocSign → F → RocSign
  roc_take m close =
      let closes = m.closes ++ close ∷ [] in
      record m { closes = if ltb (m.lookback + 1) (length closes) then drop 1 closes else closes }

  -- `closes[-1]` of a list with a first item
  abbrev pub last_of : F → List F → F
  last_of x [] = x
  last_of x (y ∷ ys) = last_of y ys

  -- The rate of change of the window, whose length is at least two where it is ready.
  unfoldable pub roc_rate : List F → Result (Option F)
  roc_rate [] = ok none
  roc_rate (first ∷ rest) = if eq first (of_ℕ 0) then ok none else do
    ratio ← divide N (last_of first rest) first
    ok (some (mul (sub ratio (of_ℕ 1)) (of_ℕ 100)))

  unfoldable pub roc_telemetry : RocSign → Result (Option F)
  unfolding roc_ready roc_rate
  roc_telemetry m = if roc_ready m then roc_rate m.closes else ok none

  abbrev pub sign_of : F → Option F → MarketRegime
  sign_of threshold none = not_ready
  sign_of threshold (some value) = if lt threshold value then positive else nonpositive

  unfoldable pub market_regime : RegimeModel → Result MarketRegime
  unfolding roc_telemetry
  market_regime no_regime = ok unobserved
  market_regime (roc_sign m) = do value ← roc_telemetry m; ok (sign_of m.threshold_percent value)

  unfoldable pub regime_update : RegimeModel → Bar N → RegimeModel
  unfolding roc_take
  regime_update no_regime bar = no_regime
  regime_update (roc_sign m) bar = roc_sign (roc_take m bar.close)

  unfoldable pub create_regime : String → ℕ → F → Result RegimeModel
  create_regime name lookback threshold_percent =
      if str_eq name "none"
      then ok no_regime
      else if str_eq name "roc_sign"
      then (do
        raise_if (ltb lookback 1) value_error
        ok (
            roc_sign
              (record { lookback = lookback; threshold_percent = threshold_percent; closes = [] })))
      else err value_error

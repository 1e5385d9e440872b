-- ===== src/Lab/Filter.antt =====
-- filter_models.py: the filters behind one interface, and their factory. `FilterModelFactory.create`
-- receives the name that `main.py` has put in lower case.
mod Ema
mod Adx
mod Atr
pub mod Safety
unfoldable pub use Ema.*
unfoldable pub use Adx.*
unfoldable pub use Atr.*
use quantconnect.Prelude.{
  ℕ, Bool, true, Option, none, String, str_eq, if◌then◌else◌, Result, ok, err, value_error, ◌>>=◌,
}
use quantconnect.Num.{Num}
use quantconnect.Lab.Market.{Direction, Bar}

module _ (N : Num) where
  open N use {F}

  pub data FilterModel : Type 0 where
    no_filter : FilterModel
    ema_trend : EmaTrend N → FilterModel
    adx_strength : AdxStrength N → FilterModel
    atr_volatility : AtrVolatility N → FilterModel

  unfoldable pub is_ready : FilterModel → Bool
  unfolding ema_ready adx_ready atr_ready
  is_ready no_filter = true
  is_ready (ema_trend m) = ema_ready N m
  is_ready (adx_strength m) = adx_ready N m
  is_ready (atr_volatility m) = atr_ready N m

  unfoldable pub filter_update : FilterModel → Bar N → Result FilterModel
  unfolding ema_take adx_take atr_take
  filter_update no_filter bar = ok no_filter
  filter_update (ema_trend m) bar = ok (ema_trend (ema_take N m bar.close))
  filter_update (adx_strength m) bar = do taken ← adx_take N m bar; ok (adx_strength taken)
  filter_update (atr_volatility m) bar = do taken ← atr_take N m bar; ok (atr_volatility taken)

  unfoldable pub allow_trade : FilterModel → Direction → Result Bool
  unfolding ema_allows adx_allows atr_allows
  allow_trade no_filter direction = ok true
  allow_trade (ema_trend m) direction = ema_allows N m direction
  allow_trade (adx_strength m) direction = adx_allows N m
  allow_trade (atr_volatility m) direction = atr_allows N m

  unfoldable pub filter_regime : FilterModel → Result String
  unfolding ema_regime adx_regime atr_regime
  filter_regime no_filter = ok "none"
  filter_regime (ema_trend m) = ema_regime N m
  filter_regime (adx_strength m) = adx_regime N m
  filter_regime (atr_volatility m) = atr_regime N m

  unfoldable pub filter_telemetry : FilterModel → Option F
  filter_telemetry (atr_volatility m) = m.atr_percent
  filter_telemetry _ = none

  -- The arguments of `FilterModelFactory.create`.
  pub record FilterOptions : Type 0 where
    pub filter_model : String
    pub ema_fast : ℕ
    pub ema_slow : ℕ
    pub adx_period : ℕ
    pub adx_threshold : F
    pub atr_period : ℕ
    pub atr_min_pct : F
    pub atr_max_pct : F

  unfoldable pub create_filter : FilterOptions → Result FilterModel
  unfolding new_ema_trend new_adx_strength new_atr_volatility
  create_filter o =
      if str_eq o.filter_model "none"
      then ok no_filter
      else if str_eq o.filter_model "ema_trend"
      then (do m ← new_ema_trend N o.ema_fast o.ema_slow; ok (ema_trend m))
      else if str_eq o.filter_model "adx_strength"
      then (do m ← new_adx_strength N o.adx_period o.adx_threshold; ok (adx_strength m))
      else if str_eq o.filter_model "atr_volatility"
      then (do
        m ← new_atr_volatility N o.atr_period o.atr_min_pct o.atr_max_pct
        ok (atr_volatility m))
      else err value_error

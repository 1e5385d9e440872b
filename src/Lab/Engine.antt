-- ===== src/Lab/Engine.antt =====
-- main.py: the state of `QuantConnectResearchLab` that a bar changes, its set-up from the factories,
-- and the handler `OnPolymarketBar`. The chart calls of `PlotStateIfDue` and the debug lines only
-- show the state and are left out.
pub mod Accounts
pub mod Run
pub mod Decision
pub mod Lookahead
pub mod Bankroll
pub mod Payable
use quantconnect.Prelude.{
  ℕ, Bool, false, Option, none, some, String, str_eq, if◌then◌else◌, Result, ok, ◌>>=◌,
}
use quantconnect.Num.{Num}
use quantconnect.Lab.Market.{Direction, up, down, Bar, before_day}
use quantconnect.Lab.Stake.{StakeModel, get_wager, create_stake}
use quantconnect.Lab.Risk.{RiskTracker, init_risk, can_place_wager, record_trade}
use quantconnect.Lab.Stats.{
  StatsTracker, init_stats, MarketRegime, record_bar, record_no_direction, record_tie,
  record_signal, record_filter_not_ready, record_filter_rejected, record_filter_signal_value,
  record_executed, record_ruined_skip, record_trade_result,
}
use quantconnect.Lab.Entry.{EntryModel, get_direction, EntryOptions, create_entry}
use quantconnect.Lab.Filter.{
  FilterModel, is_ready, filter_update, allow_trade, filter_regime, filter_telemetry, FilterOptions,
  create_filter,
}
use quantconnect.Lab.Regime.{RegimeModel, market_regime, regime_update, create_regime}

module _ (N : Num) where
  open N use {F, lt, eq}

  pub record Engine : Type 0 where
    pub start_year : ℕ
    pub start_month : ℕ
    pub start_day : ℕ
    pub is_martingale : Bool
    pub entry_model : EntryModel N
    pub stake_model : StakeModel N
    pub filter_model : FilterModel N
    pub regime_model : RegimeModel N
    pub risk : RiskTracker N
    pub stats : StatsTracker N

  -- The parameters that `Initialize` hands to the factories, texts in lower case.
  pub record Options : Type 0 where
    pub start_year : ℕ
    pub start_month : ℕ
    pub start_day : ℕ
    pub entry : EntryOptions N
    pub filter : FilterOptions N
    pub stake_mode : String
    pub base_wager : F
    pub multiplier : F
    pub bankroll : F
    pub max_steps : ℕ
    pub regime_model : String
    pub regime_lookback : ℕ
    pub regime_threshold : F

  unfoldable pub initialize : Options → Result Engine
  unfolding create_entry create_stake create_filter create_regime init_risk
  initialize o = do
    entry ← create_entry N o.entry
    stake ← create_stake N o.stake_mode o.base_wager o.multiplier
    filter ← create_filter N o.filter
    regime ← create_regime N o.regime_model o.regime_lookback o.regime_threshold
    ok (record {
      start_year = o.start_year;
      start_month = o.start_month;
      start_day = o.start_day;
      is_martingale = str_eq o.stake_mode "martingale";
      entry_model = entry;
      stake_model = stake;
      filter_model = filter;
      regime_model = regime;
      risk = init_risk N o.bankroll o.max_steps;
      stats = init_stats N;
    })

  -- A bar before the evaluation start only warms the models up.
  unfoldable pub warm_up : Engine → Bar N → Result Engine
  warm_up e bar = do
    answered ← get_direction N e.entry_model bar
    filter ← filter_update N e.filter_model bar
    ok (record e {
      entry_model = answered.1;
      filter_model = filter;
      regime_model = regime_update N e.regime_model bar;
    })

  -- `won`, on a bar that did not close where it opened.
  abbrev pub has_won : Direction → Bar N → Bool
  has_won up bar = lt bar.open_price bar.close
  has_won down bar = lt bar.close bar.open_price

  -- The trade: the check of its wager against the bankroll, and its result.
  unfoldable pub place :
      RiskTracker N
      → StatsTracker N
      → F
      → Bool
      → Bar N
      → ℕ
      → Direction
      → String
      → MarketRegime
      → RiskTracker N × StatsTracker N
  unfolding can_place_wager
  place risk stats wager is_martingale bar time direction regime market =
      let recovery_level = risk.loss_step in
      let won = has_won direction bar in
      let (allowed, checked) = can_place_wager N risk wager (some time) in
      if allowed
      then (
        (record_trade N checked won wager (some time) is_martingale).0,
        record_trade_result N (record_executed N stats direction) direction won wager recovery_level
            regime market,
      )
      else (checked, stats)

  -- What follows the models' update: the early returns of the handler, in their order, and the wager
  -- of the trade, whose power may be too large.
  unfoldable pub decide :
      RiskTracker N
      → StatsTracker N
      → StakeModel N
      → Bool
      → Bar N
      → ℕ
      → Option Direction
      → Bool
      → Bool
      → Option F
      → String
      → MarketRegime
      → Result (RiskTracker N × StatsTracker N)
  unfolding get_wager place record_signal record_filter_signal_value record_filter_not_ready
      record_filter_rejected record_tie record_no_direction
  decide risk stats stake martingale bar time none ready allowed telemetry regime market =
      ok (risk, record_no_direction N stats)
  decide risk stats stake martingale bar time (some direction) ready allowed telemetry regime
        market =
      let seen = record_filter_signal_value N (record_signal N stats direction) telemetry in
      if ready
      then (if allowed
          then (if eq bar.close bar.open_price
              then ok (risk, record_tie N seen)
              else (get_wager N stake risk.loss_step >>= λ wager.
                  ok (place risk seen wager martingale bar time direction regime market)))
          else ok (risk, record_filter_rejected N seen))
      else ok (risk, record_filter_not_ready N seen)

  -- `filter_allowed`: the filter is asked only for a direction, and only when it is ready.
  unfoldable pub ask_filter : FilterModel N → Option Direction → Bool → Result Bool
  ask_filter model none ready = ok false
  ask_filter model (some direction) ready =
      if ready then allow_trade N model direction else ok false

  -- The handler from the entry model's decision on.
  unfoldable pub trade_bar : Engine → Bar N → ℕ → Result Engine
  unfolding ask_filter decide
  trade_bar e bar time = do
    answered ← get_direction N e.entry_model bar
    let ready = is_ready N e.filter_model
    regime ← filter_regime N e.filter_model
    market ← market_regime N e.regime_model
    allowed ← ask_filter e.filter_model answered.0 ready
    filter ← filter_update N e.filter_model bar
    decided ←
        decide e.risk e.stats e.stake_model e.is_martingale bar time answered.0 ready allowed
          (filter_telemetry N e.filter_model) regime market
    ok (record e {
      entry_model = answered.1;
      filter_model = filter;
      regime_model = regime_update N e.regime_model bar;
      risk = decided.0;
      stats = decided.1;
    })

  -- `OnPolymarketBar`
  unfoldable pub on_bar : Engine → Bar N → ℕ → Result Engine
  unfolding warm_up trade_bar record_bar record_ruined_skip
  on_bar e bar time =
      if before_day N bar e.start_year e.start_month e.start_day
      then warm_up e bar
      else (let seen = record e { stats = record_bar N e.stats } in
          if e.risk.ruined
          then ok (record seen { stats = record_ruined_skip N seen.stats })
          else trade_bar seen bar time)

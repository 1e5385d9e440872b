-- ===== src/Lab/Stats.antt =====
-- stats_models.py: the counters of a run. A dict with fixed keys (`direction_stats`, the regimes of
-- `market_regime_stats`) is a record; a dict that grows (`recovery_level_counts`, `regime_stats`)
-- is a list of its items in insertion order.
pub mod Tally
pub mod Rates
use quantconnect.Prelude.{
  ℕ, ◌+◌, ◌==◌, max, Bool, true, false, Option, none, some, List, [], ◌∷◌, ◌++◌, String, str_eq,
  if◌then◌else◌,
}
use quantconnect.Num.{Num, max_of}
use quantconnect.Lab.Market.{Direction, is_up, is_down}

-- What `regime_model.regime()` answers.
pub data MarketRegime : Type 0 where
  positive nonpositive not_ready unobserved : MarketRegime

-- `counts[k] = counts.get(k, 0) + 1`
unfoldable pub count_level : List (ℕ × ℕ) → ℕ → List (ℕ × ℕ)
count_level [] k = (k, 1) ∷ []
count_level ((j, n) ∷ h) k = if j == k then (j, n + 1) ∷ h else (j, n) ∷ count_level h k

module _ (N : Num) where
  open N use {F, lt, eq, add, sub, of_ℕ}

  pub record DirectionStats : Type 0 where
    pub trades : ℕ
    pub wins : ℕ
    pub losses : ℕ
    pub total_wagered : F
    pub net_profit : F
    pub peak_profit : F
    pub max_drawdown : F
    pub current_loss_streak : ℕ
    pub max_loss_streak : ℕ

  pub record RegimeContext : Type 0 where
    pub trades : ℕ
    pub wins : ℕ
    pub losses : ℕ
    pub net_profit : F

  pub record MarketContexts : Type 0 where
    pub positive_bars : RegimeContext
    pub nonpositive_bars : RegimeContext
    pub not_ready_bars : RegimeContext

  -- A row of `regime_stats`.
  pub record RegimeRow : Type 0 where
    pub trades : ℕ
    pub wins : ℕ
    pub losses : ℕ
    pub ups : ℕ
    pub downs : ℕ
    pub total_wagered : F

  abbrev pub RegimeTable : Type 0
  RegimeTable = List (String × RegimeRow)

  pub record StatsTracker : Type 0 where
    pub bars_seen : ℕ
    pub signals_generated : ℕ
    pub signals_executed : ℕ
    pub skipped_no_direction : ℕ
    pub skipped_filter_not_ready : ℕ
    pub skipped_filter_rejected : ℕ
    pub skipped_tie : ℕ
    pub skipped_ruined : ℕ
    pub up_signals : ℕ
    pub down_signals : ℕ
    pub up_executed : ℕ
    pub down_executed : ℕ
    pub executed_wins : ℕ
    pub executed_losses : ℕ
    pub total_wagered : F
    pub max_wager_seen : F
    pub recovery_level_counts : List (ℕ × ℕ)
    pub regime_stats : RegimeTable
    pub filter_signal_values : List F
    pub up_stats : DirectionStats
    pub down_stats : DirectionStats
    pub up_contexts : MarketContexts
    pub down_contexts : MarketContexts

  abbrev pub new_direction_stats : DirectionStats
  new_direction_stats = record {
    trades = 0;
    wins = 0;
    losses = 0;
    total_wagered = of_ℕ 0;
    net_profit = of_ℕ 0;
    peak_profit = of_ℕ 0;
    max_drawdown = of_ℕ 0;
    current_loss_streak = 0;
    max_loss_streak = 0;
  }

  abbrev pub new_market_regime_stats : RegimeContext
  new_market_regime_stats = record { trades = 0; wins = 0; losses = 0; net_profit = of_ℕ 0 }

  abbrev pub new_contexts : MarketContexts
  new_contexts = record {
    positive_bars = new_market_regime_stats;
    nonpositive_bars = new_market_regime_stats;
    not_ready_bars = new_market_regime_stats;
  }

  abbrev pub init_stats : StatsTracker
  init_stats = record {
    bars_seen = 0;
    signals_generated = 0;
    signals_executed = 0;
    skipped_no_direction = 0;
    skipped_filter_not_ready = 0;
    skipped_filter_rejected = 0;
    skipped_tie = 0;
    skipped_ruined = 0;
    up_signals = 0;
    down_signals = 0;
    up_executed = 0;
    down_executed = 0;
    executed_wins = 0;
    executed_losses = 0;
    total_wagered = of_ℕ 0;
    max_wager_seen = of_ℕ 0;
    recovery_level_counts = [];
    regime_stats = [];
    filter_signal_values = [];
    up_stats = new_direction_stats;
    down_stats = new_direction_stats;
    up_contexts = new_contexts;
    down_contexts = new_contexts;
  }

  unfoldable pub record_bar : StatsTracker → StatsTracker
  record_bar s = record s { bars_seen = s.bars_seen + 1 }

  unfoldable pub record_no_direction : StatsTracker → StatsTracker
  record_no_direction s = record s { skipped_no_direction = s.skipped_no_direction + 1 }

  unfoldable pub record_tie : StatsTracker → StatsTracker
  record_tie s = record s { skipped_tie = s.skipped_tie + 1 }

  unfoldable pub record_filter_not_ready : StatsTracker → StatsTracker
  record_filter_not_ready s = record s { skipped_filter_not_ready = s.skipped_filter_not_ready + 1 }

  unfoldable pub record_filter_rejected : StatsTracker → StatsTracker
  record_filter_rejected s = record s { skipped_filter_rejected = s.skipped_filter_rejected + 1 }

  unfoldable pub record_ruined_skip : StatsTracker → StatsTracker
  record_ruined_skip s = record s { skipped_ruined = s.skipped_ruined + 1 }

  unfoldable pub record_signal : StatsTracker → Direction → StatsTracker
  record_signal s direction = record s {
    signals_generated = s.signals_generated + 1;
    up_signals = if is_up direction then s.up_signals + 1 else s.up_signals;
    down_signals = if is_down direction then s.down_signals + 1 else s.down_signals;
  }

  unfoldable pub record_executed : StatsTracker → Direction → StatsTracker
  record_executed s direction = record s {
    signals_executed = s.signals_executed + 1;
    up_executed = if is_up direction then s.up_executed + 1 else s.up_executed;
    down_executed = if is_down direction then s.down_executed + 1 else s.down_executed;
  }

  -- A value that is not equal to itself is a NaN, and is not kept.
  unfoldable pub record_filter_signal_value : StatsTracker → Option F → StatsTracker
  record_filter_signal_value s none = s
  record_filter_signal_value s (some value) =
      if eq value value
      then record s { filter_signal_values = s.filter_signal_values ++ value ∷ [] }
      else s

  -- `side` of `record_trade_result`, up to the peak.
  unfoldable pub side_outcome : DirectionStats → Bool → F → DirectionStats
  side_outcome side true wager = record side {
    trades = side.trades + 1;
    total_wagered = add side.total_wagered wager;
    wins = side.wins + 1;
    net_profit = add side.net_profit wager;
    current_loss_streak = 0;
  }
  side_outcome side false wager = record side {
    trades = side.trades + 1;
    total_wagered = add side.total_wagered wager;
    losses = side.losses + 1;
    net_profit = sub side.net_profit wager;
    current_loss_streak = side.current_loss_streak + 1;
    max_loss_streak = max side.max_loss_streak (side.current_loss_streak + 1);
  }

  unfoldable pub side_peak : DirectionStats → DirectionStats
  side_peak side =
      let peak = max_of N side.peak_profit side.net_profit in
      record side {
        peak_profit = peak;
        max_drawdown = max_of N side.max_drawdown (sub peak side.net_profit);
      }

  unfoldable pub side_trade : DirectionStats → Bool → F → DirectionStats
  unfolding side_outcome side_peak
  side_trade side won wager = side_peak (side_outcome side won wager)

  unfoldable pub context_trade : RegimeContext → Bool → F → RegimeContext
  context_trade c true wager = record c {
    trades = c.trades + 1;
    wins = c.wins + 1;
    net_profit = add c.net_profit wager;
  }
  context_trade c false wager = record c {
    trades = c.trades + 1;
    losses = c.losses + 1;
    net_profit = sub c.net_profit wager;
  }

  -- A regime that is no key of the dict leaves it alone.
  unfoldable pub contexts_trade : MarketContexts → MarketRegime → Bool → F → MarketContexts
  unfolding context_trade
  contexts_trade m positive won wager = record m {
    positive_bars = context_trade m.positive_bars won wager;
  }
  contexts_trade m nonpositive won wager = record m {
    nonpositive_bars = context_trade m.nonpositive_bars won wager;
  }
  contexts_trade m not_ready won wager = record m {
    not_ready_bars = context_trade m.not_ready_bars won wager;
  }
  contexts_trade m unobserved won wager = m

  abbrev pub new_row : RegimeRow
  new_row = record { trades = 0; wins = 0; losses = 0; ups = 0; downs = 0; total_wagered = of_ℕ 0 }

  unfoldable pub row_trade : RegimeRow → Direction → Bool → F → RegimeRow
  row_trade r direction won wager = record r {
    trades = r.trades + 1;
    total_wagered = add r.total_wagered wager;
    wins = if won then r.wins + 1 else r.wins;
    losses = if won then r.losses else r.losses + 1;
    ups = if is_up direction then r.ups + 1 else r.ups;
    downs = if is_down direction then r.downs + 1 else r.downs;
  }

  unfoldable pub table_trade : RegimeTable → String → Direction → Bool → F → RegimeTable
  unfolding row_trade
  table_trade [] regime direction won wager = (regime, row_trade new_row direction won wager) ∷ []
  table_trade ((k, r) ∷ t) regime direction won wager =
      if str_eq k regime
      then (k, row_trade r direction won wager) ∷ t
      else (k, r) ∷ table_trade t regime direction won wager

  unfoldable pub record_trade_result :
      StatsTracker → Direction → Bool → F → ℕ → String → MarketRegime → StatsTracker
  unfolding side_trade contexts_trade table_trade count_level
  record_trade_result s direction won wager recovery_level regime market_regime = record s {
    executed_wins = if won then s.executed_wins + 1 else s.executed_wins;
    executed_losses = if won then s.executed_losses else s.executed_losses + 1;
    total_wagered = add s.total_wagered wager;
    max_wager_seen = max_of N s.max_wager_seen wager;
    up_stats = if is_up direction then side_trade s.up_stats won wager else s.up_stats;
    down_stats = if is_down direction then side_trade s.down_stats won wager else s.down_stats;
    up_contexts =
        if is_up direction
        then contexts_trade s.up_contexts market_regime won wager
        else s.up_contexts;
    down_contexts =
        if is_down direction
        then contexts_trade s.down_contexts market_regime won wager
        else s.down_contexts;
    recovery_level_counts = count_level s.recovery_level_counts recovery_level;
    regime_stats = table_trade s.regime_stats regime direction won wager;
  }

-- ===== src/Lab/Stats/Tally.antt =====
-- stats_models.py: how the counters of a run agree with its tables.
use quantconnect.Prelude.{ℕ, ◌+◌, ◌≤◌, ◌≡◌, Bool, true, false, List, [], ◌∷◌, String, arith}
use quantconnect.Num.{Num}
use quantconnect.Lab.Market.{Direction, up, down}
use quantconnect.Lab.Stats.{
  StatsTracker, DirectionStats, MarketContexts, RegimeRow, RegimeTable, MarketRegime, positive,
  nonpositive, not_ready, unobserved, count_level, side_trade, contexts_trade, new_row, row_trade,
  table_trade, init_stats, record_signal, record_executed, record_trade_result,
}

abbrev pub levels_total : List (ℕ × ℕ) → ℕ
levels_total [] = 0
levels_total ((_, n) ∷ h) = n + levels_total h

levels_total-count_level :
    (h : List (ℕ × ℕ)) (k : ℕ) → levels_total (count_level h k) ≡ levels_total h + 1
unfolding count_level
levels_total-count_level [] k = omega arith
levels_total-count_level ((j, n) ∷ h) k = ground (arith, levels_total-count_level h k)

module _ {N : Num} where
  abbrev pub table_total : RegimeTable N → ℕ
  table_total [] = 0
  table_total ((_, r) ∷ t) = r.trades + table_total t

  -- A row counts each trade once by its result and once by its direction.
  pub record IsRow (r : RegimeRow N) : Type 0 where
    pub by_result : r.trades ≡ r.wins + r.losses
    pub by_direction : r.trades ≡ r.ups + r.downs

  abbrev pub AreRows : RegimeTable N → Type 0
  AreRows [] = Unit
  AreRows ((_, r) ∷ t) = IsRow r × AreRows t

  pub record IsSide (d : DirectionStats N) : Type 0 where
    pub by_result : d.trades ≡ d.wins + d.losses

  -- The trades of the three regimes of one direction.
  abbrev pub contexts_total : MarketContexts N → ℕ
  contexts_total m = m.positive_bars.trades + m.nonpositive_bars.trades + m.not_ready_bars.trades

  row_trade-IsRow :
      (r : RegimeRow N) (d : Direction) (won : Bool) (wager : N.F)
      → IsRow r
      → IsRow (row_trade N r d won wager)
  unfolding row_trade
  row_trade-IsRow r up true wager h = omega arith
  row_trade-IsRow r up false wager h = omega arith
  row_trade-IsRow r down true wager h = omega arith
  row_trade-IsRow r down false wager h = omega arith

  trades-row_trade :
      (r : RegimeRow N) (d : Direction) (won : Bool) (wager : N.F)
      → (row_trade N r d won wager).trades ≡ r.trades + 1
  unfolding row_trade
  trades-row_trade r d won wager = omega arith

  table_total-table_trade :
      (t : RegimeTable N) (regime : String) (d : Direction) (won : Bool) (wager : N.F)
      → table_total (table_trade N t regime d won wager) ≡ table_total t + 1
  unfolding table_trade
  table_total-table_trade [] regime d won wager = omega arith
  table_total-table_trade ((k, r) ∷ t) regime d won wager =
      ground (arith, table_total-table_trade t regime d won wager)

  table_trade-AreRows :
      (t : RegimeTable N) (regime : String) (d : Direction) (won : Bool) (wager : N.F)
      → AreRows t
      → AreRows (table_trade N t regime d won wager)
  unfolding table_trade
  table_trade-AreRows [] regime d won wager h =
      (row_trade-IsRow (new_row N) d won wager (omega arith), tt)
  table_trade-AreRows ((k, r) ∷ t) regime d won wager h =
      ground
        (arith, row_trade-IsRow r d won wager h.0, table_trade-AreRows t regime d won wager h.1)

  side_trade_counts :
      (s : DirectionStats N) (won : Bool) (wager : N.F)
      → IsSide s
      → IsSide (side_trade N s won wager) × ((side_trade N s won wager).trades ≡ s.trades + 1)
  unfolding side_trade
  side_trade_counts s true wager h = (omega arith, omega arith)
  side_trade_counts s false wager h = (omega arith, omega arith)

  contexts_total-contexts_trade :
      (m : MarketContexts N) (regime : MarketRegime) (won : Bool) (wager : N.F)
      → contexts_total (contexts_trade N m regime won wager) ≤ contexts_total m + 1
  unfolding contexts_trade
  contexts_total-contexts_trade m positive won wager = ground arith
  contexts_total-contexts_trade m nonpositive won wager = ground arith
  contexts_total-contexts_trade m not_ready won wager = ground arith
  contexts_total-contexts_trade m unobserved won wager = ground arith

  -- What the counters of a run say of one another.
  pub record IsTallied (s : StatsTracker N) : Type 0 where
    pub signals : s.signals_generated ≡ s.up_signals + s.down_signals
    pub executed : s.signals_executed ≡ s.up_executed + s.down_executed
    pub sides : s.executed_wins + s.executed_losses ≡ s.up_stats.trades + s.down_stats.trades
    pub up_side : IsSide s.up_stats
    pub down_side : IsSide s.down_stats
    pub levels : s.executed_wins + s.executed_losses ≡ levels_total s.recovery_level_counts
    pub regimes : s.executed_wins + s.executed_losses ≡ table_total s.regime_stats
    pub rows : AreRows s.regime_stats
    pub up_observed : contexts_total s.up_contexts ≤ s.up_stats.trades
    pub down_observed : contexts_total s.down_contexts ≤ s.down_stats.trades

  pub IsTallied-init : IsTallied (init_stats N)
  IsTallied-init = omega arith

  pub record_signal-IsTallied :
      (s : StatsTracker N) (d : Direction) → IsTallied s → IsTallied (record_signal N s d)
  unfolding record_signal
  record_signal-IsTallied s up h = ground arith
  record_signal-IsTallied s down h = ground arith

  pub record_executed-IsTallied :
      (s : StatsTracker N) (d : Direction) → IsTallied s → IsTallied (record_executed N s d)
  unfolding record_executed
  record_executed-IsTallied s up h = ground arith
  record_executed-IsTallied s down h = ground arith

  -- A recorded trade keeps the counters and the tables of a run in agreement: the wins and losses
  -- are the trades of the two directions, the counts of the recovery levels and the trades of the
  -- filter regimes, and each regime's row counts its trades once by result and once by direction,
  -- and the trades seen in an observed market regime are no more than those of their direction.
  pub record_trade_result-IsTallied :
      (s : StatsTracker N) (d : Direction) (won : Bool) (wager : N.F) (level : ℕ) (regime : String)
      (market : MarketRegime)
      → IsTallied s
      → IsTallied (record_trade_result N s d won wager level regime market)
  unfolding record_trade_result
  record_trade_result-IsTallied s up true wager level regime market h = ground (
    arith,
    levels_total-count_level s.recovery_level_counts level,
    table_total-table_trade s.regime_stats regime up true wager,
    table_trade-AreRows s.regime_stats regime up true wager h.rows,
    side_trade_counts s.up_stats true wager h.up_side,
    contexts_total-contexts_trade s.up_contexts market true wager,
  )
  record_trade_result-IsTallied s up false wager level regime market h = ground (
    arith,
    levels_total-count_level s.recovery_level_counts level,
    table_total-table_trade s.regime_stats regime up false wager,
    table_trade-AreRows s.regime_stats regime up false wager h.rows,
    side_trade_counts s.up_stats false wager h.up_side,
    contexts_total-contexts_trade s.up_contexts market false wager,
  )
  record_trade_result-IsTallied s down true wager level regime market h = ground (
    arith,
    levels_total-count_level s.recovery_level_counts level,
    table_total-table_trade s.regime_stats regime down true wager,
    table_trade-AreRows s.regime_stats regime down true wager h.rows,
    side_trade_counts s.down_stats true wager h.down_side,
    contexts_total-contexts_trade s.down_contexts market true wager,
  )
  record_trade_result-IsTallied s down false wager level regime market h = ground (
    arith,
    levels_total-count_level s.recovery_level_counts level,
    table_total-table_trade s.regime_stats regime down false wager,
    table_trade-AreRows s.regime_stats regime down false wager h.rows,
    side_trade_counts s.down_stats false wager h.down_side,
    contexts_total-contexts_trade s.down_contexts market false wager,
  )

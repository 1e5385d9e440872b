-- ===== src/Lab/Stats/Rates.antt =====
-- stats_models.py: the rates of a run. Each is 0 where its divisor would be 0.
use quantconnect.Prelude.{◌+◌, ◌==◌, if◌then◌else◌}
use quantconnect.Num.{Num}
use quantconnect.Lab.Stats.{StatsTracker}

module _ (N : Num) where
  open N use {F, div, of_ℕ}

  unfoldable pub filter_rate : StatsTracker N → F
  filter_rate s =
      if s.signals_generated == 0
      then of_ℕ 0
      else div (of_ℕ (s.skipped_filter_not_ready + s.skipped_filter_rejected))
          (of_ℕ s.signals_generated)

  unfoldable pub execution_rate : StatsTracker N → F
  execution_rate s =
      if s.signals_generated == 0
      then of_ℕ 0
      else div (of_ℕ s.signals_executed) (of_ℕ s.signals_generated)

  unfoldable pub executed_win_rate : StatsTracker N → F
  executed_win_rate s =
      if s.signals_executed == 0
      then of_ℕ 0
      else div (of_ℕ s.executed_wins) (of_ℕ s.signals_executed)

  unfoldable pub average_wager : StatsTracker N → F
  average_wager s =
      if s.signals_executed == 0 then of_ℕ 0 else div s.total_wagered (of_ℕ s.signals_executed)

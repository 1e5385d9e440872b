-- ===== src/Tests/Trades.antt =====
-- risk_models.py and stats_models.py: trades over the integers.
use quantconnect.Prelude.{◌≡◌, refl, true, false, some}
use quantconnect.Prelude.Int.{pos, ◌-ℤ◌}
use quantconnect.Num.Integers.{int_num, int_num-IsOrdered}
use quantconnect.Lab.Market.{up}
use quantconnect.Lab.Risk.{RiskTracker, init_risk, can_place_wager, record_trade, finalize}
use quantconnect.Lab.Risk.Counts.{
  IsCounted, IsCounted-init, record_trade-IsCounted, covered, sum, finalize_covers,
}
use quantconnect.Lab.Risk.Money.{IsSolvent, record_trade-IsSolvent}
use quantconnect.Lab.Stats.{init_stats, positive, record_trade_result}
use quantconnect.Lab.Stats.Tally.{IsTallied, IsTallied-init, record_trade_result-IsTallied}

abbrev tracker : RiskTracker int_num
tracker = init_risk int_num (pos 100) 3

-- The tracker after a lost martingale trade of 5.
abbrev lost : RiskTracker int_num
lost = (record_trade int_num tracker false (pos 5) (some 7) true).0

lost-IsCounted : IsCounted lost
lost-IsCounted =
    record_trade-IsCounted tracker false (pos 5) (some 7) true (IsCounted-init (pos 100) 3)

record_trade-IsCounted_example : IsCounted (record_trade int_num lost true (pos 10) (some 8) true).0
record_trade-IsCounted_example =
    record_trade-IsCounted lost true (pos 10) (some 8) true lost-IsCounted

finalize_covers_example :
    (covered (finalize int_num lost).win_streak_histogram ≡ lost.wins)
    × (covered (finalize int_num lost).loss_streak_histogram ≡ lost.losses)
    × (sum (finalize int_num lost).recovery_depths ≡ lost.losses)
finalize_covers_example = finalize_covers lost lost-IsCounted

tracker-IsSolvent : IsSolvent int_num-IsOrdered tracker
unfolding init_risk ◌-ℤ◌
tracker-IsSolvent = record { nonneg = refl; below_peak = refl; started = refl; drawdown = refl }

five_allowed : (can_place_wager int_num tracker (pos 5) (some 7)).0 ≡ true
unfolding can_place_wager init_risk
five_allowed = refl

record_trade-IsSolvent_example :
    IsSolvent int_num-IsOrdered
      (record_trade int_num
        (can_place_wager int_num tracker (pos 5) (some 7)).1
        false
        (pos 5)
        (some 7)
        true).0
record_trade-IsSolvent_example =
    record_trade-IsSolvent int_num-IsOrdered tracker false (pos 5) (some 7) true tracker-IsSolvent
      refl five_allowed

record_trade_result-IsTallied_example :
    IsTallied (record_trade_result int_num (init_stats int_num) up true (pos 5) 2 "up" positive)
record_trade_result-IsTallied_example =
    record_trade_result-IsTallied (init_stats int_num) up true (pos 5) 2 "up" positive
      IsTallied-init

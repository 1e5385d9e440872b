-- ===== src/Tests/Models.antt =====
-- entry_models.py, filter_models.py and regime_models.py: the models at concrete states.
use quantconnect.Prelude.{◌≡◌, refl, Option, none, some, List, [], ◌∷◌, arith, Returns}
use quantconnect.Prelude.Int.{pos}
use quantconnect.Num.Integers.{int_num, int_num-IsOrdered, int_num-IsSigned}
use quantconnect.Lab.Market.{Direction, up, down}
use quantconnect.Lab.Entry.{EntryModel, follow, rsi_entry, streak_direction, get_direction}
use quantconnect.Lab.Entry.Safety
use quantconnect.Lab.Entry.History.{
  observe, directions, history_direction, streak_direction_history,
}
use quantconnect.Lab.Filter.{FilterModel, adx_strength, filter_update}
use quantconnect.Lab.Filter.Safety as FilterSafety
use quantconnect.Lab.Regime.{roc_sign, market_regime}
use quantconnect.Lab.Regime.Window.{take_closes, window, history_regime, market_regime_history}
use quantconnect.Tests.Trading.{rising}

abbrev candles : List (Option Direction)
candles = some down ∷ some up ∷ none ∷ some up ∷ []

streak_direction_history_example :
    streak_direction
      (observe (record { streak_length = 2; streak_mode = follow; recent_directions = [] }) candles)
    ≡ history_direction 2 follow (directions candles)
streak_direction_history_example = streak_direction_history 2 follow candles

market_regime_history_example :
    market_regime int_num (
      roc_sign
        (take_closes int_num (window int_num 1 (pos 0) []) (pos 100 ∷ pos 90 ∷ pos 120 ∷ [])))
    ≡ history_regime int_num 1 (pos 0) (pos 100 ∷ pos 90 ∷ pos 120 ∷ [])
market_regime_history_example =
    market_regime_history int_num 1 (pos 0) (pos 100 ∷ pos 90 ∷ pos 120 ∷ [])

-- A relative strength index whose window is about to fill up.
abbrev rsi : EntryModel int_num
rsi = rsi_entry (record {
  period = 3;
  oversold = pos 30;
  overbought = pos 70;
  previous_close = some (pos 100);
  gains = pos 4 ∷ pos 0 ∷ [];
  losses = pos 0 ∷ pos 2 ∷ [];
  average_gain = none;
  average_loss = none;
})

get_direction-Returns_example :
    Returns (λ out. Safety.IsValid out.1) (get_direction int_num rsi rising)
get_direction-Returns_example =
    Safety.get_direction-Returns int_num-IsOrdered int_num-IsSigned rsi rising (record {
      period_pos = ground arith;
      together = refl;
      gain = tt;
      loss = tt;
      gains = (refl, (refl, tt));
      losses = (refl, (refl, tt));
    })

-- A directional index that has seen one bar and whose sums are smoothed with the next one.
abbrev adx : FilterModel int_num
adx = adx_strength (record {
  period = 2;
  threshold = pos 20;
  previous_high = some (pos 105);
  previous_low = some (pos 95);
  previous_close = some (pos 100);
  true_ranges = pos 10 ∷ [];
  positive_dm = pos 3 ∷ [];
  negative_dm = pos 0 ∷ [];
  dx_values = [];
  smoothed_true_range = none;
  smoothed_positive_dm = none;
  smoothed_negative_dm = none;
  adx_value = some (pos 25);
})

adx-IsValid : FilterSafety.IsValid adx
adx-IsValid = record {
  period_pos = ground arith;
  high_set = refl;
  low_set = refl;
  positive_set = refl;
  negative_set = refl;
}

filter_update-Returns_example : Returns FilterSafety.IsValid (filter_update int_num adx rising)
filter_update-Returns_example =
    FilterSafety.filter_update-Returns int_num-IsOrdered int_num-IsSigned adx rising adx-IsValid

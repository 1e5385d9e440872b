-- ===== src/Lab/Entry/Candles.antt =====
-- entry_models.py: the models that read the directions of past candles.
use quantconnect.Prelude.{
  ℕ, ltb, leb, Option, none, some, List, ◌∷◌, [], ◌++◌, if◌then◌else◌, length, take_last, all,
}
use quantconnect.Lab.Market.{Direction, up, down, is_up, is_down, opposite}

pub data StreakMode : Type 0 where
  follow reverse : StreakMode

pub record CandleStreak : Type 0 where
  pub streak_length : ℕ
  pub streak_mode : StreakMode
  pub recent_directions : List Direction

-- The direction to trade after a run of candles in one direction.
unfoldable pub streak_signal : StreakMode → Direction → Direction
streak_signal follow d = d
streak_signal reverse d = opposite d

-- The signal of `CandleStreakEntryModel.get_direction`, read before the bar is taken in.
unfoldable pub streak_direction : CandleStreak → Option Direction
unfolding streak_signal
streak_direction m =
    if leb m.streak_length (length m.recent_directions)
    then (let recent = take_last m.streak_length m.recent_directions in
        if all is_up recent
        then some (streak_signal m.streak_mode up)
        else if all is_down recent
        then some (streak_signal m.streak_mode down)
        else none)
    else none

-- `append` where the candle has a direction.
unfoldable pub push_direction : List Direction → Option Direction → List Direction
push_direction recent none = recent
push_direction recent (some d) = recent ++ d ∷ []

unfoldable pub streak_update : CandleStreak → Option Direction → CandleStreak
unfolding push_direction
streak_update m d =
    let recent = push_direction m.recent_directions d in
    record m {
      recent_directions =
          if ltb m.streak_length (length recent) then take_last m.streak_length recent else recent;
    }

-- The `previous_direction` of the two previous-candle models.
unfoldable pub previous_update : Option Direction → Option Direction → Option Direction
previous_update previous none = previous
previous_update previous (some d) = some d

unfoldable pub reverse_direction : Option Direction → Option Direction
reverse_direction none = none
reverse_direction (some d) = some (opposite d)

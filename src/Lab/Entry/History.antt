-- ===== src/Lab/Entry/History.antt =====
-- entry_models.py: the candle-streak model keeps a window of directions, and answers as a reading
-- of the whole history would.
use quantconnect.Prelude.{
  ℕ, ◌≤◌, leb, ltb, ◌≡◌, refl, sym, ap, subst, ◌∙◌, inl, inr, Option, none, some, List, [], ◌∷◌,
  ◌++◌, arith, if◌then◌else◌, length, take_last, all, Bool-cases, length-take_last, take_last-short,
  take_last-slide,
}
use mathlib.Core.List.{append_assoc, append-nil}
use quantconnect.Lab.Market.{Direction, up, down, is_up, is_down}
use quantconnect.Lab.Entry.{
  StreakMode, CandleStreak, streak_direction, streak_signal, streak_update,
}

-- The model after some candles, each with its direction or none.
abbrev pub observe : CandleStreak → List (Option Direction) → CandleStreak
observe m [] = m
observe m (d ∷ ds) = observe (streak_update m d) ds

-- The candles that have a direction.
abbrev pub directions : List (Option Direction) → List Direction
directions [] = []
directions (none ∷ ds) = directions ds
directions (some d ∷ ds) = d ∷ directions ds

-- The signal as a reading of the whole history: the last `n` directions, if there are so many.
abbrev pub history_direction : ℕ → StreakMode → List Direction → Option Direction
history_direction n mode history =
    if leb n (length history)
    then (if all is_up (take_last n history)
        then some (streak_signal mode up)
        else if all is_down (take_last n history)
        then some (streak_signal mode down)
        else none)
    else none

module _ (m : CandleStreak) where
  streak_update_window :
      (history : List Direction) (d : Direction)
      → m.recent_directions ≡ take_last m.streak_length history
      → (streak_update m (some d)).recent_directions ≡ take_last m.streak_length (history ++ d ∷ [])
  unfolding streak_update
  streak_update_window history d e =
      let recent = m.recent_directions ++ d ∷ [] in
      let slid : take_last m.streak_length recent ≡ take_last m.streak_length (history ++ d ∷ []) =
        ap (λ r. take_last m.streak_length (r ++ d ∷ [])) e
        ∙ take_last-slide m.streak_length history d in
      elim (Bool-cases (ltb m.streak_length (length recent))) [
        | inl longer ↦ rw longer slid
        | inr fits ↦ rw fits (sym (take_last-short m.streak_length recent (ground arith)) ∙ slid)
      ]

mode_kept :
    (m : CandleStreak) (d : Option Direction) → (streak_update m d).streak_mode ≡ m.streak_mode
unfolding streak_update
mode_kept m d = refl

length_kept :
    (m : CandleStreak) (d : Option Direction) → (streak_update m d).streak_length ≡ m.streak_length
unfolding streak_update
length_kept m d = refl

none_kept :
    (m : CandleStreak)
    → length m.recent_directions ≤ m.streak_length
    → (streak_update m none).recent_directions ≡ m.recent_directions
unfolding streak_update
none_kept m h = ground arith

-- The invariant: the window is the end of the history.
record IsWindow (n : ℕ) (mode : StreakMode) (history : List Direction) (m : CandleStreak)
    : Type 0 where
  same_length : m.streak_length ≡ n
  same_mode : m.streak_mode ≡ mode
  window : m.recent_directions ≡ take_last n history

window_bounded :
    (n : ℕ) (mode : StreakMode) (history : List Direction) (m : CandleStreak)
    → IsWindow n mode history m
    → length m.recent_directions ≤ m.streak_length
window_bounded n mode history m w =
    let e : length m.recent_directions ≡ length (take_last n history) = ap length w.window in
    omega (arith, length-take_last n history, w.same_length)

observe-IsWindow :
    (n : ℕ) (mode : StreakMode) (history : List Direction) (m : CandleStreak)
    (ds : List (Option Direction))
    → IsWindow n mode history m
    → IsWindow n mode (history ++ directions ds) (observe m ds)
observe-IsWindow n mode history m [] w = rw append-nil w
observe-IsWindow n mode history m (none ∷ ds) w =
    observe-IsWindow n mode history (streak_update m none) ds (record {
      same_length = length_kept m none ∙ w.same_length;
      same_mode = mode_kept m none ∙ w.same_mode;
      window = none_kept m (window_bounded n mode history m w) ∙ w.window;
    })
observe-IsWindow n mode history m (some d ∷ ds) w =
    subst (λ h. IsWindow n mode h (observe m (some d ∷ ds)))
      (append_assoc history (d ∷ []) (directions ds))
      (observe-IsWindow n mode (history ++ d ∷ []) (streak_update m (some d)) ds (record {
        same_length = length_kept m (some d) ∙ w.same_length;
        same_mode = mode_kept m (some d) ∙ w.same_mode;
        window =
            streak_update_window m history d
              (w.window ∙ ap (λ k. take_last k history) (sym w.same_length))
            ∙ ap (λ k. take_last k (history ++ d ∷ [])) w.same_length;
      }))

-- A window reads like the history that it ends.
read_window :
    (n : ℕ) (mode : StreakMode) (history : List Direction)
    → streak_direction
        (record { streak_length = n; streak_mode = mode; recent_directions = take_last n history })
      ≡ history_direction n mode history
unfolding streak_direction
read_window n mode history =
    let bound : length (take_last n history) ≤ n = omega (arith, length-take_last n history) in
    let tests : leb n (length (take_last n history)) ≡ leb n (length history) =
      ground (arith, length-take_last n history) in
    rw (tests, take_last-short n (take_last n history) bound)

window_direction :
    (n : ℕ) (mode : StreakMode) (history : List Direction) (m : CandleStreak)
    → IsWindow n mode history m
    → streak_direction m ≡ history_direction n mode history
window_direction n mode history m w =
    ap streak_direction (λ i. record {
      streak_length = w.same_length i;
      streak_mode = w.same_mode i;
      recent_directions = w.window i;
    })
    ∙ read_window n mode history

-- A new candle-streak model that has taken in any candles answers as a reading of the whole
-- history does: with the mode's direction when the last `n` candles that have a direction all go
-- one way, and with nothing when they do not or are too few.
pub streak_direction_history :
    (n : ℕ) (mode : StreakMode) (candles : List (Option Direction))
    → streak_direction
        (observe (record { streak_length = n; streak_mode = mode; recent_directions = [] }) candles)
      ≡ history_direction n mode (directions candles)
streak_direction_history n mode candles = window_direction n mode (directions candles) _ (
    observe-IsWindow n mode [] _ candles
      (record { same_length = refl; same_mode = refl; window = take_last_empty n }))
  where
    take_last_empty : (k : ℕ) → [] ≡ take_last {A = Direction} k []
    take_last_empty k = sym (take_last-short k [] (omega arith))

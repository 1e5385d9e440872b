-- ===== src/Lab/Market.antt =====
-- A consolidated bar of `main.py`, as the models read it, and the two trade directions. The day of
-- a bar is the tuple (year, month, day) that `OnPolymarketBar` compares; a time stamp is a number.
use quantconnect.Prelude.{ℕ, Bool, true, false, Option, none, some, ltb, ◌==◌, if◌then◌else◌}
use quantconnect.Num.{Num}

pub data Direction : Type 0 where
  up down : Direction

abbrev pub is_up : Direction → Bool
is_up up = true
is_up down = false

abbrev pub is_down : Direction → Bool
is_down up = false
is_down down = true

abbrev pub opposite : Direction → Direction
opposite up = down
opposite down = up

pub record Bar (N : Num) : Type 0 where
  pub year : ℕ
  pub month : ℕ
  pub day : ℕ
  pub open_price : N.F
  pub high : N.F
  pub low : N.F
  pub close : N.F

module _ (N : Num) where
  open N use {lt}

  -- The direction of one candle: a bar that closes where it opened has none.
  abbrev pub candle : Bar N → Option Direction
  candle b =
      if lt b.open_price b.close
      then some up
      else if lt b.close b.open_price
      then some down
      else none

  -- `(year, month, day) < (y, m, d)` on Python tuples
  abbrev pub before_day : Bar N → ℕ → ℕ → ℕ → Bool
  before_day b y m d =
      if b.year == y then (if b.month == m then ltb b.day d else ltb b.month m) else ltb b.year y

-- ===== src/Replay/Amounts.antt =====
-- execution_truth/taker_replay.py: `_decimal`. A decimal string is what Python's `Decimal` reads from
-- it: its digits, the places behind the point, its sign and whether it is finite; a text that
-- `Decimal` refuses, or one of more than 64 characters, is no number.
use quantconnect.Prelude.{
  ℕ, ◌-◌, ◌*◌, ◌^◌, ltb, ◌==◌, Bool, not, ◌&&◌, ◌||◌, Option, none, some, Result, ok, err,
  contract_error, raise_if, ◌>>◌,
}

pub record Parsed : Type 0 where
  pub digits : ℕ
  pub places : ℕ
  pub negative : Bool
  pub finite : Bool

-- The value in units of the twelfth place.
unfoldable pub decimal : Option Parsed → Bool → Result ℕ
decimal none zero_allowed = err contract_error
decimal (some p) zero_allowed = do
  raise_if
      (not p.finite || (p.negative && not (p.digits == 0)) || (not zero_allowed && p.digits == 0))
      contract_error
  raise_if (ltb (10 ^ 12 * 10 ^ p.places) p.digits || ltb 12 p.places) contract_error
  ok (p.digits * 10 ^ (12 - p.places))

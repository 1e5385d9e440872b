-- ===== src/Num.antt =====
-- The number system of the trading laboratory. `main.py` reads wagers, bankrolls and thresholds by
-- `float`, and the prices of a bar come from the platform, so their arithmetic is not code of the
-- repository: `Num` is the operations, as a parameter of every definition that uses them, and
-- `IsOrdered` is what the proofs rely on. The laws are those of finite IEEE doubles under monotone
-- rounding, and no exact law of a field is among them.
pub mod Integers
pub mod Signs
use quantconnect.Prelude.{
  ℕ, suc, ◌≡◌, Bool, true, false, not, List, [], ◌∷◌, if◌then◌else◌, Option, Result, ok, err,
  zero_division,
}

pub record Num : Type 1 where
  pub F : Type 0
  pub lt : F → F → Bool
  pub eq : F → F → Bool
  pub add : F → F → F
  pub sub : F → F → F
  pub mul : F → F → F
  pub div : F → F → F
  -- `a ** n`; `none` where it raises OverflowError.
  pub pow : F → ℕ → Option F
  pub neg : F → F
  pub of_ℕ : ℕ → F

module _ (N : Num) where
  open N use {F, lt, eq, add, sub, mul, div, neg, of_ℕ}

  -- `a <= b`
  abbrev pub le : F → F → Bool
  le a b = not (lt b a)

  -- `max(a, b)`: Python keeps the first of two equal items
  abbrev pub max_of : F → F → F
  max_of a b = if lt a b then b else a

  -- `abs(a)`
  abbrev pub abs_of : F → F
  abs_of a = if lt a (of_ℕ 0) then neg a else a

  -- `a / b`, which raises at a zero divisor
  unfoldable pub divide : F → F → Result F
  divide a b = if eq b (of_ℕ 0) then err zero_division else ok (div a b)

  -- `sum(xs)`, from the left and from 0
  unfoldable pub sum_from : F → List F → F
  sum_from acc [] = acc
  sum_from acc (x ∷ xs) = sum_from (add acc x) xs

  abbrev pub sum_of : List F → F
  sum_of xs = sum_from (of_ℕ 0) xs

  -- The documented order of finite doubles, and that sums and differences round monotonically.
  pub record IsOrdered : Type 0 where
    pub irrefl : (a : F) → lt a a ≡ false
    pub asym : (a b : F) → lt a b ≡ true → lt b a ≡ false
    pub le_trans : (a b c : F) → lt b a ≡ false → lt c b ≡ false → lt c a ≡ false
    pub eq_ge : (a b : F) → eq a b ≡ true → lt a b ≡ false
    pub eq_le : (a b : F) → eq a b ≡ true → lt b a ≡ false
    pub apart : (a b : F) → eq a b ≡ false → lt a b ≡ false → lt b a ≡ true
    pub sub_nonneg : (a b : F) → lt b a ≡ false → lt (sub b a) (of_ℕ 0) ≡ false
    pub add_grows : (a b : F) → lt b (of_ℕ 0) ≡ false → lt (add a b) a ≡ false
    pub sub_shrinks : (a b : F) → lt b (of_ℕ 0) ≡ false → lt a (sub a b) ≡ false

  -- The sign of a result: what sums, products and quotients of numbers that are not negative give.
  pub record IsSigned : Type 0 where
    pub of_ℕ_nonneg : (n : ℕ) → lt (of_ℕ n) (of_ℕ 0) ≡ false
    pub add_nonneg :
        (a b : F) → lt a (of_ℕ 0) ≡ false → lt b (of_ℕ 0) ≡ false → lt (add a b) (of_ℕ 0) ≡ false
    pub mul_nonneg :
        (a b : F) → lt a (of_ℕ 0) ≡ false → lt b (of_ℕ 0) ≡ false → lt (mul a b) (of_ℕ 0) ≡ false
    pub div_nonneg :
        (a b : F)
        → lt a (of_ℕ 0) ≡ false
        → lt b (of_ℕ 0) ≡ false
        → eq b (of_ℕ 0) ≡ false
        → lt (div a b) (of_ℕ 0) ≡ false
    pub suc_nonzero : (n : ℕ) → eq (of_ℕ (suc n)) (of_ℕ 0) ≡ false
    pub one_plus_nonzero : (a : F) → lt a (of_ℕ 0) ≡ false → eq (add (of_ℕ 1) a) (of_ℕ 0) ≡ false

-- ===== src/Replay/Rounding.antt =====
-- execution_truth/taker_replay.py: the arithmetic of `Decimal` under `localcontext` with a precision
-- of 50 digits and ROUND_HALF_UP, where it is not exact. Of the products in `_replay` only the fee
-- of a quantity can have more than 50 digits: the others have at most 37.
use quantconnect.Prelude.{
  ℕ, zero, suc, ◌+◌, ◌*◌, ◌/◌, ◌^◌, ◌≤◌, ◌<◌, ltb, ◌≡◌, inl, inr, false, arith, if◌then◌else◌,
  Bool-cases, ltb→lt,
}
use native.Mathlib.Nat.{
  le-div_iff_mul-le, div-mul-le_self, mul-le-mul_right, div-lt_iff_lt-mul, le_trans, zero-mul,
}

-- The number of steps in `n`, halves rounded up.
unfoldable pub half_up : ℕ → ℕ → ℕ
half_up n step = (n + step / 2) / step

-- Fifty significant digits: the least power of ten, from `step` on, of which `n` has fewer than
-- 10 ^ 50 steps is the last place that is kept. `fuel` powers are tried; 10 are enough below
-- 10 ^ 59, and a fee has less than 10 ^ 56 units.
unfoldable pub to_precision : ℕ → ℕ → ℕ → ℕ
unfolding half_up
to_precision zero step n = n
to_precision (suc fuel) step n =
    let rest = to_precision fuel (10 * step) n in
    if ltb n (10 ^ 50 * step) then half_up n step * step else rest

-- `(quantity * fee_per_share).quantize(FEE_STEP, ROUND_HALF_UP)`: the product has 42 places, and
-- the result 5.
unfoldable pub fee_of : ℕ → ℕ → ℕ
unfolding to_precision half_up
fee_of fee_per_share quantity = half_up (to_precision 10 1 (quantity * fee_per_share)) (10 ^ 37)

pub half_up_mono : (n m step : ℕ) → 0 < step → n ≤ m → half_up n step ≤ half_up m step
unfolding half_up
half_up_mono n m step p h =
    (le-div_iff_mul-le p).1 (le_trans (div-mul-le_self (n + step / 2) step) (omega arith))

-- A number below `k` steps is rounded to at most `k`.
half_up_le : (n k step : ℕ) → 0 < step → n < k * step → half_up n step ≤ k
unfolding half_up
half_up_le n k step p h =
    let below : (n + step / 2) / step < k + 1 = (div-lt_iff_lt-mul p).1 (omega arith) in omega arith

-- A number of `k` steps and more is rounded to at least `k`.
le_half_up : (n k step : ℕ) → 0 < step → k * step ≤ n → k ≤ half_up n step
unfolding half_up
le_half_up n k step p h = (le-div_iff_mul-le p).1 (omega arith)

-- The rounding from a coarser step on does not fall below a bound that the finer step has passed.
to_precision_ge :
    (fuel step n : ℕ)
    → 0 < step
    → 10 ^ 50 * step ≤ n
    → 10 ^ 50 * step ≤ to_precision fuel (10 * step) n
unfolding to_precision
to_precision_ge zero step n p h = h
to_precision_ge (suc fuel) step n p h = elim (Bool-cases (ltb n (10 ^ 50 * (10 * step)))) [
  | inl fits ↦ rw fits (
      let steps : 10 ^ 49 ≤ half_up n (10 * step) =
        le_half_up n (10 ^ 49) (10 * step) (omega arith) (omega arith) in
      let value : 10 ^ 49 * (10 * step) ≤ half_up n (10 * step) * (10 * step) =
        mul-le-mul_right (10 * step) steps in
      le_trans (omega arith) value)
  | inr longer ↦
      rw longer
        (le_trans (omega arith) (to_precision_ge fuel (10 * step) n (omega arith) (ground arith)))
]

pub to_precision_mono :
    (fuel step n m : ℕ) → 0 < step → n ≤ m → to_precision fuel step n ≤ to_precision fuel step m
unfolding to_precision
to_precision_mono zero step n m p h = h
to_precision_mono (suc fuel) step n m p h = elim (Bool-cases (ltb n (10 ^ 50 * step))) [
  | inl short ↦ elim (Bool-cases (ltb m (10 ^ 50 * step))) [
    | inl both ↦ rw (short, both) (mul-le-mul_right step (half_up_mono n m step p h))
    | inr longer ↦
        rw (short, longer)
          (le_trans
            (mul-le-mul_right step
              (half_up_le n (10 ^ 50) step p (ltb→lt n (10 ^ 50 * step) short)))
            (to_precision_ge fuel step m p (ground arith)))
  ]
  | inr long ↦
      (let longer : ltb m (10 ^ 50 * step) ≡ false = ground arith in
        rw (long, longer) (to_precision_mono fuel (10 * step) n m (omega arith) h))
]

-- A larger quantity has no smaller fee.
pub fee_of_mono : (f q q' : ℕ) → q ≤ q' → fee_of f q ≤ fee_of f q'
unfolding fee_of
fee_of_mono f q q' h =
    half_up_mono _ _ (10 ^ 37) (omega arith)
      (to_precision_mono 10 1 (q * f) (q' * f) (omega arith) (mul-le-mul_right f h))

-- Nothing costs nothing.
pub fee_of_zero : (f : ℕ) → fee_of f 0 ≡ 0
unfolding fee_of
fee_of_zero f = rw zero-mul

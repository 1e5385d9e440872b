-- ===== src/Num/Signs.antt =====
-- Signs and safe divisions, from the laws of a number system. No code of the program is modelled
-- here.
use quantconnect.Prelude.{ℕ, suc, ◌<◌, ◌≡◌, false, List, [], ◌∷◌, ◌++◌, arith, Returns}
use quantconnect.Num.{Num, IsOrdered, IsSigned, max_of, divide, sum_from, sum_of}

module _ (N : Num) where
  open N use {F, lt, eq, add, mul, of_ℕ}

  -- `0 <= a`
  abbrev pub NonNeg : F → Type 0
  NonNeg a = lt a (of_ℕ 0) ≡ false

  abbrev pub AreNonNeg : List F → Type 0
  AreNonNeg [] = Unit
  AreNonNeg (x ∷ xs) = NonNeg x × AreNonNeg xs

  pub AreNonNeg-append_one :
      (xs : List F) (x : F) → AreNonNeg xs → NonNeg x → AreNonNeg (xs ++ x ∷ [])
  AreNonNeg-append_one [] x h k = (k, tt)
  AreNonNeg-append_one (y ∷ ys) x h k = (h.0, AreNonNeg-append_one ys x h.1 k)

  -- A division by a number that is not zero returns.
  pub divide-Returns : (a b : F) → eq b (of_ℕ 0) ≡ false → Returns (λ q. Unit {0}) (divide N a b)
  unfolding divide
  divide-Returns a b h = rw h tt

module _ {N : Num} (ordered : IsOrdered N) (signed : IsSigned N) where
  open N use {F, lt, eq, add, mul, of_ℕ}

  pub max_nonneg : (a : F) → NonNeg N (max_of N a (of_ℕ 0))
  max_nonneg a = ground (arith, ordered.irrefl (of_ℕ 0))

  pub divide_nonneg :
      (a b : F)
      → NonNeg N a
      → NonNeg N b
      → eq b (of_ℕ 0) ≡ false
      → Returns (NonNeg N) (divide N a b)
  unfolding divide
  divide_nonneg a b h k nz = rw nz (signed.div_nonneg a b h k nz)

  sum_from_nonneg :
      (acc : F) (xs : List F) → NonNeg N acc → AreNonNeg N xs → NonNeg N (sum_from N acc xs)
  unfolding sum_from
  sum_from_nonneg acc [] h k = h
  sum_from_nonneg acc (x ∷ xs) h k =
      sum_from_nonneg (add acc x) xs (signed.add_nonneg acc x h k.0) k.1

  pub sum_nonneg : (xs : List F) → AreNonNeg N xs → NonNeg N (sum_of N xs)
  sum_nonneg xs h = sum_from_nonneg (of_ℕ 0) xs (signed.of_ℕ_nonneg 0) h

  -- A period that is not zero is no zero divisor.
  pub period_nonzero : (n : ℕ) → 0 < n → eq (of_ℕ n) (of_ℕ 0) ≡ false
  period_nonzero (suc n) h = signed.suc_nonzero n
  period_nonzero _ h = absurd (omega arith)

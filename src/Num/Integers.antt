-- ===== src/Num/Integers.antt =====
-- The integers as a number system: exact arithmetic, at which every law of `IsOrdered` holds. No
-- code of the program is modelled here.
use quantconnect.Prelude.{◌≡◌, false, some, arith}
use quantconnect.Prelude.Int.{
  ℤ, pos, negsuc, ◌+ℤ◌, ◌-ℤ◌, ◌*ℤ◌, div_ℤ, pow_ℤ, ltb_ℤ, eqb_ℤ, +ℤ_parts, -ℤ_parts,
}
use quantconnect.Num.{Num, IsOrdered, IsSigned}

abbrev pub int_num : Num
int_num = record {
  F = ℤ;
  lt = ltb_ℤ;
  eq = eqb_ℤ;
  add = ◌+ℤ◌;
  sub = ◌-ℤ◌;
  mul = ◌*ℤ◌;
  div = div_ℤ;
  pow = λ a n. some (pow_ℤ a n);
  neg = λ a. pos 0 -ℤ a;
  of_ℕ = pos;
}

pub int_num-IsOrdered : IsOrdered int_num
int_num-IsOrdered = record {
  irrefl = λ a. ground arith;
  asym = λ a b h. ground arith;
  le_trans = λ a b c h k. ground arith;
  eq_ge = λ a b h. ground arith;
  eq_le = λ a b h. ground arith;
  apart = λ a b h k. ground arith;
  sub_nonneg = λ a b h. ground (arith, -ℤ_parts b a);
  add_grows = λ a b h. ground (arith, +ℤ_parts a b);
  sub_shrinks = λ a b h. ground (arith, -ℤ_parts a b);
}

mul_nonneg :
    (a b : ℤ) → ltb_ℤ a (pos 0) ≡ false → ltb_ℤ b (pos 0) ≡ false → ltb_ℤ (a *ℤ b) (pos 0) ≡ false
unfolding ◌*ℤ◌
mul_nonneg (pos a) (pos b) h k = ground arith
mul_nonneg (pos a) (negsuc b) h k = ground arith
mul_nonneg (negsuc a) b h k = ground arith

div_nonneg :
    (a b : ℤ)
    → ltb_ℤ a (pos 0) ≡ false
    → ltb_ℤ b (pos 0) ≡ false
    → ltb_ℤ (div_ℤ a b) (pos 0) ≡ false
unfolding div_ℤ
div_nonneg (pos a) (pos b) h k = ground arith
div_nonneg (pos a) (negsuc b) h k = ground arith
div_nonneg (negsuc a) b h k = ground arith

pub int_num-IsSigned : IsSigned int_num
int_num-IsSigned = record {
  of_ℕ_nonneg = λ n. ground arith;
  add_nonneg = λ a b h k. ground (arith, +ℤ_parts a b);
  mul_nonneg = mul_nonneg;
  div_nonneg = λ a b h k nz. div_nonneg a b h k;
  suc_nonzero = λ n. ground arith;
  one_plus_nonzero = λ a h. ground (arith, +ℤ_parts (pos 1) a);
}

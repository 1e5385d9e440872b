-- ===== src/Campaign/Validation/Close.antt =====
-- qcrl_campaign.py: what the equality of metrics and of the values of parameters means.
use quantconnect.Prelude.{
  ℕ, ◌+◌, ◌≤◌, ◌≡◌, refl, ap, arith, Bool, true, ◌&&◌, ◌||◌, Bool-cases, inl, inr, ◌⊎◌, some, List,
  [], ◌∷◌, Option-cases, eq_iff,
}
use quantconnect.Prelude.Int.{ℤ, pos_part, neg_part}
use quantconnect.Campaign.{Scalar, number, boolean, string, null}
use quantconnect.Campaign.Validation.{as_number, equal_numbers, equal_others, same_scalar, same_key}

-- Numbers whose difference is at most the tolerance, or the same value.
abbrev pub Close : ℕ → Scalar → Scalar → Type 0
Close tolerance a b =
    ((x : ℤ) × (y : ℤ) × (as_number a ≡ some x)
      × (as_number b ≡ some y)
      × (pos_part x + neg_part y ≤ pos_part y + neg_part x + tolerance)
      × (pos_part y + neg_part x ≤ pos_part x + neg_part y + tolerance))
    ⊎ (a ≡ b)

equal_numbers-Close :
    (tolerance : ℕ) (a b : Scalar)
    → equal_numbers tolerance (as_number a) (as_number b) ≡ true
    → Close tolerance a b
equal_numbers-Close tolerance a b h = elim (Option-cases (as_number a)) [
  | inl bare ↦ absurd (let no = rw bare at h in cc)
  | inr x ↦ elim (Option-cases (as_number b)) [
    | inl bare ↦ absurd (let no = rw (x.1, bare) at h in cc)
    | inr y ↦
        let near = rw (x.1, y.1) at h in
        inl (x.0, y.0, x.1, y.1, ground (arith, near), ground (arith, near))
  ]
]

same_others : (a b : Scalar) → equal_others a b ≡ true → a ≡ b
same_others (string s) (string t) h = ap string ((eq_iff s t).0 h)
same_others null null h = refl
same_others (string s) (number n) h = cc
same_others (string s) (boolean b) h = cc
same_others (string s) null h = cc
same_others null (number n) h = cc
same_others null (boolean b) h = cc
same_others null (string s) h = cc
same_others (number n) b h = cc
same_others (boolean t) b h = cc

pub either-Close :
    (tolerance : ℕ) (a b : Scalar)
    → (equal_numbers tolerance (as_number a) (as_number b) || equal_others a b) ≡ true
    → Close tolerance a b
either-Close tolerance a b h =
    elim (Bool-cases (equal_numbers tolerance (as_number a) (as_number b))) [
      | inl near ↦ equal_numbers-Close tolerance a b near
      | inr far ↦ inr (same_others a b (rw far at h))
    ]

-- The same values, one by one.
abbrev pub SameKey : List Scalar → List Scalar → Type 0
SameKey [] [] = Unit
SameKey (x ∷ xs) (y ∷ ys) = Close 0 x y × SameKey xs ys
SameKey _ _ = ⊥

pub SameKey-refl : (key : List Scalar) → SameKey key key
SameKey-refl [] = tt
SameKey-refl (x ∷ xs) = (inr refl, SameKey-refl xs)

&&-true : (a b : Bool) → (a && b) ≡ true → (a ≡ true) × (b ≡ true)
&&-true a b h = (ground arith, ground arith)

pub same_key-SameKey : (xs ys : List Scalar) → same_key xs ys ≡ true → SameKey xs ys
same_key-SameKey [] [] h = tt
same_key-SameKey [] (y ∷ ys) h = absurd (let no = h in cc)
same_key-SameKey (x ∷ xs) [] h = absurd (let no = h in cc)
same_key-SameKey (x ∷ xs) (y ∷ ys) h =
    let both = &&-true (same_scalar x y) (same_key xs ys) h in
    (either-Close 0 x y both.0, same_key-SameKey xs ys both.1)

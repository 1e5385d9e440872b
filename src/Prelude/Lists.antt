-- ===== src/Prelude/Lists.antt =====
-- Lists measured by native numbers, under the library's names, and the last items of a list, which
-- is what the slice `xs[-n:]` keeps.
use Prim.Native.Nat.{ℕ, zero, suc, ◌+◌, ◌-◌, ◌≤◌, min}
use native.Mathlib.Nat.{zero-add, add-zero, suc-add}
use mathlib.Core.Path.{◌≡◌, refl, sym, ap, ◌∙◌}
use mathlib.Core.Bool.{Bool, true, ◌&&◌}
use mathlib.Core.List.{List, [], ◌∷◌, ◌++◌}
use native.Mathlib.Omega.{arith}

module _ {ℓ} {A : Type ℓ} where
  abbrev pub length : List A → ℕ
  length [] = 0
  length (x ∷ xs) = suc (length xs)

  abbrev pub drop : ℕ → List A → List A
  drop zero xs = xs
  drop (suc n) [] = []
  drop (suc n) (x ∷ xs) = drop n xs

  -- `xs[:n]`
  abbrev pub take : ℕ → List A → List A
  take zero xs = []
  take (suc n) [] = []
  take (suc n) (x ∷ xs) = x ∷ take n xs

  -- `xs[-n:]` for a positive `n`: the whole list where it is not longer than `n`.
  abbrev pub take_last : ℕ → List A → List A
  take_last n xs = drop (length xs - n) xs

  -- `all(p(x) for x in xs)`
  abbrev pub all : (A → Bool) → List A → Bool
  all p [] = true
  all p (x ∷ xs) = p x && all p xs

  pub length-append : (xs ys : List A) → length (xs ++ ys) ≡ length xs + length ys
  length-append [] ys = omega arith
  length-append (x ∷ xs) ys = omega (arith, length-append xs ys)

  pub length-drop : (n : ℕ) (xs : List A) → length (drop n xs) ≡ length xs - n
  length-drop zero xs = omega arith
  length-drop (suc n) [] = omega arith
  length-drop (suc n) (x ∷ xs) = omega (arith, length-drop n xs)

module _ {ℓ} {A : Type ℓ} where
  pub length-take_last : (n : ℕ) (xs : List A) → length (take_last n xs) ≡ min n (length xs)
  length-take_last n xs = omega (arith, length-drop (length xs - n) xs)

  pub drop-drop : (a b : ℕ) (xs : List A) → drop b (drop a xs) ≡ drop (a + b) xs
  drop-drop zero b xs = rw zero-add
  drop-drop (suc a) zero [] = rw add-zero
  drop-drop (suc a) (suc b) [] = rw suc-add
  drop-drop (suc a) b (x ∷ xs) = rw suc-add (drop-drop a b xs)

  pub drop-append_le :
      (k : ℕ) (xs ys : List A) → k ≤ length xs → drop k (xs ++ ys) ≡ drop k xs ++ ys
  drop-append_le zero xs ys h = refl
  drop-append_le (suc k) [] ys h = absurd (omega arith)
  drop-append_le (suc k) (x ∷ xs) ys h = drop-append_le k xs ys (omega arith)

  pub take_last-short : (n : ℕ) (xs : List A) → length xs ≤ n → take_last n xs ≡ xs
  take_last-short n xs h = let e : length xs - n ≡ 0 = omega arith in ap (λ k. drop k xs) e

module _ {ℓ} {A : Type ℓ} where
  -- A window of the last `n` items, slid over one more item, is the window of the longer list.
  pub take_last-slide :
      (n : ℕ) (xs : List A) (x : A)
      → take_last n (take_last n xs ++ x ∷ []) ≡ take_last n (xs ++ x ∷ [])
  take_last-slide n xs x =
      let k = length xs - n in
      let shift : take_last n xs ++ x ∷ [] ≡ drop k (xs ++ x ∷ []) =
        sym (drop-append_le k xs (x ∷ []) (omega arith)) in
      let size : length (take_last n xs ++ x ∷ []) ≡ min n (length xs) + 1 =
        length-append (take_last n xs) (x ∷ []) ∙ omega (arith, length-take_last n xs) in
      let whole : length (xs ++ x ∷ []) ≡ length xs + 1 = length-append xs (x ∷ []) ∙ omega arith in
      let total : k + (length (take_last n xs ++ x ∷ []) - n) ≡ length (xs ++ x ∷ []) - n =
        omega arith in
      ap (λ ys. drop (length (take_last n xs ++ x ∷ []) - n) ys) shift
      ∙ drop-drop k (length (take_last n xs ++ x ∷ []) - n) (xs ++ x ∷ [])
      ∙ ap (λ j. drop j (xs ++ x ∷ [])) total

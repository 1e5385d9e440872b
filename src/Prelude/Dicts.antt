-- ===== src/Prelude/Dicts.antt =====
-- A Python dict with text keys, as the list of its items in the order of insertion, and tests of
-- membership.
use Prim.Native.String.{String}
use text.Mathlib.Text.{◌==◌ as str_eq}
use mathlib.Core.Bool.{Bool, true, false, ◌||◌}
use mathlib.Core.Option.{Option, none, some}
use mathlib.Core.List.{List, [], ◌∷◌, map}
use quantconnect.Prelude.Tests.{if◌then◌else◌, is_some}

module _ {ℓ} {A : Type ℓ} where
  -- `d.get(key)`
  abbrev pub lookup : String → List (String × A) → Option A
  lookup key [] = none
  lookup key ((k, a) ∷ rest) = if str_eq k key then some a else lookup key rest

  -- `key in d`
  abbrev pub has_key : String → List (String × A) → Bool
  has_key key d = is_some (lookup key d)

  -- `d[key] = a`: the item stays where it is, and a new one comes last.
  abbrev pub insert : String → A → List (String × A) → List (String × A)
  insert key a [] = (key, a) ∷ []
  insert key a ((k, b) ∷ rest) = if str_eq k key then (k, a) ∷ rest else (k, b) ∷ insert key a rest

  abbrev pub keep : (A → Bool) → List A → List A
  keep p [] = []
  keep p (x ∷ xs) = if p x then x ∷ keep p xs else keep p xs

  abbrev pub is_empty : List A → Bool
  is_empty [] = true
  is_empty (x ∷ xs) = false

  -- `any(p(x) for x in xs)`
  abbrev pub any : (A → Bool) → List A → Bool
  any p [] = false
  any p (x ∷ xs) = p x || any p xs

abbrev pub mem_text : String → List String → Bool
mem_text s xs = any (str_eq s) xs

-- A property of every item.
abbrev pub Every {ℓ} : {A : Type ℓ} → (A → Type 0) → List A → Type 0
Every P [] = Unit
Every P (x ∷ xs) = P x × Every P xs

pub Every-map {ℓ κ} :
    {A : Type ℓ} {B : Type κ} (P : B → Type 0) (f : A → B) (xs : List A)
    → ((x : A) → P (f x))
    → Every P (map f xs)
Every-map P f [] h = tt
Every-map P f (x ∷ xs) h = (h x, Every-map P f xs h)

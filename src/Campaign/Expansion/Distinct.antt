-- ===== src/Campaign/Expansion/Distinct.antt =====
-- qcrl_campaign.py: the cases of an expansion differ in their parameters and in their names.
use quantconnect.Prelude.{
  ◌≡◌, refl, sym, ap, false, Bool-cases, inl, inr, List, [], ◌∷◌, ◌++◌, map, String, str_eq, eq_iff,
  mem_text, Every, ok, Ensures, Ensures-bind, Ensures-bind_eq,
}
use quantconnect.Campaign.{Dict, Case}
use quantconnect.Campaign.Parameters.{Reader, validate_parameters}
use quantconnect.Campaign.Expansion.{
  Naming, Variant, an_object, no_object, Design, combinations, matrix_values, case_of, is_repeated,
  add_parameters, add_all, add_variant, add_variants, variants_of, expand_cases, update,
}

-- No text occurs twice.
abbrev pub IsDistinct : List String → Type 0
IsDistinct [] = Unit
IsDistinct (x ∷ xs) = (mem_text x xs ≡ false) × IsDistinct xs

str_eq_comm : (s t : String) → str_eq s t ≡ false → str_eq t s ≡ false
str_eq_comm s t h = elim (Bool-cases (str_eq t s)) [
  | inl same ↦
      absurd (let equal = (eq_iff t s).0 same in let back = (eq_iff s t).1 (sym equal) in cc)
  | inr apart ↦ apart
]

mem_text-append_one :
    (x y : String) (xs : List String)
    → mem_text x xs ≡ false
    → str_eq x y ≡ false
    → mem_text x (xs ++ y ∷ []) ≡ false
mem_text-append_one x y [] h k = rw k refl
mem_text-append_one x y (z ∷ xs) h k = elim (Bool-cases (str_eq x z)) [
  | inl here ↦ absurd (let no = rw here at h in cc)
  | inr apart ↦ rw apart (mem_text-append_one x y xs (rw apart at h) k)
]

IsDistinct-append_one :
    (xs : List String) (y : String)
    → IsDistinct xs
    → mem_text y xs ≡ false
    → IsDistinct (xs ++ y ∷ [])
IsDistinct-append_one [] y h k = (refl, tt)
IsDistinct-append_one (x ∷ xs) y h k = elim (Bool-cases (str_eq y x)) [
  | inl here ↦ absurd (let no = rw here at k in cc)
  | inr apart ↦ (
    mem_text-append_one x y xs h.0 (str_eq_comm y x apart),
    IsDistinct-append_one xs y h.1 (rw apart at k),
  )
]

map-append_one :
    {A : Type 0} (f : A → String) (xs : List A) (y : A)
    → map f (xs ++ y ∷ []) ≡ map f xs ++ f y ∷ []
map-append_one f [] y = refl
map-append_one f (x ∷ xs) y = ap (λ ys. f x ∷ ys) (map-append_one f xs y)

Every-append_one :
    {A : Type 0} (P : A → Type 0) (xs : List A) (y : A) → Every P xs → P y → Every P (xs ++ y ∷ [])
Every-append_one P [] y h k = (k, tt)
Every-append_one P (x ∷ xs) y h k = (h.0, Every-append_one P xs y h.1 k)

module _ (N : Naming) (R : Reader) (design : Design) where
  -- The cases differ in the hash of their parameters and in their names, and their parameters are valid.
  pub record IsExpansion (cases : List Case) : Type 0 where
    pub hashes : IsDistinct (map (λ c. c.parameter_hash) cases)
    pub names : IsDistinct (map (λ c. c.case_id) cases)
    pub valid : Every (λ c. validate_parameters R c.parameters ≡ ok tt) cases

  add_parameters-IsExpansion :
      (cases : List Case) (parameters : Dict)
      → IsExpansion cases
      → Ensures IsExpansion (add_parameters N R design cases parameters)
  unfolding add_parameters
  add_parameters-IsExpansion cases parameters h =
      let c = case_of N R design parameters in
      Ensures-bind_eq IsExpansion (validate_parameters R parameters) _ (λ unit valid.
        elim (Bool-cases (is_repeated (λ d. d.parameter_hash) c.parameter_hash cases)) [
          | inl repeated ↦ rw repeated tt
          | inr fresh ↦ elim (Bool-cases (is_repeated (λ d. d.case_id) c.case_id cases)) [
            | inl named ↦ rw (fresh, named) tt
            | inr unnamed ↦
                rw (fresh, unnamed)
                  (record {
                    hashes = rw (map-append_one (λ (d : Case). d.parameter_hash) cases c) (
                        IsDistinct-append_one (map (λ d. d.parameter_hash) cases) c.parameter_hash
                          h.hashes fresh);
                    names = rw (map-append_one (λ (d : Case). d.case_id) cases c) (
                        IsDistinct-append_one (map (λ d. d.case_id) cases) c.case_id h.names
                          unnamed);
                    valid =
                        Every-append_one (λ d. validate_parameters R d.parameters ≡ ok tt) cases c
                          h.valid valid;
                  })
          ]
        ])

  add_all-IsExpansion :
      (cases : List Case) (all : List Dict)
      → IsExpansion cases
      → Ensures IsExpansion (add_all N R design cases all)
  add_all-IsExpansion cases [] h = h
  add_all-IsExpansion cases (parameters ∷ rest) h =
      Ensures-bind IsExpansion IsExpansion (add_parameters N R design cases parameters)
        (λ more. add_all N R design more rest) (add_parameters-IsExpansion cases parameters h)
        (λ more k. add_all-IsExpansion more rest k)

  add_variant-IsExpansion :
      (combos : List Dict) (cases : List Case) (variant : Variant)
      → IsExpansion cases
      → Ensures IsExpansion (add_variant N R design combos cases variant)
  add_variant-IsExpansion combos cases no_object h = tt
  add_variant-IsExpansion combos cases (an_object variant) h =
      add_all-IsExpansion cases
        (map (λ values. update (update design.base_parameters variant) values) combos) h

  add_variants-IsExpansion :
      (combos : List Dict) (cases : List Case) (variants : List Variant)
      → IsExpansion cases
      → Ensures IsExpansion (add_variants N R design combos cases variants)
  add_variants-IsExpansion combos cases [] h = h
  add_variants-IsExpansion combos cases (variant ∷ variants) h =
      Ensures-bind IsExpansion IsExpansion (add_variant N R design combos cases variant)
        (λ more. add_variants N R design combos more variants)
        (add_variant-IsExpansion combos cases variant h)
        (λ more k. add_variants-IsExpansion combos more variants k)

  -- If a manifest expands, no two cases have the same hash of their parameters or the same name, and
  -- every case's parameters are valid.
  pub expand_cases-IsExpansion : Ensures IsExpansion (expand_cases N R design)
  unfolding expand_cases
  expand_cases-IsExpansion =
      Ensures-bind_eq IsExpansion (matrix_values design.matrix) _ (λ axes read.
        add_variants-IsExpansion (combinations axes) [] (variants_of design.variants)
          (record { hashes = tt; names = tt; valid = tt }))

-- ===== src/Campaign/Validation/Pairs.antt =====
-- qcrl_campaign.py: a check of pairs that finds no violation found every pair.
use quantconnect.Campaign.Validation.Close.{Close, either-Close}
use quantconnect.Campaign.Validation.Grouping.{InGroup, Every-InGroup}
use quantconnect.Prelude.{
  ◌^◌, ◌≡◌, refl, ap, ◌∙◌, arith, Bool, true, false, not, Bool-cases, inl, inr, some, List, [], ◌∷◌,
  ◌++◌, String, lookup, keep, is_empty, Option-cases, Every, ok, >>=-eq-ok, ok-injective,
}
use quantconnect.Campaign.{Scalar, Dict, Run, PairValidation}
use quantconnect.Campaign.Validation.{
  equal_metric, Members, member, is_member, Groups, group_runs, compare_field, compare_fields,
  metrics_of, compare_members, check_group, check_groups, pair_violations,
}

module _ {ℓ} {A : Type ℓ} where
  pub keep-none :
      (p : A → Bool) (xs : List A) → is_empty (keep p xs) ≡ true → Every (λ x. p x ≡ false) xs
  keep-none p [] h = tt
  keep-none p (x ∷ xs) h = elim (Bool-cases (p x)) [
    | inl there ↦ absurd (let no = rw there at h in cc)
    | inr absent ↦ (absent, keep-none p xs (rw absent at h))
  ]

  append-empty : (xs ys : List A) → xs ++ ys ≡ [] → (xs ≡ []) × (ys ≡ [])
  append-empty [] ys h = (refl, h)
  append-empty (x ∷ xs) ys h = cc

-- Both runs' metrics have the field, with numbers that differ by at most 1e-9 or the same value.
abbrev pub AgreeOn : Dict → Dict → String → Type 0
AgreeOn baseline compared field =
    (a : Scalar) × (b : Scalar) × (lookup field baseline ≡ some a)
    × (lookup field compared ≡ some b)
    × Close (10 ^ 3) a b

-- A group has a run for every expected value, and the others agree with the first on the invariants.
pub record IsPaired (pair : PairValidation) (members : Members) : Type 0 where
  pub first : Scalar
  pub rest : List Scalar
  pub expected : pair.expected_values ≡ first ∷ rest
  pub present : Every (λ value. is_member value members ≡ true) (first ∷ rest)
  pub agree :
      Every
        (λ value.
          Every
            (AgreeOn (metrics_of (member first members)) (metrics_of (member value members)))
            pair.invariants)
        rest

compare_field-AgreeOn :
    (key : List Scalar) (field : String) (baseline compared : Dict)
    → compare_field key field (lookup field baseline) (lookup field compared) ≡ []
    → AgreeOn baseline compared field
unfolding equal_metric
compare_field-AgreeOn key field baseline compared h = elim (Option-cases (lookup field baseline)) [
  | inl bare ↦ absurd (let no = rw bare at h in cc)
  | inr a ↦ elim (Option-cases (lookup field compared)) [
    | inl bare ↦ absurd (let no = rw (a.1, bare) at h in cc)
    | inr b ↦ elim (Bool-cases (equal_metric a.0 b.0)) [
      | inl equal ↦ (a.0, b.0, a.1, b.1, either-Close (10 ^ 3) a.0 b.0 equal)
      | inr apart ↦ absurd (let no = rw (a.1, b.1, apart) at h in cc)
    ]
  ]
]

compare_fields-agree :
    (key : List Scalar) (fields : List String) (baseline compared : Dict)
    → compare_fields key fields baseline compared ≡ []
    → Every (AgreeOn baseline compared) fields
compare_fields-agree key [] baseline compared h = tt
compare_fields-agree key (field ∷ fields) baseline compared h =
    let parts =
      append-empty (compare_field key field (lookup field baseline) (lookup field compared))
        (compare_fields key fields baseline compared) h in
    (
      compare_field-AgreeOn key field baseline compared parts.0,
      compare_fields-agree key fields baseline compared parts.1,
    )

compare_members-agree :
    (pair : PairValidation) (key : List Scalar) (baseline : Dict) (members : Members)
    (values : List Scalar)
    → compare_members pair key baseline members values ≡ []
    → Every
        (λ value. Every (AgreeOn baseline (metrics_of (member value members))) pair.invariants)
        values
compare_members-agree pair key baseline members [] h = tt
compare_members-agree pair key baseline members (value ∷ values) h =
    let parts =
      append-empty (compare_fields key pair.invariants baseline (metrics_of (member value members)))
        (compare_members pair key baseline members values) h in
    (
      compare_fields-agree key pair.invariants baseline (metrics_of (member value members)) parts.0,
      compare_members-agree pair key baseline members values parts.1,
    )

pub Every-not :
    {A : Type 0} (p : A → Bool) (xs : List A)
    → Every (λ x. not (p x) ≡ false) xs
    → Every (λ x. p x ≡ true) xs
Every-not p [] h = tt
Every-not p (x ∷ xs) h = (ground (arith, h.0), Every-not p xs h.1)

check_group-IsPaired :
    (pair : PairValidation) (key : List Scalar) (members : Members) (expected : List Scalar)
    → pair.expected_values ≡ expected
    → check_group pair key members expected ≡ ok []
    → IsPaired pair members
check_group-IsPaired pair key members [] same h = cc
check_group-IsPaired pair key members (first ∷ rest) same h =
    let absent = keep (λ value. not (is_member value members)) (first ∷ rest) in
    elim (Bool-cases (is_empty absent)) [
      | inl complete ↦ record {
        first = first;
        rest = rest;
        expected = same;
        present =
            Every-not (λ value. is_member value members) (first ∷ rest)
              (keep-none (λ value. not (is_member value members)) (first ∷ rest) complete);
        agree =
            compare_members-agree pair key (metrics_of (member first members)) members rest
              (ok-injective (rw complete at h));
      }
      | inr some_absent ↦ absurd (let no = rw some_absent at h in cc)
    ]

check_groups-IsPaired :
    (pair : PairValidation) (groups : Groups)
    → check_groups pair groups ≡ ok []
    → Every (λ group. IsPaired pair group.1) groups
check_groups-IsPaired pair [] h = tt
check_groups-IsPaired pair ((key, members) ∷ groups) h =
    let here = >>=-eq-ok (check_group pair key members pair.expected_values) _ h in
    let there = >>=-eq-ok (check_groups pair groups) _ here.2 in
    let parts = append-empty here.0 there.0 (ok-injective there.2) in
    (
      check_group-IsPaired pair key members pair.expected_values refl (here.1 ∙ ap ok parts.0),
      check_groups-IsPaired pair groups (there.1 ∙ ap ok parts.1),
    )

pub pair_violations-IsPaired :
    (pair : PairValidation) (runs : List Run)
    → pair_violations (some pair) runs ≡ ok []
    → Every (InGroup pair runs (λ group. IsPaired pair group.1)) runs
unfolding pair_violations
pair_violations-IsPaired pair runs h =
    Every-InGroup pair runs (λ group. IsPaired pair group.1)
      (check_groups-IsPaired pair (group_runs pair [] runs) h)

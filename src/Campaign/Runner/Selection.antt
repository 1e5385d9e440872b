-- ===== src/Campaign/Runner/Selection.antt =====
-- qcrl_campaign.py: the cases that it selects.
use quantconnect.Prelude.{
  ℕ, zero, suc, ◌≤◌, ◌≡◌, refl, sym, ap, ◌∙◌, subst, arith, Bool, false, Bool-cases, inl, inr,
  Option, none, some, List, [], ◌∷◌, length, take, String, str_eq, Every, some-injective,
  Option-cases, eq_iff,
}
use quantconnect.Campaign.{Case, Run}
use quantconnect.Campaign.Runs.{find_run}
use quantconnect.Campaign.Runs.Loading.{HasRuns}
use quantconnect.Campaign.Runner.{is_eligible, select_cases, limited}
use quantconnect.Campaign.Runner.Finish.{RunIs}

module _ (retry_failed : Bool) (runs : List Run) where
  -- The selection of cases that all have a run.
  pub record Selected (cases selected : List Case) : Type 0 where
    pub known : HasRuns runs selected
    pub eligible : Every (λ c. RunIs (is_eligible retry_failed) c.case_id runs) selected
    pub shorter : length selected ≤ length cases

  pub select_cases-Selected :
      (cases : List Case)
      → HasRuns runs cases
      → (selected : List Case) × (select_cases retry_failed runs cases ≡ some selected)
        × Selected cases selected
  select_cases-Selected [] h =
      ([], refl, record { known = tt; eligible = tt; shorter = omega arith })
  select_cases-Selected (c ∷ cases) h = elim (Option-cases (find_run c.case_id runs)) [
    | inl nothing ↦ absurd (let no = rw nothing at h.0 in cc)
    | inr found ↦
        let rest = select_cases-Selected cases h.1 in
        let s = rest.2 in
        elim (Bool-cases (is_eligible retry_failed found.0)) [
          | inl chosen ↦ (
            c ∷ rest.0,
            rw (found.1, rest.1, chosen) refl,
            record {
              known = (h.0, s.known);
              eligible = ((found.0, found.1, chosen), s.eligible);
              shorter = omega (arith, s.shorter);
            },
          )
          | inr passed ↦ (
            rest.0,
            rw (found.1, rest.1, passed) refl,
            record { known = s.known; eligible = s.eligible; shorter = omega (arith, s.shorter) },
          )
        ]
  ]

  -- A run that is not eligible is no selected case's.
  pub eligible-other :
      (id : String) (run : Run) (selected : List Case)
      → find_run id runs ≡ some run
      → is_eligible retry_failed run ≡ false
      → Every (λ c. RunIs (is_eligible retry_failed) c.case_id runs) selected
      → Every (λ c. str_eq c.case_id id ≡ false) selected
  eligible-other id run [] found idle h = tt
  eligible-other id run (c ∷ selected) found idle h = (
    elim (Bool-cases (str_eq c.case_id id)) [
      | inl same ↦
          let r = h.0 in
          let there : find_run id runs ≡ some r.0 =
            subst (λ i. find_run i runs ≡ some r.0) ((eq_iff c.case_id id).0 same) r.1 in
          let equal : r.0 ≡ run = some-injective (sym there ∙ found) in
          absurd (let chosen = r.2 in let eligible = ap (is_eligible retry_failed) equal in cc)
      | inr other ↦ other
    ],
    eligible-other id run selected found idle h.1,
  )

Every-take :
    (P : Case → Type 0) (n : ℕ) (cases : List Case) → Every P cases → Every P (take n cases)
Every-take P zero cases h = tt
Every-take P (suc n) [] h = tt
Every-take P (suc n) (c ∷ cases) h = (h.0, Every-take P n cases h.1)

length-take_le : (n : ℕ) (cases : List Case) → length (take n cases) ≤ length cases
length-take_le zero cases = omega arith
length-take_le (suc n) [] = omega arith
length-take_le (suc n) (c ∷ cases) = omega (arith, length-take_le n cases)

pub Every-limited :
    (P : Case → Type 0) (limit : Option ℕ) (cases : List Case)
    → Every P cases
    → Every P (limited limit cases)
Every-limited P none cases h = h
Every-limited P (some limit) cases h = Every-take P limit cases h

pub length-limited :
    (limit : Option ℕ) (cases : List Case) → length (limited limit cases) ≤ length cases
length-limited none cases = omega arith
length-limited (some limit) cases = length-take_le limit cases

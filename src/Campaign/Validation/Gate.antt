-- ===== src/Campaign/Validation/Gate.antt =====
-- qcrl_campaign.py: a campaign passes validation only with results of the API that agree in pairs.
use quantconnect.Prelude.{
  ◌≡◌, refl, sym, ap, ◌∙◌, subst, arith, true, false, not, ◌||◌, Bool-cases, inl, inr, Option, none,
  some, List, [], ◌∷◌, map, is_empty, is_some, Every, and_some-eq-some, some-injective, ok,
  >>=-eq-ok, ok-injective, Ensures,
}
use quantconnect.Campaign.{Case, is_completed, is_collected, Run, State, Manifest}
use quantconnect.Campaign.Runs.{Hashing, find_run, load_state, is_api, missing_metric_fields}
use quantconnect.Campaign.Runs.Collected.{IsAuthoritative}
use quantconnect.Campaign.Runs.Loading.{HasRuns, load_state-IsAuthoritative, Every-find_run}
use quantconnect.Campaign.Validation.{
  Violation, pair_violations, case_runs, report_of, exit_code, validate_runs, validate_campaign,
}
use quantconnect.Campaign.Validation.Pairs.{keep-none}

-- A run is collected, with all its metrics from the API, with their time.
abbrev pub IsPublished : Manifest → Run → Type 0
IsPublished manifest run =
    (is_collected run.status ≡ true)
    × (is_api run.metrics_source ≡ true)
    × (is_some run.collected_at_utc ≡ true)
    × (missing_metric_fields manifest run.metrics ≡ [])

-- The case's run, and what is true of it.
abbrev pub RunOf : (Run → Type 0) → List Run → Case → Type 0
RunOf P runs c = (run : Run) × (find_run c.case_id runs ≡ some run) × P run

published :
    (m : Manifest) (run : Run)
    → IsAuthoritative m run
    → is_collected run.status ≡ true
    → IsPublished m run
published m run (inl open_run) done = absurd (let no = sym open_run ∙ done in cc)
published m run (inr facts) done = (done, facts.0, facts.1, facts.2)

case_runs-RunOf :
    (m : Manifest) (runs : List Run) (cases : List Case) (chosen : List Run)
    → Every (IsAuthoritative m) runs
    → case_runs runs cases ≡ some chosen
    → Every (λ run. is_collected run.status ≡ true) chosen
    → Every (RunOf (IsPublished m) runs) cases
case_runs-RunOf m runs [] chosen h listed all = tt
case_runs-RunOf m runs (c ∷ cases) chosen h listed all =
    let found = and_some-eq-some (find_run c.case_id runs) _ listed in
    let rest = and_some-eq-some (case_runs runs cases) _ found.2 in
    let each =
      subst (Every (λ (run : Run). is_collected run.status ≡ true)) (sym (some-injective rest.2))
        all in
    (
      (
        found.0,
        found.1,
        published m found.0 (Every-find_run (IsAuthoritative m) c.case_id runs found.0 h found.1)
            each.0,
      ),
      case_runs-RunOf m runs cases rest.0 h rest.1 each.1,
    )

is_empty-map : {A B : Type 0} (f : A → B) (xs : List A) → is_empty (map f xs) ≡ is_empty xs
is_empty-map f [] = refl
is_empty-map f (x ∷ xs) = refl

is_empty-eq : {A : Type 0} (xs : List A) → is_empty xs ≡ true → xs ≡ []
is_empty-eq [] h = refl
is_empty-eq (x ∷ xs) h = cc

both_collected :
    (runs : List Run)
    → Every (λ run. not (is_completed run.status || is_collected run.status) ≡ false) runs
    → Every (λ run. is_completed run.status ≡ false) runs
    → Every (λ run. is_collected run.status ≡ true) runs
both_collected [] h k = tt
both_collected (run ∷ runs) h k = (ground (arith, h.0, k.0), both_collected runs h.1 k.1)

exit_code-zero :
    (runs : List Run) (violations : List Violation)
    → exit_code (report_of runs violations) ≡ 0
    → Every (λ run. is_collected run.status ≡ true) runs × (violations ≡ [])
exit_code-zero runs violations h =
    let r = report_of runs violations in
    elim (Bool-cases (
      not (is_empty r.failed)
      || not (is_empty r.incomplete)
      || not (is_empty r.uncollected)
      || not (is_empty r.violations))) [
        | inl some_issue ↦ absurd (let no : 1 ≡ 0 = rw some_issue at h in omega (arith, no))
        | inr clean ↦
            let incomplete : is_empty r.incomplete ≡ true = ground arith in
            let uncollected : is_empty r.uncollected ≡ true = ground arith in
            let none_found : is_empty violations ≡ true = ground arith in
            (
              both_collected runs
                  (keep-none (λ run. not (is_completed run.status || is_collected run.status)) runs
                    (sym (is_empty-map (λ (run : Run). run.case_id) _) ∙ incomplete))
                  (keep-none (λ run. is_completed run.status) runs
                    (sym (is_empty-map (λ (run : Run). run.case_id) _) ∙ uncollected)),
              is_empty-eq violations none_found,
            )
      ]

module _ (H : Hashing) (m : Manifest) (cases : List Case) (file : Option State) where
  -- What a validation that returns 0 has seen.
  record Passed : Type 0 where
    pub state : State
    pub loaded : load_state H m cases file ≡ ok state
    pub runs : List Run
    pub listed : case_runs state.runs cases ≡ some runs
    pub collected : Every (λ run. is_collected run.status ≡ true) runs
    pub paired : pair_violations m.pair_validation runs ≡ ok []

  validate_runs-passed :
      (state : State) (o : Option (List Run))
      → load_state H m cases file ≡ ok state
      → case_runs state.runs cases ≡ o
      → validate_runs m o ≡ ok (some 0)
      → Passed
  validate_runs-passed state none loaded listed h = absurd (let no = ok-injective h in cc)
  validate_runs-passed state (some runs) loaded listed h =
      let checked = >>=-eq-ok (pair_violations m.pair_validation runs) _ h in
      let zero_code = exit_code-zero runs checked.0 (some-injective (ok-injective checked.2)) in
      record {
        state = state;
        loaded = loaded;
        runs = runs;
        listed = listed;
        collected = zero_code.0;
        paired = checked.1 ∙ ap ok zero_code.1;
      }

  validate_campaign-passed : validate_campaign H m cases file ≡ ok (some 0) → Passed
  unfolding validate_campaign
  validate_campaign-passed h =
      let loaded = >>=-eq-ok (load_state H m cases file) _ h in
      validate_runs-passed loaded.0 (case_runs loaded.0.runs cases) loaded.1 refl loaded.2

  -- Validation returns 0 only where the run of every case is collected, with all its metrics from the
  -- API, with their time.
  pub validate_campaign-IsPublished :
      validate_campaign H m cases file ≡ ok (some 0)
      → (state : State) × (load_state H m cases file ≡ ok state)
        × Every (RunOf (IsPublished m) state.runs) cases
  validate_campaign-IsPublished h =
      let p = validate_campaign-passed h in
      let known =
        subst (Ensures (λ s. Every (IsAuthoritative m) s.runs × HasRuns s.runs cases)) p.loaded
          (load_state-IsAuthoritative H m cases file) in
      (p.state, p.loaded, case_runs-RunOf m p.state.runs cases p.runs known.0 p.listed p.collected)

-- ===== src/Campaign/Validation.antt =====
-- qcrl_campaign.py: `validate_campaign` and the counts of `show_status`. The printed rankings, and the
-- comparison of pairs that is written to a file, are left out.
pub mod Close
pub mod Grouping
pub mod Pairs
pub mod Gate
use quantconnect.Prelude.{
  ℕ, ◌+◌, ◌-◌, leb, ◌==◌, Bool, true, false, not, ◌&&◌, ◌||◌, Option, none, some, List, [], ◌∷◌,
  ◌++◌, map, String, str_eq, lookup, keep, any, is_empty, is_some, ◌^◌, if◌then◌else◌, and_some,
  Result, ok, err, index_error, ◌>>=◌,
}
use quantconnect.Prelude.Int.{ℤ, pos, pos_part, neg_part}
use quantconnect.Campaign.{
  Scalar, number, boolean, string, null, Dict, Case, Status, is_completed, is_collected, is_failed,
  Run, State, PairValidation, Manifest,
}
use quantconnect.Campaign.Runs.{Hashing, find_run, load_state}

-- A value as a number, with twelve decimal places; `True` is 1 in Python.
abbrev pub as_number : Scalar → Option ℤ
as_number (number n) = some n
as_number (boolean true) = some (pos (10 ^ 12))
as_number (boolean false) = some (pos 0)
as_number _ = none

abbrev pub distance : ℤ → ℤ → ℕ
distance a b =
    (pos_part a + neg_part b - (pos_part b + neg_part a))
    + (pos_part b + neg_part a - (pos_part a + neg_part b))

-- Numbers within `tolerance`, or the same value.
abbrev pub equal_numbers : ℕ → Option ℤ → Option ℤ → Bool
equal_numbers tolerance (some a) (some b) = leb (distance a b) tolerance
equal_numbers tolerance _ _ = false

abbrev pub equal_others : Scalar → Scalar → Bool
equal_others (string s) (string t) = str_eq s t
equal_others null null = true
equal_others _ _ = false

-- `==`
abbrev pub same_scalar : Scalar → Scalar → Bool
same_scalar a b = equal_numbers 0 (as_number a) (as_number b) || equal_others a b

-- `equal_metric`: numbers may differ by 1e-9.
unfoldable pub equal_metric : Scalar → Scalar → Bool
equal_metric first second =
    equal_numbers (10 ^ 3) (as_number first) (as_number second) || equal_others first second

abbrev pub or_null : Option Scalar → Scalar
or_null none = null
or_null (some value) = value

-- `d.get(field)`
abbrev pub get_scalar : String → Dict → Scalar
get_scalar field d = or_null (lookup field d)

-- The members of a group by their value of the dimension; a later run replaces an earlier one.
abbrev pub Members : Type 0
Members = List (Scalar × Run)

abbrev pub member : Scalar → Members → Option Run
member value [] = none
member value ((v, run) ∷ members) = if same_scalar v value then some run else member value members

abbrev pub put_member : Scalar → Run → Members → Members
put_member value run [] = (value, run) ∷ []
put_member value run ((v, r) ∷ members) =
    if same_scalar v value then (v, run) ∷ members else (v, r) ∷ put_member value run members

abbrev pub same_key : List Scalar → List Scalar → Bool
same_key [] [] = true
same_key (x ∷ xs) (y ∷ ys) = same_scalar x y && same_key xs ys
same_key _ _ = false

abbrev pub Groups : Type 0
Groups = List (List Scalar × Members)

abbrev pub put_group : List Scalar → Scalar → Run → Groups → Groups
put_group key value run [] = (key, (value, run) ∷ []) ∷ []
put_group key value run ((k, members) ∷ groups) =
    if same_key k key
    then (k, put_member value run members) ∷ groups
    else (k, members) ∷ put_group key value run groups

abbrev pub group_runs : PairValidation → Groups → List Run → Groups
group_runs pair groups [] = groups
group_runs pair groups (run ∷ runs) =
    group_runs pair
      (put_group (map (λ field. get_scalar field run.parameters) pair.group_by)
        (get_scalar pair.dimension run.parameters) run groups)
      runs

pub data Violation : Type 0 where
  missing_values : List Scalar → List Scalar → Violation
  lacks_invariant : List Scalar → String → Violation
  differs : List Scalar → String → Scalar → Scalar → Violation

-- One invariant of two runs' metrics.
abbrev pub compare_field : List Scalar → String → Option Scalar → Option Scalar → List Violation
compare_field key field (some a) (some b) =
    if equal_metric a b then [] else differs key field a b ∷ []
compare_field key field _ _ = lacks_invariant key field ∷ []

abbrev pub compare_fields : List Scalar → List String → Dict → Dict → List Violation
compare_fields key [] baseline compared = []
compare_fields key (field ∷ fields) baseline compared =
    compare_field key field (lookup field baseline) (lookup field compared)
    ++ compare_fields key fields baseline compared

abbrev pub metrics_of : Option Run → Dict
metrics_of none = []
metrics_of (some run) = run.metrics

abbrev pub compare_members :
    PairValidation → List Scalar → Dict → Members → List Scalar → List Violation
compare_members pair key baseline members [] = []
compare_members pair key baseline members (value ∷ values) =
    compare_fields key pair.invariants baseline (metrics_of (member value members))
    ++ compare_members pair key baseline members values

abbrev pub is_member : Scalar → Members → Bool
is_member value members = is_some (member value members)

-- `expected[0]` raises where no value is expected.
abbrev pub check_group :
    PairValidation → List Scalar → Members → List Scalar → Result (List Violation)
check_group pair key members [] = err index_error
check_group pair key members (first ∷ rest) =
    (let absent = keep (λ value. not (is_member value members)) (first ∷ rest) in
      ok (
        if is_empty absent
        then compare_members pair key (metrics_of (member first members)) members rest
        else missing_values key absent ∷ []))

abbrev pub check_groups : PairValidation → Groups → Result (List Violation)
check_groups pair [] = ok []
check_groups pair ((key, members) ∷ groups) =
    check_group pair key members pair.expected_values >>= λ here.
    check_groups pair groups >>= λ there. ok (here ++ there)

unfoldable pub pair_violations : Option PairValidation → List Run → Result (List Violation)
unfolding equal_metric
pair_violations none runs = ok []
pair_violations (some pair) runs = check_groups pair (group_runs pair [] runs)

abbrev pub case_runs : List Run → List Case → Option (List Run)
case_runs runs [] = some []
case_runs runs (c ∷ cases) =
    and_some (find_run c.case_id runs)
      λ run. and_some (case_runs runs cases) λ rest. some (run ∷ rest)

-- What is printed and decides the exit code.
pub record Report : Type 0 where
  pub failed : List String
  pub incomplete : List String
  pub uncollected : List String
  pub violations : List Violation

abbrev pub ids_where : (Run → Bool) → List Run → List String
ids_where test runs = map (λ run. run.case_id) (keep test runs)

abbrev pub report_of : List Run → List Violation → Report
report_of runs violations = record {
  failed = ids_where (λ run. is_failed run.status) runs;
  incomplete = ids_where (λ run. not (is_completed run.status || is_collected run.status)) runs;
  uncollected = ids_where (λ run. is_completed run.status) runs;
  violations = violations;
}

abbrev pub exit_code : Report → ℕ
exit_code report =
    if not (is_empty report.failed)
      || not (is_empty report.incomplete)
      || not (is_empty report.uncollected)
      || not (is_empty report.violations)
    then 1
    else 0

abbrev pub validate_runs : Manifest → Option (List Run) → Result (Option ℕ)
validate_runs manifest none = ok none
validate_runs manifest (some runs) = pair_violations manifest.pair_validation runs >>= λ violations.
    ok (some (exit_code (report_of runs violations)))

-- `none` stands for a case that has no run.
unfoldable pub validate_campaign : Hashing → Manifest → List Case → Option State → Result (Option ℕ)
unfolding load_state pair_violations
validate_campaign H manifest cases file = load_state H manifest cases file >>= λ state.
    validate_runs manifest (case_runs state.runs cases)

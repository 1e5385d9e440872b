-- ===== src/Tests/Campaigns.antt =====
-- qcrl_campaign.py: a campaign of two cases, whose second submission fails.
use quantconnect.Prelude.{
  ℕ, arith, zero, suc, ◌+◌, ◌*◌, ◌^◌, ◌≤◌, ◌≡◌, ◌≢◌, ◌⊎◌, refl, Bool, true, false, Option, none,
  some, List, [], ◌∷◌, length, ok, Result, Ensures, Every,
}
use quantconnect.Prelude.Int.{pos}
use quantconnect.Campaign.{
  number, string, finite, Dict, Case, Run, State, Manifest, PairValidation, completed, collected,
  is_completed, is_failed, quantconnect_api,
}
use quantconnect.Campaign.Policy.{Policy, an_object, submission_policy, rate_backoff_seconds}
use quantconnect.Campaign.Policy.Bounds.{DelayOf, submission_policy-IsBounded}
use quantconnect.Campaign.Runs.{
  Hashing, find_run, load_state, normalize_run, missing_metric_fields, pending_run,
}
use quantconnect.Campaign.Runs.Collected.{IsAuthoritative}
use quantconnect.Campaign.Runs.Kept.{IsKept}
use quantconnect.Campaign.Runs.Loading.{
  HasRuns, load_state-IsAuthoritative, load_state-load_state, load_state-find_run,
}
use quantconnect.Campaign.Runner.{
  Execution, Environment, Done, Options, run_loaded, run_cases, run_attempts, submit, finish_run,
  select_cases, limited,
}
use quantconnect.Campaign.Runner.Attempts.{IsFinite}
use quantconnect.Campaign.Runner.Finish.{RunIs}
use quantconnect.Campaign.Runner.Spacing.{IsSpaced}
use quantconnect.Campaign.Runner.Resume.{
  run_loaded-ends, run_loaded-resumes, run_loaded-code, run_loaded-IsSpaced,
  run_loaded-IsAuthoritative,
}
use quantconnect.Campaign.Collection.{Api, Collecting, collect_campaign, collect_cases, take_reply}
use quantconnect.Campaign.Collection.Trusted.{collect_campaign-IsAuthoritative}
use quantconnect.Campaign.Validation.{validate_campaign, pair_violations, equal_metric}
use quantconnect.Campaign.Validation.Gate.{IsPublished, RunOf, validate_campaign-IsPublished}

abbrev hashing : Hashing
hashing = record { sorted = λ identities. identities; canonical_hash = λ identities. "cases" }

abbrev pair : PairValidation
pair = record {
  dimension = "stake_mode";
  expected_values = string "flat" ∷ string "martingale" ∷ [];
  group_by = "coin" ∷ [];
  invariants = "trades" ∷ [];
}

abbrev manifest : Manifest
manifest = record {
  manifest_hash = "manifest";
  objective = none;
  pair_validation = some pair;
  cohort_rankings = [];
  pair_comparison = false;
  directional_analysis = none;
}

abbrev flat : Case
flat = record {
  case_id = "flat";
  parameter_hash = "1";
  parameters = ("stake_mode", string "flat") ∷ ("coin", string "btc") ∷ [];
}

abbrev doubled : Case
doubled = record {
  case_id = "doubled";
  parameter_hash = "2";
  parameters = ("stake_mode", string "martingale") ∷ ("coin", string "btc") ∷ [];
}

abbrev cases : List Case
cases = flat ∷ doubled ∷ []

abbrev metrics : Dict
metrics = ("run_id", string "r") ∷ ("trades", number (pos (7 * 10 ^ 12))) ∷ []

-- A file in which the first case is collected.
abbrev finished : Run
finished = record (pending_run flat) {
  status = collected;
  backtest_id = some "b1";
  metrics = metrics;
  metrics_source = some quantconnect_api;
  collected_at_utc = some "2024-01-01T00:00:00Z";
}

abbrev file : State
file = record {
  manifest_hash = "older";
  case_set_hash = none;
  manifest_revisions = [];
  runs = finished ∷ [];
}

abbrev loaded : State
loaded = record {
  manifest_hash = "manifest";
  case_set_hash = some "cases";
  manifest_revisions =
      record {
        previous_manifest_hash = "older";
        manifest_hash = "manifest";
        case_set_hash = "cases";
      }
      ∷ [];
  runs = finished ∷ pending_run doubled ∷ [];
}

file_loaded : load_state hashing manifest cases (some file) ≡ ok loaded
unfolding load_state normalize_run missing_metric_fields
file_loaded = refl

load_state-IsAuthoritative_example :
    Ensures
      (λ state. Every (IsAuthoritative manifest) state.runs × HasRuns state.runs cases)
      (load_state hashing manifest cases (some file))
load_state-IsAuthoritative_example = load_state-IsAuthoritative hashing manifest cases (some file)

load_state-load_state_example : load_state hashing manifest cases (some loaded) ≡ ok loaded
load_state-load_state_example =
    load_state-load_state hashing manifest cases (some file) loaded file_loaded

load_state-find_run_example :
    (kept : Run) × (find_run "flat" loaded.runs ≡ some kept) × IsKept finished kept
load_state-find_run_example =
    load_state-find_run hashing manifest cases file loaded "flat" finished file_loaded refl

-- The policy of a manifest that names none, with milliseconds as the unit.
abbrev default_policy : Policy
default_policy = record {
  min_interval_seconds = finite 30000;
  max_rate_retries = 4;
  initial_backoff_seconds = finite 30000;
  max_backoff_seconds = finite 300000;
}

default_accepted : submission_policy 1000 (an_object []) none none ≡ ok default_policy
unfolding submission_policy
default_accepted = refl

submission_policy-IsBounded_example :
    (delay next : ℕ) × DelayOf default_policy 30000 300000 3 delay
    × DelayOf default_policy 30000 300000 4 next
    × (delay ≤ next)
submission_policy-IsBounded_example =
    submission_policy-IsBounded 1000 (an_object []) none none default_policy 30000 300000 3
      default_accepted refl refl (omega arith)

abbrev policy : Policy
policy = record {
  min_interval_seconds = finite 30;
  max_rate_retries = 1;
  initial_backoff_seconds = finite 30;
  max_backoff_seconds = finite 300;
}

policy-IsFinite : IsFinite policy
policy-IsFinite = record {
  interval = (30, refl);
  initial = (30, refl);
  longest = (300, refl);
  retries = omega arith;
}

-- The first submission meets the rate limit, the second fails.
abbrev execution : Bool → Execution
execution announces_limit = record {
  return_code = pos 1;
  backtest_id = none;
  backtest_url = none;
  announces_limit = announces_limit;
  cli_metrics = [];
  before = 1;
  after = 0;
}

abbrev environment : Environment
environment zero = execution true
environment (suc n) = execution false

abbrev options : Options
options = record {
  limit = none;
  retry_failed = false;
  min_interval_seconds = none;
  max_rate_retries = none;
}

abbrev done_of : Option Done → Done
done_of (some done) = done
done_of none = record { code = 0; runs = []; world = record { now = 0; starts = [] } }

abbrev stopped : Done
stopped = done_of (run_loaded manifest policy environment options cases 5 loaded)

campaign_stopped : run_loaded manifest policy environment options cases 5 loaded ≡ some stopped
unfolding run_loaded run_cases run_attempts submit finish_run rate_backoff_seconds
campaign_stopped = refl

run_loaded-ends_example :
    (done : Done) × (run_loaded manifest policy environment options cases 5 loaded ≡ some done)
    × (length done.world.starts ≤ 2 * (1 + 1))
run_loaded-ends_example =
    run_loaded-ends hashing manifest policy environment options cases 5 (some file) loaded
      policy-IsFinite file_loaded

run_loaded-resumes_example : find_run "flat" stopped.runs ≡ some finished
run_loaded-resumes_example =
    run_loaded-resumes hashing manifest policy environment options cases 5 (some file) loaded
      stopped "flat" finished file_loaded campaign_stopped refl refl

run_loaded-code_example :
    (selected : List Case) × (select_cases false loaded.runs cases ≡ some selected)
    × (((stopped.code ≡ 0)
          × Every
              (λ c. RunIs (λ run. is_completed run.status) c.case_id stopped.runs)
              (limited none selected))
        ⊎ ((stopped.code ≢ 0)
            × ((c : Case) × RunIs (λ run. is_failed run.status) c.case_id stopped.runs)))
run_loaded-code_example =
    run_loaded-code hashing manifest policy environment options cases 5 (some file) loaded stopped
      file_loaded campaign_stopped

run_loaded-IsSpaced_example : IsSpaced 30 stopped.world.starts
run_loaded-IsSpaced_example =
    run_loaded-IsSpaced hashing manifest policy environment options cases 5 (some file) loaded
      stopped 30 refl file_loaded campaign_stopped

run_loaded-IsAuthoritative_example : Every (IsAuthoritative manifest) stopped.runs
run_loaded-IsAuthoritative_example =
    run_loaded-IsAuthoritative hashing manifest policy environment options cases 5 (some file)
      loaded stopped file_loaded campaign_stopped

-- A file of two completed runs, and an API that has the metrics of both.
abbrev api : Api
api backtest_id = ok (record { metrics = metrics; read_at_utc = "2024-01-02T00:00:00Z" })

abbrev completed_run : Run
completed_run = record (pending_run doubled) { status = completed; backtest_id = some "b2" }

abbrev ran_file : State
ran_file = record file { runs = finished ∷ completed_run ∷ [] }

abbrev collecting_of : Result (Option Collecting) → Collecting
collecting_of (ok (some out)) = out
collecting_of _ = record { code = none; saved = []; count = 0 }

abbrev collecting : Collecting
collecting = collecting_of (collect_campaign hashing manifest api cases (some ran_file))

campaign_collected :
    collect_campaign hashing manifest api cases (some ran_file) ≡ ok (some collecting)
unfolding collect_campaign collect_cases take_reply load_state normalize_run missing_metric_fields
campaign_collected = refl

collecting_returned : collecting.code ≡ some 0
unfolding collect_campaign collect_cases take_reply load_state normalize_run missing_metric_fields
collecting_returned = refl

collect_campaign-IsAuthoritative_example : Every (IsAuthoritative manifest) collecting.saved
collect_campaign-IsAuthoritative_example =
    collect_campaign-IsAuthoritative manifest hashing api cases (some ran_file) collecting
      campaign_collected collecting_returned

-- The file after that collection.
abbrev published_run : Run
published_run = record (pending_run doubled) {
  status = collected;
  backtest_id = some "b2";
  metrics = metrics;
  metrics_source = some quantconnect_api;
  collected_at_utc = some "2024-01-02T00:00:00Z";
}

abbrev published_file : State
published_file = record file { runs = finished ∷ published_run ∷ [] }

campaign_validated : validate_campaign hashing manifest cases (some published_file) ≡ ok (some 0)
unfolding validate_campaign pair_violations equal_metric load_state normalize_run
    missing_metric_fields
campaign_validated = refl

validate_campaign-IsPublished_example :
    (state : State) × (load_state hashing manifest cases (some published_file) ≡ ok state)
    × Every (RunOf (IsPublished manifest) state.runs) cases
validate_campaign-IsPublished_example =
    validate_campaign-IsPublished hashing manifest cases (some published_file) campaign_validated

-- ===== src/Campaign/Runs.antt =====
-- qcrl_campaign.py: the state of a campaign's runs, as it is loaded and as the runner reads it. The
-- file is `none` where there is none.
pub mod Collected
pub mod Kept
pub mod Loading
use quantconnect.Prelude.{
  Bool, true, false, not, ◌&&◌, ◌||◌, Option, none, some, List, [], ◌∷◌, ◌++◌, map, String, str_eq,
  if◌then◌else◌, is_some, Result, ok, err, campaign_error, raise_if, ◌>>=◌, ◌>>◌, has_key, keep,
  is_empty,
}
use quantconnect.Campaign.{
  Dict, Case, Status, pending, completed, is_collected, Source, quantconnect_api, lean_cli,
  CollectionError, awaiting_collection, missing_metrics, Run, Revision, State, ScoreModel,
  flat_profit_drawdown, martingale_recovery_risk, Ranking, PairValidation, Manifest,
}

-- `canonical_hash` of the identities of cases, and the sort of the identities by their case.
pub record Hashing : Type 0 where
  pub sorted : List (String × String) → List (String × String)
  pub canonical_hash : List (String × String) → String

abbrev pub is_api : Option Source → Bool
is_api (some quantconnect_api) = true
is_api _ = false

abbrev pub find_run : String → List Run → Option Run
find_run id [] = none
find_run id (run ∷ runs) = if str_eq run.case_id id then some run else find_run id runs

-- The run of a case, changed in its place.
abbrev pub put_run : Run → List Run → List Run
put_run new [] = []
put_run new (run ∷ runs) =
    if str_eq run.case_id new.case_id then new ∷ runs else run ∷ put_run new runs

abbrev pub score_fields : ScoreModel → List String
score_fields flat_profit_drawdown = "net_profit" ∷ "max_drawdown" ∷ "ruined" ∷ []
score_fields martingale_recovery_risk = "risk_adjusted_score" ∷ "ruined" ∷ []

abbrev pub pair_comparison_fields : List String
pair_comparison_fields =
    "net_profit" ∷ "win_rate" ∷ "trades" ∷ "max_drawdown" ∷ "max_single_wager"
    ∷ "max_recovery_depth" ∷ "max_loss_streak" ∷ "risk_adjusted_score" ∷ "ruined" ∷ []

abbrev pub directional_cohort_fields : List String
directional_cohort_fields =
    "run_id" ∷ "net_profit" ∷ "win_rate" ∷ "trades" ∷ "wins" ∷ "max_drawdown" ∷ "max_loss_streak"
    ∷ "ruined" ∷ []

abbrev pub objective_fields : Option String → List String
objective_fields none = []
objective_fields (some field) = field ∷ []

abbrev pub pair_fields : Option PairValidation → List String
pair_fields none = []
pair_fields (some pair) = pair.invariants

abbrev pub ranking_fields : List Ranking → List String
ranking_fields [] = []
ranking_fields (ranking ∷ rankings) =
    score_fields ranking.score_model ++ ranking.display_fields ++ ranking_fields rankings

abbrev pub directional_fields : Option (List String) → List String
directional_fields none = []
directional_fields (some additional_metrics) = directional_cohort_fields ++ additional_metrics

-- The set of the fields, without regard to order and repetition.
abbrev pub required_metric_fields : Manifest → List String
required_metric_fields manifest =
    "run_id" ∷ objective_fields manifest.objective
    ++ pair_fields manifest.pair_validation
    ++ ranking_fields manifest.cohort_rankings
    ++ (if manifest.pair_comparison then pair_comparison_fields else [])
    ++ directional_fields manifest.directional_analysis

unfoldable pub missing_metric_fields : Manifest → Dict → List String
missing_metric_fields manifest metrics =
    keep (λ field. not (has_key field metrics)) (required_metric_fields manifest)

-- `normalize_collection_status` of one run, in its two steps.
abbrev pub infer_source : Run → Run
infer_source run =
    if not (is_empty run.metrics) && not (is_some run.metrics_source)
    then record run {
      metrics_source = some (if is_some run.collected_at_utc then quantconnect_api else lean_cli);
    }
    else run

abbrev pub check_missing : List String → Run → Run
check_missing [] run = run
check_missing (field ∷ fields) run = record run {
  status = completed;
  collection_error = some (missing_metrics (field ∷ fields));
}

abbrev pub check_collected : Manifest → Run → Run
check_collected manifest run =
    if is_collected run.status
    then if not (is_api run.metrics_source) || not (is_some run.collected_at_utc)
      then record run { status = completed; collection_error = some awaiting_collection }
      else check_missing (missing_metric_fields manifest run.metrics) run
    else run

unfoldable pub normalize_run : Manifest → Run → Run
normalize_run manifest run = check_collected manifest (infer_source run)

abbrev pub normalize_collection_status : Manifest → List Run → List Run
normalize_collection_status manifest runs = map (normalize_run manifest) runs

abbrev pub pending_run : Case → Run
pending_run c = record {
  case_id = c.case_id;
  parameter_hash = c.parameter_hash;
  parameters = c.parameters;
  status = pending;
  attempts = 0;
  backtest_id = none;
  backtest_url = none;
  return_code = none;
  metrics = [];
  metrics_source = none;
  collected_at_utc = none;
  collection_error = none;
  error = none;
  rate_limit_events = [];
  rate_limit_retries = 0;
}

-- `setdefault`: a case that has no run yet gets one that is pending.
abbrev pub add_case : List Run → Case → List Run
add_case runs c = if is_some (find_run c.case_id runs) then runs else runs ++ pending_run c ∷ []

abbrev pub add_cases : List Run → List Case → List Run
add_cases runs [] = runs
add_cases runs (c ∷ cases) = add_cases (add_case runs c) cases

abbrev pub revise : Manifest → String → State → State
revise manifest expected state =
    if str_eq state.manifest_hash manifest.manifest_hash
    then record state { case_set_hash = some expected }
    else record state {
      manifest_revisions =
          state.manifest_revisions
          ++ record {
            previous_manifest_hash = state.manifest_hash;
            manifest_hash = manifest.manifest_hash;
            case_set_hash = expected;
          }
            ∷ [];
      manifest_hash = manifest.manifest_hash;
      case_set_hash = some expected;
    }

abbrev pub complete_state : Manifest → List Case → State → State
complete_state manifest cases state = record state {
  runs = normalize_collection_status manifest (add_cases state.runs cases);
}

module _ (H : Hashing) where
  abbrev pub case_set_hash : List Case → String
  case_set_hash cases = H.canonical_hash (H.sorted (map (λ c. (c.case_id, c.parameter_hash)) cases))

  abbrev pub state_case_set_hash : State → String
  state_case_set_hash state =
      H.canonical_hash (H.sorted (map (λ run. (run.case_id, run.parameter_hash)) state.runs))

  abbrev pub stored_case_set_hash : State → Option String → String
  stored_case_set_hash state none = state_case_set_hash state
  stored_case_set_hash state (some stored) = stored

  abbrev pub read_state : Manifest → List Case → Option State → Result State
  read_state manifest cases none = ok (record {
    manifest_hash = manifest.manifest_hash;
    case_set_hash = some (case_set_hash cases);
    manifest_revisions = [];
    runs = [];
  })
  read_state manifest cases (some state) = do
    raise_if (not (str_eq (stored_case_set_hash state state.case_set_hash) (case_set_hash cases)))
        campaign_error
    ok (revise manifest (case_set_hash cases) state)

  unfoldable pub load_state : Manifest → List Case → Option State → Result State
  load_state manifest cases file = do
    state ← read_state manifest cases file
    ok (complete_state manifest cases state)

-- ===== src/Campaign/Runs/Kept.antt =====
-- qcrl_campaign.py: what the normalisation of a run keeps.
use quantconnect.Prelude.{
  Option, some, true, false, not, ◌&&◌, ◌||◌, List, [], ◌∷◌, String, Bool-cases, inl, inr, ◌≡◌,
  refl, sym, ap, ◌∙◌, arith, is_some, is_empty,
}
use quantconnect.Campaign.{
  is_collected, completed, CollectionError, awaiting_collection, missing_metrics, Source, Run,
  Manifest,
}
use quantconnect.Campaign.Runs.{
  is_api, missing_metric_fields, infer_source, check_missing, check_collected, normalize_run,
}

-- What is kept of a run.
pub record IsKept (run kept : Run) : Type 0 where
  pub case_id : kept.case_id ≡ run.case_id
  pub parameter_hash : kept.parameter_hash ≡ run.parameter_hash
  pub parameters : kept.parameters ≡ run.parameters
  pub attempts : kept.attempts ≡ run.attempts
  pub backtest_id : kept.backtest_id ≡ run.backtest_id
  pub backtest_url : kept.backtest_url ≡ run.backtest_url
  pub return_code : kept.return_code ≡ run.return_code
  pub metrics : kept.metrics ≡ run.metrics
  pub collected_at_utc : kept.collected_at_utc ≡ run.collected_at_utc
  pub error : kept.error ≡ run.error
  pub rate_limit_events : kept.rate_limit_events ≡ run.rate_limit_events
  pub rate_limit_retries : kept.rate_limit_retries ≡ run.rate_limit_retries
  pub source : is_some run.metrics_source ≡ true → kept.metrics_source ≡ run.metrics_source
  pub status : is_collected run.status ≡ false → kept.status ≡ run.status
  pub note : is_collected run.status ≡ false → kept.collection_error ≡ run.collection_error

pub IsKept-refl : (run : Run) → IsKept run run
IsKept-refl run = record {
  case_id = refl;
  parameter_hash = refl;
  parameters = refl;
  attempts = refl;
  backtest_id = refl;
  backtest_url = refl;
  return_code = refl;
  metrics = refl;
  collected_at_utc = refl;
  error = refl;
  rate_limit_events = refl;
  rate_limit_retries = refl;
  source = λ h. refl;
  status = λ h. refl;
  note = λ h. refl;
}

sourced :
    (run : Run) (from : Source)
    → is_some run.metrics_source ≡ false
    → IsKept run (record run { metrics_source = some from })
sourced run from bare = record {
  case_id = refl;
  parameter_hash = refl;
  parameters = refl;
  attempts = refl;
  backtest_id = refl;
  backtest_url = refl;
  return_code = refl;
  metrics = refl;
  collected_at_utc = refl;
  error = refl;
  rate_limit_events = refl;
  rate_limit_retries = refl;
  source = λ h. absurd (let no = sym bare ∙ h in cc);
  status = λ h. refl;
  note = λ h. refl;
}

infer_source-IsKept : (run : Run) → IsKept run (infer_source run)
infer_source-IsKept run =
    elim (Bool-cases (not (is_empty run.metrics) && not (is_some run.metrics_source))) [
      | inl bare ↦ rw bare (sourced run _ (ground (arith, bare)))
      | inr known ↦ rw known (IsKept-refl run)
    ]

infer_source-status : (run : Run) → (infer_source run).status ≡ run.status
infer_source-status run =
    elim (Bool-cases (not (is_empty run.metrics) && not (is_some run.metrics_source))) [
      | inl bare ↦ rw bare refl
      | inr sourced ↦ rw sourced refl
    ]

module _ (m : Manifest) (run read : Run) (h : IsKept run read)
    (same : read.status ≡ run.status) where
  marked :
      (text : Option CollectionError)
      → is_collected read.status ≡ true
      → IsKept run (record read { status = completed; collection_error = text })
  marked text done = record {
    case_id = h.case_id;
    parameter_hash = h.parameter_hash;
    parameters = h.parameters;
    attempts = h.attempts;
    backtest_id = h.backtest_id;
    backtest_url = h.backtest_url;
    return_code = h.return_code;
    metrics = h.metrics;
    collected_at_utc = h.collected_at_utc;
    error = h.error;
    rate_limit_events = h.rate_limit_events;
    rate_limit_retries = h.rate_limit_retries;
    source = h.source;
    status = λ k. absurd (let no = sym k ∙ ap is_collected (sym same) ∙ done in cc);
    note = λ k. absurd (let no = sym k ∙ ap is_collected (sym same) ∙ done in cc);
  }

  check_missing-IsKept :
      (missing : List String)
      → is_collected read.status ≡ true
      → IsKept run (check_missing missing read)
  check_missing-IsKept [] done = h
  check_missing-IsKept (f ∷ fs) done = marked (some (missing_metrics (f ∷ fs))) done

  check_collected-IsKept : IsKept run (check_collected m read)
  check_collected-IsKept = elim (Bool-cases (is_collected read.status)) [
    | inl done ↦
        elim (Bool-cases
          (not (is_api read.metrics_source) || not (is_some read.collected_at_utc))) [
            | inl weak ↦ rw (done, weak) (marked (some awaiting_collection) done)
            | inr strong ↦
                rw (done, strong) (check_missing-IsKept (missing_metric_fields m read.metrics) done)
          ]
    | inr open_run ↦ rw open_run h
  ]

pub normalize_run-IsKept : (m : Manifest) (run : Run) → IsKept run (normalize_run m run)
unfolding normalize_run
normalize_run-IsKept m run =
    check_collected-IsKept m run (infer_source run) (infer_source-IsKept run)
      (infer_source-status run)

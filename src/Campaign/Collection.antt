-- ===== src/Campaign/Collection.antt =====
-- qcrl_campaign.py: `collect_campaign`. The API answers with the metrics of a backtest and the time at
-- which they were read, or raises; the file keeps the runs of the last save.
pub mod Trusted
use quantconnect.Prelude.{
  ℕ, ◌+◌, Bool, true, false, not, ◌||◌, Option, none, some, List, [], ◌∷◌, String, if◌then◌else◌,
  is_some, is_empty, and_some, Result, ok, err, ◌>>=◌,
}
use quantconnect.Campaign.{
  Dict, Case, Status, completed, collected, is_failed, quantconnect_api, CollectionError,
  no_statistics, api_lacks, Run, State, Manifest,
}
use quantconnect.Campaign.Runs.{Hashing, find_run, put_run, missing_metric_fields, load_state}

pub record Reply : Type 0 where
  pub metrics : Dict
  pub read_at_utc : String

abbrev pub Api : Type 0
Api = String → Result Reply

-- The runs in memory, those of the file, and how many were collected.
pub record Collection : Type 0 where
  pub runs : List Run
  pub saved : List Run
  pub count : ℕ

-- The end of a collection: the exit code, or `none` where the API raised, and what the file holds.
pub record Collecting : Type 0 where
  pub code : Option ℕ
  pub saved : List Run
  pub count : ℕ

-- A run with the metrics of the API, and the fields that they lack.
abbrev pub with_metrics : Reply → List String → Run → Run
with_metrics reply [] run = record run {
  metrics = reply.metrics;
  metrics_source = some quantconnect_api;
  status = collected;
  collected_at_utc = some reply.read_at_utc;
  collection_error = none;
}
with_metrics reply (field ∷ fields) run = record run {
  metrics = reply.metrics;
  metrics_source = some quantconnect_api;
  status = completed;
  collected_at_utc = some reply.read_at_utc;
  collection_error = some (api_lacks (field ∷ fields));
}

abbrev pub without_metrics : Run → Run
without_metrics run = record run { collection_error = some no_statistics }

unfoldable pub take_reply : Manifest → Reply → Run → Collection → Collection
take_reply manifest reply run c =
    let missing = missing_metric_fields manifest reply.metrics in
    let runs = put_run (with_metrics reply missing run) c.runs in
    if is_empty reply.metrics
    then record c { runs = put_run (without_metrics run) c.runs }
    else record {
      runs = runs;
      saved = runs;
      count = if is_empty missing then c.count + 1 else c.count;
    }

abbrev pub read_reply : Manifest → Api → Run → Option String → Collection → Result Collection
read_reply manifest api run none c = ok c
read_reply manifest api run (some backtest_id) c =
    if is_failed run.status
    then ok c
    else (api backtest_id >>= λ reply. ok (take_reply manifest reply run c))

-- The loop goes on unless the API raised.
abbrev pub go_on :
    Result Collection → Collection → (Collection → Option Collecting) → Option Collecting
go_on (err raised) before next =
    some (record { code = none; saved = before.saved; count = before.count })
go_on (ok after) before next = next after

unfoldable pub collect_cases : Manifest → Api → List Case → Collection → Option Collecting
unfolding take_reply
collect_cases manifest api [] c = some (record { code = some 0; saved = c.runs; count = c.count })
collect_cases manifest api (case ∷ cases) c = and_some (find_run case.case_id c.runs) λ run.
    go_on (read_reply manifest api run run.backtest_id c) c
      λ after. collect_cases manifest api cases after

abbrev pub file_runs : Option State → List Run
file_runs none = []
file_runs (some state) = state.runs

unfoldable pub collect_campaign :
    Hashing → Manifest → Api → List Case → Option State → Result (Option Collecting)
unfolding load_state collect_cases
collect_campaign H manifest api cases file = do
  state ← load_state H manifest cases file
  ok (
      collect_cases manifest api cases
        (record { runs = state.runs; saved = file_runs file; count = 0 }))

-- ===== src/Campaign/Runner.antt =====
-- qcrl_campaign.py: `run_campaign` with `execute`, in a clean tree. The n-th submission of the campaign
-- gives the n-th execution: its exit code, what the searches of its output find, and the time that
-- passes around it. A file is written where the state changes, and the last one is the result's.
pub mod Attempts
pub mod Spacing
pub mod Finish
pub mod Cases
pub mod Selection
pub mod Resume
use quantconnect.Prelude.{
  ℕ, zero, suc, ◌+◌, ltb, Bool, true, false, not, ◌&&◌, ◌||◌, Option, none, some, List, [], ◌∷◌,
  ◌++◌, length, String, if◌then◌else◌, is_some, is_empty, take, and_some, Result, ok, ◌>>=◌,
}
use quantconnect.Prelude.Int.{ℤ, pos, eqb_ℤ}
use quantconnect.Campaign.{
  Dict, Case, Status, running, rate_limited, completed, failed, Seconds, is_completed, is_collected,
  is_failed, lean_cli, CollectionError, terminal_complete, terminal_omitted, RunError,
  rate_limit_exhausted, lean_exited, no_backtest_id, RateLimitEvent, Run, State, Manifest,
}
use quantconnect.Campaign.Policy.{
  Setting, Configured, Policy, submission_policy, rate_backoff_seconds, submission_wait_seconds,
  sleep,
}
use quantconnect.Campaign.Runs.{Hashing, find_run, put_run, missing_metric_fields, load_state}

pub record Execution : Type 0 where
  pub return_code : ℤ
  pub backtest_id : Option String
  pub backtest_url : Option String
  pub announces_limit : Bool
  pub cli_metrics : Dict
  -- The time until the clock is read for the wait, and from the end of the wait to the start.
  pub before : ℕ
  pub after : ℕ

abbrev pub Environment : Type 0
Environment = ℕ → Execution

-- The clock, and its readings at the starts of this campaign's submissions, the last one first.
pub record World : Type 0 where
  pub now : ℕ
  pub starts : List ℕ

abbrev pub last_start : List ℕ → Option ℕ
last_start [] = none
last_start (start ∷ starts) = some start

pub record Attempted : Type 0 where
  pub run : Run
  pub world : World
  pub execution : Execution

-- What a campaign leaves: its exit code and the runs of its state.
pub record Done : Type 0 where
  pub code : ℕ
  pub runs : List Run
  pub world : World

-- One case of the loop: its run as it ends, and the runs with it.
pub record Turn : Type 0 where
  pub run : Run
  pub runs : List Run
  pub world : World

abbrev pub begin_run : Run → Run
begin_run run = record run { status = running; error = none }

abbrev pub begin_attempt : Run → Run
begin_attempt run = record run { attempts = run.attempts + 1; status = running }

-- `wait_before_submission`, and the reading of the clock at the start of the execution.
-- `none` stands for a sleep that raises.
unfoldable pub submit : Policy → Execution → World → Option World
submit policy e world =
    let now = world.now + e.before in
    and_some
      (sleep (submission_wait_seconds (last_start world.starts) now policy.min_interval_seconds))
      λ waited.
        let start = now + waited + e.after in
        some (record { now = start; starts = start ∷ world.starts })

abbrev pub pause : ℕ → World → World
pause seconds world = record world { now = world.now + seconds }

abbrev pub is_retried : Policy → ℕ → Execution → Bool
is_retried policy rate_retry e =
    not (is_some e.backtest_id) && e.announces_limit && ltb rate_retry policy.max_rate_retries

abbrev pub note_rate_limit : ℕ → Seconds → Run → Run
note_rate_limit rate_retry backoff run = record run {
  rate_limit_events =
      run.rate_limit_events
      ++ record { attempt = run.attempts; retry_number = rate_retry + 1; backoff_seconds = backoff }
        ∷ [];
  rate_limit_retries = run.rate_limit_retries + 1;
  status = rate_limited;
}

-- The loop of the attempts of one run, on fuel; `none` also stands for a wait that raises.
unfoldable pub run_attempts : Policy → Environment → ℕ → ℕ → Run → World → Option Attempted
unfolding submit
run_attempts policy env zero rate_retry run world = none
run_attempts policy env (suc fuel) rate_retry run world =
    let begun = begin_attempt run in
    let e = env (length world.starts) in
    and_some (submit policy e world) λ started.
      let rest = and_some (rate_backoff_seconds policy rate_retry) λ backoff.
        and_some (sleep backoff) λ slept.
          run_attempts policy env fuel (rate_retry + 1) (note_rate_limit rate_retry backoff begun)
            (pause slept started) in
      if is_retried policy rate_retry e
      then rest
      else some (record { run = begun; world = started; execution = e })

abbrev pub keep_metrics : Dict → Run → Run
keep_metrics [] run = run
keep_metrics (item ∷ items) run = record run {
  metrics = item ∷ items;
  metrics_source = some lean_cli;
}

abbrev pub terminal_note : List String → CollectionError
terminal_note [] = terminal_complete
terminal_note (field ∷ fields) = terminal_omitted (field ∷ fields)

abbrev pub run_error : Policy → Execution → RunError
run_error policy e =
    if e.announces_limit
    then rate_limit_exhausted policy.max_rate_retries
    else if eqb_ℤ e.return_code (pos 0)
    then no_backtest_id
    else lean_exited e.return_code

-- What the end of the attempts makes of the run.
unfoldable pub finish_run : Manifest → Policy → Execution → Run → Run
finish_run manifest policy e run =
    let read = keep_metrics e.cli_metrics run in
    let ended = record read {
      return_code = some e.return_code;
      backtest_id = e.backtest_id;
      backtest_url = e.backtest_url;
    } in
    if eqb_ℤ e.return_code (pos 0) && is_some e.backtest_id
    then record ended {
      status = completed;
      collection_error = some (terminal_note (missing_metric_fields manifest e.cli_metrics));
    }
    else record ended { status = failed; error = some (run_error policy e) }

abbrev pub finish : Manifest → Policy → List Run → Attempted → Turn
finish manifest policy runs out =
    let run = finish_run manifest policy out.execution out.run in
    record { run = run; runs = put_run run runs; world = out.world }

module _ (manifest : Manifest) (policy : Policy) (env : Environment) where
  -- One case, with fuel for every attempt that the policy allows.
  abbrev pub run_case : Run → World → Option Attempted
  run_case run world = run_attempts policy env (suc policy.max_rate_retries) 0 (begin_run run) world

  abbrev pub take_turn : List Run → World → Case → Option Turn
  take_turn runs world c =
      and_some (find_run c.case_id runs)
        λ run. and_some (run_case run world) λ out. some (finish manifest policy runs out)

  -- The loop over the selected cases, which a failed run ends.
  unfoldable pub run_cases : List Case → List Run → World → Option Done
  unfolding run_attempts finish_run
  run_cases [] runs world = some (record { code = 0; runs = runs; world = world })
  run_cases (c ∷ cases) runs world = and_some (take_turn runs world c) λ turn.
      if is_failed turn.run.status
      then some (record { code = 1; runs = turn.runs; world = turn.world })
      else run_cases cases turn.runs turn.world

abbrev pub is_eligible : Bool → Run → Bool
is_eligible retry_failed run =
    not (is_completed run.status || is_collected run.status)
    && (not (is_failed run.status) || retry_failed)

abbrev pub select_cases : Bool → List Run → List Case → Option (List Case)
select_cases retry_failed runs [] = some []
select_cases retry_failed runs (c ∷ cases) = and_some (find_run c.case_id runs) λ run.
    and_some (select_cases retry_failed runs cases)
      λ selected. some (if is_eligible retry_failed run then c ∷ selected else selected)

-- `[:limit]`
abbrev pub limited : Option ℕ → List Case → List Case
limited none cases = cases
limited (some limit) cases = take limit cases

-- The options of the command.
pub record Options : Type 0 where
  pub limit : Option ℕ
  pub retry_failed : Bool
  pub min_interval_seconds : Option Setting
  pub max_rate_retries : Option Setting

-- A campaign begins at a reading of the clock, with no submission started.
unfoldable pub run_loaded :
    Manifest → Policy → Environment → Options → List Case → ℕ → State → Option Done
unfolding run_cases
run_loaded manifest policy env options cases now state =
    and_some (select_cases options.retry_failed state.runs cases) λ selected.
      run_cases manifest policy env (limited options.limit selected) state.runs
        (record { now = now; starts = [] })

-- `none` stands for a case that has no run, a wait that raises, and the end of the fuel.
unfoldable pub run_campaign :
    Hashing
    → Manifest
    → ℕ
    → Configured
    → Environment
    → Options
    → List Case
    → Option State
    → ℕ
    → Result (Option Done)
unfolding submission_policy load_state run_loaded
run_campaign H manifest unit configured env options cases file now = do
  policy ← submission_policy unit configured options.min_interval_seconds options.max_rate_retries
  state ← load_state H manifest cases file
  ok (run_loaded manifest policy env options cases now state)

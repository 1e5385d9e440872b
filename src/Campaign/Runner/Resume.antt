-- ===== src/Campaign/Runner/Resume.antt =====
-- qcrl_campaign.py: a campaign from the file of its state: it ends, resumes, and stops at a failure.
use quantconnect.Prelude.{
  ℕ, [], suc, ◌+◌, ◌*◌, ◌≤◌, ◌≡◌, ◌≢◌, sym, ◌∙◌, subst, arith, Bool, true, false, not, ◌&&◌, ◌||◌,
  Bool-cases, inl, inr, ◌⊎◌, ◌==◌, Option, some, List, length, String, str_eq, Every,
  and_some-eq-some, some-injective, ok, Ensures,
}
use native.Mathlib.Nat.{mul-le-mul_right}
use quantconnect.Campaign.{
  finite, Case, Run, State, Manifest, is_failed, is_completed, is_collected,
}
use quantconnect.Campaign.Policy.{Policy}
use quantconnect.Campaign.Runs.{Hashing, find_run, load_state}
use quantconnect.Campaign.Runs.Collected.{IsAuthoritative}
use quantconnect.Campaign.Runs.Loading.{HasRuns, has_run, load_state-IsAuthoritative, Every-put_run}
use quantconnect.Campaign.Runner.{
  Environment, World, Done, Turn, Options, begin_run, finish_run, run_case, take_turn, run_cases,
  is_eligible, select_cases, limited, run_loaded,
}
use quantconnect.Campaign.Runner.Attempts.{IsFinite}
use quantconnect.Campaign.Runner.Finish.{RunIs, finish_run-is_collected}
use quantconnect.Campaign.Runner.Spacing.{
  IsSpaced, gap_of, gap_in, IsThrottled, run_attempts-IsThrottled,
}
use quantconnect.Campaign.Runner.Cases.{
  Finished, run_cases-Finished, run_cases-returns, run_cases-keeps,
}
use quantconnect.Campaign.Runner.Selection.{
  Selected, select_cases-Selected, eligible-other, Every-limited, length-limited,
}

settled_eligible :
    (retry_failed : Bool) (run : Run)
    → (is_completed run.status
        || is_collected run.status
        || (is_failed run.status && not retry_failed))
      ≡ true
    → is_eligible retry_failed run ≡ false
settled_eligible retry_failed run settled = ground (arith, settled)

module _ (m : Manifest) (p : Policy) (env : Environment) where
  take_turn-IsThrottled :
      (runs : List Run) (world : World) (c : Case) (turn : Turn)
      → IsThrottled (gap_of p) world
      → take_turn m p env runs world c ≡ some turn
      → IsThrottled (gap_of p) turn.world
  take_turn-IsThrottled runs world c turn h taken =
      let found = and_some-eq-some (find_run c.case_id runs) _ taken in
      let out = and_some-eq-some (run_case m p env found.0 world) _ found.2 in
      subst (λ (t : Turn). IsThrottled (gap_of p) t.world) (some-injective out.2)
        (run_attempts-IsThrottled p env (suc p.max_rate_retries) 0 (begin_run found.0) world out.0 h
          out.1)

  take_turn-IsAuthoritative :
      (runs : List Run) (world : World) (c : Case) (turn : Turn)
      → Every (IsAuthoritative m) runs
      → take_turn m p env runs world c ≡ some turn
      → Every (IsAuthoritative m) turn.runs
  take_turn-IsAuthoritative runs world c turn h taken =
      let found = and_some-eq-some (find_run c.case_id runs) _ taken in
      let out = and_some-eq-some (run_case m p env found.0 world) _ found.2 in
      let open_run = finish_run-is_collected m p out.0.execution out.0.run in
      subst (λ (t : Turn). Every (IsAuthoritative m) t.runs) (some-injective out.2)
        (Every-put_run (IsAuthoritative m) (finish_run m p out.0.execution out.0.run) runs
          (inl open_run) h)

module _ (H : Hashing) (m : Manifest) (cases : List Case) where
  loaded-known :
      (file : Option State) (state : State)
      → load_state H m cases file ≡ ok state
      → Every (IsAuthoritative m) state.runs × HasRuns state.runs cases
  loaded-known file state loaded =
      subst (Ensures (λ s. Every (IsAuthoritative m) s.runs × HasRuns s.runs cases)) loaded
        (load_state-IsAuthoritative H m cases file)

module _ (H : Hashing) (m : Manifest) (p : Policy) (env : Environment) (o : Options)
    (cases : List Case) (now : ℕ) where
  abbrev fresh : World
  fresh = record { now = now; starts = [] }

  -- A campaign from a state in which every case has a run: the cases that it selects, and how it ends.
  record Ran (state : State) (done : Done) : Type 0 where
    pub selected : List Case
    pub chosen : select_cases o.retry_failed state.runs cases ≡ some selected
    pub choice : Selected o.retry_failed state.runs cases selected
    pub ran : run_cases m p env (limited o.limit selected) state.runs fresh ≡ some done
    pub finished : Finished m p env (limited o.limit selected) state.runs fresh done

  loaded-Ran :
      (file : Option State) (state : State) (done : Done)
      → load_state H m cases file ≡ ok state
      → run_loaded m p env o cases now state ≡ some done
      → Ran state done
  unfolding run_loaded
  loaded-Ran file state done loaded ended =
      let known = loaded-known H m cases file state loaded in
      let s = select_cases-Selected o.retry_failed state.runs cases known.1 in
      let (selected, chosen, ran) =
        and_some-eq-some (select_cases o.retry_failed state.runs cases) _ ended in
      let same : s.0 ≡ selected = some-injective (sym s.1 ∙ chosen) in
      record {
        selected = selected;
        chosen = chosen;
        choice = subst (Selected o.retry_failed state.runs cases) same s.2;
        ran = ran;
        finished = run_cases-Finished m p env (limited o.limit selected) state.runs fresh done ran;
      }

  run_loaded-returns :
      (state : State)
      → IsFinite p
      → HasRuns state.runs cases
      → (done : Done) × (run_loaded m p env o cases now state ≡ some done)
  unfolding run_loaded
  run_loaded-returns state h known =
      let s = select_cases-Selected o.retry_failed state.runs cases known in
      let f =
        run_cases-returns m p env h (limited o.limit s.0) state.runs fresh
          (Every-limited (λ c. has_run state.runs c ≡ true) o.limit s.0 s.2.known) in
      (f.0, rw s.1 f.1)

  -- Under a policy whose seconds are finite and whose retries number at most 1024, a campaign over a
  -- loaded state ends, whatever the executions give, and its submissions number at most the cases
  -- times one more than the retries that the policy allows.
  pub run_loaded-ends :
      (file : Option State) (state : State)
      → IsFinite p
      → load_state H m cases file ≡ ok state
      → (done : Done) × (run_loaded m p env o cases now state ≡ some done)
        × (length done.world.starts ≤ length cases * (p.max_rate_retries + 1))
  run_loaded-ends file state finite_policy loaded =
      let (done, ended) =
        run_loaded-returns state finite_policy (loaded-known H m cases file state loaded).1 in
      let r = loaded-Ran file state done loaded ended in
      let shorter = length-limited o.limit r.selected in
      let fewer : length (limited o.limit r.selected) ≤ length cases =
        omega (arith, shorter, r.choice.shorter) in
      let product = mul-le-mul_right (p.max_rate_retries + 1) fewer in
      (done, ended, omega (arith, r.finished.submissions, product))

  -- A run that is completed or collected, or that failed where failures are not retried, is left as
  -- it was loaded.
  pub run_loaded-resumes :
      (file : Option State) (state : State) (done : Done) (id : String) (run : Run)
      → load_state H m cases file ≡ ok state
      → run_loaded m p env o cases now state ≡ some done
      → find_run id state.runs ≡ some run
      → (is_completed run.status
          || is_collected run.status
          || (is_failed run.status && not o.retry_failed))
        ≡ true
      → find_run id done.runs ≡ some run
  run_loaded-resumes file state done id run loaded ran found settled =
      let idle : is_eligible o.retry_failed run ≡ false =
        settled_eligible o.retry_failed run settled in
      let r = loaded-Ran file state done loaded ran in
      r.finished.others id (
        Every-limited (λ c. str_eq c.case_id id ≡ false) o.limit r.selected
          (eligible-other o.retry_failed state.runs id run r.selected found idle r.choice.eligible))
      ∙ found

  -- The exit code tells how a campaign ended: it is 0 and every selected case has a completed run, or
  -- it is not, and some case's run failed.
  pub run_loaded-code :
      (file : Option State) (state : State) (done : Done)
      → load_state H m cases file ≡ ok state
      → run_loaded m p env o cases now state ≡ some done
      → (selected : List Case) × (select_cases o.retry_failed state.runs cases ≡ some selected)
        × (((done.code ≡ 0)
              × Every
                  (λ c. RunIs (λ run. is_completed run.status) c.case_id done.runs)
                  (limited o.limit selected))
            ⊎ ((done.code ≢ 0)
                × ((c : Case) × RunIs (λ run. is_failed run.status) c.case_id done.runs)))
  run_loaded-code file state done loaded ran =
      let r = loaded-Ran file state done loaded ran in
      (
        r.selected,
        r.chosen,
        elim (Bool-cases (done.code == 0)) [
          | inl zero_code ↦
              let code : done.code ≡ 0 = ground arith in inl (code, r.finished.succeeded code)
          | inr other ↦
              let code : done.code ≢ 0 = ground arith in inr (code, r.finished.stopped code)
        ],
      )

  -- No two submissions of one campaign start closer together than a finite interval that the policy
  -- names.
  pub run_loaded-IsSpaced :
      (file : Option State) (state : State) (done : Done) (gap : ℕ)
      → p.min_interval_seconds ≡ finite gap
      → load_state H m cases file ≡ ok state
      → run_loaded m p env o cases now state ≡ some done
      → IsSpaced gap done.world.starts
  run_loaded-IsSpaced file state done gap named loaded ran =
      let r = loaded-Ran file state done loaded ran in
      let kept =
        run_cases-keeps m p env (λ runs w. IsThrottled (gap_of p) w) (take_turn-IsThrottled m p env)
          (limited o.limit r.selected) state.runs fresh done (record { spaced = tt; past = tt })
          r.ran in
      subst (λ i. IsSpaced (gap_in i) done.world.starts) named kept.spaced

  -- Every run that is collected at the end has all its metrics from the API, with their time.
  pub run_loaded-IsAuthoritative :
      (file : Option State) (state : State) (done : Done)
      → load_state H m cases file ≡ ok state
      → run_loaded m p env o cases now state ≡ some done
      → Every (IsAuthoritative m) done.runs
  run_loaded-IsAuthoritative file state done loaded ran =
      let r = loaded-Ran file state done loaded ran in
      run_cases-keeps m p env (λ runs w. Every (IsAuthoritative m) runs)
        (take_turn-IsAuthoritative m p env) (limited o.limit r.selected) state.runs fresh done
        (loaded-known H m cases file state loaded).0 r.ran

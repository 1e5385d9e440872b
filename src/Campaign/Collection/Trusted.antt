-- ===== src/Campaign/Collection/Trusted.antt =====
-- qcrl_campaign.py: what the file holds once a collection has returned.
use quantconnect.Prelude.{
  ◌≡◌, refl, subst, Bool-cases, inl, inr, Option, none, some, List, [], ◌∷◌, String, is_empty,
  and_some-eq-some, some-injective, Result, ok, err, Ensures, Ensures-bind_eq, Every, >>=-eq-ok,
  ok-injective,
}
use quantconnect.Campaign.{Case, Run, State, Manifest, is_failed}
use quantconnect.Campaign.Runs.{Hashing, find_run, missing_metric_fields, load_state}
use quantconnect.Campaign.Runs.Collected.{IsAuthoritative}
use quantconnect.Campaign.Runs.Loading.{
  HasRuns, load_state-IsAuthoritative, Every-put_run, Every-find_run,
}
use quantconnect.Campaign.Collection.{
  Reply, Api, Collection, Collecting, with_metrics, without_metrics, take_reply, read_reply, go_on,
  collect_cases, file_runs, collect_campaign,
}

module _ (m : Manifest) where
  with_metrics-IsAuthoritative :
      (reply : Reply) (missing : List String) (run : Run)
      → missing_metric_fields m reply.metrics ≡ missing
      → IsAuthoritative m (with_metrics reply missing run)
  with_metrics-IsAuthoritative reply [] run none_missing = inr (refl, refl, none_missing)
  with_metrics-IsAuthoritative reply (f ∷ fs) run none_missing = inl refl

  take_reply-IsAuthoritative :
      (reply : Reply) (run : Run) (c : Collection)
      → IsAuthoritative m run
      → Every (IsAuthoritative m) c.runs
      → Every (IsAuthoritative m) (take_reply m reply run c).runs
  unfolding take_reply
  take_reply-IsAuthoritative reply run c h hs = elim (Bool-cases (is_empty reply.metrics)) [
    | inl nothing ↦ rw nothing (Every-put_run (IsAuthoritative m) (without_metrics run) c.runs h hs)
    | inr some_metrics ↦ rw some_metrics (
        Every-put_run (IsAuthoritative m)
          (with_metrics reply (missing_metric_fields m reply.metrics) run) c.runs
          (with_metrics-IsAuthoritative reply (missing_metric_fields m reply.metrics) run refl) hs)
  ]

  read_reply-IsAuthoritative :
      (api : Api) (run : Run) (id : Option String) (c : Collection)
      → IsAuthoritative m run
      → Every (IsAuthoritative m) c.runs
      → Ensures (λ after. Every (IsAuthoritative m) after.runs) (read_reply m api run id c)
  read_reply-IsAuthoritative api run none c h hs = hs
  read_reply-IsAuthoritative api run (some id) c h hs = elim (Bool-cases (is_failed run.status)) [
    | inl bad ↦ rw bad hs
    | inr good ↦ rw good (
        Ensures-bind_eq (λ after. Every (IsAuthoritative m) after.runs) (api id)
          (λ reply. ok (take_reply m reply run c))
          (λ reply read. take_reply-IsAuthoritative reply run c h hs))
  ]

  -- The file, where the collection returned.
  abbrev pub IsTrusted : Collecting → Type 0
  IsTrusted out = out.code ≡ some 0 → Every (IsAuthoritative m) out.saved

  go_on-IsTrusted :
      (r : Result Collection) (before : Collection) (next : Collection → Option Collecting)
      (out : Collecting)
      → Ensures (λ after. Every (IsAuthoritative m) after.runs) r
      → ((after : Collection)
          → Every (IsAuthoritative m) after.runs
          → next after ≡ some out
          → IsTrusted out)
      → go_on r before next ≡ some out
      → IsTrusted out
  go_on-IsTrusted (err e) before next out h step ran =
      subst IsTrusted (some-injective ran) (λ code. absurd (let no = code in cc))
  go_on-IsTrusted (ok after) before next out h step ran = step after h ran

  collect_cases-IsTrusted :
      (api : Api) (cases : List Case) (c : Collection) (out : Collecting)
      → Every (IsAuthoritative m) c.runs
      → collect_cases m api cases c ≡ some out
      → IsTrusted out
  unfolding collect_cases
  collect_cases-IsTrusted api [] c out h ran = subst IsTrusted (some-injective ran) (λ code. h)
  collect_cases-IsTrusted api (case ∷ cases) c out h ran =
      let found = and_some-eq-some (find_run case.case_id c.runs) _ ran in
      let run = found.0 in
      go_on-IsTrusted (read_reply m api run run.backtest_id c) c (collect_cases m api cases) out
        (read_reply-IsAuthoritative api run run.backtest_id c
          (Every-find_run (IsAuthoritative m) case.case_id c.runs run h found.1) h)
        (λ after kept rest. collect_cases-IsTrusted api cases after out kept rest) found.2

  -- When a collection returns, every run that the file calls collected has its metrics from the API,
  -- with their time, and lacks none that the manifest needs, whatever the file was and the API answers.
  pub collect_campaign-IsAuthoritative :
      (H : Hashing) (api : Api) (cases : List Case) (file : Option State) (out : Collecting)
      → collect_campaign H m api cases file ≡ ok (some out)
      → out.code ≡ some 0
      → Every (IsAuthoritative m) out.saved
  unfolding collect_campaign
  collect_campaign-IsAuthoritative H api cases file out ran =
      let loaded = >>=-eq-ok (load_state H m cases file) _ ran in
      let known =
        subst (Ensures (λ s. Every (IsAuthoritative m) s.runs × HasRuns s.runs cases)) loaded.1
          (load_state-IsAuthoritative H m cases file) in
      collect_cases-IsTrusted api cases
        (record { runs = loaded.0.runs; saved = file_runs file; count = 0 }) out known.0
        (ok-injective loaded.2)

-- ===== src/Campaign/Runner/Finish.antt =====
-- qcrl_campaign.py: the run of a case, as it ends and as the state keeps it.
use quantconnect.Prelude.{
  ◌≡◌, refl, ap, ◌∙◌, Bool, true, false, Bool-cases, inl, inr, some, List, [], ◌∷◌, String, str_eq,
  str_eq_refl, is_some, ◌&&◌, if◌then◌else◌, ◌⊎◌, eq_iff, sym,
}
use quantconnect.Prelude.Int.{eqb_ℤ, pos}
use quantconnect.Campaign.{Dict, Run, Manifest, is_completed, is_failed, is_collected}
use quantconnect.Campaign.Policy.{Policy}
use quantconnect.Campaign.Runs.{find_run, put_run}
use quantconnect.Campaign.Runner.{Execution, finish_run, keep_metrics}

-- A case whose run has this status.
abbrev pub RunIs : (Run → Bool) → String → List Run → Type 0
RunIs test id runs = (run : Run) × (find_run id runs ≡ some run) × (test run ≡ true)

keep_metrics-case_id : (d : Dict) (run : Run) → (keep_metrics d run).case_id ≡ run.case_id
keep_metrics-case_id [] run = refl
keep_metrics-case_id (item ∷ items) run = refl

module _ (m : Manifest) (p : Policy) (e : Execution) where
  pub finish_run-case_id : (run : Run) → (finish_run m p e run).case_id ≡ run.case_id
  unfolding finish_run
  finish_run-case_id run =
      elim (Bool-cases (eqb_ℤ e.return_code (pos 0) && is_some e.backtest_id)) [
        | inl good ↦ rw good (keep_metrics-case_id e.cli_metrics run)
        | inr bad ↦ rw bad (keep_metrics-case_id e.cli_metrics run)
      ]

  -- A run ends completed or failed.
  pub finish_run-status :
      (run : Run)
      → ((is_failed (finish_run m p e run).status ≡ false)
          × (is_completed (finish_run m p e run).status ≡ true))
        ⊎ (is_failed (finish_run m p e run).status ≡ true)
  unfolding finish_run
  finish_run-status run = elim (Bool-cases (eqb_ℤ e.return_code (pos 0) && is_some e.backtest_id)) [
    | inl good ↦ rw good (inl (refl, refl))
    | inr bad ↦ rw bad (inr refl)
  ]

  pub finish_run-is_collected : (run : Run) → is_collected (finish_run m p e run).status ≡ false
  unfolding finish_run
  finish_run-is_collected run =
      elim (Bool-cases (eqb_ℤ e.return_code (pos 0) && is_some e.backtest_id)) [
        | inl good ↦ rw good refl
        | inr bad ↦ rw bad refl
      ]

pub find_run-case_id :
    (id : String) (runs : List Run) (run : Run) → find_run id runs ≡ some run → run.case_id ≡ id
find_run-case_id id [] run h = cc
find_run-case_id id (r ∷ runs) run h = elim (Bool-cases (str_eq r.case_id id)) [
  | inl here ↦
      let same : some r ≡ some run = rw here at h in
      let equal : r ≡ run = cc in
      ap (λ (x : Run). x.case_id) (sym equal) ∙ (eq_iff r.case_id id).0 here
  | inr later ↦ find_run-case_id id runs run (rw later at h)
]

pub find_run-put_run :
    (new old : Run) (runs : List Run)
    → find_run new.case_id runs ≡ some old
    → find_run new.case_id (put_run new runs) ≡ some new
find_run-put_run new old [] h = cc
find_run-put_run new old (r ∷ runs) h = elim (Bool-cases (str_eq r.case_id new.case_id)) [
  | inl here ↦ rw (here, str_eq_refl new.case_id) refl
  | inr later ↦ rw (later, later) (find_run-put_run new old runs (rw later at h))
]

pub find_run-put_run_other :
    (id : String) (new : Run) (runs : List Run)
    → str_eq new.case_id id ≡ false
    → find_run id (put_run new runs) ≡ find_run id runs
find_run-put_run_other id new [] h = refl
find_run-put_run_other id new (r ∷ runs) h = elim (Bool-cases (str_eq r.case_id new.case_id)) [
  | inl here ↦
      let same = (eq_iff r.case_id new.case_id).0 here in
      let other : str_eq r.case_id id ≡ false = ap (λ s. str_eq s id) same ∙ h in
      rw (here, h, other) refl
  | inr later ↦
      rw later
        (ap (λ o. if str_eq r.case_id id then some r else o) (find_run-put_run_other id new runs h))
]

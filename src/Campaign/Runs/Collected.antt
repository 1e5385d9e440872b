-- ===== src/Campaign/Runs/Collected.antt =====
-- qcrl_campaign.py: what a collected run is worth, once its status is normalised, and that to
-- normalise it again changes nothing.
use quantconnect.Prelude.{
  Bool, true, false, not, ◌&&◌, ◌||◌, List, [], ◌∷◌, String, Bool-cases, inl, inr, ◌⊎◌, ◌≡◌, refl,
  ap, ◌∙◌, arith, is_some, is_empty,
}
use quantconnect.Campaign.{is_collected, Run, Manifest}
use quantconnect.Campaign.Runs.{
  is_api, missing_metric_fields, infer_source, check_missing, check_collected, normalize_run,
  normalize_collection_status,
}

-- A run is not collected, or it has its metrics from the API, with the time, and lacks none that the manifest needs.
abbrev pub IsAuthoritative : Manifest → Run → Type 0
IsAuthoritative manifest run =
    (is_collected run.status ≡ false)
    ⊎ ((is_api run.metrics_source ≡ true)
        × (is_some run.collected_at_utc ≡ true)
        × (missing_metric_fields manifest run.metrics ≡ []))

module _ (m : Manifest) where
  check_missing-IsAuthoritative :
      (run : Run) (missing : List String)
      → is_api run.metrics_source ≡ true
      → is_some run.collected_at_utc ≡ true
      → missing_metric_fields m run.metrics ≡ missing
      → IsAuthoritative m (check_missing missing run)
  check_missing-IsAuthoritative run [] api time none_missing = inr (api, time, none_missing)
  check_missing-IsAuthoritative run (f ∷ fs) api time none_missing = inl refl

  check_collected-IsAuthoritative : (run : Run) → IsAuthoritative m (check_collected m run)
  check_collected-IsAuthoritative run = elim (Bool-cases (is_collected run.status)) [
    | inl done ↦
        elim (Bool-cases (not (is_api run.metrics_source) || not (is_some run.collected_at_utc))) [
          | inl weak ↦ rw (done, weak) (inl refl)
          | inr strong ↦
              rw (done, strong)
                (check_missing-IsAuthoritative run (missing_metric_fields m run.metrics)
                  (ground arith) (ground arith) refl)
        ]
    | inr open_run ↦ rw open_run (inl open_run)
  ]

  pub normalize_run-IsAuthoritative : (run : Run) → IsAuthoritative m (normalize_run m run)
  unfolding normalize_run
  normalize_run-IsAuthoritative run = check_collected-IsAuthoritative (infer_source run)

  abbrev is_unsourced : Run → Bool
  is_unsourced run = not (is_empty run.metrics) && not (is_some run.metrics_source)

  infer_source-is_unsourced : (run : Run) → is_unsourced (infer_source run) ≡ false
  infer_source-is_unsourced run = elim (Bool-cases (is_unsourced run)) [
    | inl bare ↦ rw bare (ground arith)
    | inr sourced ↦ rw sourced sourced
  ]

  infer_source-sourced : (run : Run) → is_unsourced run ≡ false → infer_source run ≡ run
  infer_source-sourced run h = rw h

  check_missing-is_unsourced :
      (run : Run) (missing : List String)
      → is_unsourced (check_missing missing run) ≡ is_unsourced run
  check_missing-is_unsourced run [] = refl
  check_missing-is_unsourced run (f ∷ fs) = refl

  check_collected-is_unsourced :
      (run : Run) → is_unsourced (check_collected m run) ≡ is_unsourced run
  check_collected-is_unsourced run = elim (Bool-cases (is_collected run.status)) [
    | inl done ↦
        elim (Bool-cases (not (is_api run.metrics_source) || not (is_some run.collected_at_utc))) [
          | inl weak ↦ rw (done, weak) refl
          | inr strong ↦
              rw (done, strong)
                (check_missing-is_unsourced run (missing_metric_fields m run.metrics))
        ]
    | inr open_run ↦ rw open_run refl
  ]

  -- A run that is authoritative is left as it is.
  check_collected-kept : (run : Run) → IsAuthoritative m run → check_collected m run ≡ run
  check_collected-kept run (inl open_run) = rw open_run refl
  check_collected-kept run (inr facts) = elim (Bool-cases (is_collected run.status)) [
    | inl done ↦ rw (done, facts.0, facts.1, facts.2) refl
    | inr open_run ↦ rw open_run refl
  ]

  normalize_run-normalize_run :
      (run : Run) → normalize_run m (normalize_run m run) ≡ normalize_run m run
  unfolding normalize_run
  normalize_run-normalize_run run =
      let once = check_collected m (infer_source run) in
      ap (check_collected m) (
        infer_source-sourced once
          (check_collected-is_unsourced (infer_source run) ∙ infer_source-is_unsourced run))
      ∙ check_collected-kept once (check_collected-IsAuthoritative (infer_source run))

  pub normalize_all-normalize_all :
      (runs : List Run)
      → normalize_collection_status m (normalize_collection_status m runs)
        ≡ normalize_collection_status m runs
  normalize_all-normalize_all [] = refl
  normalize_all-normalize_all (run ∷ runs) =
      rw (normalize_run-normalize_run run, normalize_all-normalize_all runs)

  check_missing-case_id :
      (run : Run) (missing : List String) → (check_missing missing run).case_id ≡ run.case_id
  check_missing-case_id run [] = refl
  check_missing-case_id run (f ∷ fs) = refl

  infer_source-case_id : (run : Run) → (infer_source run).case_id ≡ run.case_id
  infer_source-case_id run = elim (Bool-cases (is_unsourced run)) [
    | inl bare ↦ rw bare refl
    | inr sourced ↦ rw sourced refl
  ]

  pub normalize_run-case_id : (run : Run) → (normalize_run m run).case_id ≡ run.case_id
  unfolding normalize_run
  normalize_run-case_id run =
      let r = infer_source run in
      elim (Bool-cases (is_collected r.status)) [
        | inl done ↦
            elim (Bool-cases (not (is_api r.metrics_source) || not (is_some r.collected_at_utc))) [
              | inl weak ↦ rw (done, weak) (infer_source-case_id run)
              | inr strong ↦
                  rw (done, strong)
                    (check_missing-case_id r (missing_metric_fields m r.metrics)
                      ∙ infer_source-case_id run)
            ]
        | inr open_run ↦ rw open_run (infer_source-case_id run)
      ]

-- ===== src/Campaign/Runner/Cases.antt =====
-- qcrl_campaign.py: the loop over the selected cases ends, and what it leaves of each run.
use quantconnect.Prelude.{
  ℕ, suc, ◌+◌, ◌*◌, ◌≤◌, ◌≡◌, ◌≢◌, refl, ap, ◌∙◌, subst, arith, true, false, Bool-cases, inl, inr,
  some, List, [], ◌∷◌, length, String, str_eq, Every, is_some, and_some-eq-some, some-injective,
  Option-cases, eq_iff,
}
use native.Mathlib.Nat.{suc-mul}
use quantconnect.Campaign.{Case, Run, Manifest, is_failed, is_completed}
use quantconnect.Campaign.Policy.{Policy}
use quantconnect.Campaign.Runs.{find_run}
use quantconnect.Campaign.Runs.Loading.{HasRuns}
use quantconnect.Campaign.Runner.{
  Environment, World, Done, Turn, begin_run, finish, run_case, take_turn, run_cases,
}
use quantconnect.Campaign.Runner.Attempts.{run_attempts-Ended, IsFinite, run_attempts-returns}
use quantconnect.Campaign.Runner.Finish.{
  RunIs, finish_run-case_id, finish_run-status, find_run-put_run, find_run-put_run_other,
  find_run-case_id,
}

one_more : (n k : ℕ) → suc n * k ≡ n * k + k
one_more n k = suc-mul n k

module _ (m : Manifest) (p : Policy) (env : Environment) where
  -- A turn of a case that has a run.
  record Turned (runs : List Run) (world : World) (c : Case) (turn : Turn) : Type 0 where
    pub id : turn.run.case_id ≡ c.case_id
    pub put : find_run c.case_id turn.runs ≡ some turn.run
    pub others :
        (id : String) → str_eq c.case_id id ≡ false → find_run id turn.runs ≡ find_run id runs
    pub status : is_failed turn.run.status ≡ false → is_completed turn.run.status ≡ true
    pub submissions : length turn.world.starts ≤ length world.starts + p.max_rate_retries + 1

  take_turn-Turned :
      (runs : List Run) (world : World) (c : Case) (turn : Turn)
      → take_turn m p env runs world c ≡ some turn
      → Turned runs world c turn
  take_turn-Turned runs world c turn taken =
      let (run, found, ran) = and_some-eq-some (find_run c.case_id runs) _ taken in
      let (out, tried, made) = and_some-eq-some (run_case m p env run world) _ ran in
      let ended =
        run_attempts-Ended p env (suc p.max_rate_retries) 0 (begin_run run) world out (omega arith)
          tried in
      let end = finish m p runs out in
      let same : end.run.case_id ≡ c.case_id =
        finish_run-case_id m p out.execution out.run
        ∙ ended.same
        ∙ find_run-case_id c.case_id runs run found in
      subst (Turned runs world c) (some-injective made) (record {
        id = same;
        put =
            subst (λ id. find_run id end.runs ≡ some end.run) same
              (find_run-put_run end.run run runs (ap (λ id. find_run id runs) same ∙ found));
        others =
            λ id other. find_run-put_run_other id end.run runs (ap (λ s. str_eq s id) same ∙ other);
        status = λ good. elim (finish_run-status m p out.execution out.run) [
          | inl fine ↦ fine.1
          | inr bad ↦ absurd (let no = bad in cc)
        ];
        submissions = omega (arith, ended.bounded, ended.counted);
      })

  Turned-HasRuns :
      (runs : List Run) (world : World) (c : Case) (turn : Turn) (cases : List Case)
      → Turned runs world c turn
      → HasRuns runs cases
      → HasRuns turn.runs cases
  Turned-HasRuns runs world c turn [] t h = tt
  Turned-HasRuns runs world c turn (d ∷ cases) t h = (
    elim (Bool-cases (str_eq c.case_id d.case_id)) [
      | inl same ↦
          subst (λ id. is_some (find_run id turn.runs) ≡ true) ((eq_iff c.case_id d.case_id).0 same)
            (ap is_some t.put)
      | inr other ↦ ap is_some (t.others d.case_id other) ∙ h.0
    ],
    Turned-HasRuns runs world c turn cases t h.1,
  )

  -- The end of the loop from these runs: it submits at most the attempts that the policy allows for
  -- each case, leaves other runs, and a run that is completed stays so unless its case fails.
  pub record Finished (cases : List Case) (runs : List Run) (world : World) (done : Done)
      : Type 0 where
    pub others :
        (id : String)
        → Every (λ c. str_eq c.case_id id ≡ false) cases
        → find_run id done.runs ≡ find_run id runs
    pub stays :
        (id : String)
        → done.code ≡ 0
        → RunIs (λ run. is_completed run.status) id runs
        → RunIs (λ run. is_completed run.status) id done.runs
    pub succeeded :
        done.code ≡ 0
        → Every (λ c. RunIs (λ run. is_completed run.status) c.case_id done.runs) cases
    pub stopped :
        done.code ≢ 0 → (c : Case) × RunIs (λ run. is_failed run.status) c.case_id done.runs
    pub submissions :
        length done.world.starts ≤ length world.starts + length cases * (p.max_rate_retries + 1)

  turn-stays :
      (runs : List Run) (world : World) (c : Case) (turn : Turn) (id : String)
      → Turned runs world c turn
      → is_failed turn.run.status ≡ false
      → RunIs (λ run. is_completed run.status) id runs
      → RunIs (λ run. is_completed run.status) id turn.runs
  turn-stays runs world c turn id t good h = elim (Bool-cases (str_eq c.case_id id)) [
    | inl same ↦
        subst (λ i. RunIs (λ run. is_completed run.status) i turn.runs)
          ((eq_iff c.case_id id).0 same) (turn.run, t.put, t.status good)
    | inr other ↦ (h.0, t.others id other ∙ h.1, h.2)
  ]

  pub run_cases-Finished :
      (cases : List Case) (runs : List Run) (world : World) (done : Done)
      → run_cases m p env cases runs world ≡ some done
      → Finished cases runs world done
  unfolding run_cases
  run_cases-Finished [] runs world done ran =
      subst (Finished [] runs world) (some-injective ran) (record {
        others = λ id none_here. refl;
        stays = λ id zero_code h. h;
        succeeded = λ zero_code. tt;
        stopped = λ bad. absurd (bad refl);
        submissions = omega arith;
      })
  run_cases-Finished (c ∷ cases) runs world done ran =
      let (turn, taken, rest) = and_some-eq-some (take_turn m p env runs world c) _ ran in
      let t = take_turn-Turned runs world c turn taken in
      elim (Bool-cases (is_failed turn.run.status)) [
        | inl bad ↦
            subst (Finished (c ∷ cases) runs world) (some-injective (rw bad at rest)) (record {
              others = λ id here. t.others id here.0;
              stays = λ id zero_code h. absurd (omega (arith, zero_code));
              succeeded = λ zero_code. absurd (omega (arith, zero_code));
              stopped = λ code. (c, (turn.run, t.put, bad));
              submissions =
                  ground (arith, t.submissions, one_more (length cases) (p.max_rate_retries + 1));
            })
        | inr good ↦
            let f = run_cases-Finished cases turn.runs turn.world done (rw good at rest) in
            record {
              others = λ id here. f.others id here.1 ∙ t.others id here.0;
              stays =
                  λ id zero_code h. f.stays id zero_code (turn-stays runs world c turn id t good h);
              succeeded = λ zero_code. (
                f.stays c.case_id zero_code (turn.run, t.put, t.status good),
                f.succeeded zero_code,
              );
              stopped = f.stopped;
              submissions = ground (
                arith,
                t.submissions,
                f.submissions,
                one_more (length cases) (p.max_rate_retries + 1),
              );
            }
      ]

  -- Under a finite policy the loop ends.
  pub run_cases-returns :
      IsFinite p
      → (cases : List Case) (runs : List Run) (world : World) → HasRuns runs cases
      → (done : Done) × (run_cases m p env cases runs world ≡ some done)
  unfolding run_cases
  run_cases-returns h [] runs world known = (_, refl)
  run_cases-returns h (c ∷ cases) runs world known = elim (Option-cases (find_run c.case_id runs)) [
    | inl nothing ↦ absurd (let no = rw nothing at known.0 in cc)
    | inr found ↦
        let (out, tried) =
          run_attempts-returns p h env (suc p.max_rate_retries) 0 (begin_run found.0) world
            (omega arith) (omega arith) in
        let turn = finish m p runs out in
        let taken : take_turn m p env runs world c ≡ some turn = rw (found.1, tried) refl in
        let t = take_turn-Turned runs world c turn taken in
        elim (Bool-cases (is_failed turn.run.status)) [
          | inl bad ↦
              (record { code = 1; runs = turn.runs; world = turn.world }, rw (taken, bad) refl)
          | inr good ↦
              let rest =
                run_cases-returns h cases turn.runs turn.world
                  (Turned-HasRuns runs world c turn cases t known.1) in
              (rest.0, rw (taken, good) rest.1)
        ]
  ]

  -- What every turn keeps, the loop keeps.
  pub run_cases-keeps :
      (Inv : List Run → World → Type 0)
      → ((runs : List Run) (world : World) (c : Case) (turn : Turn)
          → Inv runs world
          → take_turn m p env runs world c ≡ some turn
          → Inv turn.runs turn.world)
      → (cases : List Case) (runs : List Run) (world : World) (done : Done) → Inv runs world
      → run_cases m p env cases runs world ≡ some done
      → Inv done.runs done.world
  unfolding run_cases
  run_cases-keeps Inv step [] runs world done h ran =
      subst (λ (d : Done). Inv d.runs d.world) (some-injective ran) h
  run_cases-keeps Inv step (c ∷ cases) runs world done h ran =
      let turned = and_some-eq-some (take_turn m p env runs world c) _ ran in
      let turn = turned.0 in
      let kept = step runs world c turn h turned.1 in
      elim (Bool-cases (is_failed turn.run.status)) [
        | inl bad ↦
            subst (λ (d : Done). Inv d.runs d.world) (some-injective (rw bad at turned.2)) kept
        | inr good ↦
            run_cases-keeps Inv step cases turn.runs turn.world done kept (rw good at turned.2)
      ]

-- ===== src/Campaign/Runner/Attempts.antt =====
-- qcrl_campaign.py: the attempts of one run end, within the retries that the policy allows.
use quantconnect.Prelude.{
  ℕ, zero, suc, ◌+◌, ◌-◌, ◌*◌, ◌^◌, ◌≤◌, ◌<◌, ◌≡◌, refl, arith, Bool-cases, inl, inr, some, length,
  ◌∷◌, subst, ltb, true, and_some-eq-some, some-injective, Option, if◌then◌else◌,
}
use quantconnect.Campaign.{Run, finite}
use quantconnect.Campaign.Policy.{Policy, rate_backoff_seconds, submission_wait_seconds, sleep}
use quantconnect.Campaign.Runner.{
  Execution, Environment, World, Attempted, begin_attempt, submit, pause, is_retried,
  note_rate_limit, run_attempts, last_start,
}

-- The outcome of a run's attempts, from the retry that they start at: at least one more attempt, at
-- most one for each retry that is left and one for the last, and each of them a submission.
pub record Ended (p : Policy) (retry : ℕ) (run : Run) (world : World) (out : Attempted)
    : Type 0 where
  pub began : run.attempts < out.run.attempts
  pub bounded : out.run.attempts ≤ run.attempts + (p.max_rate_retries - retry) + 1
  pub counted : length out.world.starts + run.attempts ≡ length world.starts + out.run.attempts
  pub same : out.run.case_id ≡ run.case_id

submit-starts :
    (p : Policy) (e : Execution) (world started : World)
    → submit p e world ≡ some started
    → length started.starts ≡ suc (length world.starts)
unfolding submit
submit-starts p e world started h =
    let (waited, slept, made) =
      and_some-eq-some
        (sleep (
          submission_wait_seconds (last_start world.starts) (world.now + e.before)
            p.min_interval_seconds))
        _ h in
    subst (λ (w : World). length w.starts ≡ suc (length world.starts)) (some-injective made) refl

module _ (p : Policy) (env : Environment) where
  pub run_attempts-Ended :
      (fuel retry : ℕ) (run : Run) (world : World) (out : Attempted)
      → retry ≤ p.max_rate_retries
      → run_attempts p env fuel retry run world ≡ some out
      → Ended p retry run world out
  unfolding run_attempts
  run_attempts-Ended zero retry run world out allowed ran = cc
  run_attempts-Ended (suc fuel) retry run world out allowed ran =
      let begun = begin_attempt run in
      let e = env (length world.starts) in
      let (started, sent, rest) = and_some-eq-some (submit p e world) _ ran in
      let one = submit-starts p e world started sent in
      elim (Bool-cases (is_retried p retry e)) [
        | inl again ↦
            let left : retry < p.max_rate_retries = ground arith in
            let (backoff, named, rest1) =
              and_some-eq-some (rate_backoff_seconds p retry) _ (rw again at rest) in
            let (slept, woke, rest2) = and_some-eq-some (sleep backoff) _ rest1 in
            let end =
              run_attempts-Ended fuel (retry + 1) (note_rate_limit retry backoff begun)
                (pause slept started) out (omega (arith, left)) rest2 in
            record {
              began = omega (arith, end.began);
              bounded = omega (arith, end.bounded, left);
              counted = omega (arith, end.counted, one);
              same = end.same;
            }
        | inr last ↦ subst (Ended p retry run world) (some-injective (rw last at rest)) (record {
          began = omega arith;
          bounded = omega arith;
          counted = omega (arith, one);
          same = refl;
        })
      ]

-- A policy whose seconds are finite numbers, and whose retries have factors that are floats.
pub record IsFinite (p : Policy) : Type 0 where
  pub interval : (n : ℕ) × (p.min_interval_seconds ≡ finite n)
  pub initial : (n : ℕ) × (p.initial_backoff_seconds ≡ finite n)
  pub longest : (n : ℕ) × (p.max_backoff_seconds ≡ finite n)
  pub retries : p.max_rate_retries ≤ 1024

wait_finite :
    (start : Option ℕ) (now gap : ℕ)
    → (n : ℕ) × (submission_wait_seconds start now (finite gap) ≡ finite n)
wait_finite Option.none now gap = (0, refl)
wait_finite (some start) now gap = (_, refl)

either_finite : (a b : ℕ) → (n : ℕ) × ((if ltb a b then finite a else finite b) ≡ finite n)
either_finite a b = elim (Bool-cases (ltb a b)) [
  | inl first ↦ (a, rw first refl)
  | inr second ↦ (b, rw second refl)
]

module _ (p : Policy) (h : IsFinite p) (env : Environment) where
  submit-returns :
      (e : Execution) (world : World) → (started : World) × (submit p e world ≡ some started)
  unfolding submit
  submit-returns e world =
      let (n, wait) = wait_finite (last_start world.starts) (world.now + e.before) h.interval.0 in
      let start = world.now + e.before + n + e.after in
      (record { now = start; starts = start ∷ world.starts }, rw (h.interval.1, wait) refl)

  backoff_returns :
      (retry : ℕ)
      → retry < p.max_rate_retries
      → (n : ℕ) × (rate_backoff_seconds p retry ≡ some (finite n))
  unfolding rate_backoff_seconds
  backoff_returns retry left =
      let small : ltb retry 1024 ≡ true = ground (arith, left, h.retries) in
      let (n, chosen) = either_finite h.longest.0 (h.initial.0 * 2 ^ retry) in
      (n, rw (small, h.initial.1, h.longest.1, chosen) refl)

  pub run_attempts-returns :
      (fuel retry : ℕ) (run : Run) (world : World)
      → p.max_rate_retries < retry + fuel
      → retry ≤ p.max_rate_retries
      → (out : Attempted) × (run_attempts p env fuel retry run world ≡ some out)
  unfolding run_attempts
  run_attempts-returns zero retry run world enough allowed = absurd (omega (arith, enough, allowed))
  run_attempts-returns (suc fuel) retry run world enough allowed =
      let e = env (length world.starts) in
      let (started, sent) = submit-returns e world in
      elim (Bool-cases (is_retried p retry e)) [
        | inl again ↦
            let left : retry < p.max_rate_retries = ground arith in
            let (n, named) = backoff_returns retry left in
            let rest =
              run_attempts-returns fuel (retry + 1)
                (note_rate_limit retry (finite n) (begin_attempt run)) (pause n started)
                (omega (arith, enough)) (omega (arith, left)) in
            (rest.0, rw (sent, again, named) rest.1)
        | inr last ↦ (
          record { run = begin_attempt run; world = started; execution = e },
          rw (sent, last) refl,
        )
      ]

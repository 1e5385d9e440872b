-- ===== src/Campaign/Runner/Spacing.antt =====
-- qcrl_campaign.py: the throttle keeps submissions apart.
use quantconnect.Prelude.{
  ℕ, zero, suc, ◌+◌, ◌≤◌, ◌≡◌, arith, Bool-cases, inl, inr, some, List, [], ◌∷◌, length, subst,
  some-injective, and_some-eq-some,
}
use quantconnect.Campaign.{Run, Seconds, finite, infinite, undefined}
use quantconnect.Campaign.Policy.{Policy, rate_backoff_seconds, submission_wait_seconds, sleep}
use quantconnect.Campaign.Runner.{
  Execution, Environment, World, Attempted, begin_attempt, submit, pause, is_retried,
  note_rate_limit, run_attempts, last_start,
}

-- Every start is a gap after the one before it, and none is in the future.
abbrev pub IsSpaced : ℕ → List ℕ → Type 0
IsSpaced gap [] = Unit
IsSpaced gap (start ∷ []) = Unit
IsSpaced gap (later ∷ start ∷ starts) = (start + gap ≤ later) × IsSpaced gap (start ∷ starts)

abbrev pub IsPast : ℕ → List ℕ → Type 0
IsPast now [] = Unit
IsPast now (start ∷ starts) = start ≤ now

pub record IsThrottled (gap : ℕ) (world : World) : Type 0 where
  pub spaced : IsSpaced gap world.starts
  pub past : IsPast world.now world.starts

IsPast-later : (now more : ℕ) (starts : List ℕ) → IsPast now starts → IsPast (now + more) starts
IsPast-later now more [] h = tt
IsPast-later now more (start ∷ starts) h = omega (arith, h)

-- The gap between submissions that an interval keeps: no bound for an undefined one.
abbrev pub gap_in : Seconds → ℕ
gap_in (finite n) = n
gap_in _ = 0

IsSpaced-next :
    (interval : Seconds) (before now after waited : ℕ) (starts : List ℕ)
    → IsSpaced (gap_in interval) starts
    → IsPast now starts
    → sleep (submission_wait_seconds (last_start starts) (now + before) interval) ≡ some waited
    → IsSpaced (gap_in interval) ((now + before + waited + after) ∷ starts)
IsSpaced-next interval before now after waited [] spaced past slept = tt
IsSpaced-next (finite gap) before now after waited (start ∷ starts) spaced past slept =
    (omega (arith, past, some-injective slept), spaced)
IsSpaced-next infinite before now after waited (start ∷ starts) spaced past slept = cc
IsSpaced-next undefined before now after waited (start ∷ starts) spaced past slept =
    (omega (arith, past), spaced)

-- The gap that a finite interval names; another one names none.
abbrev pub gap_of : Policy → ℕ
gap_of p = gap_in p.min_interval_seconds

submit-IsThrottled :
    (p : Policy) (e : Execution) (world started : World)
    → IsThrottled (gap_of p) world
    → submit p e world ≡ some started
    → IsThrottled (gap_of p) started
unfolding submit
submit-IsThrottled p e world started h sent =
    let now = world.now + e.before in
    let wait = submission_wait_seconds (last_start world.starts) now p.min_interval_seconds in
    let (waited, slept, made) = and_some-eq-some (sleep wait) _ sent in
    subst (IsThrottled (gap_of p)) (some-injective made) (record {
      spaced =
          IsSpaced-next p.min_interval_seconds e.before world.now e.after waited world.starts
            h.spaced h.past slept;
      past = omega arith;
    })

module _ (p : Policy) where
  pause-IsThrottled :
      (seconds : ℕ) (world : World)
      → IsThrottled (gap_of p) world
      → IsThrottled (gap_of p) (pause seconds world)
  pause-IsThrottled seconds world h = record {
    spaced = h.spaced;
    past = IsPast-later world.now seconds world.starts h.past;
  }

  pub run_attempts-IsThrottled :
      (env : Environment) (fuel retry : ℕ) (run : Run) (world : World) (out : Attempted)
      → IsThrottled (gap_of p) world
      → run_attempts p env fuel retry run world ≡ some out
      → IsThrottled (gap_of p) out.world
  unfolding run_attempts
  run_attempts-IsThrottled env zero retry run world out h ran = cc
  run_attempts-IsThrottled env (suc fuel) retry run world out h ran =
      let e = env (length world.starts) in
      let (started, sent, rest) = and_some-eq-some (submit p e world) _ ran in
      let throttled = submit-IsThrottled p e world started h sent in
      elim (Bool-cases (is_retried p retry e)) [
        | inl again ↦
            let (backoff, named, rest1) =
              and_some-eq-some (rate_backoff_seconds p retry) _ (rw again at rest) in
            let (slept, woke, rest2) = and_some-eq-some (sleep backoff) _ rest1 in
            run_attempts-IsThrottled env fuel (retry + 1)
              (note_rate_limit retry backoff (begin_attempt run)) (pause slept started) out
              (pause-IsThrottled slept started throttled) rest2
        | inr last ↦
            subst (λ (o : Attempted). IsThrottled (gap_of p) o.world)
              (some-injective (rw last at rest)) throttled
      ]

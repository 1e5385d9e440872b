-- ===== src/Campaign/Policy/Bounds.antt =====
-- qcrl_campaign.py: the bounds of the backoff under a policy that is accepted.
use quantconnect.Prelude.{
  ℕ, zero, suc, ◌*◌, ◌^◌, ◌≤◌, ◌<◌, ◌≡◌, ltb, true, false, arith, Option, some, ok, err,
  campaign_error, Bool-cases, inl, inr, Result, Ensures, Ensures-raise, any, not, mem_text, subst,
  refl, none, if◌then◌else◌,
}
use native.Mathlib.Nat.{le-mul_of_pos_right, mul_left_comm, pow-succ'}
use quantconnect.Campaign.{Seconds, finite}
use quantconnect.Campaign.Policy.{
  checked, less, seconds_of, retries_of, Setting, Configured, an_object, not_an_object, Policy,
  policy_fields, policy_of, submission_policy, rate_backoff_seconds,
}

one_le_pow : (n : ℕ) → 1 ≤ 2 ^ n
one_le_pow zero = omega arith
one_le_pow (suc n) = omega (arith, one_le_pow n)

abbrev InOrder : Policy → Type 0
InOrder p = less p.max_backoff_seconds p.initial_backoff_seconds ≡ false

checked-ordered :
    (interval initial maximum : Result Seconds) (retries : Result ℕ)
    → Ensures InOrder (checked interval initial maximum retries)
unfolding checked
checked-ordered (err e) initial maximum retries = tt
checked-ordered (ok a) (err e) maximum retries = tt
checked-ordered (ok a) (ok b) (err e) retries = tt
checked-ordered (ok a) (ok b) (ok c) (err e) = tt
checked-ordered (ok a) (ok b) (ok c) (ok d) = elim (Bool-cases (less c b)) [
  | inl shorter ↦ rw shorter tt
  | inr ordered ↦ rw ordered ordered
]

submission_policy-ordered :
    (unit : ℕ) (configured : Configured) (interval retries : Option Setting)
    → Ensures InOrder (submission_policy unit configured interval retries)
unfolding submission_policy policy_of
submission_policy-ordered unit not_an_object interval retries = tt
submission_policy-ordered unit (an_object configured) interval retries =
    Ensures-raise _ (any (λ item. not (mem_text item.0 policy_fields)) configured) campaign_error _
      (λ known.
        checked-ordered (seconds_of unit "min_interval_seconds" 30 interval configured)
          (seconds_of unit "initial_backoff_seconds" 30 none configured)
          (seconds_of unit "max_backoff_seconds" 300 none configured)
          (retries_of unit retries configured))

-- A delay of the backoff, with the bounds of the policy.
abbrev pub DelayOf : Policy → ℕ → ℕ → ℕ → ℕ → Type 0
DelayOf p first longest n delay =
    (rate_backoff_seconds p n ≡ some (finite delay)) × (first ≤ delay) × (delay ≤ longest)

chosen :
    (a b : ℕ)
    → (n : ℕ) × ((if ltb b a then finite b else finite a) ≡ finite n)
      × (n ≤ a)
      × (n ≤ b)
      × ((k : ℕ) → k ≤ a → k ≤ b → k ≤ n)
chosen a b = elim (Bool-cases (ltb b a)) [
  | inl capped ↦ (b, rw capped refl, ground arith, omega arith, λ k x y. y)
  | inr free ↦ (a, rw free refl, omega arith, ground arith, λ k x y. x)
]

backoff_of :
    (p : Policy) (first longest n : ℕ)
    → p.initial_backoff_seconds ≡ finite first
    → p.max_backoff_seconds ≡ finite longest
    → n < 1024
    → (delay : ℕ) × (rate_backoff_seconds p n ≡ some (finite delay))
      × (delay ≤ first * 2 ^ n)
      × (delay ≤ longest)
      × ((k : ℕ) → k ≤ first * 2 ^ n → k ≤ longest → k ≤ delay)
unfolding rate_backoff_seconds
backoff_of p first longest n begins ends small =
    let (d, is, under, capped, greatest) = chosen (first * 2 ^ n) longest in
    let early : ltb n 1024 ≡ true = ground (arith, small) in
    (d, rw (early, begins, ends, is) refl, under, capped, greatest)

-- Under an accepted policy whose backoffs are finite numbers of seconds, the delay before each of
-- the first 1024 retries exists and is at least the first and at most the longest backoff that the
-- policy names, and no delay is shorter than the one before it.
pub submission_policy-IsBounded :
    (unit : ℕ) (configured : Configured) (interval retries : Option Setting) (p : Policy)
    (first longest n : ℕ)
    → submission_policy unit configured interval retries ≡ ok p
    → p.initial_backoff_seconds ≡ finite first
    → p.max_backoff_seconds ≡ finite longest
    → n < 1023
    → (delay next : ℕ) × DelayOf p first longest n delay
      × DelayOf p first longest (suc n) next
      × (delay ≤ next)
submission_policy-IsBounded unit configured interval retries p first longest n accepted begins ends
      small =
    let ordered : less p.max_backoff_seconds p.initial_backoff_seconds ≡ false =
      subst (Ensures InOrder) accepted
        (submission_policy-ordered unit configured interval retries) in
    let order : first ≤ longest = ground (arith, rw (begins, ends) at ordered) in
    let (d, made, under, capped, greatest) =
      backoff_of p first longest n begins ends (omega (arith, small)) in
    let (d', made', under', capped', greatest') =
      backoff_of p first longest (suc n) begins ends (omega (arith, small)) in
    let more : first ≤ first * 2 ^ n = le-mul_of_pos_right first (one_le_pow n) in
    let twice : first * 2 ^ (suc n) ≡ 2 * (first * 2 ^ n) =
      rw (pow-succ' 2 n) (mul_left_comm first 2 (2 ^ n)) in
    let grown : first * 2 ^ n ≤ first * 2 ^ (suc n) = omega (arith, twice) in
    (
      d,
      d',
      (made, greatest first more order, capped),
      (made', greatest' first (omega (arith, more, grown)) order, capped'),
      greatest' d (omega (arith, under, grown)) capped,
    )

-- ===== src/Campaign/Policy.antt =====
-- qcrl_campaign.py: the policy of submissions, and the waits it gives. A finite number of seconds is
-- counted in units of a fixed last place, in which doubling is exact.
pub mod Bounds
use quantconnect.Prelude.{
  ℕ, ◌+◌, ◌-◌, ◌*◌, ◌^◌, min, ltb, Bool, true, false, not, Option, none, some, List, [], ◌∷◌,
  String, all, if◌then◌else◌, Result, ok, err, Error, type_error, value_error, campaign_error,
  raise_if, value_of, ◌>>=◌, ◌>>◌, lookup, insert, mem_text, any,
}
use quantconnect.Prelude.Int.{ℤ, pos, negsuc}
use quantconnect.Campaign.{Seconds, finite, infinite, undefined}

-- What `float` returns.
pub data Reading : Type 0 where
  a_number : ℤ → Reading
  plus_infinity minus_infinity nan : Reading

-- A configured value, as `float` and `int` read it, with what they raise.
pub record Setting : Type 0 where
  pub as_float : Result Reading
  pub as_int : Result ℤ

pub data Configured : Type 0 where
  an_object : List (String × Setting) → Configured
  not_an_object : Configured

pub record Policy : Type 0 where
  pub min_interval_seconds : Seconds
  pub max_rate_retries : ℕ
  pub initial_backoff_seconds : Seconds
  pub max_backoff_seconds : Seconds

abbrev pub policy_fields : List String
policy_fields =
    "min_interval_seconds" ∷ "max_rate_retries" ∷ "initial_backoff_seconds" ∷ "max_backoff_seconds"
    ∷ []

-- A value that the command line or the manifest gives, or the default.
abbrev pub override : Option Setting → Option Setting → Setting → Setting
override (some given) configured default = given
override none (some configured) default = configured
override none none default = default

-- `except (TypeError, ValueError)`
abbrev pub caught : Error → Error
caught type_error = campaign_error
caught value_error = campaign_error
caught e = e

-- A field that is not less than zero, which nan is not.
abbrev pub non_negative_seconds : Result Reading → Result Seconds
non_negative_seconds (err e) = err (caught e)
non_negative_seconds (ok (a_number (pos n))) = ok (finite n)
non_negative_seconds (ok (a_number (negsuc n))) = err campaign_error
non_negative_seconds (ok plus_infinity) = ok infinite
non_negative_seconds (ok minus_infinity) = err campaign_error
non_negative_seconds (ok nan) = ok undefined

abbrev pub non_negative : Result ℤ → Result ℕ
non_negative (err e) = err (caught e)
non_negative (ok (pos n)) = ok n
non_negative (ok (negsuc n)) = err campaign_error

-- `a < b`, which is false of nan.
abbrev pub less : Seconds → Seconds → Bool
less (finite a) (finite b) = ltb a b
less (finite a) infinite = true
less _ _ = false

-- The fields as they are read, and the test that compares two of them.
unfoldable pub checked : Result Seconds → Result Seconds → Result Seconds → Result ℕ → Result Policy
checked interval initial maximum retries = do
  min_interval_seconds ← interval
  initial_backoff_seconds ← initial
  max_backoff_seconds ← maximum
  max_rate_retries ← retries
  raise_if (less max_backoff_seconds initial_backoff_seconds) campaign_error
  ok (record {
    min_interval_seconds = min_interval_seconds;
    max_rate_retries = max_rate_retries;
    initial_backoff_seconds = initial_backoff_seconds;
    max_backoff_seconds = max_backoff_seconds;
  })

module _ (unit : ℕ) where
  -- A default of whole seconds.
  abbrev pub default_setting : ℕ → Setting
  default_setting seconds = record {
    as_float = ok (a_number (pos (seconds * unit)));
    as_int = ok (pos seconds);
  }

  -- `float` of a field, with its check.
  abbrev pub seconds_of : String → ℕ → Option Setting → List (String × Setting) → Result Seconds
  seconds_of field default given configured =
      non_negative_seconds
        (override given (lookup field configured) (default_setting default)).as_float

  abbrev pub retries_of : Option Setting → List (String × Setting) → Result ℕ
  retries_of given configured =
      non_negative
        (override given (lookup "max_rate_retries" configured) (default_setting 4)).as_int

  unfoldable pub policy_of :
      List (String × Setting) → Option Setting → Option Setting → Result Policy
  unfolding checked
  policy_of configured min_interval_seconds max_rate_retries =
      raise_if (any (λ item. not (mem_text item.0 policy_fields)) configured) campaign_error
      >> checked (seconds_of "min_interval_seconds" 30 min_interval_seconds configured)
          (seconds_of "initial_backoff_seconds" 30 none configured)
          (seconds_of "max_backoff_seconds" 300 none configured)
          (retries_of max_rate_retries configured)

  unfoldable pub submission_policy : Configured → Option Setting → Option Setting → Result Policy
  unfolding policy_of
  submission_policy not_an_object min_interval_seconds max_rate_retries = err campaign_error
  submission_policy (an_object configured) min_interval_seconds max_rate_retries =
      policy_of configured min_interval_seconds max_rate_retries

-- A float times `2 ** retry_number`.
abbrev pub doubled : Seconds → ℕ → Seconds
doubled (finite n) retry_number = finite (n * 2 ^ retry_number)
doubled seconds retry_number = seconds

-- `none` stands for the OverflowError of a factor that is no float.
unfoldable pub rate_backoff_seconds : Policy → ℕ → Option Seconds
rate_backoff_seconds policy retry_number =
    if ltb retry_number 1024
    then (let delay = doubled policy.initial_backoff_seconds retry_number in
        some (if less policy.max_backoff_seconds delay then policy.max_backoff_seconds else delay))
    else none

-- The wait until `minimum_interval` has passed since the last start, at the reading `now` of a clock
-- that does not go back. `max(0.0, nan)` is 0.
abbrev pub submission_wait_seconds : Option ℕ → ℕ → Seconds → Seconds
submission_wait_seconds none now minimum_interval = finite 0
submission_wait_seconds (some last_started) now (finite minimum_interval) =
    finite (minimum_interval - (now - last_started))
submission_wait_seconds (some last_started) now infinite = infinite
submission_wait_seconds (some last_started) now undefined = finite 0

-- The time that `time.sleep` takes; it raises for infinity and nan. (A number of more than 292 years
-- is taken to be slept, where some platforms raise.)
abbrev pub sleep : Seconds → Option ℕ
sleep (finite n) = some n
sleep _ = none

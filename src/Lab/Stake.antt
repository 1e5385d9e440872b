-- ===== src/Lab/Stake.antt =====
-- stake_models.py: the size of the next wager. `StakeModelFactory.create` receives the mode that
-- `main.py` has put in lower case.
use quantconnect.Prelude.{
  ℕ, String, str_eq, if◌then◌else◌, Option, none, some, Result, ok, err, value_error,
  overflow_error, ◌>>=◌,
}
use quantconnect.Num.{Num}

abbrev pub in_range {ℓ} : {A : Type ℓ} → Option A → Result A
in_range none = err overflow_error
in_range (some a) = ok a

module _ (N : Num) where
  open N use {F, mul, pow}

  pub data StakeModel : Type 0 where
    flat : F → StakeModel
    martingale : F → F → StakeModel

  -- A power that is not too large.
  abbrev pub power : F → ℕ → Result F
  power multiplier loss_step = in_range (pow multiplier loss_step)

  unfoldable pub get_wager : StakeModel → ℕ → Result F
  get_wager (flat base_wager) loss_step = ok base_wager
  get_wager (martingale base_wager multiplier) loss_step =
      power multiplier loss_step >>= λ factor. ok (mul base_wager factor)

  unfoldable pub create_stake : String → F → F → Result StakeModel
  create_stake mode base_wager multiplier =
      if str_eq mode "flat"
      then ok (flat base_wager)
      else if str_eq mode "martingale"
      then ok (martingale base_wager multiplier)
      else err value_error

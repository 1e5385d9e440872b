-- ===== src/Prelude/Raises.antt =====
-- A Python call that returns or raises, with the exceptions of the modelled code.
use mathlib.Core.Path.{◌≡◌, refl}
use mathlib.Core.Bool.{Bool, true, false}
use mathlib.Core.Option.{Option, none, some}
use quantconnect.Prelude.Tests.{if◌then◌else◌}

pub data Error : Type 0 where
  value_error type_error zero_division contract_error campaign_error index_error overflow_error :
      Error

pub data Result {ℓ} (A : Type ℓ) : Type ℓ where
  err : Error → Result A
  ok : A → Result A

-- `if bad: raise error`
abbrev pub raise_if : Bool → Error → Result (Unit {0})
raise_if true e = err e
raise_if false e = ok tt

-- The use of a value that may be `None` in arithmetic or in an order comparison.
abbrev pub value_of {ℓ} : {A : Type ℓ} → Option A → Result A
value_of none = err type_error
value_of (some a) = ok a

-- A call, and then what is done with the value that it returns: an exception ends the chain.
infixl 5 ◌>>=◌
abbrev pub ◌>>=◌ {κ ℓ} : {V : Type κ} {W : Type ℓ} → Result V → (V → Result W) → Result W
err raised >>= next = err raised
ok value >>= next = next value

-- A check, and then a call.
infixl 5 ◌>>◌
abbrev pub ◌>>◌ {ℓ} : {W : Type ℓ} → Result (Unit {0}) → Result W → Result W
check >> next = check >>= λ unit. next

-- `Returns P r`: the call returns, and what it returns satisfies `P`.
abbrev pub Returns {ℓ} : {A : Type ℓ} → (A → Type 0) → Result A → Type 0
Returns P (ok a) = P a
Returns P (err e) = ⊥

pub Returns-bind {ℓ κ} :
    {A : Type ℓ} {B : Type κ} (P : A → Type 0) (Q : B → Type 0) (m : Result A) (f : A → Result B)
    → Returns P m
    → ((a : A) → P a → Returns Q (f a))
    → Returns Q (m >>= f)
Returns-bind P Q (ok a) f h k = k a h
Returns-bind P Q (err e) f h k = absurd h

pub Returns-eq {ℓ} :
    {A : Type ℓ} (P : A → Type 0) (m : Result A) → Returns P m → (a : A) × (m ≡ ok a) × P a
Returns-eq P (ok a) h = (a, refl, h)
Returns-eq P (err e) h = absurd h

-- `Ensures P r`: if the call returns, what it returns satisfies `P`.
abbrev pub Ensures {ℓ} : {A : Type ℓ} → (A → Type 0) → Result A → Type 0
Ensures P (ok a) = P a
Ensures P (err e) = Unit

pub Returns-weaken {ℓ} :
    {A : Type ℓ} (P Q : A → Type 0) (m : Result A)
    → Returns P m
    → ((a : A) → P a → Q a)
    → Returns Q m
Returns-weaken P Q (ok a) h k = k a h
Returns-weaken P Q (err e) h k = absurd h

-- A branch may use the answer of its test.
pub Returns-if {ℓ} :
    {A : Type ℓ} (P : A → Type 0) (test : Bool) (r s : Result A)
    → (test ≡ true → Returns P r)
    → (test ≡ false → Returns P s)
    → Returns P (if test then r else s)
Returns-if P true r s h k = h refl
Returns-if P false r s h k = k refl

pub Ensures-bind {ℓ κ} :
    {A : Type ℓ} {B : Type κ} (P : A → Type 0) (Q : B → Type 0) (m : Result A) (f : A → Result B)
    → Ensures P m
    → ((a : A) → P a → Ensures Q (f a))
    → Ensures Q (m >>= f)
Ensures-bind P Q (ok a) f h k = k a h
Ensures-bind P Q (err e) f h k = tt

pub Ensures-weaken {ℓ} :
    {A : Type ℓ} (P Q : A → Type 0) (m : Result A)
    → Ensures P m
    → ((a : A) → P a → Q a)
    → Ensures Q m
Ensures-weaken P Q (ok a) h k = k a h
Ensures-weaken P Q (err e) h k = tt

pub Ensures-any {ℓ} : {A : Type ℓ} (m : Result A) → Ensures (λ a. Unit {0}) m
Ensures-any (ok a) = tt
Ensures-any (err e) = tt

-- The value that a chain's first call returned, if the chain returned.
pub >>=-eq-ok {κ ℓ} :
    {V : Type κ} {W : Type ℓ} (call : Result V) (next : V → Result W) {w : W}
    → (call >>= next) ≡ ok w
    → (v : V) × (call ≡ ok v) × (next v ≡ ok w)
>>=-eq-ok (ok v) next returned = (v, refl, returned)
>>=-eq-ok (err e) next returned = cc

pub ok-injective {ℓ} : {A : Type ℓ} {a b : A} → ok a ≡ ok b → a ≡ b
ok-injective h = cc

pub Ensures-raise {ℓ} :
    {A : Type ℓ} (P : A → Type 0) (test : Bool) (e : Error) (r : Result A)
    → (test ≡ false → Ensures P r)
    → Ensures P (raise_if test e >> r)
Ensures-raise P true e r h = tt
Ensures-raise P false e r h = h refl

-- The rest of a call may use what its first step returned.
pub Ensures-bind_eq {ℓ κ} :
    {A : Type ℓ} {B : Type κ} (Q : B → Type 0) (m : Result A) (f : A → Result B)
    → ((a : A) → m ≡ ok a → Ensures Q (f a))
    → Ensures Q (m >>= f)
Ensures-bind_eq Q (ok a) f k = k a refl
Ensures-bind_eq Q (err e) f k = tt

-- A check that passes leaves the rest of the call.
pub raise_no {ℓ} :
    {A : Type ℓ} (test : Bool) (e : Error) (r : Result A)
    → test ≡ false
    → (raise_if test e >> r) ≡ r
raise_no true e r h = cc
raise_no false e r h = refl

-- A call that returned passed its first check.
pub raise_if-eq-ok {ℓ} :
    {A : Type ℓ} (test : Bool) (e : Error) (r : Result A) {a : A}
    → (raise_if test e >> r) ≡ ok a
    → (test ≡ false) × (r ≡ ok a)
raise_if-eq-ok true e r h = cc
raise_if-eq-ok false e r h = (refl, h)

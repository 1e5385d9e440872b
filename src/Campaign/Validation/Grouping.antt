-- ===== src/Campaign/Validation/Grouping.antt =====
-- qcrl_campaign.py: the groups that `validate_campaign` makes of the runs hold every run.
use quantconnect.Prelude.{◌≡◌, refl, Bool-cases, inl, inr, ◌⊎◌, List, [], ◌∷◌, map, Every}
use quantconnect.Campaign.{Scalar, Run, PairValidation}
use quantconnect.Campaign.Validation.{
  get_scalar, same_scalar, Members, put_member, same_key, Groups, put_group, group_runs,
}
use quantconnect.Campaign.Validation.Close.{
  Close, either-Close, SameKey, SameKey-refl, same_key-SameKey,
}

-- An item of the list has the property.
abbrev pub SomeOf : {A : Type 0} → (A → Type 0) → List A → Type 0
SomeOf P [] = ⊥
SomeOf P (x ∷ xs) = P x ⊎ SomeOf P xs

pub Every-SomeOf :
    {A : Type 0} (P Q : A → Type 0) (xs : List A) → Every P xs → SomeOf Q xs → (x : A) × P x × Q x
Every-SomeOf P Q [] h k = absurd k
Every-SomeOf P Q (x ∷ xs) h (inl here) = (x, h.0, here)
Every-SomeOf P Q (x ∷ xs) h (inr later) = Every-SomeOf P Q xs h.1 later

Every-both :
    {A : Type 0} (P Q : A → Type 0) (xs : List A)
    → Every P xs
    → Every Q xs
    → Every (λ x. P x × Q x) xs
Every-both P Q [] h k = tt
Every-both P Q (x ∷ xs) h k = ((h.0, k.0), Every-both P Q xs h.1 k.1)

abbrev pub key_of : PairValidation → Run → List Scalar
key_of pair run = map (λ field. get_scalar field run.parameters) pair.group_by

abbrev pub value_in : PairValidation → Run → Scalar
value_in pair run = get_scalar pair.dimension run.parameters

-- A member of a group with this key: one of the runs, under its value of the dimension.
abbrev pub BelongsTo : PairValidation → List Run → List Scalar → Scalar × Run → Type 0
BelongsTo pair runs key m =
    SameKey key (key_of pair m.1) × Close 0 m.0 (value_in pair m.1) × SomeOf (λ r. r ≡ m.1) runs

-- The group of the run's key, with a member for its value.
abbrev pub Holds : PairValidation → Run → List Scalar × Members → Type 0
Holds pair run group =
    SameKey group.0 (key_of pair run) × SomeOf (λ m. Close 0 m.0 (value_in pair run)) group.1

module _ (value : Scalar) (run : Run) where
  put_member-Every :
      (P : Scalar × Run → Type 0) (members : Members)
      → ((v : Scalar) → Close 0 v value → P (v, run))
      → Every P members
      → Every P (put_member value run members)
  put_member-Every P [] new h = (new value (inr refl), tt)
  put_member-Every P ((v, r) ∷ members) new h = elim (Bool-cases (same_scalar v value)) [
    | inl same ↦ rw same (new v (either-Close 0 v value same), h.1)
    | inr other ↦ rw other (h.0, put_member-Every P members new h.1)
  ]

  put_member-keeps :
      (P : Scalar → Type 0) (members : Members)
      → SomeOf (λ m. P m.0) members
      → SomeOf (λ m. P m.0) (put_member value run members)
  put_member-keeps P [] h = absurd h
  put_member-keeps P ((v, r) ∷ members) (inl here) = elim (Bool-cases (same_scalar v value)) [
    | inl same ↦ rw same (inl here)
    | inr other ↦ rw other (inl here)
  ]
  put_member-keeps P ((v, r) ∷ members) (inr later) = elim (Bool-cases (same_scalar v value)) [
    | inl same ↦ rw same (inr later)
    | inr other ↦ rw other (inr (put_member-keeps P members later))
  ]

  put_member-new :
      (members : Members) → SomeOf (λ m. Close 0 m.0 value) (put_member value run members)
  put_member-new [] = inl (inr refl)
  put_member-new ((v, r) ∷ members) = elim (Bool-cases (same_scalar v value)) [
    | inl same ↦ rw same (inl (either-Close 0 v value same))
    | inr other ↦ rw other (inr (put_member-new members))
  ]

module _ (key : List Scalar) (value : Scalar) (run : Run) where
  put_group-Every :
      (P : List Scalar → Scalar × Run → Type 0) (groups : Groups)
      → ((k : List Scalar) (v : Scalar) → SameKey k key → Close 0 v value → P k (v, run))
      → Every (λ g. Every (P g.0) g.1) groups
      → Every (λ g. Every (P g.0) g.1) (put_group key value run groups)
  put_group-Every P [] new h = ((new key value (SameKey-refl key) (inr refl), tt), tt)
  put_group-Every P ((k, members) ∷ groups) new h = elim (Bool-cases (same_key k key)) [
    | inl same ↦ rw same (
      put_member-Every value run (P k) members
          (λ v near. new k v (same_key-SameKey k key same) near) h.0,
      h.1,
    )
    | inr other ↦ rw other (h.0, put_group-Every P groups new h.1)
  ]

  put_group-keeps :
      (P : List Scalar → Type 0) (Q : Scalar → Type 0) (groups : Groups)
      → SomeOf (λ g. P g.0 × SomeOf (λ m. Q m.0) g.1) groups
      → SomeOf (λ g. P g.0 × SomeOf (λ m. Q m.0) g.1) (put_group key value run groups)
  put_group-keeps P Q [] h = absurd h
  put_group-keeps P Q ((k, members) ∷ groups) (inl here) = elim (Bool-cases (same_key k key)) [
    | inl same ↦ rw same (inl (here.0, put_member-keeps value run Q members here.1))
    | inr other ↦ rw other (inl here)
  ]
  put_group-keeps P Q ((k, members) ∷ groups) (inr later) = elim (Bool-cases (same_key k key)) [
    | inl same ↦ rw same (inr later)
    | inr other ↦ rw other (inr (put_group-keeps P Q groups later))
  ]

  put_group-new :
      (groups : Groups)
      → SomeOf
          (λ g. SameKey g.0 key × SomeOf (λ m. Close 0 m.0 value) g.1)
          (put_group key value run groups)
  put_group-new [] = inl (SameKey-refl key, inl (inr refl))
  put_group-new ((k, members) ∷ groups) = elim (Bool-cases (same_key k key)) [
    | inl same ↦ rw same (inl (same_key-SameKey k key same, put_member-new value run members))
    | inr other ↦ rw other (inr (put_group-new groups))
  ]

module _ (pair : PairValidation) where
  group_runs-keeps :
      (run : Run) (groups : Groups) (more : List Run)
      → SomeOf (Holds pair run) groups
      → SomeOf (Holds pair run) (group_runs pair groups more)
  group_runs-keeps run groups [] h = h
  group_runs-keeps run groups (r ∷ more) h =
      group_runs-keeps run (put_group (key_of pair r) (value_in pair r) r groups) more (
        put_group-keeps (key_of pair r) (value_in pair r) r (λ k. SameKey k (key_of pair run))
          (λ v. Close 0 v (value_in pair run)) groups h)

  pub group_runs-Holds :
      (groups : Groups) (runs : List Run)
      → Every (λ run. SomeOf (Holds pair run) (group_runs pair groups runs)) runs
  group_runs-Holds groups [] = tt
  group_runs-Holds groups (r ∷ more) =
      let next = put_group (key_of pair r) (value_in pair r) r groups in
      (
        group_runs-keeps r next more (put_group-new (key_of pair r) (value_in pair r) r groups),
        group_runs-Holds next more,
      )

  group_runs-Every :
      (P : List Scalar → Scalar × Run → Type 0) (groups : Groups) (more : List Run)
      → Every
          (λ r.
            (k : List Scalar) (v : Scalar)
            → SameKey k (key_of pair r)
            → Close 0 v (value_in pair r)
            → P k (v, r))
          more
      → Every (λ g. Every (P g.0) g.1) groups
      → Every (λ g. Every (P g.0) g.1) (group_runs pair groups more)
  group_runs-Every P groups [] new h = h
  group_runs-Every P groups (r ∷ more) new h =
      group_runs-Every P (put_group (key_of pair r) (value_in pair r) r groups) more new.1
        (put_group-Every (key_of pair r) (value_in pair r) r P groups new.0 h)

listed_all :
    (runs all : List Run)
    → ((r : Run) → SomeOf (λ x. x ≡ r) runs → SomeOf (λ x. x ≡ r) all)
    → Every (λ r. SomeOf (λ x. x ≡ r) all) runs
listed_all [] all h = tt
listed_all (r ∷ runs) all h = (h r (inl refl), listed_all runs all (λ x k. h x (inr k)))

Every-weaken :
    {A : Type 0} (P Q : A → Type 0) (xs : List A) → ((x : A) → P x → Q x) → Every P xs → Every Q xs
Every-weaken P Q [] f h = tt
Every-weaken P Q (x ∷ xs) f h = (f x h.0, Every-weaken P Q xs f h.1)

pub group_runs-BelongsTo :
    (pair : PairValidation) (runs : List Run)
    → Every (λ g. Every (BelongsTo pair runs g.0) g.1) (group_runs pair [] runs)
group_runs-BelongsTo pair runs =
    group_runs-Every pair (BelongsTo pair runs) [] runs
      (Every-weaken (λ r. SomeOf (λ x. x ≡ r) runs) _ runs
        (λ r listed k v same near. (same, near, listed)) (listed_all runs runs (λ r h. h)))
      tt

-- Every run is held by a group that has the property of all groups, and whose members belong to it.
abbrev pub InGroup : PairValidation → List Run → (List Scalar × Members → Type 0) → Run → Type 0
InGroup pair runs P run =
    (group : List Scalar × Members) × (P group × Every (BelongsTo pair runs group.0) group.1)
    × Holds pair run group

pub Every-InGroup :
    (pair : PairValidation) (runs : List Run) (P : List Scalar × Members → Type 0)
    → Every P (group_runs pair [] runs)
    → Every (InGroup pair runs P) runs
Every-InGroup pair runs P h =
    Every-weaken (λ run. SomeOf (Holds pair run) (group_runs pair [] runs)) _ runs
      (λ run held.
        Every-SomeOf (λ g. P g × Every (BelongsTo pair runs g.0) g.1) (Holds pair run)
          (group_runs pair [] runs)
          (Every-both P (λ g. Every (BelongsTo pair runs g.0) g.1) (group_runs pair [] runs) h
            (group_runs-BelongsTo pair runs))
          held)
      (group_runs-Holds pair [] runs)

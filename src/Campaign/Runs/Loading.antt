-- ===== src/Campaign/Runs/Loading.antt =====
-- qcrl_campaign.py: what loading keeps of the runs in the file, and what it adds.
use mathlib.Core.Option
use quantconnect.Prelude.{
  Bool, true, false, not, Option, none, some, List, [], ◌∷◌, ◌++◌, String, str_eq, str_eq_refl,
  Bool-cases, inl, inr, ◌≡◌, refl, sym, ap, ◌∙◌, is_some, is_some-map, Option-cases,
  Ensures-bind_eq, Every-map, Result, ok, campaign_error, ◌>>=◌, >>=-eq-ok, ok-injective, Every,
  Ensures, some-injective, raise_no, subst, eq_iff,
}
use quantconnect.Campaign.{Case, Run, State, Manifest}
use quantconnect.Campaign.Runs.{
  Hashing, find_run, put_run, normalize_run, normalize_collection_status, pending_run, add_case,
  add_cases, case_set_hash, read_state, revise, complete_state, load_state, stored_case_set_hash,
}
use quantconnect.Campaign.Runs.Collected.{
  IsAuthoritative, normalize_run-IsAuthoritative, normalize_all-normalize_all,
  normalize_run-case_id,
}
use quantconnect.Campaign.Runs.Kept.{IsKept, normalize_run-IsKept}

-- Which cases have a run.
abbrev pub has_run : List Run → Case → Bool
has_run runs c = is_some (find_run c.case_id runs)

abbrev pub HasRuns : List Run → List Case → Type 0
HasRuns runs cases = Every (λ c. has_run runs c ≡ true) cases

find_run-append :
    (id : String) (run : Run) (runs more : List Run)
    → find_run id runs ≡ some run
    → find_run id (runs ++ more) ≡ some run
find_run-append id run [] more h = cc
find_run-append id run (r ∷ runs) more h = elim (Bool-cases (str_eq r.case_id id)) [
  | inl here ↦ rw here (rw here at h)
  | inr later ↦ rw later (find_run-append id run runs more (rw later at h))
]

find_run-new : (c : Case) (runs : List Run) → has_run (runs ++ pending_run c ∷ []) c ≡ true
find_run-new c [] = rw (str_eq_refl c.case_id) refl
find_run-new c (r ∷ runs) = elim (Bool-cases (str_eq r.case_id c.case_id)) [
  | inl here ↦ rw here refl
  | inr later ↦ rw later (find_run-new c runs)
]

-- A run that is there stays, and a case that is added has one.
add_case-find_run :
    (id : String) (run : Run) (runs : List Run) (c : Case)
    → find_run id runs ≡ some run
    → find_run id (add_case runs c) ≡ some run
add_case-find_run id run runs c h = elim (Bool-cases (has_run runs c)) [
  | inl known ↦ rw known h
  | inr fresh ↦ rw fresh (find_run-append id run runs (pending_run c ∷ []) h)
]

pub add_cases-find_run :
    (id : String) (run : Run) (runs : List Run) (cases : List Case)
    → find_run id runs ≡ some run
    → find_run id (add_cases runs cases) ≡ some run
add_cases-find_run id run runs [] h = h
add_cases-find_run id run runs (c ∷ cases) h =
    add_cases-find_run id run (add_case runs c) cases (add_case-find_run id run runs c h)

add_case-has_run : (runs : List Run) (c : Case) → has_run (add_case runs c) c ≡ true
add_case-has_run runs c = elim (Bool-cases (has_run runs c)) [
  | inl known ↦ rw known known
  | inr fresh ↦ rw fresh (find_run-new c runs)
]

add_cases-has_run :
    (runs : List Run) (c : Case) (cases : List Case)
    → has_run runs c ≡ true
    → has_run (add_cases runs cases) c ≡ true
add_cases-has_run runs c cases h = elim (Option-cases (find_run c.case_id runs)) [
  | inl nothing ↦ absurd (let no = rw nothing at h in cc)
  | inr found ↦ ap is_some (add_cases-find_run c.case_id found.0 runs cases found.1)
]

add_cases-HasRuns : (runs : List Run) (cases : List Case) → HasRuns (add_cases runs cases) cases
add_cases-HasRuns runs [] = tt
add_cases-HasRuns runs (c ∷ cases) = (
  add_cases-has_run (add_case runs c) c cases (add_case-has_run runs c),
  add_cases-HasRuns (add_case runs c) cases,
)

add_cases-kept :
    (runs : List Run) (cases : List Case) → HasRuns runs cases → add_cases runs cases ≡ runs
add_cases-kept runs [] h = refl
add_cases-kept runs (c ∷ cases) h = rw h.0 (add_cases-kept runs cases h.1)

module _ (m : Manifest) where
  normalize-find_run :
      (id : String) (runs : List Run)
      → find_run id (normalize_collection_status m runs)
        ≡ Option.map (normalize_run m) (find_run id runs)
  unfolding normalize_run
  normalize-find_run id [] = refl
  normalize-find_run id (r ∷ runs) = elim (Bool-cases (str_eq r.case_id id)) [
    | inl here ↦ rw (normalize_run-case_id m r, here) refl
    | inr later ↦ rw (normalize_run-case_id m r, later) (normalize-find_run id runs)
  ]

  normalize-HasRuns :
      (runs : List Run) (cases : List Case)
      → HasRuns runs cases
      → HasRuns (normalize_collection_status m runs) cases
  normalize-HasRuns runs [] h = tt
  normalize-HasRuns runs (c ∷ cases) h = (
    ap is_some (normalize-find_run c.case_id runs)
        ∙ is_some-map (normalize_run m) (find_run c.case_id runs)
        ∙ h.0,
    normalize-HasRuns runs cases h.1,
  )

revise-current :
    (m : Manifest) (expected : String) (old : State)
    → ((revise m expected old).manifest_hash ≡ m.manifest_hash)
      × ((revise m expected old).case_set_hash ≡ some expected)
revise-current m expected old = elim (Bool-cases (str_eq old.manifest_hash m.manifest_hash)) [
  | inl equal ↦ rw equal ((eq_iff old.manifest_hash m.manifest_hash).0 equal, refl)
  | inr other ↦ rw other (refl, refl)
]

revise-runs :
    (m : Manifest) (expected : String) (old : State) → (revise m expected old).runs ≡ old.runs
revise-runs m expected old = elim (Bool-cases (str_eq old.manifest_hash m.manifest_hash)) [
  | inl equal ↦ rw equal refl
  | inr other ↦ rw other refl
]

revise-same :
    (m : Manifest) (expected : String) (state : State)
    → state.manifest_hash ≡ m.manifest_hash
    → state.case_set_hash ≡ some expected
    → revise m expected state ≡ state
revise-same m expected state h k =
    let equal : str_eq state.manifest_hash m.manifest_hash ≡ true =
      (eq_iff state.manifest_hash m.manifest_hash).1 h in
    rw equal (subst (λ c. record state { case_set_hash = c } ≡ state) k refl)

module _ (H : Hashing) (m : Manifest) (cases : List Case) where
  -- If loading returns, then every case has a run in the state, and every run that is collected has
  -- all its metrics from the API, with their time.
  pub load_state-IsAuthoritative :
      (file : Option State)
      → Ensures
          (λ state. Every (IsAuthoritative m) state.runs × HasRuns state.runs cases)
          (load_state H m cases file)
  unfolding load_state
  load_state-IsAuthoritative file = Ensures-bind_eq _ (read_state H m cases file) _ (λ state read. (
    Every-map (IsAuthoritative m) (normalize_run m) (add_cases state.runs cases)
        (normalize_run-IsAuthoritative m),
    normalize-HasRuns m (add_cases state.runs cases) cases (add_cases-HasRuns state.runs cases),
  ))

  read_state-again :
      (file : Option State) (state : State)
      → read_state H m cases file ≡ ok state
      → (state.manifest_hash ≡ m.manifest_hash)
        × (state.case_set_hash ≡ some (case_set_hash H cases))
  read_state-again none state h = let same = ok-injective h in rw (← same) (refl, refl)
  read_state-again (some old) state h =
      elim (Bool-cases
        (not (str_eq (stored_case_set_hash H old old.case_set_hash) (case_set_hash H cases)))) [
          | inl other ↦ absurd (let no = rw other at h in cc)
          | inr equal ↦
              let same = ok-injective (rw equal at h) in
              rw (← same) (revise-current m (case_set_hash H cases) old)
        ]

  load_state-complete_state :
      (s : State)
      → s.manifest_hash ≡ m.manifest_hash
      → s.case_set_hash ≡ some (case_set_hash H cases)
      → load_state H m cases (some (complete_state m cases s)) ≡ ok (complete_state m cases s)
  unfolding load_state
  load_state-complete_state s h k =
      let t = complete_state m cases s in
      let expected = case_set_hash H cases in
      let equal : not (str_eq (stored_case_set_hash H t t.case_set_hash) expected) ≡ false =
        ap (λ c. not (str_eq (stored_case_set_hash H t c) expected)) k
        ∙ ap not (str_eq_refl expected) in
      let again : read_state H m cases (some t) ≡ ok t =
        raise_no (not (str_eq (stored_case_set_hash H t t.case_set_hash) expected)) campaign_error _
          equal
        ∙ ap ok (revise-same m expected t h k) in
      let all = add_cases s.runs cases in
      let kept : normalize_collection_status m (add_cases t.runs cases) ≡ t.runs =
        ap (normalize_collection_status m) (
          add_cases-kept t.runs cases
            (normalize-HasRuns m all cases (add_cases-HasRuns s.runs cases)))
        ∙ normalize_all-normalize_all m all in
      ap (λ (r : Result State). r >>= λ u. ok (complete_state m cases u)) again
      ∙ ap (λ runs. ok (record t { runs = runs })) kept

  -- A state that was loaded, saved and loaded again is the same state.
  pub load_state-load_state :
      (file : Option State) (state : State)
      → load_state H m cases file ≡ ok state
      → load_state H m cases (some state) ≡ ok state
  unfolding load_state
  load_state-load_state file state h =
      let first = >>=-eq-ok (read_state H m cases file) (λ s. ok (complete_state m cases s)) h in
      let hashes = read_state-again file first.0 first.1 in
      subst (λ s. load_state H m cases (some s) ≡ ok s) (ok-injective first.2)
        (load_state-complete_state first.0 hashes.0 hashes.1)

  read_state-runs :
      (old state : State) → read_state H m cases (some old) ≡ ok state → state.runs ≡ old.runs
  read_state-runs old state h =
      let expected = case_set_hash H cases in
      elim (Bool-cases (not (str_eq (stored_case_set_hash H old old.case_set_hash) expected))) [
        | inl other ↦ absurd (let no = rw other at h in cc)
        | inr equal ↦
            ap (λ (s : State). s.runs) (sym (ok-injective (rw equal at h)))
            ∙ revise-runs m expected old
      ]

  -- Loading keeps the run of every case that has one in the file: its attempts, backtest, metrics and
  -- all else but its status, the source of its metrics and the note of its collection; it keeps the
  -- source where there is one, and the status and the note of a run that is not collected.
  pub load_state-find_run :
      (old state : State) (id : String) (run : Run)
      → load_state H m cases (some old) ≡ ok state
      → find_run id old.runs ≡ some run
      → (kept : Run) × (find_run id state.runs ≡ some kept) × IsKept run kept
  unfolding load_state
  load_state-find_run old state id run h found =
      let first =
        >>=-eq-ok (read_state H m cases (some old)) (λ s. ok (complete_state m cases s)) h in
      let same = read_state-runs old first.0 first.1 in
      let there : find_run id first.0.runs ≡ some run = ap (find_run id) same ∙ found in
      (
        normalize_run m run,
        ap (λ (s : State). find_run id s.runs) (sym (ok-injective first.2))
            ∙ normalize-find_run m id (add_cases first.0.runs cases)
            ∙ ap (Option.map (normalize_run m))
                (add_cases-find_run id run first.0.runs cases there),
        normalize_run-IsKept m run,
      )

pub Every-put_run :
    (P : Run → Type 0) (new : Run) (runs : List Run)
    → P new
    → Every P runs
    → Every P (put_run new runs)
Every-put_run P new [] h hs = tt
Every-put_run P new (r ∷ runs) h hs = elim (Bool-cases (str_eq r.case_id new.case_id)) [
  | inl here ↦ rw here (h, hs.1)
  | inr later ↦ rw later (hs.0, Every-put_run P new runs h hs.1)
]

pub Every-find_run :
    (P : Run → Type 0) (id : String) (runs : List Run) (run : Run)
    → Every P runs
    → find_run id runs ≡ some run
    → P run
Every-find_run P id [] run h found = cc
Every-find_run P id (r ∷ runs) run h found = elim (Bool-cases (str_eq r.case_id id)) [
  | inl here ↦ subst P (some-injective (rw here at found)) h.0
  | inr later ↦ Every-find_run P id runs run h.1 (rw later at found)
]

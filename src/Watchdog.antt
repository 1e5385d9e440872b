-- ===== src/Watchdog.antt =====
-- execution_truth/stream_resilience.py: the delay of a retry, and the watchdog of the market data. Times
-- are milliseconds; sets are lists; `random.uniform` is an argument.
pub mod Silence
use quantconnect.Prelude.{
  ℕ, zero, suc, ◌+◌, ◌-◌, ◌*◌, ◌/◌, ◌^◌, min, ltb, leb, ◌==◌, Bool, true, false, not, ◌&&◌, ◌||◌,
  Option, none, some, List, [], ◌∷◌, ◌++◌, String, all, any, mem_text, is_empty, if◌then◌else◌,
}

abbrev pub seconds : ℕ → ℕ
seconds n = n * 1000

-- `retry_delay`. The callers count connections from one; `2 ** -1` halves the base.
abbrev pub retry_ceiling : ℕ → ℕ
retry_ceiling zero = seconds 1
retry_ceiling (suc retries) = min (seconds 8) (seconds 2 * 2 ^ retries)

unfoldable pub retry_delay : (ℕ → ℕ → ℕ) → ℕ → ℕ
retry_delay uniform connection = uniform (retry_ceiling connection / 2) (retry_ceiling connection)

pub record DataWatchdog : Type 0 where
  pub assets : List String
  pub books : List String
  pub started : ℕ
  pub last_data : ℕ
  pub stale_since : Option ℕ

pub data Reason : Type 0 where
  initial_books_timeout selected_book_data_silence stale_timestamped_book_flow : Reason

pub data EventType : Type 0 where
  book price_change other_type : EventType

-- An event with its class. Its stamp is `none` where the timestamp is no integer and no text of
-- thirteen digits.
pub record MarketEvent : Type 0 where
  pub selected : Bool
  pub event_type : EventType
  pub asset_ids : List String
  pub stamp : Option ℕ

abbrev pub new_watchdog : List String → ℕ → DataWatchdog
new_watchdog assets started = record {
  assets = assets;
  books = [];
  started = started;
  last_data = started;
  stale_since = none;
}

abbrev pub same_set : List String → List String → Bool
same_set xs ys = all (λ x. mem_text x ys) xs && all (λ y. mem_text y xs) ys

abbrev pub stale_for : Option ℕ → ℕ → Bool
stale_for none now = false
stale_for (some since) now = leb (seconds 10) (now - since)

unfoldable pub reason : DataWatchdog → ℕ → Bool → Option Reason
reason d now active =
    if not (same_set d.books d.assets) && leb (seconds 10) (now - d.started)
    then some initial_books_timeout
    else if active && leb (seconds 30) (now - d.last_data)
    then some selected_book_data_silence
    else if active && stale_for d.stale_since now
    then some stale_timestamped_book_flow
    else none

abbrev pub is_book : EventType → Bool
is_book book = true
is_book _ = false

abbrev pub is_data : EventType → Bool
is_data other_type = false
is_data _ = true

abbrev pub is_relevant : MarketEvent → Bool
is_relevant event = event.selected && is_data event.event_type

abbrev pub is_stamp : ℕ → Bool
is_stamp stamp = leb (10 ^ 12) stamp && ltb stamp (10 ^ 13)

-- The age of an event whose timestamp is a time before its receipt.
abbrev pub add_age : ℕ → Option ℕ → List ℕ → List ℕ
add_age receipt none ages = ages
add_age receipt (some stamp) ages =
    if is_stamp stamp && leb stamp receipt then ages ++ (receipt - stamp) ∷ [] else ages

abbrev pub observe_events : DataWatchdog → List ℕ → ℕ → ℕ → List MarketEvent → DataWatchdog × List ℕ
observe_events d ages now receipt [] = (d, ages)
observe_events d ages now receipt (event ∷ events) =
    let seen = record d {
      last_data = now;
      books = if is_book event.event_type then d.books ++ event.asset_ids else d.books;
    } in
    let more = add_age receipt event.stamp ages in
    let taken = observe_events seen more now receipt events in
    let passed = observe_events d ages now receipt events in
    if is_relevant event then taken else passed

abbrev pub since_or : Option ℕ → ℕ → Option ℕ
since_or none now = some now
since_or (some since) now = some since

unfoldable pub note_ages : DataWatchdog → List ℕ → ℕ → DataWatchdog
note_ages d ages now =
    if is_empty ages
    then d
    else if any (λ age. leb age (seconds 5)) ages
    then record d { stale_since = none }
    else record d { stale_since = since_or d.stale_since now }

-- `observe`; `none` stands for a message that is no JSON.
unfoldable pub observe : DataWatchdog → Option (List MarketEvent) → ℕ → ℕ → DataWatchdog
unfolding note_ages
observe d none now receipt = d
observe d (some events) now receipt =
    let out = observe_events d [] now receipt events in note_ages out.0 out.1 now

-- ===== src/Freshness.antt =====
-- execution_truth/connection_freshness.py: the freshness diagnostics of one connection. Times are
-- microseconds; a timestamp is what `milliseconds` reads, or `none` where it raises. The
-- hash of a sample and the causes of a close are left out.
pub mod Balance
use quantconnect.Prelude.{
  ℕ, ◌+◌, ◌-◌, ◌*◌, ◌^◌, ltb, leb, ◌==◌, Bool, true, false, not, ◌&&◌, ◌||◌, Option, none, some,
  List, [], ◌∷◌, ◌++◌, length, take_last, String, lookup, has_key, mem_text, any, is_empty, is_some,
  if◌then◌else◌, Result, ok, err, contract_error, raise_if, ◌>>=◌, ◌>>◌,
}
use quantconnect.Prelude.Int.{ℤ, sub_ℕ}
use quantconnect.Watchdog.{EventType, is_book, is_data}

-- What a delivery record has of a message: its stamp, and the stamp of its marker with whether both
-- measurements are eligible.
pub record Callback : Type 0 where
  pub utc : ℕ
  pub timing_eligible : Bool

pub record DeliveryRecord : Type 0 where
  pub application_delivery : Option ℕ
  pub receive_marker : Option Callback

-- An event's class, and the event's timestamp.
pub record EventClass : Type 0 where
  pub selected : Bool
  pub event_type : EventType
  pub asset_ids : List String

pub record Witness : Type 0 where
  pub delivery : ℕ
  pub event_type : EventType
  pub delivery_age : ℕ
  pub callback_age : Option ℤ
  pub callback_eligible : Bool

pub data TransitionKind : Type 0 where
  stale_flow_onset stale_cleared_by_fresh_event : TransitionKind

pub record Transition : Type 0 where
  pub kind : TransitionKind
  pub delivery : ℕ

pub record Counts : Type 0 where
  pub messages : ℕ
  pub missing_stamps : ℕ
  pub selected_events : ℕ
  pub invalid_timestamps : ℕ
  pub negative_ages : ℕ
  pub fresh_events : ℕ
  pub stale_events : ℕ

pub record Freshness : Type 0 where
  pub assets : List String
  pub counts : Counts
  pub books : List (String × Witness)
  pub updates : List (String × Witness)
  pub last_fresh : Option Witness
  pub latest : Option Witness
  pub stale_since : Option ℕ
  pub transitions : List Transition
  pub transition_count : ℕ
  pub samples : ℕ
  pub last_sample : Option ℕ

abbrev pub no_counts : Counts
no_counts = record {
  messages = 0;
  missing_stamps = 0;
  selected_events = 0;
  invalid_timestamps = 0;
  negative_ages = 0;
  fresh_events = 0;
  stale_events = 0;
}

unfoldable pub new_freshness : List String → Freshness
new_freshness assets = record {
  assets = assets;
  counts = no_counts;
  books = [];
  updates = [];
  last_fresh = none;
  latest = none;
  stale_since = none;
  transitions = [];
  transition_count = 0;
  samples = 0;
  last_sample = none;
}

-- `_transition`: the last eight are kept.
abbrev pub transition : TransitionKind → ℕ → Freshness → Freshness
transition kind stamp f = record f {
  transition_count = f.transition_count + 1;
  transitions = take_last 8 (f.transitions ++ record { kind = kind; delivery = stamp } ∷ []);
}

abbrev pub set_default : String → Witness → List (String × Witness) → List (String × Witness)
set_default key w d = if has_key key d then d else d ++ (key, w) ∷ []

-- The assets of an event that are followed.
abbrev pub note_assets :
    List String → List String → Witness → List (String × Witness) → List (String × Witness)
note_assets assets [] w d = d
note_assets assets (asset ∷ ids) w d =
    note_assets assets ids w (if mem_text asset assets then set_default asset w d else d)

abbrev pub callback_age_of : ℕ → Option Callback → Option ℤ
callback_age_of source none = none
callback_age_of source (some callback) = some (sub_ℕ callback.utc source)

abbrev pub is_eligible_callback : Option Callback → Bool
is_eligible_callback none = false
is_eligible_callback (some callback) = callback.timing_eligible

abbrev pub count_selected : Counts → Counts
count_selected c = record c { selected_events = c.selected_events + 1 }

abbrev pub is_fresh : ℕ → Bool
is_fresh age = leb age (5 * 10 ^ 6)

-- An event with an age.
abbrev pub note_aged : Freshness → DeliveryRecord → ℕ → EventClass → ℕ → Freshness
note_aged f record_of stamp cls source =
    let age = stamp - source in
    let w : Witness = record {
      delivery = stamp;
      event_type = cls.event_type;
      delivery_age = age;
      callback_age = callback_age_of source record_of.receive_marker;
      callback_eligible = is_eligible_callback record_of.receive_marker;
    } in
    record f {
      counts =
          if is_fresh age
          then record f.counts { fresh_events = f.counts.fresh_events + 1 }
          else record f.counts { stale_events = f.counts.stale_events + 1 };
      latest = some w;
      books =
          if is_book cls.event_type then note_assets f.assets cls.asset_ids w f.books else f.books;
      updates =
          if not (is_book cls.event_type) && is_fresh age
          then note_assets f.assets cls.asset_ids w f.updates
          else f.updates;
      last_fresh = if is_fresh age then some w else f.last_fresh;
    }

-- A selected event, by its timestamp: its age is `none` where it has none.
abbrev pub note_event :
    Freshness → DeliveryRecord → ℕ → EventClass → Option ℕ → Freshness × Option ℕ
note_event f record_of stamp cls none = (
  record f { counts = record f.counts { invalid_timestamps = f.counts.invalid_timestamps + 1 } },
  none,
)
note_event f record_of stamp cls (some source) =
    if ltb stamp source
    then (
      record f { counts = record f.counts { negative_ages = f.counts.negative_ages + 1 } },
      none,
    )
    else (note_aged f record_of stamp cls source, some (stamp - source))

abbrev pub add_known : Option ℕ → List ℕ → List ℕ
add_known none ages = ages
add_known (some age) ages = ages ++ age ∷ []

-- The loop over the events and their classes, with the ages so far.
unfoldable pub note_events :
    Freshness → DeliveryRecord → ℕ → List (EventClass × Option ℕ) → List ℕ → Freshness × List ℕ
note_events f record_of stamp [] ages = (f, ages)
note_events f record_of stamp ((cls, source) ∷ events) ages =
    let out =
      note_event (record f { counts = count_selected f.counts }) record_of stamp cls source in
    let taken = note_events out.0 record_of stamp events (add_known out.1 ages) in
    let passed = note_events f record_of stamp events ages in
    if cls.selected && is_data cls.event_type then taken else passed

abbrev pub clear_stale : Option ℕ → ℕ → Freshness → Freshness
clear_stale none stamp f = record f { stale_since = none }
clear_stale (some since) stamp f = record (transition stale_cleared_by_fresh_event stamp f) {
  stale_since = none;
}

abbrev pub begin_stale : Option ℕ → ℕ → Freshness → Freshness
begin_stale none stamp f = transition stale_flow_onset stamp (record f { stale_since = some stamp })
begin_stale (some since) stamp f = f

unfoldable pub note_flow : Freshness → ℕ → List ℕ → Freshness
note_flow f stamp ages =
    if is_empty ages
    then f
    else if any is_fresh ages
    then clear_stale f.stale_since stamp f
    else begin_stale f.stale_since stamp f

-- A message: its events' timestamps where it is JSON, and the classes.
pub record Observation : Type 0 where
  pub timestamps : Option (List (Option ℕ))
  pub classes : List EventClass
  pub record_of : DeliveryRecord

abbrev pub pairs_of : List EventClass → List (Option ℕ) → List (EventClass × Option ℕ)
pairs_of (cls ∷ classes) (source ∷ sources) = (cls, source) ∷ pairs_of classes sources
pairs_of _ _ = []

abbrev pub observe_json : Freshness → Observation → ℕ → Option (List (Option ℕ)) → Freshness × Bool
observe_json f o stamp none = (f, true)
observe_json f o stamp (some timestamps) =
    let out = note_events f o.record_of stamp (pairs_of o.classes timestamps) [] in
    if length timestamps == length o.classes
    then (note_flow out.0 stamp out.1, true)
    else (f, false)

abbrev pub observe_stamped : Freshness → Observation → Option ℕ → Freshness × Bool
observe_stamped f o none =
    (record f { counts = record f.counts { missing_stamps = f.counts.missing_stamps + 1 } }, true)
observe_stamped f o (some stamp) = observe_json f o stamp o.timestamps

-- `observe`, with whether it returned: what it counted before it raised is kept.
unfoldable pub observe_message : Freshness → Observation → Freshness × Bool
unfolding note_events note_flow
observe_message f o =
    observe_stamped (record f { counts = record f.counts { messages = f.counts.messages + 1 } }) o
      o.record_of.application_delivery

abbrev pub is_early : Option ℕ → ℕ → Bool
is_early none now = false
is_early (some last) now = ltb (now - last) (5 * 10 ^ 6)

-- `emit`, with whether it returned.
unfoldable pub emit : Freshness → ℕ → Bool → Freshness × Bool
emit f now force =
    if not force && is_early f.last_sample now
    then (f, true)
    else if leb 123 f.samples
    then (f, false)
    else (record f { samples = f.samples + 1; last_sample = some now }, true)

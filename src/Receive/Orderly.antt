-- ===== src/Receive/Orderly.antt =====
-- execution_truth/receive_recovery.py: what holds of a tracker between two calls.
use quantconnect.Prelude.{
  ℕ, ◌+◌, ◌≤◌, ◌≡◌, ◌≢◌, refl, true, false, Option, none, some, List, [], ◌∷◌, ◌++◌, length, arith,
}
use quantconnect.Receive.{
  Disabled, Limits, Marker, Fragment, Tracker, disable, is_draining, is_going,
}

-- The markers are those of the messages right after number `k`, in order.
abbrev pub AreFrom : ℕ → List Marker → Type 0
AreFrom k [] = Unit
AreFrom k (m ∷ ms) = (m.message_sequence ≡ k + 1) × AreFrom (k + 1) ms

pub AreFrom-append_one :
    (k : ℕ) (ms : List Marker) (m : Marker)
    → AreFrom k ms
    → m.message_sequence ≡ k + length ms + 1
    → AreFrom k (ms ++ m ∷ [])
AreFrom-append_one k [] m h e = (omega arith, tt)
AreFrom-append_one k (n ∷ ms) m h e = (h.0, AreFrom-append_one (k + 1) ms m h.1 (omega arith))

abbrev pub IsHashed : Option Fragment → Type 0
IsHashed none = Unit
IsHashed (some f) = f.digest ≢ none

-- The queue and the counters keep to their limits, the queue holds the markers of the messages that
-- follow the delivered ones and is empty on a tracker that has stopped, an aligned tracker has one for every message that is not delivered, and
-- a message that an aligned tracker puts together is hashed.
pub record IsOrderly (P : Limits) (t : Tracker) : Type 0 where
  pub depth : length t.pending ≤ P.max_pending
  pub frames : t.frame_sequence ≤ P.max_frames
  pub messages : t.message_sequence ≤ P.max_messages
  pub delivered : t.delivered_messages ≤ P.max_messages
  pub queued : AreFrom t.delivered_messages t.pending
  pub aligned :
      t.disabled_reason ≡ none → t.delivered_messages + length t.pending ≡ t.message_sequence
  pub hashed : t.disabled_reason ≡ none → IsHashed t.fragment
  pub stopped : is_going t.disabled_reason ≡ false → t.pending ≡ []

pub going_cases : (r : Option Disabled) → is_going r ≡ true → is_draining r ≡ false → r ≡ none
going_cases none h k = refl
going_cases (some r) h k = cc

pub stopped_going : {r : Option Disabled} → r ≡ none → is_going r ≢ false
stopped_going {r = r} h k = cc

pub draining_some : (r : Option Disabled) → is_draining r ≡ true → r ≢ none
draining_some none h k = cc
draining_some (some r) h k = cc

module _ (P : Limits) where
  pub disable-IsOrderly :
      (t : Tracker) (reason : Disabled) → IsOrderly P t → IsOrderly P (disable t reason)
  disable-IsOrderly t reason h = record {
    depth = ground arith;
    frames = h.frames;
    messages = h.messages;
    delivered = h.delivered;
    queued = tt;
    aligned = λ e. cc;
    hashed = λ e. cc;
    stopped = λ e. refl;
  }

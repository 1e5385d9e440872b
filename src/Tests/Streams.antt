-- ===== src/Tests/Streams.antt =====
-- execution_truth/connection_freshness.py and book_sequence.py: a stale message and a fresh one, and a
-- sequence of two samples.
use quantconnect.Prelude.{ℕ, ◌≤◌, ◌≡◌, refl, true, none, some, List, [], ◌∷◌, length, String, ok}
use quantconnect.Watchdog.{book}
use quantconnect.Freshness.{EventClass, new_freshness}
use quantconnect.Freshness.Balance.{
  Happening, observes, emits, follow, IsBalanced, follow-IsBalanced,
}
use quantconnect.BookSequence.{
  Bundles, Sequence, Cursor, normalize_book_sequence, check_samples, check_sample, move_cursor,
  validate_sequence_limits,
}
use quantconnect.BookSequence.Timeline.{Traced, normalize_book_sequence-Traced}

abbrev followed : EventClass
followed = record { selected = true; event_type = book; asset_ids = "up" ∷ [] }

-- A message delivered at this time, whose event has this timestamp.
abbrev delivered_at : ℕ → ℕ → Happening
delivered_at stamp source = observes (record {
  timestamps = some (some source ∷ []);
  classes = followed ∷ [];
  record_of = record { application_delivery = some stamp; receive_marker = none };
})

abbrev happenings : List Happening
happenings = delivered_at 9000000 1000000 ∷ emits 9000000 true ∷ delivered_at 9500000 9000000 ∷ []

follow-IsBalanced_example : IsBalanced (follow (new_freshness ("up" ∷ [])) happenings)
follow-IsBalanced_example = follow-IsBalanced ("up" ∷ []) happenings

record Bundle : Type 0 where
  acquired : ℕ
  observed : ℕ

abbrev bundles : Bundles Bundle
bundles = record {
  is_bundle = λ b. true;
  market_id_requested = λ b. "7";
  strip = λ text. text;
  acquired_at = λ b. some b.acquired;
  observed_at = λ b. some (some b.observed ∷ []);
  identity = λ b. ok "market 7";
  is_numeric = λ id. true;
}

abbrev captured : Sequence Bundle
captured = record {
  market_id_requested = "7";
  capture_started_at = some 10;
  capture_completed_at = some 60;
  requested_sample_count = 2;
  requested_interval_seconds = 30;
  samples = record { acquired = 11; observed = 12 } ∷ record { acquired = 42; observed = 43 } ∷ [];
}

abbrev end : Cursor
end = record { timeline_cursor = 43; previous_acquired = some 42; identity = some "market 7" }

captured-normalized : normalize_book_sequence bundles captured ≡ ok end
unfolding normalize_book_sequence check_samples check_sample move_cursor validate_sequence_limits
captured-normalized = refl

normalize_book_sequence-Traced_example :
    (2 ≤ length captured.samples)
    × (length captured.samples ≤ 120)
    × ((identity : String) × (started : ℕ) × (completed : ℕ) × (captured.capture_started_at
          ≡ some started)
        × (captured.capture_completed_at ≡ some completed)
        × Traced bundles "7" identity completed
            (record { timeline_cursor = started; previous_acquired = none; identity = none })
            captured.samples)
normalize_book_sequence-Traced_example =
    normalize_book_sequence-Traced bundles captured end captured-normalized

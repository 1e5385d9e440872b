-- ===== src/Tests/Archives.antt =====
-- execution_truth/stream_segments.py and stream_resilience.py: a session of three rows in two segments,
-- and a silent stream.
use quantconnect.Prelude.{
  ℕ, ◌^◌, ◌≤◌, ◌≡◌, refl, arith, inl, inr, true, false, none, some, List, [], ◌∷◌, ok, is_some,
}
use quantconnect.Segments.{
  session_start, session_end, frame, Payload, Library, Limits, Log, Readings, Outcome, appended,
  failed,
}
use quantconnect.Segments.Writing.{
  init_log, append, append_to, rotate, write, seal, open_segment, sync_if_due, close, disk_of,
}
use quantconnect.Segments.Verify.{Audit, verify_segments}
use quantconnect.Segments.Session.{Step, row_step, sync_step, run_steps, verify_segments-close}
use quantconnect.Watchdog.{
  MarketEvent, book, other_type, new_watchdog, reason, retry_delay, seconds,
}
use quantconnect.Watchdog.Silence.{Message, observe_all, observe_all-reason, retry_delay-bounds}

abbrev archive_library : Library
archive_library = record {
  row_hash = λ row. "row";
  spec_hash = λ spec. "spec";
  segment_hash = λ segment. "segment";
  manifest_hash = λ manifest. "manifest";
  line_size = λ l. 10;
  file_size = λ chunks. 5;
  file_hash = λ chunks. "file";
  tell = λ chunks. 0;
}

abbrev limits : Limits
limits = record {
  max_uncompressed_bytes = 1000;
  max_compressed_bytes = 100000000;
  segment_uncompressed_bytes = 15;
}

abbrev header : Payload
header = record { body = "{}"; spec = "{}"; spec_sha256 = "spec" }

abbrev at : ℕ → Readings
at now = record {
  received_at_utc = "2024-01-01T00:00:00Z";
  stamped = now;
  tested = now;
  synced = now;
}

abbrev session : List Step
session =
    row_step session_start header (at 1)
    ∷ row_step frame header (at 2)
    ∷ sync_step (10 ^ 10) (10 ^ 10)
    ∷ row_step session_end header (at 3)
    ∷ []

abbrev log_of : Outcome → Log
log_of (appended log) = log
log_of (failed why) = init_log 0

abbrev written : Log
written = log_of (run_steps archive_library limits (init_log 0) session)

session-written : run_steps archive_library limits (init_log 0) session ≡ appended written
unfolding append append_to rotate write seal open_segment sync_if_due init_log
session-written = refl

verify_segments-close_example :
    (a : Audit) × (verify_segments archive_library (disk_of (close archive_library written)) ≡ ok a)
    × (a.scan.rows ≡ 3)
    × (a.scan.previous ≡ written.previous)
    × (a.scan.final ≡ written.final)
    × (a.uncompressed ≡ written.size)
verify_segments-close_example =
    verify_segments-close archive_library limits 0 session written (λ l. omega arith) (omega arith)
      (refl, refl, (refl, refl, (refl, refl, tt))) session-written

-- A book of another market, and a trade of the selected one.
abbrev other_events : List MarketEvent
other_events =
    record { selected = false; event_type = book; asset_ids = "x" ∷ []; stamp = none }
    ∷ record { selected = true; event_type = other_type; asset_ids = "up" ∷ []; stamp = none }
    ∷ []

-- A message that is no JSON, and one with those events.
abbrev quiet : List Message
quiet =
    record { events = none; now = 10000; receipt = 10000 }
    ∷ record { events = some other_events; now = 20000; receipt = 20000 }
    ∷ []

observe_all-reason_example :
    is_some (reason (observe_all (new_watchdog ("up" ∷ []) 0) quiet) 30000 true) ≡ true
observe_all-reason_example =
    observe_all-reason (new_watchdog ("up" ∷ []) 0) quiet 30000
      (tt, ((inl refl, (inr refl, tt)), tt)) (omega arith)

retry_delay-bounds_example :
    (seconds 1 ≤ retry_delay (λ low high. low) 3) × (retry_delay (λ low high. low) 3 ≤ seconds 8)
retry_delay-bounds_example =
    retry_delay-bounds (λ low high. low) 3 (omega arith)
      (λ low high ordered. (omega arith, ordered))

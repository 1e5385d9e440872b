-- ===== src/Segments/Writing.antt =====
-- execution_truth/stream_segments.py: `SegmentedStreamLog`, with its directory.
use quantconnect.Prelude.{
  ℕ, ◌+◌, ◌-◌, ◌^◌, ltb, leb, Bool, true, false, not, ◌&&◌, ◌||◌, Option, none, some, List, [], ◌∷◌,
  ◌++◌, length, if◌then◌else◌,
}
use quantconnect.Segments.{
  Chunk, Descriptor, Disk, Kind, Library, Limits, Line, Log, Manifest, Outcome, Payload, Readings,
  Row, Segment, appended, failed, flush, is_end, is_frame, last_hash, line, no_writer, quota,
  reserve,
}

-- `_open`
unfoldable pub open_segment : Log → Log
open_segment log = record log {
  index = length log.segments;
  writer = some [];
  segment_bytes = 0;
  segment_records = 0;
  first_ordinal = log.ordinal;
  first_previous = log.previous;
}

-- `__init__`, with the reading of the monotonic clock.
unfoldable pub init_log : ℕ → Log
init_log now = record {
  ordinal = 0;
  previous = none;
  size = 0;
  pending = 0;
  last_sync = now;
  segments = [];
  compressed_size = 0;
  final = false;
  writer = some [];
  index = 0;
  segment_bytes = 0;
  segment_records = 0;
  first_ordinal = 0;
  first_previous = none;
  files = [];
  manifest = none;
}

abbrev pub row_of : Log → Kind → Payload → Readings → Row
row_of log kind payload r = record {
  ordinal = log.ordinal;
  previous_sha256 = log.previous;
  received_at_utc = r.received_at_utc;
  local_monotonic = r.stamped;
  kind = kind;
  payload = payload;
}

abbrev pub is_due : Log → Kind → Readings → Bool
is_due log kind r =
    not (is_frame kind) || leb 64 (log.pending + 1) || leb (10 ^ 9) (r.tested - log.last_sync)

-- `sync_if_due`, with the readings that its test and the sync take.
abbrev pub flush_writer : Option (List Chunk) → Option (List Chunk)
flush_writer none = none
flush_writer (some chunks) = some (chunks ++ flush ∷ [])

unfoldable pub sync_if_due : Log → ℕ → ℕ → Log
sync_if_due log tested synced =
    if ltb 0 log.pending && leb (10 ^ 9) (tested - log.last_sync)
    then record log { writer = flush_writer log.writer; pending = 0; last_sync = synced }
    else log

abbrev pub manifest_of : Log → Manifest
manifest_of log = record {
  segments = length log.segments;
  records = log.ordinal;
  final_segment_sha256 = last_hash log.segments;
  final_record_sha256 = log.previous;
  session_end_present = log.final;
  compressed_bytes = log.compressed_size;
  uncompressed_bytes = log.size;
}

module _ (L : Library) where
  abbrev pub segment_of : Log → List Chunk → Segment
  segment_of log chunks = record {
    index = log.index;
    compressed_sha256 = L.file_hash chunks;
    compressed_bytes = L.file_size chunks;
    uncompressed_bytes = log.segment_bytes;
    records = log.segment_records;
    first_ordinal = log.first_ordinal;
    first_previous_sha256 = log.first_previous;
    last_record_sha256 = log.previous;
    previous_segment_sha256 = last_hash log.segments;
  }

  abbrev pub descriptor_of : Log → List Chunk → Descriptor
  descriptor_of log chunks = record {
    segment = segment_of log chunks;
    segment_sha256 = L.segment_hash (segment_of log chunks);
  }

  -- `_seal`, of a log whose writer has these chunks.
  unfoldable pub seal : Log → List Chunk → Log
  seal log chunks = record log {
    segments = log.segments ++ descriptor_of log chunks ∷ [];
    files = log.files ++ chunks ∷ [];
    compressed_size = log.compressed_size + L.file_size chunks;
    writer = none;
  }

  abbrev pub line_of : Row → Line
  line_of row = record { row = row; record_sha256 = L.row_hash row }

  -- The write of a line and the sync that may follow.
  unfoldable pub write : Log → List Chunk → Line → Readings → Log
  write log chunks l r =
      let due = is_due log l.row.kind r in
      record log {
        writer = some (if due then chunks ++ line l ∷ flush ∷ [] else chunks ++ line l ∷ []);
        pending = if due then 0 else log.pending + 1;
        last_sync = if due then r.synced else log.last_sync;
        size = log.size + L.line_size l;
        segment_bytes = log.segment_bytes + L.line_size l;
        segment_records = log.segment_records + 1;
        ordinal = log.ordinal + 1;
        previous = some l.record_sha256;
        final = is_end l.row.kind;
      }

  abbrev pub publish : Log → Log
  publish log = record log { manifest = some (manifest_of log, L.manifest_hash (manifest_of log)) }

  unfoldable pub close_writer : Log → Option (List Chunk) → Log
  unfolding seal
  close_writer log none = log
  close_writer log (some chunks) = publish (seal log chunks)

  unfoldable pub close : Log → Log
  unfolding close_writer
  close log = close_writer log log.writer

module _ (L : Library) (P : Limits) where
  -- `_seal` and `_open`, where the segment would grow too large.
  unfoldable pub rotate : Log → List Chunk → ℕ → Log × List Chunk
  unfolding seal open_segment
  rotate log chunks bytes =
      if ltb 0 log.segment_records && ltb P.segment_uncompressed_bytes (log.segment_bytes + bytes)
      then (open_segment (seal L log chunks), [])
      else (log, chunks)

  -- The test of the budget of compressed bytes, with room for a terminal summary.
  abbrev pub over_compressed : Log → List Chunk → Line → Bool
  over_compressed log chunks l =
      ltb P.max_compressed_bytes (log.compressed_size + L.tell chunks + L.line_size l + reserve)

  unfoldable pub append_to : Log → Option (List Chunk) → Line → Readings → Outcome
  unfolding rotate write
  append_to log none l r = failed no_writer
  append_to log (some chunks) l r =
      if not (is_end l.row.kind) && over_compressed log chunks l
      then failed quota
      else (let out = rotate log chunks (L.line_size l) in appended (write L out.0 out.1 l r))

  unfoldable pub append : Log → Kind → Payload → Readings → Outcome
  unfolding append_to
  append log kind payload r =
      let l = line_of L (row_of log kind payload r) in
      if ltb reserve (L.line_size l)
      then failed quota
      else if not (is_end kind) && ltb P.max_uncompressed_bytes (log.size + L.line_size l)
      then failed quota
      else append_to log log.writer l r

abbrev pub is_open : Option (List Chunk) → Bool
is_open none = false
is_open (some chunks) = true

-- The directory of a log.
abbrev pub disk_of : Log → Disk
disk_of log = record {
  descriptors = log.segments;
  files = log.files;
  partial = is_open log.writer;
  manifest = log.manifest;
}

-- ===== src/Segments.antt =====
-- execution_truth/stream_segments.py: the log that writes a stream in sealed segments. A sequence of
-- bytes written to a compressed file is its lines and flushes; the sizes and hashes of files, lines
-- and objects are the record `Library`. The monotonic clock is in nanoseconds. The profiler, the
-- schema names, which are constants, and the bytes of the files are left out.
pub mod Writing
pub mod Verify
pub mod RoundTrip
pub mod Archive
pub mod Session
use quantconnect.Prelude.{
  ℕ, zero, ◌+◌, ◌-◌, ◌*◌, ◌^◌, ltb, leb, ◌==◌, Bool, true, false, not, ◌&&◌, ◌||◌, Option, none,
  some, List, [], ◌∷◌, ◌++◌, length, String, if◌then◌else◌,
}

-- The kinds of a row that the log and the verifier tell apart.
pub data Kind : Type 0 where
  session_start session_end frame connection_gap : Kind
  other : String → Kind

abbrev pub is_start : Kind → Bool
is_start session_start = true
is_start _ = false

abbrev pub is_end : Kind → Bool
is_end session_end = true
is_end _ = false

abbrev pub is_frame : Kind → Bool
is_frame frame = true
is_frame _ = false

abbrev pub is_gap : Kind → Bool
is_gap connection_gap = true
is_gap _ = false

-- The payload's text; a header's has its specification, with its hash.
pub record Payload : Type 0 where
  pub body : String
  pub spec : String
  pub spec_sha256 : String

pub record Row : Type 0 where
  pub ordinal : ℕ
  pub previous_sha256 : Option String
  pub received_at_utc : String
  pub local_monotonic : ℕ
  pub kind : Kind
  pub payload : Payload

-- A row with its hash, as it is written.
pub record Line : Type 0 where
  pub row : Row
  pub record_sha256 : String

pub data Chunk : Type 0 where
  line : Line → Chunk
  flush : Chunk

abbrev pub lines_of : List Chunk → List Line
lines_of [] = []
lines_of (line l ∷ chunks) = l ∷ lines_of chunks
lines_of (flush ∷ chunks) = lines_of chunks

pub record Segment : Type 0 where
  pub index : ℕ
  pub compressed_sha256 : String
  pub compressed_bytes : ℕ
  pub uncompressed_bytes : ℕ
  pub records : ℕ
  pub first_ordinal : ℕ
  pub first_previous_sha256 : Option String
  pub last_record_sha256 : Option String
  pub previous_segment_sha256 : Option String

-- A segment's descriptor with its hash, as it is published.
pub record Descriptor : Type 0 where
  pub segment : Segment
  pub segment_sha256 : String

pub record Manifest : Type 0 where
  pub segments : ℕ
  pub records : ℕ
  pub final_segment_sha256 : Option String
  pub final_record_sha256 : Option String
  pub session_end_present : Bool
  pub compressed_bytes : ℕ
  pub uncompressed_bytes : ℕ

-- `payload_hash` of each kind of object, the length of an encoded line, and what the compressor makes
-- of a file: its size and hash once it is closed, and its size so far.
pub record Library : Type 0 where
  pub row_hash : Row → String
  pub spec_hash : String → String
  pub segment_hash : Segment → String
  pub manifest_hash : Manifest → String
  pub line_size : Line → ℕ
  pub file_size : List Chunk → ℕ
  pub file_hash : List Chunk → String
  pub tell : List Chunk → ℕ

pub record Limits : Type 0 where
  pub max_uncompressed_bytes : ℕ
  pub max_compressed_bytes : ℕ
  pub segment_uncompressed_bytes : ℕ

-- What the directory holds: the descriptors and the sealed files, in the order of their index, whether
-- a partial file is left, and the manifest with its hash.
pub record Disk : Type 0 where
  pub descriptors : List Descriptor
  pub files : List (List Chunk)
  pub partial : Bool
  pub manifest : Option (Manifest × String)

pub record Log : Type 0 where
  pub ordinal : ℕ
  pub previous : Option String
  pub size : ℕ
  pub pending : ℕ
  pub last_sync : ℕ
  pub segments : List Descriptor
  pub compressed_size : ℕ
  pub final : Bool
  pub writer : Option (List Chunk)
  pub index : ℕ
  pub segment_bytes : ℕ
  pub segment_records : ℕ
  pub first_ordinal : ℕ
  pub first_previous : Option String
  pub files : List (List Chunk)
  pub manifest : Option (Manifest × String)

pub data Failure : Type 0 where
  quota no_writer : Failure

pub data Outcome : Type 0 where
  appended : Log → Outcome
  failed : Failure → Outcome

-- The readings of the clocks in one `append`: the stamps of the row, the reading that the test of the
-- last sync takes, and that of a sync.
pub record Readings : Type 0 where
  pub received_at_utc : String
  pub stamped : ℕ
  pub tested : ℕ
  pub synced : ℕ

abbrev pub last_hash : List Descriptor → Option String
last_hash [] = none
last_hash (d ∷ []) = some d.segment_sha256
last_hash (d ∷ e ∷ ds) = last_hash (e ∷ ds)

abbrev pub reserve : ℕ
reserve = 4 * 1024 ^ 2

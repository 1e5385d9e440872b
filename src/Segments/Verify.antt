-- ===== src/Segments/Verify.antt =====
-- execution_truth/stream_segments.py: `verify_segments`, for the specifications of the first two
-- versions, whose rows have no check of their own but the chain's. The sizes and hashes of the files
-- are read again from what the directory holds.
use quantconnect.Prelude.{
  ℕ, ◌+◌, ◌*◌, ◌^◌, ltb, leb, ◌==◌, Bool, true, false, not, ◌&&◌, ◌||◌, Option, none, some, List,
  [], ◌∷◌, length, String, str_eq, if◌then◌else◌, Result, ok, err, contract_error, raise_if, ◌>>=◌,
  ◌>>◌,
}
use quantconnect.Segments.{
  is_start, is_end, is_gap, Payload, Line, Chunk, lines_of, Segment, Descriptor, Manifest, Library,
  Disk, reserve,
}

-- What the loop over the rows has found so far.
pub record Scan : Type 0 where
  pub previous : Option String
  pub rows : ℕ
  pub final : Bool
  pub spec : Option String
  pub terminal : Option Payload
  pub gaps : ℕ
  pub first_received : Option String
  pub last_received : Option String

-- The loop over the segments adds the last segment's hash and the bytes.
pub record Audit : Type 0 where
  pub scan : Scan
  pub previous_segment : Option String
  pub compressed : ℕ
  pub uncompressed : ℕ

abbrev pub same_text : Option String → Option String → Bool
same_text none none = true
same_text (some a) (some b) = str_eq a b
same_text _ _ = false

abbrev pub same_bool : Bool → Bool → Bool
same_bool true b = b
same_bool false b = not b

abbrev pub init_scan : Scan
init_scan = record {
  previous = none;
  rows = 0;
  final = false;
  spec = none;
  terminal = none;
  gaps = 0;
  first_received = none;
  last_received = none;
}

abbrev pub init_audit : Audit
init_audit = record { scan = init_scan; previous_segment = none; compressed = 0; uncompressed = 0 }

-- The state after a row that passed its checks.
abbrev pub scanned : Scan → Line → Scan
scanned s l = record {
  previous = some l.record_sha256;
  rows = s.rows + 1;
  final = is_end l.row.kind;
  spec = if s.rows == 0 then some l.row.payload.spec else s.spec;
  terminal = if is_end l.row.kind then some l.row.payload else s.terminal;
  gaps = if is_gap l.row.kind then s.gaps + 1 else s.gaps;
  first_received = if s.rows == 0 then some l.row.received_at_utc else s.first_received;
  last_received = some l.row.received_at_utc;
}

abbrev pub is_empty_list : List Descriptor → Bool
is_empty_list [] = true
is_empty_list _ = false

-- The rows and bytes read, and the hash of the last row, against the descriptor.
abbrev pub is_miscounted : Segment → List Line → Scan × ℕ → Bool
is_miscounted d rows out =
    not (length rows == d.records)
    || not (out.1 == d.uncompressed_bytes)
    || not (same_text out.0.previous d.last_record_sha256)

module _ (L : Library) where
  -- The chain, and the places of the header and of the last row.
  abbrev pub is_broken : Scan → Line → Bool
  is_broken s l =
      s.final
      || not (l.row.ordinal == s.rows)
      || not (same_text l.row.previous_sha256 s.previous)
      || (s.rows == 0 && not (is_start l.row.kind))

  abbrev pub bad_header : Scan → Line → Bool
  bad_header s l =
      if s.rows == 0
      then not (str_eq (L.spec_hash l.row.payload.spec) l.row.payload.spec_sha256)
      else is_start l.row.kind

  unfoldable pub verify_line : Scan → Line → Result Scan
  verify_line s l = do
    raise_if (not (str_eq (L.row_hash l.row) l.record_sha256)) contract_error
    raise_if (is_broken s l) contract_error
    raise_if (bad_header s l) contract_error
    ok (scanned s l)

  -- The rows of one segment, with the bytes that its descriptor allows and those read so far.
  unfoldable pub verify_lines : ℕ → ℕ → Scan → List Line → Result (Scan × ℕ)
  verify_lines budget read s [] = ok (s, read)
  verify_lines budget read s (l ∷ ls) = do
    raise_if (ltb reserve (L.line_size l) || ltb budget (read + L.line_size l)) contract_error
    s' ← verify_line s l
    verify_lines budget (read + L.line_size l) s' ls

  abbrev pub is_linked : ℕ → Audit → Segment → Bool
  is_linked index a d =
      d.index == index
      && same_text d.previous_segment_sha256 a.previous_segment
      && d.first_ordinal == a.scan.rows
      && same_text d.first_previous_sha256 a.scan.previous

  -- One descriptor and its file.
  unfoldable pub verify_segment : ℕ → Audit → Descriptor → List Chunk → Result Audit
  unfolding verify_lines
  verify_segment index a d chunks = do
    raise_if (not (str_eq (L.segment_hash d.segment) d.segment_sha256)) contract_error
    raise_if (not (is_linked index a d.segment)) contract_error
    raise_if
        (not (L.file_size chunks == d.segment.compressed_bytes)
          || not (str_eq (L.file_hash chunks) d.segment.compressed_sha256))
        contract_error
    raise_if
        (not
          (ltb 0 d.segment.uncompressed_bytes && leb d.segment.uncompressed_bytes (12 * 1024 ^ 2)))
        contract_error
    out ← verify_lines d.segment.uncompressed_bytes 0 a.scan (lines_of chunks)
    raise_if (is_miscounted d.segment (lines_of chunks) out) contract_error
    ok (record {
      scan = out.0;
      previous_segment = some d.segment_sha256;
      compressed = a.compressed + d.segment.compressed_bytes;
      uncompressed = a.uncompressed + out.1;
    })

  -- The descriptors in order. A descriptor with no file cannot be read, and a file with no descriptor
  -- is not listed.
  unfoldable pub verify_all : ℕ → Audit → List Descriptor → List (List Chunk) → Result Audit
  verify_all index a [] [] = ok a
  verify_all index a [] (chunks ∷ files) = err contract_error
  verify_all index a (d ∷ ds) [] = err contract_error
  verify_all index a (d ∷ ds) (chunks ∷ files) = do
    a' ← verify_segment index a d chunks
    verify_all (index + 1) a' ds files

  abbrev pub same_manifest : Manifest → Manifest → Bool
  same_manifest m n =
      m.segments == n.segments
      && m.records == n.records
      && same_text m.final_segment_sha256 n.final_segment_sha256
      && same_text m.final_record_sha256 n.final_record_sha256
      && same_bool m.session_end_present n.session_end_present
      && m.compressed_bytes == n.compressed_bytes
      && m.uncompressed_bytes == n.uncompressed_bytes

  abbrev pub expected_manifest : ℕ → Audit → Manifest
  expected_manifest segments a = record {
    segments = segments;
    records = a.scan.rows;
    final_segment_sha256 = a.previous_segment;
    final_record_sha256 = a.scan.previous;
    session_end_present = a.scan.final;
    compressed_bytes = a.compressed;
    uncompressed_bytes = a.uncompressed;
  }

  unfoldable pub verify_manifest : ℕ → Audit → Bool → Option (Manifest × String) → Result Audit
  verify_manifest segments a partial none = ok a
  verify_manifest segments a partial (some (m, sha)) = do
    raise_if (not (str_eq (L.manifest_hash m) sha)) contract_error
    raise_if (not (same_manifest m (expected_manifest segments a)) || partial) contract_error
    ok a

  -- The directory: what the result says of it is in the audit.
  unfoldable pub verify_segments : Disk → Result Audit
  unfolding verify_all verify_manifest
  verify_segments disk = do
    raise_if (is_empty_list disk.descriptors) contract_error
    a ← verify_all 0 init_audit disk.descriptors disk.files
    verify_manifest (length disk.descriptors) a disk.partial disk.manifest

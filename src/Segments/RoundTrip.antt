-- ===== src/Segments/RoundTrip.antt =====
-- execution_truth/stream_segments.py: what the log has written, the verifier accepts.
use quantconnect.Prelude.{
  ℕ, suc, ◌+◌, ◌*◌, ◌^◌, ◌≤◌, ◌<◌, ◌≡◌, refl, sym, ap, ◌∙◌, ltb, leb, ◌==◌, Bool, true, false, not,
  ◌&&◌, ◌||◌, Option, none, some, List, [], ◌∷◌, ◌++◌, length, length-append, String, str_eq,
  str_eq_refl, arith, if◌then◌else◌, Bool-cases, inl, inr, ok, contract_error, raise_no, >>=-eq-ok,
  ok-injective,
}
use quantconnect.Segments.{
  is_start, Line, Chunk, line, flush, lines_of, Descriptor, Library, Log, Readings, reserve,
  last_hash,
}
use quantconnect.Segments.Writing.{descriptor_of, segment_of, seal, open_segment, write, is_due}
use quantconnect.Segments.Verify.{
  Scan, Audit, same_text, init_audit, scanned, is_broken, bad_header, verify_line, verify_lines,
  is_linked, verify_segment, verify_all,
}

pub same_text_refl : (t : Option String) → same_text t t ≡ true
same_text_refl none = refl
same_text_refl (some s) = str_eq_refl s

pub lines_of-append : (xs ys : List Chunk) → lines_of (xs ++ ys) ≡ lines_of xs ++ lines_of ys
lines_of-append [] ys = refl
lines_of-append (line l ∷ xs) ys = rw (lines_of-append xs ys)
lines_of-append (flush ∷ xs) ys = lines_of-append xs ys

add_zero : (n : ℕ) → n + 0 ≡ n
add_zero n = omega arith

zero_add : (n : ℕ) → 0 + n ≡ n
zero_add n = omega arith

shift : (n k : ℕ) → n + 1 + k ≡ n + suc k
shift n k = omega arith

module _ (L : Library) where
  -- A line that passes its checks.
  pub record Follows (s : Scan) (l : Line) : Type 0 where
    pub small : L.line_size l ≤ reserve
    pub hashed : L.row_hash l.row ≡ l.record_sha256
    pub open_ended : s.final ≡ false
    pub ordinal : l.row.ordinal ≡ s.rows
    pub linked : l.row.previous_sha256 ≡ s.previous
    pub starts : (s.rows == 0 && not (is_start l.row.kind)) ≡ false
    pub header : bad_header L s l ≡ false

  verify_line-Follows : (s : Scan) (l : Line) → Follows s l → verify_line L s l ≡ ok (scanned s l)
  unfolding verify_line
  verify_line-Follows s l h =
      let hash : not (str_eq (L.row_hash l.row) l.record_sha256) ≡ false =
        rw h.hashed (ap not (str_eq_refl l.record_sha256)) in
      let chain : same_text l.row.previous_sha256 s.previous ≡ true =
        rw h.linked (same_text_refl s.previous) in
      raise_no _ contract_error _ hash
      ∙ raise_no (is_broken L s l) contract_error _
          (ground (arith, chain, h.open_ended, h.ordinal, h.starts))
      ∙ raise_no (bad_header L s l) contract_error _ h.header

  verify_lines-append_one :
      (budget read : ℕ) (s : Scan) (ls : List Line) (l : Line) (s' : Scan) (read' : ℕ)
      → verify_lines L budget read s ls ≡ ok (s', read')
      → verify_lines L budget read s (ls ++ l ∷ []) ≡ verify_lines L budget read' s' (l ∷ [])
  unfolding verify_lines
  verify_lines-append_one budget read s [] l s' read' h =
      let same = ok-injective h in
      rw (ap (λ (p : Scan × ℕ). p.0) same, ap (λ (p : Scan × ℕ). p.1) same)
  verify_lines-append_one budget read s (m ∷ ls) l s' read' h =
      elim (Bool-cases (ltb reserve (L.line_size m) || ltb budget (read + L.line_size m))) [
        | inl large ↦ absurd (let no = rw large at h in cc)
        | inr fits ↦
            let rest = >>=-eq-ok (verify_line L s m) _ (rw fits at h) in
            rw (fits, rest.1)
              (verify_lines-append_one budget (read + L.line_size m) rest.0 ls l s' read' rest.2)
      ]

  pub verify_all-append_one :
      (index : ℕ) (a : Audit) (ds : List Descriptor) (files : List (List Chunk)) (d : Descriptor)
      (chunks : List Chunk) (a' a'' : Audit)
      → verify_all L index a ds files ≡ ok a'
      → verify_segment L (index + length ds) a' d chunks ≡ ok a''
      → verify_all L index a (ds ++ d ∷ []) (files ++ chunks ∷ []) ≡ ok a''
  unfolding verify_all
  verify_all-append_one index a [] [] d chunks a' a'' h k =
      let same : a ≡ a' = ok-injective h in
      let here : verify_segment L index a d chunks ≡ ok a'' = rw (same, ← add_zero index) k in
      rw here
  verify_all-append_one index a [] (f ∷ files) d chunks a' a'' h k = cc
  verify_all-append_one index a (e ∷ ds) [] d chunks a' a'' h k = cc
  verify_all-append_one index a (e ∷ ds) (f ∷ files) d chunks a' a'' h k =
      let rest = >>=-eq-ok (verify_segment L index a e f) _ h in
      rw rest.1 (
        verify_all-append_one (index + 1) rest.0 ds files d chunks a' a'' rest.2
          (rw (shift index (length ds)) k))

pub last_hash-append_one :
    (ds : List Descriptor) (d : Descriptor) → last_hash (ds ++ d ∷ []) ≡ some d.segment_sha256
last_hash-append_one [] d = refl
last_hash-append_one (e ∷ []) d = refl
last_hash-append_one (e ∷ f ∷ ds) d = last_hash-append_one (f ∷ ds) d

-- An open log and what the verifier makes of it: the sealed segments give the audit `a`, and the
-- lines of the open one give the scan `s`, under every budget of bytes that they fit.
pub record IsRecorded (L : Library) (log : Log) (chunks : List Chunk) (a : Audit) (s : Scan)
    : Type 0 where
  pub writer : log.writer ≡ some chunks
  pub sealed : verify_all L 0 init_audit log.segments log.files ≡ ok a
  pub index : log.index ≡ length log.segments
  pub first_rows : a.scan.rows ≡ log.first_ordinal
  pub first_previous : a.scan.previous ≡ log.first_previous
  pub last_segment : a.previous_segment ≡ last_hash log.segments
  pub compressed : a.compressed ≡ log.compressed_size
  pub bytes : a.uncompressed + log.segment_bytes ≡ log.size
  pub read :
      (budget : ℕ)
      → log.segment_bytes ≤ budget
      → verify_lines L budget 0 a.scan (lines_of chunks) ≡ ok (s, log.segment_bytes)
  pub records : length (lines_of chunks) ≡ log.segment_records
  pub bounded : log.segment_bytes ≤ 12 * 1024 ^ 2
  pub filled : 0 < log.segment_records → 0 < log.segment_bytes
  pub empty : log.segment_records ≡ 0 → log.segment_bytes ≡ 0
  pub rows : s.rows ≡ log.ordinal
  pub previous : s.previous ≡ log.previous
  pub final : s.final ≡ log.final

module _ (L : Library) where
  abbrev pub sealed_audit : Log → List Chunk → Audit → Scan → Audit
  sealed_audit log chunks a s = record {
    scan = s;
    previous_segment = some (L.segment_hash (segment_of L log chunks));
    compressed = a.compressed + L.file_size chunks;
    uncompressed = a.uncompressed + log.segment_bytes;
  }

  -- A segment with a row in it passes, and leads to the audit after it.
  pub seal_verifies :
      (log : Log) (chunks : List Chunk) (a : Audit) (s : Scan)
      → IsRecorded L log chunks a s
      → 0 < log.segment_records
      → verify_segment L (length log.segments) a (descriptor_of L log chunks) chunks
        ≡ ok (sealed_audit log chunks a s)
  unfolding verify_segment
  seal_verifies log chunks a s h some_rows =
      let hash = str_eq_refl (L.segment_hash (segment_of L log chunks)) in
      let file = str_eq_refl (L.file_hash chunks) in
      let link : same_text (last_hash log.segments) a.previous_segment ≡ true =
        rw h.last_segment (same_text_refl (last_hash log.segments)) in
      let chain : same_text log.first_previous a.scan.previous ≡ true =
        rw h.first_previous (same_text_refl log.first_previous) in
      let last : same_text s.previous log.previous ≡ true =
        rw h.previous (same_text_refl log.previous) in
      let d = segment_of L log chunks in
      raise_no (not (str_eq (L.segment_hash d) (L.segment_hash d))) contract_error _ (ap not hash)
      ∙ raise_no (not (is_linked L (length log.segments) a d)) contract_error _
          (ground (arith, link, chain, h.index, h.first_rows))
      ∙ raise_no
          (not (L.file_size chunks == L.file_size chunks)
            || not (str_eq (L.file_hash chunks) (L.file_hash chunks)))
          contract_error _ (ground (arith, file))
      ∙ raise_no (not (ltb 0 log.segment_bytes && leb log.segment_bytes (12 * 1024 ^ 2)))
          contract_error _ (ground (arith, h.filled some_rows, h.bounded))
      ∙ rw (h.read log.segment_bytes (ground arith)) (
          raise_no
            (not (length (lines_of chunks) == log.segment_records)
              || not (log.segment_bytes == log.segment_bytes)
              || not (same_text s.previous log.previous))
            contract_error _ (ground (arith, last, h.records)))

  pub verify_lines_one :
      (budget read : ℕ) (s : Scan) (l : Line)
      → Follows L s l
      → read + L.line_size l ≤ budget
      → verify_lines L budget read s (l ∷ []) ≡ ok (scanned s l, read + L.line_size l)
  unfolding verify_lines
  verify_lines_one budget read s l h fits =
      raise_no (ltb reserve (L.line_size l) || ltb budget (read + L.line_size l)) contract_error _
        (ground (arith, h.small))
      ∙ rw (verify_line-Follows L s l h)

  lines_of-written :
      (due : Bool) (chunks : List Chunk) (l : Line)
      → lines_of (if due then chunks ++ line l ∷ flush ∷ [] else chunks ++ line l ∷ [])
        ≡ lines_of chunks ++ l ∷ []
  lines_of-written true chunks l = lines_of-append chunks (line l ∷ flush ∷ [])
  lines_of-written false chunks l = lines_of-append chunks (line l ∷ [])

  -- A line written to the open segment.
  pub write-IsRecorded :
      (log : Log) (chunks : List Chunk) (a : Audit) (s : Scan) (l : Line) (r : Readings)
      → IsRecorded L log chunks a s
      → Follows L s l
      → 0 < L.line_size l
      → log.segment_bytes + L.line_size l ≤ 12 * 1024 ^ 2
      → (chunks' : List Chunk) × IsRecorded L (write L log chunks l r) chunks' a (scanned s l)
  unfolding write
  write-IsRecorded log chunks a s l r h follows positive room =
      let due = is_due log l.row.kind r in
      let chunks' = if due then chunks ++ line l ∷ flush ∷ [] else chunks ++ line l ∷ [] in
      let lines = lines_of-written due chunks l in
      (
        chunks',
        record {
          writer = refl;
          sealed = h.sealed;
          index = h.index;
          first_rows = h.first_rows;
          first_previous = h.first_previous;
          last_segment = h.last_segment;
          compressed = h.compressed;
          bytes = omega (arith, h.bytes);
          read = λ budget fits. rw lines (
              verify_lines-append_one L budget 0 a.scan (lines_of chunks) l s log.segment_bytes
                (h.read budget (omega arith))
              ∙ verify_lines_one budget log.segment_bytes s l follows fits);
          records =
              ap length lines ∙ length-append (lines_of chunks) (l ∷ []) ∙ omega (arith, h.records);
          bounded = room;
          filled = λ some_rows. omega arith;
          empty = λ none_written. absurd (omega arith);
          rows = omega (arith, h.rows);
          previous = refl;
          final = refl;
        },
      )

  -- A new segment after a sealed one.
  pub open-IsRecorded :
      (log : Log) (chunks : List Chunk) (a : Audit) (s : Scan)
      → IsRecorded L log chunks a s
      → 0 < log.segment_records
      → IsRecorded L (open_segment (seal L log chunks)) [] (sealed_audit log chunks a s) s
  unfolding open_segment seal verify_lines
  open-IsRecorded log chunks a s h some_rows =
      let d = descriptor_of L log chunks in
      record {
        writer = refl;
        sealed =
            verify_all-append_one L 0 init_audit log.segments log.files d chunks a
              (sealed_audit log chunks a s) h.sealed
              (rw (zero_add (length log.segments)) (seal_verifies log chunks a s h some_rows));
        index = refl;
        first_rows = h.rows;
        first_previous = h.previous;
        last_segment = sym (last_hash-append_one log.segments d);
        compressed = omega (arith, h.compressed);
        bytes = omega (arith, h.bytes);
        read = λ budget fits. refl;
        records = refl;
        bounded = omega arith;
        filled = λ some_rows. omega arith;
        empty = λ none_written. refl;
        rows = h.rows;
        previous = h.previous;
        final = h.final;
      }

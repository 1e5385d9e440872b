-- ===== src/Segments/Archive.antt =====
-- execution_truth/stream_segments.py: what an append and a sync leave, the verifier reads.
use quantconnect.Prelude.{
  ℕ, ◌+◌, ◌-◌, ◌*◌, ◌^◌, ◌≤◌, ◌<◌, ◌≡◌, ◌≢◌, refl, sym, ap, ◌∙◌, subst, ltb, leb, ◌==◌, true, false,
  not, ◌&&◌, some, List, [], ◌∷◌, ◌++◌, str_eq, str_eq_refl, arith, if◌then◌else◌, Bool-cases, inl,
  inr,
}
use quantconnect.Segments.{
  Kind, is_start, is_end, Payload, Line, Chunk, line, flush, lines_of, Library, Limits, Log,
  Readings, reserve, appended,
}
use quantconnect.Segments.Writing.{
  rotate, write, line_of, row_of, append_to, append, sync_if_due, flush_writer, over_compressed,
}
use quantconnect.Segments.Verify.{Scan, Audit, scanned}
use quantconnect.Segments.RoundTrip.{
  Follows, IsRecorded, sealed_audit, write-IsRecorded, open-IsRecorded,
}

-- A log with what the verifier makes of it.
pub record Recorded (L : Library) (log : Log) (s : Scan) : Type 0 where
  pub chunks : List Chunk
  pub audit : Audit
  pub holds : IsRecorded L log chunks audit s
  pub started : log.ordinal ≢ 0 → 0 < log.segment_records

pub appended-injective : {a b : Log} → appended a ≡ appended b → a ≡ b
appended-injective h = cc

lines_of-flush : (chunks : List Chunk) → lines_of (chunks ++ flush ∷ []) ≡ lines_of chunks
lines_of-flush [] = refl
lines_of-flush (line l ∷ chunks) = ap (λ ls. l ∷ ls) (lines_of-flush chunks)
lines_of-flush (flush ∷ chunks) = lines_of-flush chunks

records-write :
    (L : Library) (log : Log) (chunks : List Chunk) (l : Line) (r : Readings)
    → 0 < (write L log chunks l r).segment_records
unfolding write
records-write L log chunks l r = omega arith

module _ (L : Library) (P : Limits) where
  -- Room for one more line in the open segment, which may be a new one.
  rotate-IsRecorded :
      (log : Log) (chunks : List Chunk) (a : Audit) (s : Scan) (bytes : ℕ)
      → IsRecorded L log chunks a s
      → bytes ≤ reserve
      → P.segment_uncompressed_bytes ≤ 12 * 1024 ^ 2
      → (a' : Audit) × IsRecorded L
          (rotate L P log chunks bytes).0
          (rotate L P log chunks bytes).1
          a'
          s
        × ((rotate L P log chunks bytes).0.segment_bytes + bytes ≤ 12 * 1024 ^ 2)
  unfolding rotate
  rotate-IsRecorded log chunks a s bytes h small limit =
      elim (Bool-cases (
        ltb 0 log.segment_records
        && ltb P.segment_uncompressed_bytes (log.segment_bytes + bytes))) [
          | inl full ↦ rw full (
            sealed_audit L log chunks a s,
            open-IsRecorded L log chunks a s h (ground arith),
            omega arith,
          )
          | inr fits ↦ rw fits (a, h, ground (arith, h.empty))
        ]

  append_to-Recorded :
      (log : Log) (s : Scan) (l : Line) (r : Readings) (log' : Log)
      → Recorded L log s
      → Follows L s l
      → 0 < L.line_size l
      → P.segment_uncompressed_bytes ≤ 12 * 1024 ^ 2
      → append_to L P log log.writer l r ≡ appended log'
      → Recorded L log' (scanned s l)
  unfolding append_to
  append_to-Recorded log s l r log' h follows positive limit done =
      let open_log = h.holds.writer in
      let ran : append_to L P log (some h.chunks) l r ≡ appended log' =
        subst (λ w. append_to L P log w l r ≡ appended log') open_log done in
      let turned =
        rotate-IsRecorded log h.chunks h.audit s (L.line_size l) h.holds follows.small limit in
      elim (Bool-cases (not (is_end l.row.kind) && over_compressed L P log h.chunks l)) [
        | inl over ↦ absurd (let no = rw over at ran in cc)
        | inr under ↦
            let out = rotate L P log h.chunks (L.line_size l) in
            let written =
              write-IsRecorded L out.0 out.1 turned.0 s l r turned.1 follows positive turned.2 in
            let same : write L out.0 out.1 l r ≡ log' = appended-injective (rw under at ran) in
            rw (← same) (record {
              chunks = written.0;
              audit = turned.0;
              holds = written.1;
              started = λ some_rows. records-write L out.0 out.1 l r;
            })
      ]

  -- What a row must be to follow the log's rows: nothing follows the last one, the first one is a
  -- header with the hash of its specification, and no other row is a header.
  pub record Fits (log : Log) (kind : Kind) (payload : Payload) : Type 0 where
    pub going : log.final ≡ false
    pub first :
        log.ordinal ≡ 0 → (is_start kind ≡ true) × (L.spec_hash payload.spec ≡ payload.spec_sha256)
    pub later : log.ordinal ≢ 0 → is_start kind ≡ false

  header_checks :
      (rows : ℕ) (kind : Kind) (payload : Payload)
      → (rows ≡ 0 → (is_start kind ≡ true) × (L.spec_hash payload.spec ≡ payload.spec_sha256))
      → (rows ≢ 0 → is_start kind ≡ false)
      → ((rows == 0 && not (is_start kind)) ≡ false)
        × ((if rows == 0
              then not (str_eq (L.spec_hash payload.spec) payload.spec_sha256)
              else is_start kind)
            ≡ false)
  header_checks rows kind payload first later = elim (Bool-cases (rows == 0)) [
    | inl zero_rows ↦
        let start = first (ground arith) in
        rw (zero_rows, start.0, start.1) (refl, ap not (str_eq_refl payload.spec_sha256))
    | inr more ↦ rw more (refl, later (ground arith))
  ]

  pub append-Recorded :
      (log : Log) (s : Scan) (kind : Kind) (payload : Payload) (r : Readings) (log' : Log)
      → Recorded L log s
      → Fits log kind payload
      → ((l : Line) → 0 < L.line_size l)
      → P.segment_uncompressed_bytes ≤ 12 * 1024 ^ 2
      → append L P log kind payload r ≡ appended log'
      → Recorded L log' (scanned s (line_of L (row_of log kind payload r)))
  unfolding append
  append-Recorded log s kind payload r log' h fits positive limit done =
      let l = line_of L (row_of log kind payload r) in
      let rows = h.holds.rows in
      let checks =
        header_checks s.rows kind payload (λ e. fits.first (sym rows ∙ e))
          (λ e. fits.later (λ z. e (rows ∙ z))) in
      elim (Bool-cases (ltb reserve (L.line_size l))) [
        | inl large ↦ absurd (let no = rw large at done in cc)
        | inr small ↦
            elim (Bool-cases
              (not (is_end kind) && ltb P.max_uncompressed_bytes (log.size + L.line_size l))) [
                | inl over ↦ absurd (let no = rw (small, over) at done in cc)
                | inr under ↦
                    append_to-Recorded log s l r log' h
                      (record {
                        small = ground arith;
                        hashed = refl;
                        open_ended = h.holds.final ∙ fits.going;
                        ordinal = sym rows;
                        linked = sym h.holds.previous;
                        starts = checks.0;
                        header = checks.1;
                      })
                      (positive l) limit (rw (small, under) at done)
              ]
      ]

  flushed-Recorded :
      (log : Log) (s : Scan) (synced : ℕ)
      → Recorded L log s
      → Recorded L
          (record log { writer = flush_writer log.writer; pending = 0; last_sync = synced })
          s
  flushed-Recorded log s synced h =
      let lines = lines_of-flush h.chunks in
      record {
        chunks = h.chunks ++ flush ∷ [];
        audit = h.audit;
        holds = record {
          writer = ap flush_writer h.holds.writer;
          sealed = h.holds.sealed;
          index = h.holds.index;
          first_rows = h.holds.first_rows;
          first_previous = h.holds.first_previous;
          last_segment = h.holds.last_segment;
          compressed = h.holds.compressed;
          bytes = h.holds.bytes;
          read = λ budget room. rw lines (h.holds.read budget room);
          records = rw lines h.holds.records;
          bounded = h.holds.bounded;
          filled = h.holds.filled;
          empty = h.holds.empty;
          rows = h.holds.rows;
          previous = h.holds.previous;
          final = h.holds.final;
        };
        started = h.started;
      }

  pub sync-Recorded :
      (log : Log) (s : Scan) (tested synced : ℕ)
      → Recorded L log s
      → Recorded L (sync_if_due log tested synced) s
  unfolding sync_if_due
  sync-Recorded log s tested synced h =
      elim (Bool-cases (ltb 0 log.pending && leb (10 ^ 9) (tested - log.last_sync))) [
        | inl due ↦ rw due (flushed-Recorded log s synced h)
        | inr early ↦ rw early h
      ]

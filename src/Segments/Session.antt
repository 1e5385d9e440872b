-- ===== src/Segments/Session.antt =====
-- execution_truth/stream_segments.py: a whole session, written and closed, and then verified.
use quantconnect.Prelude.{
  ℕ, suc, ◌+◌, ◌*◌, ◌^◌, ◌≤◌, ◌<◌, ◌≡◌, ◌≢◌, refl, sym, ap, ◌∙◌, subst, Bool, true, false, not,
  ◌||◌, some, List, [], ◌∷◌, ◌++◌, length, str_eq, str_eq_refl, arith, ok, contract_error, raise_no,
}
use quantconnect.Segments.{
  Kind, is_start, is_end, Payload, Line, Chunk, Descriptor, Manifest, Library, Limits, Log,
  Readings, last_hash, appended, failed, Outcome,
}
use quantconnect.Segments.Writing.{
  descriptor_of, seal, line_of, row_of, append, init_log, close, close_writer, manifest_of, disk_of,
  sync_if_due,
}
use quantconnect.Segments.Verify.{
  Scan, Audit, same_text, same_bool, init_scan, init_audit, scanned, verify_lines, verify_segment,
  verify_all, same_manifest, expected_manifest, verify_manifest, verify_segments, is_empty_list,
}
use quantconnect.Segments.RoundTrip.{
  IsRecorded, sealed_audit, seal_verifies, same_text_refl, last_hash-append_one,
  verify_all-append_one,
}
use quantconnect.Segments.Archive.{
  Recorded, Fits, append-Recorded, sync-Recorded, appended-injective,
}

-- What the collector does with a log: it appends rows, and between them it syncs when that is due.
pub data Step : Type 0 where
  row_step : Kind → Payload → Readings → Step
  sync_step : ℕ → ℕ → Step

abbrev pub and_then : Outcome → (Log → Outcome) → Outcome
and_then (appended log) next = next log
and_then (failed why) next = failed why

module _ (L : Library) (P : Limits) where
  abbrev pub run_step : Log → Step → Outcome
  run_step log (row_step kind payload r) = append L P log kind payload r
  run_step log (sync_step tested synced) = appended (sync_if_due log tested synced)

  abbrev pub run_steps : Log → List Step → Outcome
  run_steps log [] = appended log
  run_steps log (step ∷ steps) = and_then (run_step log step) (λ log'. run_steps log' steps)

-- The rows after the header: no other header, and nothing after the last row.
abbrev pub IsBody : Bool → List Step → Type 0
IsBody final [] = Unit
IsBody final (sync_step tested synced ∷ steps) = IsBody final steps
IsBody final (row_step kind payload r ∷ steps) =
    (final ≡ false) × (is_start kind ≡ false) × IsBody (is_end kind) steps

-- A session: a header with the hash of its specification, and a body.
abbrev pub IsSession : Library → List Step → Type 0
IsSession L [] = ⊥
IsSession L (sync_step tested synced ∷ steps) = ⊥
IsSession L (row_step kind payload r ∷ steps) =
    (is_start kind ≡ true)
    × (L.spec_hash payload.spec ≡ payload.spec_sha256)
    × IsBody (is_end kind) steps

abbrev pub count_rows : List Step → ℕ
count_rows [] = 0
count_rows (sync_step tested synced ∷ steps) = count_rows steps
count_rows (row_step kind payload r ∷ steps) = suc (count_rows steps)

zero_plus : (n : ℕ) → 0 + n ≡ n
zero_plus n = omega arith

and_then-appended :
    (o : Outcome) (next : Log → Outcome) (log' : Log)
    → and_then o next ≡ appended log'
    → (log : Log) × (o ≡ appended log) × (next log ≡ appended log')
and_then-appended (appended log) next log' h = (log, refl, h)
and_then-appended (failed why) next log' h = absurd (let no = h in cc)

is_empty_list-append_one :
    (ds : List Descriptor) (d : Descriptor) → is_empty_list (ds ++ d ∷ []) ≡ false
is_empty_list-append_one [] d = refl
is_empty_list-append_one (e ∷ ds) d = refl

same_bool_refl : (b : Bool) → same_bool b b ≡ true
same_bool_refl true = refl
same_bool_refl false = refl

module _ (L : Library) where
  verify_manifest_passes :
      (segments : ℕ) (a : Audit) (m : Manifest)
      → same_manifest L m (expected_manifest L segments a) ≡ true
      → verify_manifest L segments a false (some (m, L.manifest_hash m)) ≡ ok a
  unfolding verify_manifest
  verify_manifest_passes segments a m h =
      let same = str_eq_refl (L.manifest_hash m) in
      raise_no (not (str_eq (L.manifest_hash m) (L.manifest_hash m))) contract_error _ (ap not same)
      ∙ raise_no (not (same_manifest L m (expected_manifest L segments a)) || false) contract_error
          _ (ground (arith, h))

  close_writer_verifies :
      (log : Log) (chunks : List Chunk) (a : Audit) (s : Scan)
      → IsRecorded L log chunks a s
      → 0 < log.segment_records
      → verify_segments L (disk_of (close_writer L log (some chunks)))
        ≡ ok (sealed_audit L log chunks a s)
  unfolding close_writer seal verify_segments
  close_writer_verifies log chunks a s h some_rows =
      let d = descriptor_of L log chunks in
      let last = last_hash-append_one log.segments d in
      let all =
        verify_all-append_one L 0 init_audit log.segments log.files d chunks a
          (sealed_audit L log chunks a s) h.sealed
          (subst (λ n. verify_segment L n a d chunks ≡ ok (sealed_audit L log chunks a s))
            (sym (zero_plus (length log.segments))) (seal_verifies L log chunks a s h some_rows)) in
      let whole : same_text (last_hash (log.segments ++ d ∷ [])) (some d.segment_sha256) ≡ true =
        rw last (str_eq_refl d.segment_sha256) in
      let row : same_text log.previous s.previous ≡ true =
        rw h.previous (same_text_refl log.previous) in
      let ending : same_bool log.final s.final ≡ true = rw h.final (same_bool_refl log.final) in
      raise_no (is_empty_list (log.segments ++ d ∷ [])) contract_error _
        (is_empty_list-append_one log.segments d)
      ∙ rw all (
          verify_manifest_passes (length (log.segments ++ d ∷ [])) (sealed_audit L log chunks a s)
            (manifest_of (seal L log chunks))
            (ground (arith, whole, row, ending, h.rows, h.compressed, h.bytes)))

module _ (L : Library) (P : Limits) where
  -- The log after the steps, with the scan that the verifier makes of it.
  record Ran (log : Log) (s : Scan) (rows : ℕ) : Type 0 where
    pub scan : Scan
    pub recorded : Recorded L log scan
    pub counted : scan.rows ≡ s.rows + rows

  run_steps-Recorded :
      (log : Log) (s : Scan) (steps : List Step) (log' : Log)
      → Recorded L log s
      → log.ordinal ≢ 0
      → ((l : Line) → 0 < L.line_size l)
      → P.segment_uncompressed_bytes ≤ 12 * 1024 ^ 2
      → IsBody log.final steps
      → run_steps L P log steps ≡ appended log'
      → Ran log' s (count_rows steps)
  run_steps-Recorded log s [] log' h begun positive limit body done =
      rw (← appended-injective done) (record { scan = s; recorded = h; counted = omega arith })
  run_steps-Recorded log s (sync_step tested synced ∷ steps) log' h begun positive limit body done =
      let next = sync-Recorded L P log s tested synced h in
      let same_final = sym h.holds.final ∙ next.holds.final in
      run_steps-Recorded (sync_if_due log tested synced) s steps log' next
        (λ e. begun (sym h.holds.rows ∙ next.holds.rows ∙ e)) positive limit
        (subst (λ b. IsBody b steps) same_final body) done
  run_steps-Recorded log s (row_step kind payload r ∷ steps) log' h begun positive limit body done =
      let out = and_then-appended (append L P log kind payload r) _ log' done in
      let fits : Fits L P log kind payload = record {
        going = body.0;
        first = λ e. absurd (begun e);
        later = λ e. body.1;
      } in
      let l = line_of L (row_of log kind payload r) in
      let next = append-Recorded L P log s kind payload r out.0 h fits positive limit out.1 in
      let rest =
        run_steps-Recorded out.0 (scanned s l) steps log' next
          (λ e. absurd (let more = next.holds.rows in omega (arith, e, more))) positive limit
          (subst (λ b. IsBody b steps) next.holds.final body.2) out.2 in
      record { scan = rest.scan; recorded = rest.recorded; counted = omega (arith, rest.counted) }

init-Recorded : (L : Library) (now : ℕ) → Recorded L (init_log now) init_scan
unfolding init_log verify_all verify_lines
init-Recorded L now = record {
  chunks = [];
  audit = init_audit;
  holds = record {
    writer = refl;
    sealed = refl;
    index = refl;
    first_rows = refl;
    first_previous = refl;
    last_segment = refl;
    compressed = refl;
    bytes = refl;
    read = λ budget fits. refl;
    records = refl;
    bounded = omega arith;
    filled = λ some_rows. some_rows;
    empty = λ none_written. refl;
    rows = refl;
    previous = refl;
    final = refl;
  };
  started = λ begun. absurd (begun refl);
}

module _ (L : Library) (P : Limits) where
  session_recorded :
      (now : ℕ) (steps : List Step) (log : Log)
      → ((l : Line) → 0 < L.line_size l)
      → P.segment_uncompressed_bytes ≤ 12 * 1024 ^ 2
      → IsSession L steps
      → run_steps L P (init_log now) steps ≡ appended log
      → (rows : Ran L P log init_scan (count_rows steps)) × (log.ordinal ≢ 0)
  unfolding init_log
  session_recorded now [] log positive limit session done = absurd session
  session_recorded now (sync_step tested synced ∷ steps) log positive limit session done =
      absurd session
  session_recorded now (row_step kind payload r ∷ steps) log positive limit session done =
      let out = and_then-appended (append L P (init_log now) kind payload r) _ log done in
      let fits : Fits L P (init_log now) kind payload = record {
        going = refl;
        first = λ e. (session.0, session.1);
        later = λ e. absurd (e refl);
      } in
      let l = line_of L (row_of (init_log now) kind payload r) in
      let next =
        append-Recorded L P (init_log now) init_scan kind payload r out.0 (init-Recorded L now) fits
          positive limit out.1 in
      let rest =
        run_steps-Recorded L P out.0 (scanned init_scan l) steps log next
          (λ e. absurd (let more = next.holds.rows in omega (arith, e, more))) positive limit
          (subst (λ b. IsBody b steps) next.holds.final session.2) out.2 in
      let counted : rest.scan.rows ≡ suc (count_rows steps) = omega (arith, rest.counted) in
      (
        record {
          scan = rest.scan;
          recorded = rest.recorded;
          counted = counted ∙ sym (zero_plus (suc (count_rows steps)));
        },
        λ e. let same = rest.recorded.holds.rows in omega (arith, counted, e, same),
      )

  -- A session of which every append succeeded, closed, passes the verifier: it finds every row, the
  -- hash of the last one, whether the session ended, and the bytes written, where lines are not empty
  -- and the limit of a segment is at most the verifier's.
  pub verify_segments-close :
      (now : ℕ) (steps : List Step) (log : Log)
      → ((l : Line) → 0 < L.line_size l)
      → P.segment_uncompressed_bytes ≤ 12 * 1024 ^ 2
      → IsSession L steps
      → run_steps L P (init_log now) steps ≡ appended log
      → (a : Audit) × (verify_segments L (disk_of (close L log)) ≡ ok a)
        × (a.scan.rows ≡ count_rows steps)
        × (a.scan.previous ≡ log.previous)
        × (a.scan.final ≡ log.final)
        × (a.uncompressed ≡ log.size)
  unfolding close
  verify_segments-close now steps log positive limit session done =
      let run = session_recorded now steps log positive limit session done in
      let r = run.0.recorded in
      let h = r.holds in
      (
        sealed_audit L log r.chunks r.audit run.0.scan,
        subst
            (λ w.
              verify_segments L (disk_of (close_writer L log w))
              ≡ ok (sealed_audit L log r.chunks r.audit run.0.scan))
            (sym h.writer)
            (close_writer_verifies L log r.chunks r.audit run.0.scan h (r.started run.1)),
        omega (arith, run.0.counted),
        h.previous,
        h.final,
        h.bytes,
      )

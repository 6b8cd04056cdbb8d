-- ===== src/Import/Sourced.antt =====
-- The imports of src/import.rs as a whole, when they return: what was read of the source, and what was
-- added to the file.
use sovereign_ledger.Base.{ℕ, ◌≡◌, sym, ◌∙◌, ap, arith, length}
use sovereign_ledger.Crypto.{Bytes}
use sovereign_ledger.Crates.{Crates}
use sovereign_ledger.Error.{Error, ok, err, ok-injective}
use sovereign_ledger.Import.{Values}
use sovereign_ledger.Import.Added.{
  Wanted, full_lines, jsonl_wanted, IsImported, jsonl_lines-IsImported,
}
use sovereign_ledger.Import.Run.{
  ImportReport, State, jsonl_lines, report_tip, import_jsonl, journald_lines, import_journald,
}
use sovereign_ledger.Ledger.{File, Ledger}
use sovereign_ledger.Ledger.Write.{healthy}
use sovereign_ledger.Text.{read_lines}
use sovereign_ledger.Import.Loops.{IsJournal, journald_lines-IsImported}

not_ok : {A : Type 0} (x : Error) (a : A) → err x ≡ ok a → ⊥
not_ok x a e = ground arith

module _ (w : Crates) (j : Values) (clock : ℕ → ℕ) where
  -- `report_tip` gives the number of entries and the tip of the ledger.
  reported :
      (s : State ℕ) (report : ImportReport) (l' : Ledger) (file' : File)
      → report_tip w clock (λ k. healthy) s ≡ (ok report, l', file')
      → (s ≡ (ok report.entries, l', file')) × (report.source_tip ≡ w.hex.encode l'.last_hash)
  reported (err e, l, file) report l' file' h = absurd (not_ok e report (ap (λ t. t.0) h))
  reported (ok n, l, file) report l' file' h =
      let q = ok-injective _ report (ap (λ t. t.0) h) in
      let m : n ≡ report.entries = ap (λ (t : ImportReport). t.entries) q in
      let e : l ≡ l' = ap (λ t. t.1) h in
      let f : file ≡ file' = ap (λ t. t.2) h in
      (
        λ i. (ok (m i), e i, f i),
        sym (ap (λ (t : ImportReport). t.source_tip) q)
            ∙ ap (λ (t : Ledger). w.hex.encode t.last_hash) e,
      )

  module _ (source : Bytes) (l l' : Ledger) (file file' : File) (report : ImportReport) where
    -- An import of lines of text that returns, on a disk that takes its lines, has added to the file,
    -- behind what it held, one entry for each line that is not blank, in order: of the type `import`,
    -- with the line as its body, and numbered behind the handle. The report counts them and states the
    -- tip.
    pub import_jsonl-IsImported :
        import_jsonl w clock (λ k. healthy) source l file ≡ (ok report, l', file')
        → IsImported w l.seq file file' (jsonl_wanted (full_lines (read_lines source)))
          × (report.entries ≡ length (full_lines (read_lines source)))
          × (report.source_tip ≡ w.hex.encode l'.last_hash)
    unfolding import_jsonl
    import_jsonl-IsImported h =
        let (q, t) =
          reported (jsonl_lines w clock (λ k. healthy) 0 (read_lines source) l file) report l' file'
            h in
        let (i, c) =
          jsonl_lines-IsImported w clock 0 (read_lines source) l l' file file' report.entries q in
        (i, omega (arith, c), t)

    -- An import of a journal that returns, on a disk that takes its lines, has read each line that is
    -- not blank as a JSON value and has added to the file, behind what it held, one entry for each, in
    -- order: its type is the identifier of the value, or `journald`, its body the line, and it is
    -- numbered behind the handle. The report counts them and states the tip.
    pub import_journald-IsImported :
        import_journald w clock (λ k. healthy) j source l file ≡ (ok report, l', file')
        → (wanted : Wanted) × IsJournal w j (full_lines (read_lines source)) wanted
          × IsImported w l.seq file file' wanted
          × (report.entries ≡ length wanted)
          × (report.source_tip ≡ w.hex.encode l'.last_hash)
    unfolding import_journald
    import_journald-IsImported h =
        let (q, t) =
          reported (journald_lines w clock (λ k. healthy) j 0 0 (read_lines source) l file) report
            l' file' h in
        let (wanted, s, i, c) =
          journald_lines-IsImported w j clock 0 0 (read_lines source) l l' file file' report.entries
            q in
        (wanted, s, i, omega (arith, c), t)

-- ===== src/Cli/ImportKeys.antt =====
-- The keys of the ledger that `import` of src/main.rs builds: those of the seeds that were given.
use sovereign_ledger.Base.{◌≡◌, refl, sym, ◌∙◌, ap, arith, inl, inr, List, Option, []}
use sovereign_ledger.Crypto.{Bytes}
use sovereign_ledger.Error.{Error, Result, ok, err, returned, ok-injective, Result-cases}
use sovereign_ledger.Files.{FilePath, Files, lift, read, touch}
use sovereign_ledger.Files.Runs.{Io-then, Io-returned}
use sovereign_ledger.Ledger.{File, Ledger, seed_keys, handle, scan_file, open_with_seeds}
use sovereign_ledger.Ledger.Write.{contents}
use sovereign_ledger.Import.Keeps.{keys_kept, imports_keep}
use sovereign_ledger.Import.{slicks_key_candidates}
use sovereign_ledger.Import.Run.{
  ImportReport, State, import_jsonl, import_journald, import_badapple,
}
use sovereign_ledger.Cli.{
  ImportFormat, badapple, journald, jsonl, Source, from_stdin, from_file, Outside, Libraries,
  open_at, peek, lock_path, locked,
}
use sovereign_ledger.Cli.Commands.{on_file}
use sovereign_ledger.Cli.Import.{key_path, import_source}

module _ (b : Libraries) (o : Outside) where
  on_file-keys :
      (p : FilePath) (op : File → State ImportReport) (l : Ledger) (files left : Files)
      (result : ImportReport × Ledger)
      → ((file : File) → (op file).1.keys ≡ l.keys)
      → on_file p op files ≡ (ok result, left)
      → result.1.keys ≡ l.keys
  unfolding on_file
  on_file-keys p op l files left result k h = elim (Result-cases (op (files p)).0) [
    | inl (report, e) ↦
        sym (ap (λ (t : Result (ImportReport × Ledger) × Files). ledger_of l t.0) (rw e at h))
        ∙ k (files p)
    | inr (x, e) ↦ absurd (not_ok x result (ap (λ t. t.0) (rw e at h)))
  ]
    where
      ledger_of : Ledger → Result (ImportReport × Ledger) → List Bytes
      ledger_of d (err e) = d.keys
      ledger_of d (ok (r, l)) = l.keys

      not_ok : (x : Error) (r : ImportReport × Ledger) → err x ≡ ok r → ⊥
      not_ok x r e = ground arith

  pub import_source-keys :
      (from : ImportFormat) (source : Source) (key : Option FilePath) (p : FilePath) (l : Ledger)
      (files left : Files) (result : ImportReport × Ledger)
      → import_source b o from source key p l files ≡ (ok result, left)
      → result.1.keys ≡ l.keys
  unfolding import_source
  import_source-keys from source key p l files left result h = by_format from source h
    where
      kept :
          (secrets : List Bytes) (text : Bytes) (file : File)
          → ((import_badapple b.crates o.clock o.disk b.values secrets text l file).1.keys ≡ l.keys)
            × ((import_journald b.crates o.clock o.disk b.values text l file).1.keys ≡ l.keys)
            × ((import_jsonl b.crates o.clock o.disk text l file).1.keys ≡ l.keys)
      kept secrets text file =
          imports_keep b.crates (keys_kept b.crates) o.clock o.disk b.values secrets text l file

      by_format :
          (from : ImportFormat) (source : Source)
          → import_source b o from source key p l files ≡ (ok result, left)
          → result.1.keys ≡ l.keys
      by_format jsonl from_stdin h =
          on_file-keys p _ l files left result (λ file. (kept [] o.stdin file).2) h
      by_format journald from_stdin h =
          on_file-keys p _ l files left result (λ file. (kept [] o.stdin file).1) h
      by_format badapple from_stdin h = absurd (not_ok _ result (ap (λ t. t.0) h))
        where
          not_ok : (x : Error) (r : ImportReport × Ledger) → err x ≡ ok r → ⊥
          not_ok x r e = ground arith
      by_format jsonl (from_file f) h =
          let (text, mid, found, h) = Io-returned (read f) _ files left result h in
          on_file-keys p _ l mid left result (λ file. (kept [] text file).2) h
      by_format journald (from_file f) h =
          let (text, mid, found, h) = Io-returned (read f) _ files left result h in
          on_file-keys p _ l mid left result (λ file. (kept [] text file).1) h
      by_format badapple (from_file f) h =
          let (text, mid, found, h) = Io-returned (read f) _ files left result h in
          let (k, mid1, peeked, h) = Io-returned (peek (key_path f key)) _ mid left result h in
          on_file-keys p _ l mid1 left result
            (λ file. (kept (slicks_key_candidates b.crates (contents k)) text file).0) h

  pub open_at-keys :
      (p : FilePath) (seeds : List Bytes) (files left : Files) (l : Ledger)
      → open_at b o p seeds files ≡ (ok l, left)
      → l.keys ≡ seed_keys b.crates o.drawn_key seeds
  unfolding open_at open_with_seeds
  open_at-keys p seeds files left l h =
      let h = sym (Io-then (touch (lock_path p)) _ files _ tt refl) ∙ h in
      let (done, mid, taken, h) = Io-returned (lift (locked o.lock_fault)) _ _ left l h in
      let h = sym (Io-then (peek p) _ mid mid _ refl) ∙ h in
      let (s, q, e) =
        returned (scan_file b.crates (seed_keys b.crates o.drawn_key seeds) (mid p)) _ l
          (ap (λ t. t.0) h) in
      sym (
        ap (λ (t : Ledger). t.keys)
          (ok-injective (handle b.crates (seed_keys b.crates o.drawn_key seeds) s) l e))

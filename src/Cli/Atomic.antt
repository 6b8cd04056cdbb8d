-- ===== src/Cli/Atomic.antt =====
-- What `import` of src/main.rs leaves of the files, wherever it stops.
use Prim.Native.String.{String}
use sovereign_ledger.Base.{
  arith, subst, ◌≡◌, refl, sym, ◌⊎◌, List, Option-cases, ◌∙◌, ap, Bool, true, false, inl, inr,
  Option, none, some, append_assoc,
}
use sovereign_ledger.Base.Bytes.{codes}
use sovereign_ledger.Crypto.{Bytes}
use sovereign_ledger.Error.{Error, Result, ok, err}
use sovereign_ledger.Files.{
  FilePath, path_eq, with_name, Files, lift, read, removed, remove, rename, touch,
}
use sovereign_ledger.Files.Frame.{
  Leaves, left_by, Leaves-by, put_elsewhere, longer_name, Leaves-bind, Leaves-lift, read-Leaves,
  read_to_string-Leaves,
}
use sovereign_ledger.Files.Runs.{Io-then, Io-failed}
use sovereign_ledger.Ledger.{File, Ledger}
use sovereign_ledger.Ledger.Read.{verify}
use sovereign_ledger.Import.Run.{ImportReport}
use sovereign_ledger.Cli.{
  Cli, ImportFormat, badapple, journald, jsonl, Source, from_stdin, from_file, Outside, Libraries,
  Output, locked, gather_seeds, open_at, peek, lock_path,
}
use sovereign_ledger.Cli.Commands.{on_file}
use sovereign_ledger.Cli.Import.{tmp_path, sync, import_source, build, run_import}

module _ (q : FilePath) where
  pub gather_seeds-Leaves : (o : Outside) (cli : Cli) → Leaves q (gather_seeds o cli)
  unfolding gather_seeds
  gather_seeds-Leaves o cli = elim (Option-cases cli.keys_file) [
    | inl e ↦ rw e (Leaves-lift q (ok _))
    | inr (f, e) ↦
        rw e (Leaves-bind q _ _ (read_to_string-Leaves q f) (λ text. Leaves-lift q (ok _)))
  ]

  pub peek-Leaves : (p : FilePath) → Leaves q (peek p)
  unfolding Leaves
  peek-Leaves p files = refl

  module _ (p : FilePath) (apart : path_eq q p ≡ false) where
    on_file-Leaves : {A : Type 0} (op : File → Result A × Ledger × File) → Leaves q (on_file p op)
    unfolding on_file
    on_file-Leaves op = Leaves-by q (on_file p op) λ files. put_elsewhere q p _ files apart

    sync-Leaves : (o : Outside) → Leaves q (sync o p)
    unfolding Leaves
    sync-Leaves o files = elim (Option-cases (files p)) [ inl e ↦ rw e refl | inr e ↦ rw e.1 refl ]

  module _ (b : Libraries) (o : Outside) where
    pub open_at-Leaves :
        (p : FilePath) (seeds : List Bytes)
        → path_eq q (lock_path p) ≡ false
        → Leaves q (open_at b o p seeds)
    unfolding open_at
    open_at-Leaves p seeds h =
        Leaves-bind q (touch (lock_path p)) _
          (Leaves-by q _ (λ files. put_elsewhere q (lock_path p) _ files h))
          (λ done.
            Leaves-bind q (lift (locked o.lock_fault)) _ (Leaves-lift q _)
              (λ done. Leaves-bind q (peek p) _ (peek-Leaves p) (λ file. Leaves-lift q _)))

    import_source-Leaves :
        (from : ImportFormat) (source : Source) (key : Option FilePath) (p : FilePath) (l : Ledger)
        → path_eq q p ≡ false
        → Leaves q (import_source b o from source key p l)
    unfolding import_source
    import_source-Leaves jsonl from_stdin key p l h = on_file-Leaves p h _
    import_source-Leaves journald from_stdin key p l h = on_file-Leaves p h _
    import_source-Leaves badapple from_stdin key p l h = Leaves-lift q _
    import_source-Leaves jsonl (from_file f) key p l h =
        Leaves-bind q (read f) _ (read-Leaves q f) (λ text. on_file-Leaves p h _)
    import_source-Leaves journald (from_file f) key p l h =
        Leaves-bind q (read f) _ (read-Leaves q f) (λ text. on_file-Leaves p h _)
    import_source-Leaves badapple (from_file f) key p l h =
        Leaves-bind q (read f) _ (read-Leaves q f)
          (λ text. Leaves-bind q (peek _) _ (peek-Leaves _) (λ k. on_file-Leaves p h _))

    module _ (cli : Cli) (from : ImportFormat) (source : Source) (key : Option FilePath)
        (apart_tmp : path_eq q (tmp_path o cli.path) ≡ false)
        (apart_lock : path_eq q (lock_path (tmp_path o cli.path)) ≡ false) where
      build-Leaves : Leaves q (build b o cli from source key)
      unfolding build
      build-Leaves =
          let tmp = tmp_path o cli.path in
          Leaves-bind q (gather_seeds o cli) _ (gather_seeds-Leaves o cli) (λ seeds.
            Leaves-bind q (open_at b o tmp seeds) _ (open_at-Leaves tmp seeds apart_lock) (λ l.
              Leaves-bind q (import_source b o from source key tmp l) _
                (import_source-Leaves from source key tmp l apart_tmp)
                (λ result. Leaves-bind q (peek tmp) _ (peek-Leaves tmp) (λ file.
                  Leaves-bind q (lift (verify b.crates result.1 file)) _ (Leaves-lift q _) (λ done.
                    Leaves-bind q (sync o tmp) _ (sync-Leaves tmp apart_tmp o)
                      (λ done. Leaves-lift q (ok result.0)))))))

pub tmp_lock_apart : (o : Outside) (p : FilePath) → path_eq p (lock_path (tmp_path o p)) ≡ false
tmp_lock_apart o p =
    subst (λ t. path_eq p (with_name t p) ≡ false) (sym (append_assoc p.name _ (codes ".lock")))
      (longer_name p 46 _)

-- `import` has tried to remove what an earlier run may have left behind.
abbrev pub swept : Outside → Cli → Files → Files
swept o cli files =
    removed (o.remove_fault 1) (lock_path (tmp_path o cli.path))
      (removed (o.remove_fault 0) (tmp_path o cli.path) files)

pub removed_elsewhere :
    (q p : FilePath) (fault : Bool) (files : Files)
    → path_eq q p ≡ false
    → removed fault p files q ≡ files q
removed_elsewhere q p true files h = refl
removed_elsewhere q p false files h = put_elsewhere q p none files h

module _ (b : Libraries) (o : Outside) (cli : Cli) (from : ImportFormat) (source : Source)
    (key : Option FilePath) where
  -- Either `build` failed, or the temporary file could not be renamed.
  stopped :
      (files left : Files) (e : Error)
      → run_import b o cli from source key files ≡ (err e, left)
      → (build b o cli from source key (swept o cli files) ≡ (err e, left))
        ⊎ ((report : ImportReport) × (mid : Files) × (build b o cli from source key
                (swept o cli files)
              ≡ (ok report, mid))
            × (rename o.rename_fault (tmp_path o cli.path) cli.path mid ≡ (err e, left)))
  unfolding run_import
  stopped files left e h =
      let tmp = tmp_path o cli.path in
      let h = sym (Io-then (remove (o.remove_fault 0) tmp) _ files _ tt refl) ∙ h in
      let h = sym (Io-then (remove (o.remove_fault 1) (lock_path tmp)) _ _ _ tt refl) ∙ h in
      elim (Io-failed (build b o cli from source key) _ (swept o cli files) left e h) [
        | inl failed ↦ inl failed
        | inr (report, mid, built, h) ↦
            elim (Io-failed (rename o.rename_fault tmp cli.path) _ mid left e h) [
              | inl failed ↦ inr (report, mid, built, failed)
              | inr (done, last, moved, h) ↦ absurd (
                  not_err _ e (
                    ap (λ t. t.0)
                      (sym (Io-then (remove (o.remove_fault 2) (lock_path tmp)) _ last _ tt refl)
                        ∙ h)))
            ]
      ]
    where
      not_err : (a : Output) (e : Error) → ok a ≡ err e → ⊥
      not_err a e h = ground arith

  -- A rename that fails changes nothing.
  rename_fails :
      (fault : Option String) (from to : FilePath) (files left : Files) (e : Error)
      → rename fault from to files ≡ (err e, left)
      → left ≡ files
  unfolding rename
  rename_fails (some x) from to files left e h = sym (ap (λ t. t.1) h)
  rename_fails none from to files left e h = elim (Option-cases (files from)) [
    | inl q ↦ sym (ap (λ t. t.1) (rw q at h))
    | inr (bytes, q) ↦ absurd (not_err tt e (ap (λ t. t.0) (rw q at h)))
  ]
    where
      not_err : (u : Unit {0}) (e : Error) → ok u ≡ err e → ⊥
      not_err u e h = ground arith

  swept_elsewhere :
      (q : FilePath) (files : Files)
      → path_eq q (tmp_path o cli.path) ≡ false
      → path_eq q (lock_path (tmp_path o cli.path)) ≡ false
      → swept o cli files q ≡ files q
  swept_elsewhere q files h k =
      removed_elsewhere q (lock_path (tmp_path o cli.path)) (o.remove_fault 1) _ k
      ∙ removed_elsewhere q (tmp_path o cli.path) (o.remove_fault 0) files h

  unmoved :
      (files left : Files) (e : Error) (q : FilePath)
      → path_eq q (tmp_path o cli.path) ≡ false
      → path_eq q (lock_path (tmp_path o cli.path)) ≡ false
      → run_import b o cli from source key files ≡ (err e, left)
      → left q ≡ files q
  unmoved files left e q ht hl h =
      let kept =
        left_by q (build b o cli from source key) (build-Leaves q b o cli from source key ht hl)
          (swept o cli files) in
      let swept_same = swept_elsewhere q files ht hl in
      elim (stopped files left e h) [
        | inl failed ↦ sym (ap (λ t. t.1 q) failed) ∙ kept ∙ swept_same
        | inr (report, mid, built, failed) ↦
            ap (λ (t : Files). t q) (rename_fails _ _ _ mid left e failed)
            ∙ sym (ap (λ t. t.1 q) built)
            ∙ kept
            ∙ swept_same
      ]

  -- An `import` that ends with an error, at whatever line of the source, fault of the disk or test it
  -- stopped, leaves the ledger as it was, and every other file but the temporary one and its lock.
  pub run_import-error :
      (files left : Files) (e : Error) (q : FilePath)
      → path_eq q (tmp_path o cli.path) ≡ false
      → path_eq q (lock_path (tmp_path o cli.path)) ≡ false
      → run_import b o cli from source key files ≡ (err e, left)
      → (left cli.path ≡ files cli.path) × (left q ≡ files q)
  run_import-error files left e q ht hl h = (
    unmoved files left e cli.path (longer_name cli.path _ _) (tmp_lock_apart o cli.path) h,
    unmoved files left e q ht hl h,
  )

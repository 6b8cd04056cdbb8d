-- ===== src/Cli/Imported.antt =====
-- What `import` of src/main.rs has put in place.
use sovereign_ledger.Base.{
  ◌≡◌, refl, sym, ◌∙◌, ap, subst, arith, inl, inr, List, Option, Option-cases, none, some,
}
use sovereign_ledger.Crypto.{Bytes}
use sovereign_ledger.Error.{Error, ok, err}
use sovereign_ledger.Files.{FilePath, Files, lift, pure, ◌>>◌, put, removed, remove, rename}
use sovereign_ledger.Files.Frame.{put_here, put_elsewhere, longer_name, shorter_name}
use sovereign_ledger.Files.Runs.{Io-then, Io-returned, lift-ok}
use sovereign_ledger.Ledger.{Ledger, seed_keys}
use sovereign_ledger.Ledger.Read.{verify}
use sovereign_ledger.Import.Run.{ImportReport}
use sovereign_ledger.Cli.{
  Cli, ImportFormat, Source, Outside, Libraries, Output, gather_seeds, open_at, peek, lock_path,
}
use sovereign_ledger.Cli.Atomic.{swept, removed_elsewhere, tmp_lock_apart}
use sovereign_ledger.Cli.ImportKeys.{import_source-keys, open_at-keys}
use sovereign_ledger.Cli.Import.{tmp_path, sync, import_source, build, run_import}

module _ (b : Libraries) (o : Outside) where
  sync-holds :
      (p : FilePath) (files left : Files)
      → sync o p files ≡ (ok tt, left)
      → (bytes : Bytes) × (files p ≡ some bytes) × (files ≡ left)
  sync-holds p files left h = elim (Option-cases (files p)) [
    | inl e ↦ absurd (not_ok _ tt (ap (λ t. t.0) (rw e at h)))
    | inr (bytes, e) ↦ (bytes, e, ap (λ t. t.1) (rw e at h))
  ]
    where
      not_ok : (x : Error) (u : Unit {0}) → err x ≡ ok u → ⊥
      not_ok x u e = ground arith

  -- The tests behind an import.
  checked :
      (cli : Cli) (result : ImportReport × Ledger) (files left : Files) (report : ImportReport)
      → (lift (verify b.crates result.1 (files (tmp_path o cli.path)))
            >> (sync o (tmp_path o cli.path) >> pure result.0))
          files
        ≡ (ok report, left)
      → (bytes : Bytes) × (files (tmp_path o cli.path) ≡ some bytes)
        × (verify b.crates result.1 (some bytes) ≡ ok tt)
        × (files ≡ left)
  checked cli result files left report h =
      let tmp = tmp_path o cli.path in
      let (done, f4, verified, h) =
        Io-returned (lift (verify b.crates result.1 (files tmp))) _ files left report h in
      let (done, f5, synced, h) = Io-returned (sync o tmp) _ f4 left report h in
      let (bytes, holds, same) = sync-holds tmp f4 f5 synced in
      let (passed, before) = lift-ok (verify b.crates result.1 (files tmp)) files f4 tt verified in
      let at_end = ap (λ (t : Files). t tmp) before ∙ holds in
      (
        bytes,
        at_end,
        subst (λ t. verify b.crates result.1 t ≡ ok tt) at_end passed,
        before ∙ same ∙ ap (λ t. t.1) h,
      )

  -- What the temporary file holds when `build` returns.
  record IsBuilt (cli : Cli) (files mid : Files) : Type 0 where
    pub seeds : List Bytes
    pub ledger : Ledger
    bytes : Bytes
    gathered : (gather_seeds o cli files).0 ≡ ok seeds
    keys : ledger.keys ≡ seed_keys b.crates o.drawn_key seeds
    holds : mid (tmp_path o cli.path) ≡ some bytes
    verified : verify b.crates ledger (some bytes) ≡ ok tt

  module _ (cli : Cli) (from : ImportFormat) (source : Source) (key : Option FilePath) where
    build-IsBuilt :
        (files mid : Files) (report : ImportReport)
        → build b o cli from source key files ≡ (ok report, mid)
        → IsBuilt cli files mid
    unfolding build
    build-IsBuilt files mid report h =
        let tmp = tmp_path o cli.path in
        let (seeds, f1, gathered, h) = Io-returned (gather_seeds o cli) _ files mid report h in
        let (l, f2, opened, h) = Io-returned (open_at b o tmp seeds) _ f1 mid report h in
        let (result, f3, source_read, h) =
          Io-returned (import_source b o from source key tmp l) _ f2 mid report h in
        let (bytes, holds, verified, same) =
          checked cli result f3 mid report (sym (Io-then (peek tmp) _ f3 f3 _ refl) ∙ h) in
        record {
          seeds = seeds;
          ledger = result.1;
          bytes = bytes;
          gathered = ap (λ t. t.0) gathered;
          keys =
              import_source-keys b o from source key tmp l f2 f3 result source_read
              ∙ open_at-keys b o tmp seeds f1 f2 l opened;
          holds = subst (λ (t : Files). t tmp ≡ some bytes) same holds;
          verified = verified;
        }

    -- The file is moved.
    rename-moved :
        (from to : FilePath) (files left : Files) (bytes : Bytes)
        → files from ≡ some bytes
        → rename o.rename_fault from to files ≡ (ok tt, left)
        → left ≡ put to (some bytes) (put from none files)
    unfolding rename
    rename-moved from to files left bytes holds h = elim (Option-cases o.rename_fault) [
      | inl e ↦ sym (ap (λ t. t.1) (rw (e, holds) at h))
      | inr (x, e) ↦ absurd (not_ok _ tt (ap (λ t. t.0) (rw e at h)))
    ]
      where
        not_ok : (x : Error) (u : Unit {0}) → err x ≡ ok u → ⊥
        not_ok x u e = ground arith

    -- The files that `import` leaves, by those that `build` left.
    settled :
        (mid left : Files) (bytes : Bytes) (out report : Output)
        → mid (tmp_path o cli.path) ≡ some bytes
        → (rename o.rename_fault (tmp_path o cli.path) cli.path
              >> (remove (o.remove_fault 2) (lock_path (tmp_path o cli.path)) >> pure report))
            mid
          ≡ (ok out, left)
        → (left cli.path ≡ some bytes) × (left (tmp_path o cli.path) ≡ none)
    settled mid left bytes out report holds h =
        let tmp = tmp_path o cli.path in
        let (done, last, moved, h) =
          Io-returned (rename o.rename_fault tmp cli.path) _ mid left out h in
        let at_end =
          sym (Io-then (remove (o.remove_fault 2) (lock_path tmp)) _ last _ tt refl) ∙ h in
        let same : left ≡ removed (o.remove_fault 2) (lock_path tmp) last =
          sym (ap (λ t. t.1) at_end) in
        let before = rename-moved tmp cli.path mid last bytes holds moved in
        let moved_here = ap (λ (t : Files). t cli.path) before ∙ put_here cli.path (some bytes) _ in
        let moved_away =
          ap (λ (t : Files). t tmp) before
          ∙ put_elsewhere tmp cli.path (some bytes) _ (shorter_name cli.path _ _)
          ∙ put_here tmp none mid in
        (
          ap (λ (t : Files). t cli.path) same
              ∙ removed_elsewhere cli.path (lock_path tmp) (o.remove_fault 2) last
                  (tmp_lock_apart o cli.path)
              ∙ moved_here,
          ap (λ (t : Files). t tmp) same
              ∙ removed_elsewhere tmp (lock_path tmp) (o.remove_fault 2) last (longer_name tmp _ _)
              ∙ moved_away,
        )

    -- A ledger that `import` has put in place passes `verify` with the keys that were given; the temporary
    -- file is gone.
    pub run_import-verified :
        (files left : Files) (out : Output)
        → run_import b o cli from source key files ≡ (ok out, left)
        → (seeds : List Bytes) × (l : Ledger) × (bytes : Bytes) × ((gather_seeds o cli
              (swept o cli files)).0
            ≡ ok seeds)
          × (l.keys ≡ seed_keys b.crates o.drawn_key seeds)
          × (left cli.path ≡ some bytes)
          × (verify b.crates l (some bytes) ≡ ok tt)
          × (left (tmp_path o cli.path) ≡ none)
    unfolding run_import
    run_import-verified files left out h =
        let tmp = tmp_path o cli.path in
        let h = sym (Io-then (remove (o.remove_fault 0) tmp) _ files _ tt refl) ∙ h in
        let h = sym (Io-then (remove (o.remove_fault 1) (lock_path tmp)) _ _ _ tt refl) ∙ h in
        let (report, mid, built, h) =
          Io-returned (build b o cli from source key) _ (swept o cli files) left out h in
        let made = build-IsBuilt (swept o cli files) mid report built in
        let (at_path, gone) = settled mid left made.bytes out _ made.holds h in
        (
          made.seeds, made.ledger, made.bytes, made.gathered, made.keys, at_path, made.verified,
          gone,
        )

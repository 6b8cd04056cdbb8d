-- ===== src/Cli/Import.antt =====
-- src/main.rs: `import` builds a ledger in a file beside the one that it then replaces.
use sovereign_ledger.Base.{Option, none, some, ◌++◌}
use sovereign_ledger.Base.Bytes.{codes}
use sovereign_ledger.Error.{Error, Result, err}
use sovereign_ledger.Files.{
  FilePath, with_name, Files, Io, pure, lift, fails_with, ◌>>=◌, ◌>>◌, read, remove, rename,
}
use sovereign_ledger.Import.{slicks_key_candidates}
use sovereign_ledger.Import.Run.{ImportReport, import_jsonl, import_journald, import_badapple}
use sovereign_ledger.Ledger.{File, Ledger}
use sovereign_ledger.Ledger.Read.{verify}
use sovereign_ledger.Ledger.Write.{contents}
use sovereign_ledger.Cli.{
  Cli, ImportFormat, badapple, journald, jsonl, Source, from_stdin, from_file, Outside, Libraries,
  Output, imported, gather_seeds, open_at, peek, lock_path,
}
use sovereign_ledger.Cli.Commands.{on_file}

abbrev pub tmp_path : Outside → FilePath → FilePath
tmp_path o p = with_name (p.name ++ (codes "." ++ (o.pid ++ codes ".tmp"))) p

abbrev pub key_path : FilePath → Option FilePath → FilePath
key_path source none = with_name (codes "slicks.key") source
key_path source (some p) = p

-- `sync`, which opens the file.
abbrev pub sync : Outside → FilePath → Io (Unit {0})
sync o p files = present (files p)
  where
    present : File → Result (Unit {0}) × Files
    present none = (err (Error.io "No such file or directory"), files)
    present (some bytes) = (fails_with o.sync_fault, files)

module _ (b : Libraries) (o : Outside) where
  -- The import of a source into the ledger at a path.
  unfoldable pub import_source :
      ImportFormat → Source → Option FilePath → FilePath → Ledger → Io (ImportReport × Ledger)
  import_source jsonl from_stdin source_key p l =
      on_file p (import_jsonl b.crates o.clock o.disk o.stdin l)
  import_source journald from_stdin source_key p l =
      on_file p (import_journald b.crates o.clock o.disk b.values o.stdin l)
  import_source badapple from_stdin source_key p l =
      lift (err (Error.verification "badapple import needs --source <file>"))
  import_source jsonl (from_file f) source_key p l = do
    text ← read f
    on_file p (import_jsonl b.crates o.clock o.disk text l)
  import_source journald (from_file f) source_key p l = do
    text ← read f
    on_file p (import_journald b.crates o.clock o.disk b.values text l)
  import_source badapple (from_file f) source_key p l = do
    text ← read f
    key ← peek (key_path f source_key)
    on_file p (
        import_badapple b.crates o.clock o.disk b.values
          (slicks_key_candidates b.crates (contents key)) text l)

  -- The ledger in the temporary file, built, verified and synced.
  unfoldable pub build : Cli → ImportFormat → Source → Option FilePath → Io ImportReport
  build cli from source source_key = do
    seeds ← gather_seeds o cli
    ledger ← open_at b o (tmp_path o cli.path) seeds
    result ← import_source from source source_key (tmp_path o cli.path) ledger
    file ← peek (tmp_path o cli.path)
    lift (verify b.crates result.1 file)
    sync o (tmp_path o cli.path)
    pure result.0

  unfoldable pub run_import : Cli → ImportFormat → Source → Option FilePath → Io Output
  run_import cli from source source_key = do
    remove (o.remove_fault 0) (tmp_path o cli.path)
    remove (o.remove_fault 1) (lock_path (tmp_path o cli.path))
    report ← build cli from source source_key
    rename o.rename_fault (tmp_path o cli.path) cli.path
    remove (o.remove_fault 2) (lock_path (tmp_path o cli.path))
    pure (imported report.entries report.source_tip)

-- ===== src/Cli/Tests.antt =====
-- Runs of the commands over the stand-ins, and the theorems at them.
use sovereign_ledger.Base.{◌≡◌, refl, false, none, some, List, [], ◌∷◌, ◌++◌}
use sovereign_ledger.Base.Bytes.{codes, bytes_eq, le_bytes}
use sovereign_ledger.Crypto.{Bytes}
use sovereign_ledger.Error.{Error, Result, ok, err}
use sovereign_ledger.Event.{
  entry_key, message, event_hash, event_hash_v2, segment_key, decode_hash, key_new,
}
use sovereign_ledger.Files.{FilePath, Files, put, path_eq, read, rename, ◌>>=◌}
use sovereign_ledger.Ledger.{Ledger, items, iter, open_with_seeds, scan_file, seed_keys}
use sovereign_ledger.Ledger.Write.{write_line, next_entry, append}
use sovereign_ledger.Ledger.Read.{
  verify, check_link, note_event, verify_event, check_seal, verify_items, merkle_root,
}
use sovereign_ledger.Merkle.{InclusionProof, ConsistencyProof}
use sovereign_ledger.Toy.Outside.{toy_libraries, toy_outside}
use sovereign_ledger.Cli.{
  Cli, Command, init, jsonl, journald, from_stdin, Outside, Libraries, Output, inclusion_verified,
  open_at, gather_seeds, lock_path,
}
use sovereign_ledger.Cli.Import.{run_import, build, import_source, tmp_path}
use sovereign_ledger.Cli.Atomic.{run_import-error, swept}
use sovereign_ledger.Cli.Imported.{run_import-verified}
use sovereign_ledger.Cli.Commands.{on_file}
use sovereign_ledger.Import.Run.{import_jsonl, jsonl_lines, import_journald, journald_lines}
use sovereign_ledger.Text.{
  read_lines, is_text, run, utf8_step, utf8_lead, strip_newline, is_blank, white_step, white_lead,
  trim_end,
}
use sovereign_ledger.Toy.World.{toy}
use sovereign_ledger.Toy.Serde.{event_text, parse_event}
use sovereign_ledger.Toy.Unary.{number, text, read_number, read_text}
use sovereign_ledger.Seal.{parse_body}
use sovereign_ledger.Import.{parse_value}

abbrev pub no_inclusion : InclusionProof
no_inclusion = record { index = 0; tree_size = 1; path = [] }

abbrev pub no_consistency : ConsistencyProof
no_consistency = record { old_size = 0; new_size = 1; nodes = [] }

abbrev pub libraries : Libraries
libraries = toy_libraries no_inclusion no_consistency

abbrev pub named : Bytes → FilePath
named name = record { dir = codes "d"; name = name }

abbrev pub at_log : Command → Cli
at_log c = record {
  path = named (codes "log");
  keys = [];
  keys_file = none;
  json = false;
  command = c;
}

abbrev pub nothing : Files
nothing = λ p. none

other_tmp : path_eq (named (codes "other")) (tmp_path toy_outside (named (codes "log"))) ≡ false
unfolding bytes_eq
other_tmp = refl

other_lock :
    path_eq (named (codes "other")) (lock_path (tmp_path toy_outside (named (codes "log")))) ≡ false
unfolding bytes_eq
other_lock = refl

-- An import of nothing finds that the temporary ledger was never made.
abbrev empty_import : Result Output × Files
empty_import = run_import libraries toy_outside (at_log init) jsonl from_stdin none nothing

empty_import_fails : empty_import ≡ (err (Error.io "No such file or directory"), empty_import.1)
unfolding run_import build import_source open_at gather_seeds ◌>>=◌ open_with_seeds scan_file put
    bytes_eq verify on_file import_jsonl jsonl_lines read_lines
empty_import_fails = refl

run_import-error_example :
    (empty_import.1 (named (codes "log")) ≡ none) × (empty_import.1 (named (codes "other")) ≡ none)
run_import-error_example =
    run_import-error libraries toy_outside (at_log init) jsonl from_stdin none nothing
      empty_import.1 (Error.io "No such file or directory") (named (codes "other")) other_tmp
      other_lock empty_import_fails

-- An import of one line of a journal.
abbrev one_line : Outside
one_line = record toy_outside { stdin = codes "{}" ++ 10 ∷ [] }

abbrev import_run : Result Output × Files
import_run = run_import libraries one_line (at_log init) journald from_stdin none nothing

abbrev pub out_of : Result Output → Output
out_of (ok out) = out
out_of (err e) = inclusion_verified

import_returns : import_run ≡ (ok (out_of import_run.0), import_run.1)
unfolding run_import build import_source open_at gather_seeds ◌>>=◌ open_with_seeds scan_file put
    bytes_eq verify on_file import_journald journald_lines read_lines is_text run utf8_step
    utf8_lead strip_newline is_blank white_step white_lead append next_entry write_line entry_key
    verify_items items merkle_root rename read check_link note_event iter event_text number text
    message event_hash event_hash_v2 segment_key seed_keys decode_hash le_bytes parse_event
    read_number read_text trim_end verify_event check_seal key_new parse_body parse_value
import_returns = refl

run_import-verified_example :
    (seeds : List Bytes) × (l : Ledger) × (bytes : Bytes) × ((gather_seeds one_line
        (at_log init)
        (swept one_line (at_log init) nothing)).0
      ≡ ok seeds)
    × (l.keys ≡ seed_keys toy (le_bytes 32 4) seeds)
    × (import_run.1 (named (codes "log")) ≡ some bytes)
    × (verify toy l (some bytes) ≡ ok tt)
    × (import_run.1 (tmp_path one_line (named (codes "log"))) ≡ none)
run_import-verified_example =
    run_import-verified libraries one_line (at_log init) journald from_stdin none nothing
      import_run.1 (out_of import_run.0) import_returns

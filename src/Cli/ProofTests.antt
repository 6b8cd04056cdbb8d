-- ===== src/Cli/ProofTests.antt =====
-- Proofs that are printed and checked over the stand-ins, a key file, and an exported body.
use sovereign_ledger.Base.{◌≡◌, refl, ap, ◌∙◌, true, false, none, some, [], ◌∷◌, arith}
use sovereign_ledger.Base.Bytes.{codes, le_bytes, bytes_eq}
use sovereign_ledger.Crypto.{Bytes}
use sovereign_ledger.Crates.{Event}
use sovereign_ledger.Error.{ok}
use sovereign_ledger.Event.{key_new}
use sovereign_ledger.Files.{touch, FilePath, Files, put, ◌>>=◌}
use sovereign_ledger.Ledger.{Ledger, items, iter, seed_keys, open_with_seeds}
use sovereign_ledger.Ledger.Read.{
  merkle_root, leaf_hashes, prove_inclusion, prove_consistency, leaves,
}
use sovereign_ledger.Merkle.{mth, audit_path, audit_path_rec, consistency_proof}
use sovereign_ledger.Text.{read_lines, is_text, run}
use sovereign_ledger.Toy.Outside.{toy_outside}
use sovereign_ledger.Toy.World.{toy, put_hex}
use sovereign_ledger.Ledger.Append.{open_with_seeds-append}
use sovereign_ledger.Ledger.OneEntry.{tip, stored_reads}
use sovereign_ledger.Ledger.Tests.{
  seeds, fresh, fresh-IsCoherent, a, a-is_text, a_plain, after, after_is,
}
use sovereign_ledger.Cli.{
  lock_path, inclusion, inclusion_verified, consistency, consistency_verified, init, open_cli,
  export_cef, open_at, gather_seeds,
}
use sovereign_ledger.Cli.Cef.{read_export, recorded}
use sovereign_ledger.Cli.Cef.Parts.{Lacks, literal-Lacks}
use sovereign_ledger.Cli.Cef.Back.{read_export-export_lines}
use sovereign_ledger.Cli.Export.{export_lines}
use sovereign_ledger.Cli.Commands.{
  run_prove, run_prove_consistency, run_check_inclusion, run_check_consistency,
}
use sovereign_ledger.Cli.Outputs.{prove_output, consistency_output}
use sovereign_ledger.Cli.Proofs.{run_prove-check, run_prove_consistency-check}
use sovereign_ledger.Cli.Tests.{libraries, named, at_log, nothing, no_inclusion, no_consistency}

abbrev log : FilePath
log = named (codes "log")

-- A ledger with one entry.
abbrev one_entry : Files
one_entry = put log after.2 nothing

abbrev reopened : Ledger
reopened = record after.1 { read_only = false; compromised = false; durable = false }

reopens : open_with_seeds toy (le_bytes 32 4) seeds after.2 ≡ ok reopened
unfolding seed_keys key_new
reopens =
    open_with_seeds-append toy 5 a a fresh none (omega arith) a-is_text a-is_text (omega arith)
      a_plain fresh-IsCoherent (le_bytes 32 4) (codes "seed") [] 1 after.1 after.2 refl after_is

abbrev left : Files
left = (touch (lock_path log) one_entry).1

kept_here : left log ≡ after.2
unfolding put bytes_eq
kept_here = refl

opens : open_cli libraries toy_outside (at_log init) one_entry ≡ (ok reopened, left)
unfolding open_cli open_at gather_seeds ◌>>=◌
opens = rw (kept_here, reopens) refl

abbrev root : Bytes
root = mth toy.sha (tip ∷ [])

proves : prove_output libraries 1 after.2 ≡ ok (inclusion (put_hex tip) (put_hex root) no_inclusion)
unfolding prove_output prove_inclusion merkle_root audit_path audit_path_rec
proves = rw stored_reads refl

proved_returns :
    run_prove libraries toy_outside (at_log init) 1 one_entry
    ≡ (ok (inclusion (put_hex tip) (put_hex root) no_inclusion), left)
unfolding run_prove ◌>>=◌
proved_returns = rw (opens, kept_here, proves) refl

-- A file that holds the proof.
abbrev holder : Files
holder p = some []

empty_is_text : is_text [] ≡ true
unfolding is_text run
empty_is_text = refl

run_prove-check_example :
    run_check_inclusion libraries (put_hex tip) (put_hex root) log holder
    ≡ (ok inclusion_verified, holder)
run_prove-check_example =
    run_prove-check libraries toy_outside (at_log init) 1 one_entry left holder (put_hex tip)
      (put_hex root) [] no_inclusion log (tip ∷ []) proved_returns
      (ap (leaf_hashes toy) kept_here ∙ stored_reads) (omega arith) refl empty_is_text refl

-- The empty ledger comes before every other.
extends : consistency_output libraries 0 after.2 ≡ ok (consistency (put_hex root) no_consistency)
unfolding consistency_output prove_consistency merkle_root consistency_proof
extends = rw stored_reads refl

extended_returns :
    run_prove_consistency libraries toy_outside (at_log init) 0 one_entry
    ≡ (ok (consistency (put_hex root) no_consistency), left)
unfolding run_prove_consistency ◌>>=◌
extended_returns = rw (opens, kept_here, extends) refl

empty_reads : leaf_hashes toy (some []) ≡ ok []
unfolding leaf_hashes leaves iter items read_lines
empty_reads = refl

empty_rooted : merkle_root toy (some []) ≡ ok (mth toy.sha [])
unfolding merkle_root
empty_rooted = rw empty_reads refl

run_prove_consistency-check_example :
    run_check_consistency libraries (put_hex (mth toy.sha [])) (put_hex root) log holder
    ≡ (ok consistency_verified, holder)
run_prove_consistency-check_example =
    run_prove_consistency-check libraries toy_outside (at_log init) 0 one_entry left holder
      (some []) (put_hex root) [] (mth toy.sha []) no_consistency log (tip ∷ []) extended_returns
      (ap (leaf_hashes toy) kept_here ∙ stored_reads) (omega arith) empty_reads empty_rooted refl
      empty_is_text refl

-- A body with a backslash and an equals sign, and a type with a bar.
abbrev odd : Event
odd = record {
  v = 3;
  seq = 7;
  ts = 5;
  event_type = codes "a|b";
  body = codes "a\\=";
  epoch = 0;
  prev_hash = [];
  hash = [];
}

read_export-export_lines_example :
    read_export (export_lines libraries export_cef (odd ∷ [])) ≡ some (recorded odd ∷ [])
read_export-export_lines_example =
    read_export-export_lines libraries (odd ∷ []) ((type_lacks, body_lacks), tt)
  where
    type_lacks : Lacks 10 (codes "a|b")
    type_lacks = literal-Lacks (codes "a|b") refl

    body_lacks : Lacks 10 (codes "a\\=")
    body_lacks = literal-Lacks (codes "a\\=") refl

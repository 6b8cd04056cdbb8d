-- ===== src/Cli.antt =====
-- src/main.rs: the command line. What the arguments were parsed into, what is outside of the program
-- during one run, and the functions that the commands share.
pub mod Pick
pub mod Outputs
pub mod Commands
pub mod Export
pub mod Cef
pub mod Import
pub mod Checkpoints
pub mod Atomic
pub mod ImportKeys
pub mod Imported
pub mod Proofs
pub mod KeyFiles
pub mod Attested
pub mod Anchored
pub mod AnchorVerify
pub mod Run
pub mod Tests
mod ProofTests
mod AnchorTests
use Prim.Native.String.{String}
use sovereign_ledger.Base.{
  ℕ, Bool, true, false, ◌&&◌, not, ◌⊎◌, Option, none, some, List, [], ◌∷◌, ◌++◌, if◌then◌else◌,
  length, ◌==◌,
}
use sovereign_ledger.Base.Bytes.{codes, bytes_eq, is_empty}
use sovereign_ledger.Crypto.{Bytes}
use sovereign_ledger.Crates.{Crates, Event}
use sovereign_ledger.Error.{Error, Result, ok, err, ok_or}
use sovereign_ledger.Event.{decode_hash}
use sovereign_ledger.Files.{
  FilePath, with_name, Files, Io, pure, lift, fails_with, ◌>>=◌, ◌>>◌, read_to_string, touch,
}
use sovereign_ledger.Import.{Values}
use sovereign_ledger.Ledger.{File, Ledger, open_with_seeds}
use sovereign_ledger.Ledger.Read.{verify, merkle_root}
use sovereign_ledger.Ledger.Write.{Disk}
use sovereign_ledger.Merkle.{InclusionProof, ConsistencyProof}
use sovereign_ledger.Seal.Public.{Signatures, PublicVerifyReport}
use sovereign_ledger.Text.{is_text, is_blank, read_lines, strip_newline, trim, trim_newlines}
use sovereign_ledger.Anchor.{Tip}
use sovereign_ledger.Anchor.Agent.{Agent}
use sovereign_ledger.Anchor.Ed25519.{Ed25519}
use sovereign_ledger.Anchor.KeyFile.{CheckpointText, optional}

pub data ImportFormat : Type 0 where
  badapple journald jsonl : ImportFormat

pub data ExportFormat : Type 0 where
  export_jsonl export_cef : ExportFormat

-- `--source`: "-", or the path of a file.
pub data Source : Type 0 where
  from_stdin : Source
  from_file : FilePath → Source

-- The options that name keys.
pub record KeyOptions : Type 0 where
  pub agent : Option FilePath
  pub ed25519_key_file : Option FilePath
  pub ed25519_gen_key_file : Option FilePath
  pub key_file : Option FilePath
  pub gen_key_file : Option FilePath

pub data Command : Type 0 where
  init : Command
  append_event : Bytes → Option Bytes → Bool → Command
  verify_chain : Bool → Command
  seal_segment : KeyOptions → Command
  tail : ℕ → Command
  export : ExportFormat → Command
  import : ImportFormat → Source → Option FilePath → Command
  rotate : Option Bytes → Command
  show_root : Command
  prove : ℕ → Command
  check_inclusion : Bytes → Bytes → FilePath → Command
  prove_consistency : ℕ → Command
  check_consistency : Bytes → Bytes → FilePath → Command
  anchor : KeyOptions → Option FilePath → Bytes → Command
  anchor_verify : FilePath → Option FilePath → Option FilePath → Option FilePath → Command

pub record Cli : Type 0 where
  pub path : FilePath
  pub keys : List Bytes
  pub keys_file : Option FilePath
  pub json : Bool
  pub command : Command

-- What a run finds outside: the standard input, the variable SOVEREIGN_LEDGER_KEY, the clock (by the
-- entries appended, and as a text), the process id, the random bytes that it draws for a key
-- file and for the key of a ledger that is opened without seeds, the
-- agents at the sockets, and the faults of what it does to the disk.
pub record Outside : Type 1 where
  pub stdin : Bytes
  pub env_key : Option Bytes
  pub clock : ℕ → ℕ
  pub signed_at : Bytes
  pub pid : Bytes
  pub fresh : Bytes
  pub drawn_key : Bytes
  pub agents : FilePath → Agent
  pub disk : ℕ → Disk
  pub key_disk : Disk
  pub out_disk : Disk
  pub lock_fault : Option Error
  pub sync_fault : Option String
  pub rename_fault : Option String
  pub remove_fault : ℕ → Bool

-- The third-party crates, with serde_json for the proofs.
pub record Libraries : Type 1 where
  pub crates : Crates
  pub signatures : Signatures
  pub ed25519 : Ed25519 signatures
  pub values : Values
  pub checkpoints : CheckpointText
  pub parse_inclusion : Bytes → String ⊎ InclusionProof
  pub parse_consistency : Bytes → String ⊎ ConsistencyProof

-- What is printed, by its values; the text around them is left out, but for an export.
pub data Output : Type 0 where
  ready : ℕ → ℕ → Output
  appended : ℕ → Output
  publicly_valid : PublicVerifyReport → Output
  chain_valid : ℕ → Option (Bytes × Bytes) → Output
  sealed : (sealed_through seal_seq segment : ℕ) → Bool → Output
  nothing_to_seal : Output
  events : List Event → Output
  exported : Bytes → Output
  imported : ℕ → Bytes → Output
  rotated : ℕ → Output
  root_of : ℕ → Bytes → Bytes → Output
  inclusion : (leaf root : Bytes) → InclusionProof → Output
  inclusion_verified : Output
  consistency : (new_root : Bytes) → ConsistencyProof → Output
  consistency_verified : Output
  checkpoint_signed : FilePath → Output
  checkpoint_valid : Output

-- The lines of a file of seeds, trimmed, without the empty ones.
unfoldable pub seed_lines : List Bytes → List Bytes
seed_lines [] = []
seed_lines (l ∷ ls) =
    let rest = seed_lines ls in
    if is_empty (trim (strip_newline l)) then rest else trim (strip_newline l) ∷ rest

abbrev or_env : List Bytes → Option Bytes → List Bytes
or_env [] key = optional key
or_env (k ∷ ks) key = k ∷ ks

unfoldable pub gather_seeds : Outside → Cli → Io (List Bytes)
gather_seeds o cli = by_file cli.keys_file
  where
    by_file : Option FilePath → Io (List Bytes)
    by_file (some f) = do text ← read_to_string f; pure (seed_lines (read_lines text))
    by_file none = pure (or_env cli.keys o.env_key)

abbrev stdin_text : Outside → Result Bytes
stdin_text o =
    if is_text o.stdin
    then ok (trim_newlines o.stdin)
    else err (Error.io "stream did not contain valid UTF-8")

unfoldable pub read_body : Outside → Option Bytes → Result Bytes
read_body o none = stdin_text o
read_body o (some b) = if bytes_eq b (codes "-") then stdin_text o else ok b

abbrev pub lock_path : FilePath → FilePath
lock_path p = with_name (p.name ++ codes ".lock") p

-- What a file holds, or that there is none.
abbrev pub peek : FilePath → Io File
peek p files = (ok (files p), files)

abbrev pub locked : Option Error → Result (Unit {0})
locked none = ok tt
locked (some e) = err e

module _ (b : Libraries) where
  -- `open_with_seeds` at a path: the lock file is made first, and taken.
  unfoldable pub open_at : Outside → FilePath → List Bytes → Io Ledger
  open_at o p seeds = do
    touch (lock_path p)
    lift (locked o.lock_fault)
    file ← peek p
    lift (open_with_seeds b.crates o.drawn_key seeds file)

  unfoldable pub open_cli : Outside → Cli → Io Ledger
  open_cli o cli = do seeds ← gather_seeds o cli; open_at o cli.path seeds

  unfoldable pub ledger_tip : Outside → Cli → Bytes → Io Tip
  ledger_tip o cli genesis = do
    ledger ← open_cli o cli
    file ← peek cli.path
    lift (verify b.crates ledger file)
    merkle ← lift (merkle_root b.crates file)
    pure (record {
      tip_hash = ledger.last_hash;
      merkle_root = merkle;
      entry_count = ledger.seq;
      genesis = genesis;
    })

  unfoldable pub decode_hex32 : Bytes → Result Bytes
  decode_hex32 s = ok_or (decode_hash b.crates s) (Error.verification "not a 32-byte hex hash: {s}")

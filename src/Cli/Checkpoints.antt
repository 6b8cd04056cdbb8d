-- ===== src/Cli/Checkpoints.antt =====
-- src/main.rs: `anchor` and `anchor-verify`.
use Prim.Native.String.{String}
use sovereign_ledger.Base.{Option, none, some, ◌++◌, ◌⊎◌, inl, inr, not}
use sovereign_ledger.Base.Bytes.{codes}
use sovereign_ledger.Crypto.{Bytes}
use sovereign_ledger.Error.{Error, Result, ok, err, fail_if}
use sovereign_ledger.Files.{FilePath, with_name, Io, pure, lift, ◌>>=◌, ◌>>◌, read_to_string}
use sovereign_ledger.Anchor.{Checkpoint}
use sovereign_ledger.Anchor.KeyFile.{write_checkpoint}
use sovereign_ledger.Cli.{
  Cli, KeyOptions, Outside, Libraries, Output, checkpoint_signed, checkpoint_valid, ledger_tip,
}
use sovereign_ledger.Cli.Pick.{pick_anchor, key_anchor}

-- `--out`, or a name beside the ledger.
abbrev pub checkpoint_path : FilePath → Option FilePath → FilePath
checkpoint_path ledger (some out) = out
checkpoint_path ledger none = with_name (ledger.name ++ codes ".checkpoint.json") ledger

abbrev parsed : String ⊎ Checkpoint → Result Checkpoint
parsed (inl e) = err (Error.serialization e)
parsed (inr c) = ok c

module _ (b : Libraries) (o : Outside) where
  unfoldable pub run_anchor : Cli → KeyOptions → Option FilePath → Bytes → Io Output
  run_anchor cli k out genesis = do
    key ← pick_anchor o k.agent k.ed25519_key_file k.ed25519_gen_key_file k.key_file k.gen_key_file
    tip ← ledger_tip b o cli genesis
    checkpoint ← lift ((key_anchor b o key).attest tip)
    path ←
        write_checkpoint b.checkpoints o.out_disk o.rename_fault (checkpoint_path cli.path out)
          checkpoint
    pure (checkpoint_signed path)

  -- The key file is passed on where `pick_anchor` takes the file of a key to be generated.
  unfoldable pub run_anchor_verify :
      FilePath → (agent ed25519_file key : Option FilePath) → Io Output
  run_anchor_verify checkpoint agent ed25519_file key = do
    text ← read_to_string checkpoint
    c ← lift (parsed (b.checkpoints.parse text))
    k ← pick_anchor o agent ed25519_file key none none
    valid ← lift ((key_anchor b o k).verify c)
    lift (fail_if (not valid) (Error.anchor "checkpoint signature invalid"))
    pure checkpoint_valid

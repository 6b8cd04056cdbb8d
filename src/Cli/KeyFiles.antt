-- ===== src/Cli/KeyFiles.antt =====
-- What src/main.rs does with the key files of an anchor.
use sovereign_ledger.Base.{◌≡◌, refl, true, inr, Option, some}
use sovereign_ledger.Crypto.{Bytes}
use sovereign_ledger.Error.{Error, err}
use sovereign_ledger.Files.{FilePath, Files, ◌>>=◌, read, read_to_string, create_new}
use sovereign_ledger.Text.{is_text}
use sovereign_ledger.Anchor.{Checkpoint}
use sovereign_ledger.Anchor.Ed25519.{ed25519_generate}
use sovereign_ledger.Cli.{Outside, Libraries}
use sovereign_ledger.Cli.Checkpoints.{run_anchor_verify}
use sovereign_ledger.Cli.Pick.{pick_anchor}

module _ (b : Libraries) (o : Outside) where
  -- `anchor-verify` with the key file of the anchor that signed the checkpoint never checks it: whatever
  -- the checkpoint is and whichever other key is given, it stops at the file that is there, with an error
  -- of the disk, and changes nothing.
  pub run_anchor_verify-key_file :
      (files : Files) (checkpoint key : FilePath) (agent ed25519_file : Option FilePath)
      (text key_bytes : Bytes) (c : Checkpoint)
      → files checkpoint ≡ some text
      → is_text text ≡ true
      → b.checkpoints.parse text ≡ inr c
      → files key ≡ some key_bytes
      → run_anchor_verify b o checkpoint agent ed25519_file (some key) files
        ≡ (err (Error.io "File exists"), files)
  unfolding run_anchor_verify read_to_string read pick_anchor ed25519_generate create_new ◌>>=◌
  run_anchor_verify-key_file files checkpoint key agent ed25519_file text key_bytes c h t p k =
      rw (h, t, p, k) refl

-- ===== src/Cli/Attested.antt =====
-- The anchors that src/main.rs picks, and the checkpoints that they attest.
use sovereign_ledger.Base.{◌≡◌, true}
use sovereign_ledger.Error.{ok}
use sovereign_ledger.Files.{FilePath}
use sovereign_ledger.Anchor.{Checkpoint, Tip}
use sovereign_ledger.Anchor.Roundtrip.{
  IsHonest, file_key_anchor-IsSound, agent_anchor-IsSound, ed25519_anchor-IsSound,
}
use sovereign_ledger.Cli.{Outside, Libraries}
use sovereign_ledger.Cli.Pick.{Key, ed25519_key, file_key, agent_at, key_anchor}

module _ (b : Libraries) (o : Outside) where
  -- Whichever anchor a command picks, what it attests, it verifies, when the agent at a socket accepts its own
  -- signatures.
  pub key_anchor-verify :
      (key : Key) (tip : Tip) (c : Checkpoint)
      → ((p : FilePath) → IsHonest (o.agents p))
      → (key_anchor b o key).attest tip ≡ ok c
      → (key_anchor b o key).verify c ≡ ok true
  key_anchor-verify (ed25519_key seed) tip c honest h =
      ed25519_anchor-IsSound b.crates b.signatures b.ed25519 o.signed_at seed tip c h
  key_anchor-verify (file_key key) tip c honest h =
      file_key_anchor-IsSound b.crates o.signed_at key tip c h
  key_anchor-verify (agent_at p) tip c honest h =
      agent_anchor-IsSound b.crates (o.agents p) o.signed_at (honest p) tip c h

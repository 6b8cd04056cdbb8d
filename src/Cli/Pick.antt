-- ===== src/Cli/Pick.antt =====
-- src/main.rs: which signer a command takes, by its options.
use sovereign_ledger.Base.{Option, none, some, if◌then◌else◌}
use sovereign_ledger.Base.Bytes.{codes}
use sovereign_ledger.Crypto.{Bytes}
use sovereign_ledger.Error.{Error, ok, err}
use sovereign_ledger.Files.{FilePath, Io, pure, lift, ◌>>=◌}
use sovereign_ledger.Seal.{SealSigner}
use sovereign_ledger.Anchor.{Anchor}
use sovereign_ledger.Anchor.Agent.{agent_anchor, agent_signer}
use sovereign_ledger.Anchor.Ed25519.{
  ed25519_from_file, ed25519_generate, ed25519_anchor, ed25519_signer,
}
use sovereign_ledger.Anchor.KeyFile.{
  file_key_from_file, file_key_generate, file_key_anchor, file_key_signer,
}
use sovereign_ledger.Cli.{Outside, Libraries}

abbrev pub default_socket : FilePath
default_socket = record { dir = codes "/var/run/badapple"; name = codes "identity.sock" }

abbrev or_socket : Option FilePath → FilePath
or_socket none = default_socket
or_socket (some p) = p

-- The implementations behind `dyn SealSigner` and `dyn Anchor`, with their keys.
pub data Key : Type 0 where
  ed25519_key : Bytes → Key
  file_key : Bytes → Key
  agent_at : FilePath → Key

module _ (b : Libraries) (o : Outside) where
  abbrev pub key_signer : Key → SealSigner
  key_signer (ed25519_key seed) = ed25519_signer b.crates b.signatures b.ed25519 seed
  key_signer (file_key key) = file_key_signer b.crates key
  key_signer (agent_at p) = agent_signer (o.agents p)

  abbrev pub key_anchor : Key → Anchor
  key_anchor (ed25519_key seed) = ed25519_anchor b.crates b.signatures b.ed25519 o.signed_at seed
  key_anchor (file_key key) = file_key_anchor b.crates o.signed_at key
  key_anchor (agent_at p) = agent_anchor (o.agents p) b.crates o.signed_at

module _ (o : Outside) where
  -- The agent, when its socket is there.
  unfoldable pub pick_agent : Error → Option FilePath → Io Key
  pick_agent e agent =
      lift (if (o.agents (or_socket agent)).exists then ok (agent_at (or_socket agent)) else err e)

  -- The arguments in the order of the source.
  unfoldable pub pick_seal_signer : (agent ed25519_file ed25519_gen key : Option FilePath) → Io Key
  pick_seal_signer agent ed25519_file (some p) key = do
    seed ← ed25519_generate o.key_disk o.fresh p
    pure (ed25519_key seed)
  pick_seal_signer agent (some p) none key = do seed ← ed25519_from_file p; pure (ed25519_key seed)
  pick_seal_signer agent none none (some p) = do k ← file_key_from_file p; pure (file_key k)
  pick_seal_signer agent none none none =
      pick_agent (Error.anchor "no seal signer available: identity agent socket absent") agent

  unfoldable pub pick_anchor :
      (agent ed25519_file ed25519_gen key gen_key : Option FilePath) → Io Key
  pick_anchor agent ed25519_file (some p) key gen_key = do
    seed ← ed25519_generate o.key_disk o.fresh p
    pure (ed25519_key seed)
  pick_anchor agent (some p) none key gen_key = do
    seed ← ed25519_from_file p
    pure (ed25519_key seed)
  pick_anchor agent none none key (some p) = do
    k ← file_key_generate o.key_disk o.fresh p
    pure (file_key k)
  pick_anchor agent none none (some p) none = do k ← file_key_from_file p; pure (file_key k)
  pick_anchor agent none none none none =
      pick_agent (Error.anchor "no anchor available: identity agent socket absent") agent

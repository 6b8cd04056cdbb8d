-- ===== src/Anchor/Ed25519.antt =====
-- `Ed25519FileAnchor` of src/anchor.rs: a signing key that is derived from a seed of 32 bytes.
use sovereign_ledger.Base.{
  Bool, true, false, not, ◌||◌, Option, none, some, ◌≡◌, if◌then◌else◌, length, ◌==◌,
}
use sovereign_ledger.Base.Bytes.{codes, bytes_eq}
use sovereign_ledger.Crypto.{Bytes, IsBytes, hash_size}
use sovereign_ledger.Crates.{Crates}
use sovereign_ledger.Error.{Error, Result, ok, fail_if}
use sovereign_ledger.Files.{FilePath, Io, pure, lift, ◌>>=◌, ◌>>◌, read, create_new}
use sovereign_ledger.Ledger.Write.{Disk}
use sovereign_ledger.Seal.{SealSigner}
use sovereign_ledger.Seal.Public.{Signatures, sized}
use sovereign_ledger.Anchor.{
  Anchor, Checkpoint, Tip, issued_checkpoint, canonical_payload, checkpoint_payload,
  payload_binds_fields,
}

-- The crate ed25519_dalek, beside its verification: the public key of a seed, and its signatures, of
-- the sizes that it documents, which it accepts.
pub record Ed25519 (g : Signatures) : Type 0 where
  pub verifying_key : Bytes → Bytes
  pub sign : Bytes → Bytes → Bytes
  pub verifying_key-IsBytes : (seed : Bytes) → IsBytes (verifying_key seed)
  pub length-verifying_key : (seed : Bytes) → length (verifying_key seed) ≡ 32
  pub verifying_key-accepted : (seed : Bytes) → g.ed25519_key (verifying_key seed) ≡ true
  pub sign-IsBytes : (seed m : Bytes) → IsBytes (sign seed m)
  pub length-sign : (seed m : Bytes) → length (sign seed m) ≡ 64
  pub sign-verifies :
      (seed m : Bytes) → g.ed25519_verify (verifying_key seed) m (sign seed m) ≡ true

abbrev pub ed25519_scheme : Bytes
ed25519_scheme = codes "ed25519-file"

-- The seed is read from a file, which holds nothing else.
unfoldable pub ed25519_from_file : FilePath → Io Bytes
ed25519_from_file p = do
  raw ← read p
  lift (fail_if (not (length raw == hash_size)) (Error.anchor "ed25519 key file must be 32 bytes"))
  pure raw

-- The seed is what the random source gave.
unfoldable pub ed25519_generate : Disk → Bytes → FilePath → Io Bytes
ed25519_generate disk fresh p = do create_new disk p fresh; pure fresh

module _ (w : Crates) (g : Signatures) (d : Ed25519 g) where
  unfoldable pub public_key_hex : Bytes → Bytes
  public_key_hex seed = w.hex.encode (d.verifying_key seed)

  unfoldable pub ed25519_sign : Bytes → Bytes → Bytes
  ed25519_sign seed payload = w.hex.encode (d.sign seed payload)

  unfoldable pub ed25519_attest : Bytes → Bytes → Tip → Result Checkpoint
  ed25519_attest seed signed_at tip = ok (
      issued_checkpoint w tip signed_at ed25519_scheme (public_key_hex seed)
        (ed25519_sign seed (canonical_payload w tip signed_at)))

  unfoldable pub ed25519_verify : Bytes → Checkpoint → Result Bool
  ed25519_verify seed c =
      if not (bytes_eq c.scheme ed25519_scheme) || not (payload_binds_fields c)
      then ok false
      else ok (signed (sized 64 (w.hex.decode c.signature)))
    where
      signed : Option Bytes → Bool
      signed none = false
      signed (some sig) = g.ed25519_verify (d.verifying_key seed) (checkpoint_payload c) sig

  abbrev pub ed25519_anchor : Bytes → Bytes → Anchor
  ed25519_anchor signed_at seed = record {
    attest = ed25519_attest seed signed_at;
    verify = ed25519_verify seed;
  }

  abbrev pub ed25519_signer : Bytes → SealSigner
  ed25519_signer seed = record {
    scheme = ed25519_scheme;
    public_key = ok (public_key_hex seed);
    sign = λ payload. ok (ed25519_sign seed payload);
  }

-- ===== src/Anchor.antt =====
-- src/anchor.rs: the payload of a checkpoint, what an anchor is, and the anchor with a key file. The
-- other anchors are child modules.
mod Tests
pub mod Binding
pub mod KeyFile
pub mod Ed25519
pub mod Agent
pub mod Roundtrip
pub mod Written
pub mod Seeds
use sovereign_ledger.Base.{
  ℕ, Bool, true, false, not, ◌&&◌, ◌||◌, Option, none, some, List, [], ◌∷◌, ◌++◌, if◌then◌else◌,
}
use sovereign_ledger.Base.Bytes.{codes, bytes_eq, is_empty}
use sovereign_ledger.Crypto.{Bytes}
use sovereign_ledger.Crates.{Crates}
use sovereign_ledger.Error.{Result}
use sovereign_ledger.Text.{decimal}

pub record Checkpoint : Type 0 where
  pub entry_count : ℕ
  pub genesis : Bytes
  pub tip_hash : Bytes
  pub merkle_root : Option Bytes
  pub signed_at : Bytes
  pub scheme : Bytes
  pub public_key : Option Bytes
  pub signature : Bytes
  pub payload : Bytes

pub record Tip : Type 0 where
  pub tip_hash : Bytes
  pub merkle_root : Bytes
  pub entry_count : ℕ
  pub genesis : Bytes

-- The trait `Anchor`.
pub record Anchor : Type 0 where
  pub attest : Tip → Result Checkpoint
  pub verify : Checkpoint → Result Bool

-- The payload with a Merkle root, and the older one without.
unfoldable pub payload_with_root : ℕ → Bytes → Bytes → Bytes → Bytes → Bytes
payload_with_root entry_count genesis merkle_root signed_at tip_hash =
    codes "{\"entry_count\": "
    ++ (decimal entry_count
        ++ (codes ", \"genesis\": \""
            ++ (genesis
                ++ (codes "\", \"merkle_root\": \""
                    ++ (merkle_root
                        ++ (codes "\", \"signed_at\": \""
                            ++ (signed_at
                                ++ (codes "\", \"tip_hash\": \""
                                    ++ (tip_hash ++ codes "\"}")))))))))

unfoldable pub payload_without_root : ℕ → Bytes → Bytes → Bytes → Bytes
payload_without_root entry_count genesis signed_at tip_hash =
    codes "{\"entry_count\": "
    ++ (decimal entry_count
        ++ (codes ", \"genesis\": \""
            ++ (genesis
                ++ (codes "\", \"signed_at\": \""
                    ++ (signed_at
                        ++ (codes "\", \"tip_hash\": \"" ++ (tip_hash ++ codes "\"}")))))))

unfoldable pub rebuilt_payload : Checkpoint → Bytes
rebuilt_payload c = by_root c.merkle_root
  where
    by_root : Option Bytes → Bytes
    by_root (some root) = payload_with_root c.entry_count c.genesis root c.signed_at c.tip_hash
    by_root none = payload_without_root c.entry_count c.genesis c.signed_at c.tip_hash

unfoldable pub checkpoint_payload : Checkpoint → Bytes
checkpoint_payload c = if not (is_empty c.payload) then c.payload else rebuilt_payload c

unfoldable pub payload_binds_fields : Checkpoint → Bool
payload_binds_fields c = is_empty c.payload || bytes_eq c.payload (rebuilt_payload c)

module _ (w : Crates) where
  unfoldable pub canonical_payload : Tip → Bytes → Bytes
  canonical_payload tip signed_at =
      payload_with_root tip.entry_count tip.genesis (w.hex.encode tip.merkle_root) signed_at
        (w.hex.encode tip.tip_hash)

  -- `FileKeyAnchor`, by its key.
  unfoldable pub file_mac : Bytes → Bytes → Bytes
  file_mac key payload = w.hex.encode (w.hmac.mac key payload)

  unfoldable pub key_id : Bytes → Bytes
  key_id key = w.hex.encode (w.sha.digest key)

  -- What `attest` returns, whoever signed the payload; the time is an argument.
  abbrev pub issued_checkpoint : Tip → Bytes → Bytes → Bytes → Bytes → Checkpoint
  issued_checkpoint tip signed_at scheme public_key signature = record {
    entry_count = tip.entry_count;
    genesis = tip.genesis;
    tip_hash = w.hex.encode tip.tip_hash;
    merkle_root = some (w.hex.encode tip.merkle_root);
    signed_at = signed_at;
    scheme = scheme;
    public_key = some public_key;
    signature = signature;
    payload = canonical_payload tip signed_at;
  }

  unfoldable pub file_attest : Bytes → Bytes → Tip → Checkpoint
  file_attest key signed_at tip =
      issued_checkpoint tip signed_at (codes "hmac-sha256") (key_id key)
        (file_mac key (canonical_payload tip signed_at))

  unfoldable pub file_verify : Bytes → Checkpoint → Bool
  file_verify key c =
      if not (payload_binds_fields c)
      then false
      else bytes_eq (file_mac key (checkpoint_payload c)) c.signature

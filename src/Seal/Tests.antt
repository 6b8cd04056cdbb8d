-- ===== src/Seal/Tests.antt =====
-- A sealed segment of one entry, and the theorem at it.
use sovereign_ledger.Base.{◌≡◌, refl, ◌⊎◌, true, none, [], ◌∷◌, arith}
use sovereign_ledger.Base.Bytes.{codes, le_bytes, bytes_eq}
use sovereign_ledger.Crypto.{Bytes}
use sovereign_ledger.Crates.{Event, SealRecord}
use sovereign_ledger.Error.{ok}
use sovereign_ledger.Event.{zero_hash, event_hash, event_hash_v2, decode_hash, message}
use sovereign_ledger.Event.Message.{MacCollides}
use sovereign_ledger.Ledger.Binding.{IsModern, AllAgree}
use sovereign_ledger.Merkle.{mth, mth_fuel, leaf_hash}
use sovereign_ledger.Seal.Binding.{opening_prev, sealed_leaves, check_sealed_binds}
use sovereign_ledger.Merkle.Root.{LeavesCollide}
use sovereign_ledger.Seal.Segment.{segment_macs}
use sovereign_ledger.Seal.Public.{
  Signatures, Public, public_start, revealed_key, segment_hashes, check_anchor, check_sealed,
  verify_signature,
}
use sovereign_ledger.Toy.Unary.{text, read_text, number}
use sovereign_ledger.Toy.World.{toy}

-- Every signature is valid.
abbrev credulous : Signatures
credulous = record {
  ed25519_key = λ k. true;
  ed25519_verify = λ k m s. true;
  base64_decode = λ s. none;
  p256_key = λ k. true;
  p256_signature = λ s. true;
  p256_verify = λ k m s. true;
}

abbrev a : Bytes
a = codes "a"

abbrev key : Bytes
key = le_bytes 32 9

abbrev stored_hash : Bytes
stored_hash = event_hash_v2 toy zero_hash 1 5 a a key

abbrev sealed_entry : Event
sealed_entry = record {
  v = 3;
  seq = 1;
  ts = 5;
  event_type = a;
  body = a;
  epoch = 0;
  prev_hash = toy.hex.encode zero_hash;
  hash = toy.hex.encode stored_hash;
}

abbrev closing : SealRecord
closing = record {
  segment = 0;
  start_seq = 1;
  end_seq = 1;
  tip_hash = toy.hex.encode stored_hash;
  merkle_root = toy.hex.encode (mth toy.sha (stored_hash ∷ []));
  revealed = (0, toy.hex.encode key) ∷ [];
  prev_seal = [];
  scheme = codes "ed25519-file";
  public_key = toy.hex.encode (le_bytes 32 1);
  signature = toy.hex.encode (le_bytes 64 1);
  payload = [];
}

abbrev open_segment : Public
open_segment = record public_start { buffer = sealed_entry ∷ [] }

accepted : check_sealed toy credulous closing open_segment ≡ ok tt
unfolding check_sealed segment_hashes revealed_key check_anchor verify_signature bytes_eq
    decode_hash event_hash event_hash_v2 message mth mth_fuel leaf_hash text read_text number
    le_bytes
accepted = refl

check_sealed_binds_example :
    AllAgree (sealed_entry ∷ []) (sealed_entry ∷ [])
    ⊎ (LeavesCollide toy.sha
          (sealed_leaves toy credulous closing open_segment)
          (sealed_leaves toy credulous closing open_segment)
        ⊎ MacCollides toy
            (segment_macs toy credulous closing
              (opening_prev toy credulous open_segment)
              (sealed_entry ∷ []))
            (segment_macs toy credulous closing
              (opening_prev toy credulous open_segment)
              (sealed_entry ∷ [])))
check_sealed_binds_example =
    check_sealed_binds toy credulous closing closing open_segment open_segment accepted accepted
      refl refl (omega arith) (modern, tt) (modern, tt)
  where
    modern : IsModern sealed_entry
    modern = record {
      v = omega arith;
      seq = omega arith;
      ts = omega arith;
      event_type = omega arith;
      body = omega arith;
    }

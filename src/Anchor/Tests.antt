-- ===== src/Anchor/Tests.antt =====
-- A checkpoint of the key file anchor, and the theorems at it.
use sovereign_ledger.Base.{◌≡◌, refl, ◌⊎◌, true, some, none, [], ◌∷◌}
use sovereign_ledger.Base.Bytes.{codes, le_bytes}
use sovereign_ledger.Event.Message.{MacCollides}
use sovereign_ledger.Anchor.{
  Checkpoint, Tip, rebuilt_payload, payload_with_root, payload_without_root, file_attest,
  file_verify,
}
use sovereign_ledger.Anchor.Binding.{file_verify-file_attest, file_verify_binds}
use sovereign_ledger.Text.{decimal, digits}
use sovereign_ledger.Toy.World.{toy}

abbrev a_tip : Tip
a_tip = record {
  tip_hash = le_bytes 32 1;
  merkle_root = le_bytes 32 2;
  entry_count = 3;
  genesis = codes "g";
}

abbrev issued : Checkpoint
issued = file_attest toy (codes "key") (codes "now") a_tip

file_verify-file_attest_example : file_verify toy (codes "key") issued ≡ true
file_verify-file_attest_example = file_verify-file_attest toy (codes "key") (codes "now") a_tip

file_verify_binds_example :
    (rebuilt_payload issued ≡ rebuilt_payload issued)
    ⊎ MacCollides toy
        ((codes "key", rebuilt_payload issued) ∷ [])
        ((codes "key", rebuilt_payload issued) ∷ [])
file_verify_binds_example =
    file_verify_binds toy (codes "key") (codes "key") issued issued file_verify-file_attest_example
      file_verify-file_attest_example refl

-- A genesis that holds quotes makes a checkpoint with a Merkle root and one without spell one payload.
abbrev plain : Checkpoint
plain = record issued {
  genesis = codes "g";
  merkle_root = some (codes "r");
  signed_at = codes "t";
  tip_hash = codes "h";
}

abbrev quoted : Checkpoint
quoted = record issued {
  genesis = codes "g\", \"merkle_root\": \"r";
  merkle_root = none;
  signed_at = codes "t";
  tip_hash = codes "h";
}

payload_shared : rebuilt_payload plain ≡ rebuilt_payload quoted
unfolding rebuilt_payload payload_with_root payload_without_root decimal digits file_attest
payload_shared = refl

-- ===== src/Ledger/ReadTests.antt =====
-- Files of a few written entries, over the stand-ins: runs of the readers, and the theorems at them.
use sovereign_ledger.Base.{
  ℕ, ◌≡◌, refl, ◌⊎◌, some, true, false, List, [], ◌∷◌, arith, take, get_elem?,
}
use sovereign_ledger.Base.Bytes.{codes, le_bytes, bytes_eq}
use sovereign_ledger.Crypto.{Bytes}
use sovereign_ledger.Crates.{Event, IsEvent}
use sovereign_ledger.Error.{ok}
use sovereign_ledger.Event.{
  zero_hash, key_new, segment_key, entry_key, event_hash, event_hash_v2, decode_hash, message,
}
use sovereign_ledger.Event.Message.{MacCollides}
use sovereign_ledger.Ledger.{Ledger, start, handle, seed_keys, open_with_seeds}
use sovereign_ledger.Ledger.Sound.{IsVerified}
use sovereign_ledger.Ledger.Opened.{verify-open_with_seeds}
use sovereign_ledger.Ledger.Authenticated.{authenticated}
use sovereign_ledger.Ledger.Binding.{IsModern, AllAgree}
use sovereign_ledger.Ledger.Entry.{entry}
use sovereign_ledger.Ledger.Proofs.{
  prove_inclusion-verify_inclusion, prove_consistency-verify_consistency,
}
use sovereign_ledger.Ledger.Read.{
  chain_start, verify, verify_items, verify_event, note_event, check_link, check_seal, dump, leaves,
  leaf_hashes, merkle_root, prove_inclusion, prove_consistency,
}
use sovereign_ledger.Ledger.Tamper.{verify_binds_tip}
use sovereign_ledger.Ledger.Written.{file_of, iter-file_of, dump-file_of}
use sovereign_ledger.Merkle.{
  InclusionProof, ConsistencyProof, mth, audit_path, consistency_proof, verify_inclusion,
  verify_consistency,
}
use sovereign_ledger.Text.{is_text, run, utf8_step, utf8_lead}
use sovereign_ledger.Toy.Unary.{text, read_text, number}
use sovereign_ledger.Toy.World.{toy}

abbrev a : Bytes
a = codes "a"

a-is_text : is_text a ≡ true
unfolding is_text run utf8_step utf8_lead
a-is_text = refl

abbrev fresh : Ledger
fresh = handle toy (seed_keys toy [] (codes "seed" ∷ [])) start

-- The entry that `append` writes first.
abbrev first : Event
first =
    entry toy 5 a a fresh (
      event_hash_v2 toy zero_hash 1 5 a a
        (segment_key toy (key_new toy [] (some (codes "seed"))) 0))

first-IsEvent : IsEvent first
first-IsEvent = record {
  v = omega arith;
  seq = omega arith;
  ts = omega arith;
  event_type = a-is_text;
  body = a-is_text;
  epoch = omega arith;
  prev_hash = toy.hex.encode-is_text _;
  hash = toy.hex.encode-is_text _;
}

abbrev one_entry : Bytes
one_entry = file_of toy (first ∷ [])

dump-file_of_example : dump toy (some one_entry) ≡ ok (first ∷ [])
dump-file_of_example = dump-file_of toy (first ∷ []) (first-IsEvent, tt)

one_verifies : verify toy fresh (some one_entry) ≡ ok tt
unfolding verify verify_items verify_event note_event check_link check_seal bytes_eq decode_hash
    entry_key event_hash event_hash_v2 seed_keys key_new segment_key message text read_text number
    le_bytes
one_verifies = rw (iter-file_of toy (first ∷ []) (first-IsEvent, tt)) refl

verify-open_with_seeds_example :
    (h : Ledger) × (open_with_seeds toy (codes "drawn") (codes "seed" ∷ []) (some one_entry) ≡ ok h)
    × (h.compromised ≡ false)
    × (h.seq ≡ 1)
    × IsVerified toy h (some one_entry)
unfolding seed_keys key_new
verify-open_with_seeds_example =
    verify-open_with_seeds toy fresh (codes "drawn") (codes "seed" ∷ []) (first ∷ [])
      (first-IsEvent, tt) (omega arith) refl one_verifies

verify_binds_tip_example :
    AllAgree (first ∷ []) (first ∷ [])
    ⊎ MacCollides toy
        (authenticated toy fresh.keys 0 (first ∷ []) chain_start)
        (authenticated toy fresh.keys 0 (first ∷ []) chain_start)
verify_binds_tip_example =
    verify_binds_tip toy fresh fresh one_entry one_entry (first ∷ []) (first ∷ []) one_verifies
      one_verifies dump-file_of_example dump-file_of_example (modern, tt) (modern, tt) refl refl
  where
    modern : IsModern first
    modern = record {
      v = omega arith;
      seq = omega arith;
      ts = omega arith;
      event_type = omega arith;
      body = omega arith;
    }

-- Entries as far as the readers of hashes look at them.
abbrev stored : ℕ → Event
stored i = record first { hash = toy.hex.encode (le_bytes 32 i) }

stored-IsEvent : (i : ℕ) → IsEvent (stored i)
stored-IsEvent i = record {
  v = omega arith;
  seq = omega arith;
  ts = omega arith;
  event_type = a-is_text;
  body = a-is_text;
  epoch = omega arith;
  prev_hash = toy.hex.encode-is_text _;
  hash = toy.hex.encode-is_text _;
}

abbrev two : List Event
two = stored 1 ∷ stored 2 ∷ []

abbrev three : List Event
three = stored 1 ∷ stored 2 ∷ stored 3 ∷ []

abbrev three_leaves : List Bytes
three_leaves = le_bytes 32 1 ∷ le_bytes 32 2 ∷ le_bytes 32 3 ∷ []

two_read : leaf_hashes toy (some (file_of toy two)) ≡ ok (take 2 three_leaves)
unfolding leaf_hashes leaves decode_hash text read_text number le_bytes
two_read = rw (iter-file_of toy two (stored-IsEvent 1, (stored-IsEvent 2, tt))) refl

three_read : leaf_hashes toy (some (file_of toy three)) ≡ ok three_leaves
unfolding leaf_hashes leaves decode_hash text read_text number le_bytes
three_read =
    rw (iter-file_of toy three (stored-IsEvent 1, (stored-IsEvent 2, (stored-IsEvent 3, tt)))) refl

abbrev second_proof : InclusionProof
second_proof = record { index = 1; tree_size = 3; path = audit_path toy.sha 1 three_leaves }

second_given : prove_inclusion toy 2 (some (file_of toy three)) ≡ ok second_proof
unfolding prove_inclusion
second_given = rw three_read refl

root_given : merkle_root toy (some (file_of toy three)) ≡ ok (mth toy.sha three_leaves)
unfolding merkle_root
root_given = rw three_read refl

prove_inclusion-verify_inclusion_example :
    (leaf : Bytes) × (get_elem? three_leaves 1 ≡ some leaf)
    × (verify_inclusion toy.sha second_proof leaf (mth toy.sha three_leaves) ≡ ok tt)
prove_inclusion-verify_inclusion_example =
    prove_inclusion-verify_inclusion toy (some (file_of toy three)) three_leaves three_read
      (omega arith) 2 second_proof (mth toy.sha three_leaves) second_given root_given

abbrev older_proof : ConsistencyProof
older_proof = record {
  old_size = 2;
  new_size = 3;
  nodes = consistency_proof toy.sha 2 three_leaves;
}

older_given : prove_consistency toy 2 (some (file_of toy three)) ≡ ok older_proof
unfolding prove_consistency
older_given = rw three_read refl

old_root_given : merkle_root toy (some (file_of toy two)) ≡ ok (mth toy.sha (take 2 three_leaves))
unfolding merkle_root
old_root_given = rw two_read refl

prove_consistency-verify_consistency_example :
    verify_consistency toy.sha older_proof
      (mth toy.sha (take 2 three_leaves))
      (mth toy.sha three_leaves)
    ≡ ok tt
prove_consistency-verify_consistency_example =
    prove_consistency-verify_consistency toy (some (file_of toy three)) three_leaves three_read
      (omega arith) (some (file_of toy two)) 2 older_proof (mth toy.sha (take 2 three_leaves))
      (mth toy.sha three_leaves) two_read old_root_given older_given root_given

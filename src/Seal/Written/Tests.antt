-- ===== src/Seal/Written/Tests.antt =====
-- A ledger with one entry that is sealed, over the stand-ins.
use sovereign_ledger.Base.{[], ℕ, ◌≡◌, ◌⊎◌, refl, ap, ◌+◌, Option, none, some, arith}
use sovereign_ledger.Base.Bytes.{codes, bytes_eq, le_bytes}
use sovereign_ledger.Crypto.{Bytes}
use sovereign_ledger.Error.{Result, ok}
use sovereign_ledger.Event.{entry_key, event_hash_v2, decode_hash, segment_key, key_new, message}
use sovereign_ledger.Ledger.{File, Ledger, seed_keys}
use sovereign_ledger.Ledger.Close.{
  seal, seal_segment, gather, gather_event, gather_epoch, insert_epoch,
}
use sovereign_ledger.Ledger.OneEntry.{after_reads}
use sovereign_ledger.Ledger.Tests.{seeds, a, a-is_text, a_plain, after}
use sovereign_ledger.Ledger.Write.{healthy, contents, next_entry, append, write_line}
use sovereign_ledger.Merkle.{mth, mth_fuel}
use sovereign_ledger.Seal.{sign_record}
use sovereign_ledger.Seal.Public.{verify_public}
use sovereign_ledger.Seal.Written.Closing.{identity}
use sovereign_ledger.Seal.Written.Grown.{Grown, opened, appended, sealed, verify_public-Grown}
use sovereign_ledger.Seal.Written.Published.{Identity}
use sovereign_ledger.Toy.Outside.{toy_signatures, toy_ed25519}
use sovereign_ledger.Toy.World.{toy}
use sovereign_ledger.Anchor.Ed25519.{ed25519_signer, ed25519_sign, public_key_hex}

abbrev seed : Bytes
seed = codes "s"

abbrev sealing : Result (Option ℕ) × Ledger × File
sealing = seal toy 6 healthy (ed25519_signer toy toy_signatures toy_ed25519 seed) after.1 after.2

seals : sealing.0 ≡ ok (some 2)
unfolding seal seal_segment gather gather_event gather_epoch insert_epoch append next_entry
    write_line entry_key event_hash_v2 seed_keys decode_hash sign_record segment_key key_new message
    le_bytes bytes_eq public_key_hex ed25519_sign mth mth_fuel
seals = rw after_reads refl

sealing_is :
    seal toy 6 healthy (ed25519_signer toy toy_signatures toy_ed25519 seed) after.1 after.2
    ≡ (ok (some 2), sealing.1, sealing.2)
sealing_is = ap (λ t. (t, sealing.1, sealing.2)) seals

grown : Grown toy toy_signatures toy_ed25519 seed sealing.1 sealing.2
grown =
    sealed 6 (some 2) (omega arith) sealing_is
      (appended 5 a a (omega arith) a-is_text a-is_text a_plain (opened [] seeds))

verify_public-Grown_example :
    (unsealed : ℕ) × (anchor : Option Identity) × (verify_public toy toy_signatures
        (contents sealing.2)
      ≡ ok (record {
        sealed_entries = sealing.1.sealed_through;
        unsealed_entries = unsealed;
        segments = sealing.1.seals_seen;
        anchor_id = anchor;
      }))
    × (sealing.1.sealed_through + unsealed ≡ sealing.1.seq)
    × ((anchor ≡ none) ⊎ (anchor ≡ some (identity toy toy_signatures toy_ed25519 seed)))
verify_public-Grown_example =
    verify_public-Grown toy toy_signatures toy_ed25519 seed sealing.1 sealing.2 grown

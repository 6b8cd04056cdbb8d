-- ===== src/Seal/Written/Record.antt =====
-- The record of a seal that src/lib.rs signs with an Ed25519 key fits the Rust type, and its signature
-- verifies.
use sovereign_ledger.Base.{ℕ, ◌^◌, ◌<◌, ◌≡◌, refl, true, List, [], ◌∷◌, All, length, ◌==◌}
use sovereign_ledger.Base.Bytes.{codes, bytes_eq_self}
use sovereign_ledger.Crypto.{Bytes}
use sovereign_ledger.Crates.{Crates, SealRecord, IsSeal, IsAscending}
use sovereign_ledger.Error.{ok}
use sovereign_ledger.Seal.{revealed_pair, revealed_text, seal_payload, sign_record}
use sovereign_ledger.Seal.Public.{Signatures, verify_signature}
use sovereign_ledger.Text.{is_text, decimal}
use sovereign_ledger.Text.Ascii.{literal-is_text, is_text-append, decimal-is_text}
use sovereign_ledger.Anchor.Ed25519.{
  Ed25519, ed25519_scheme, ed25519_sign, public_key_hex, ed25519_signer,
}

revealed_pair-is_text :
    (e : ℕ) (k : Bytes) → is_text k ≡ true → is_text (revealed_pair (e, k)) ≡ true
unfolding revealed_pair
revealed_pair-is_text e k h = is_text-append (codes "\"") _ (literal-is_text _ refl) (
    is_text-append (decimal e) _ (decimal-is_text e) (
      is_text-append (codes "\": \"") _ (literal-is_text _ refl)
        (is_text-append k _ h (literal-is_text _ refl))))

revealed_text-is_text :
    (ps : List (ℕ × Bytes)) → All (λ p. is_text p.1 ≡ true) ps → is_text (revealed_text ps) ≡ true
unfolding revealed_text
revealed_text-is_text [] h = literal-is_text [] refl
revealed_text-is_text ((e, k) ∷ []) (h, hs) = revealed_pair-is_text e k h
revealed_text-is_text ((e, k) ∷ q ∷ ps) (h, hs) =
    is_text-append (revealed_pair (e, k)) _ (revealed_pair-is_text e k h)
      (is_text-append (codes ", ") _ (literal-is_text _ refl) (revealed_text-is_text (q ∷ ps) hs))

seal_payload-is_text :
    (r : SealRecord)
    → is_text r.merkle_root ≡ true
    → is_text r.tip_hash ≡ true
    → All (λ p. is_text p.1 ≡ true) r.revealed
    → is_text (seal_payload r) ≡ true
unfolding seal_payload
seal_payload-is_text r hm ht hr =
    is_text-append (codes "{\"end_seq\": ") _ (literal-is_text _ refl) (
      is_text-append (decimal r.end_seq) _ (decimal-is_text r.end_seq) (
        is_text-append (codes ", \"merkle_root\": \"") _ (literal-is_text _ refl) (
          is_text-append r.merkle_root _ hm (
            is_text-append (codes "\", \"revealed\": {") _ (literal-is_text _ refl) (
              is_text-append (revealed_text r.revealed) _ (revealed_text-is_text r.revealed hr) (
                is_text-append (codes "}, \"segment\": ") _ (literal-is_text _ refl) (
                  is_text-append (decimal r.segment) _ (decimal-is_text r.segment) (
                    is_text-append (codes ", \"start_seq\": ") _ (literal-is_text _ refl) (
                      is_text-append (decimal r.start_seq) _ (decimal-is_text r.start_seq) (
                        is_text-append (codes ", \"tip_hash\": \"") _ (literal-is_text _ refl)
                          (is_text-append r.tip_hash _ ht (literal-is_text _ refl))))))))))))

all_texts :
    (ps : List (ℕ × Bytes))
    → All (λ p. (p.0 < 2 ^ 32) × (is_text p.1 ≡ true)) ps
    → All (λ p. is_text p.1 ≡ true) ps
all_texts [] h = tt
all_texts (p ∷ ps) (h, hs) = (h.1, all_texts ps hs)

-- The record with its payload and signature, as `sign_record` leaves it.
abbrev pub signed : SealRecord → Bytes → SealRecord
signed r sig = record r { payload = seal_payload r; signature = sig }

module _ (w : Crates) (g : Signatures) (d : Ed25519 g) (seed : Bytes) where
  pub sign_record-signed :
      (r : SealRecord)
      → sign_record r (ed25519_signer w g d seed)
        ≡ ok (signed r (ed25519_sign w g d seed (seal_payload r)))
  unfolding sign_record
  sign_record-signed r = refl

  -- A signature over the payload verifies as the public verifier checks it.
  pub verify_signature-ed25519 :
      (payload : Bytes)
      → verify_signature w g ed25519_scheme
          (public_key_hex w g d seed)
          (ed25519_sign w g d seed payload)
          payload
        ≡ ok true
  unfolding verify_signature public_key_hex ed25519_sign
  verify_signature-ed25519 payload =
      let key_size : (length (d.verifying_key seed) == 32) ≡ true =
        rw (d.length-verifying_key seed) refl in
      let sig_size : (length (d.sign seed payload) == 64) ≡ true =
        rw (d.length-sign seed payload) refl in
      rw
        (
          bytes_eq_self ed25519_scheme,
          w.hex.decode-encode _ (d.verifying_key-IsBytes seed),
          key_size,
          d.verifying_key-accepted seed,
          w.hex.decode-encode _ (d.sign-IsBytes seed payload),
          sig_size,
          d.sign-verifies seed payload,
        )
        refl

  pub signed-IsSeal :
      (r : SealRecord)
      → r.segment < 2 ^ 64
      → r.start_seq < 2 ^ 64
      → r.end_seq < 2 ^ 64
      → is_text r.tip_hash ≡ true
      → is_text r.merkle_root ≡ true
      → All (λ p. (p.0 < 2 ^ 32) × (is_text p.1 ≡ true)) r.revealed
      → IsAscending r.revealed
      → is_text r.prev_seal ≡ true
      → r.scheme ≡ ed25519_scheme
      → r.public_key ≡ public_key_hex w g d seed
      → IsSeal (signed r (ed25519_sign w g d seed (seal_payload r)))
  unfolding public_key_hex ed25519_sign
  signed-IsSeal r hs hb he ht hm hr ha hp sc pk = record {
    segment = hs;
    start_seq = hb;
    end_seq = he;
    tip_hash = ht;
    merkle_root = hm;
    revealed = hr;
    ascending = ha;
    prev_seal = hp;
    scheme = rw sc (literal-is_text ed25519_scheme refl);
    public_key = rw pk (w.hex.encode-is_text (d.verifying_key seed));
    signature = w.hex.encode-is_text (d.sign seed (seal_payload r));
    payload = seal_payload-is_text r hm ht (all_texts r.revealed hr);
  }

-- ===== src/Anchor/Roundtrip.antt =====
-- What an anchor of src/anchor.rs attests, the same anchor verifies: for the three of them.
use sovereign_ledger.Base.{◌≡◌, refl, ap, true, Bool-cases, inl, inr, some, subst, length, ◌==◌}
use sovereign_ledger.Base.Bytes.{codes, bytes_eq_self, is_empty}
use sovereign_ledger.Crypto.{Bytes}
use sovereign_ledger.Crates.{Crates}
use sovereign_ledger.Error.{ok, returned, ok-injective}
use sovereign_ledger.Seal.Public.{Signatures}
use sovereign_ledger.Anchor.{
  Anchor, Checkpoint, Tip, rebuilt_payload, issued_checkpoint, canonical_payload,
  checkpoint_payload, payload_binds_fields,
}
use sovereign_ledger.Anchor.Agent.{
  Agent, verify_message, call, agent_public_key, agent_sign, agent_attest, agent_verify,
  agent_anchor,
}
use sovereign_ledger.Anchor.Binding.{file_verify-file_attest}
use sovereign_ledger.Anchor.Ed25519.{
  Ed25519, ed25519_scheme, public_key_hex, ed25519_sign, ed25519_attest, ed25519_verify,
  ed25519_anchor,
}
use sovereign_ledger.Anchor.KeyFile.{file_key_anchor}

-- The checkpoints of an anchor pass its own verification.
abbrev pub IsSound : Anchor → Type 0
IsSound a = (tip : Tip) (c : Checkpoint) → a.attest tip ≡ ok c → a.verify c ≡ ok true

-- An agent that accepts a signature it has given, under the public key it has given.
pub record IsHonest (a : Agent) : Type 0 where
  pub accepts :
      (m sig key : Bytes)
      → agent_sign a m ≡ ok sig
      → agent_public_key a ≡ ok key
      → (r : a.Value) × (call a (verify_message m sig key) ≡ ok r)
        × (a.get_bool (codes "valid") r ≡ some true)

module _ (w : Crates) where
  -- A checkpoint just issued stores the payload that its fields spell.
  issued-binds :
      (tip : Tip) (signed_at scheme key sig : Bytes)
      → (payload_binds_fields (issued_checkpoint w tip signed_at scheme key sig) ≡ true)
        × (checkpoint_payload (issued_checkpoint w tip signed_at scheme key sig)
            ≡ canonical_payload w tip signed_at)
  unfolding payload_binds_fields checkpoint_payload rebuilt_payload canonical_payload
  issued-binds tip signed_at scheme key sig =
      let p = canonical_payload w tip signed_at in
      elim (Bool-cases (is_empty p)) [
        | inl e ↦ (rw e refl, rw e refl)
        | inr e ↦ (rw (e, bytes_eq_self p) refl, rw e refl)
      ]

  pub file_key_anchor-IsSound : (signed_at key : Bytes) → IsSound (file_key_anchor w signed_at key)
  file_key_anchor-IsSound signed_at key tip c h =
      subst (λ t. (file_key_anchor w signed_at key).verify t ≡ ok true) (ok-injective _ c h)
        (ap ok (file_verify-file_attest w key signed_at tip))

  pub agent_anchor-IsSound :
      (a : Agent) (signed_at : Bytes) → IsHonest a → IsSound (agent_anchor a w signed_at)
  unfolding agent_attest agent_verify
  agent_anchor-IsSound a signed_at honest tip c h =
      let (sig, p, h) = returned (agent_sign a _) _ c h in
      let (key, q, h) = returned (agent_public_key a) _ c h in
      let issued = issued_checkpoint w tip signed_at (codes "secure-enclave") key sig in
      let (b, same) = issued-binds tip signed_at (codes "secure-enclave") key sig in
      let (r, said, valid) = honest.accepts _ sig key p q in
      let accepted : agent_verify a issued ≡ ok true = rw (b, same, said, valid) refl in
      subst (λ t. agent_verify a t ≡ ok true) (ok-injective issued c h) accepted

  module _ (g : Signatures) (d : Ed25519 g) where
    pub ed25519_anchor-IsSound :
        (signed_at seed : Bytes) → IsSound (ed25519_anchor w g d signed_at seed)
    unfolding ed25519_attest ed25519_verify ed25519_sign
    ed25519_anchor-IsSound signed_at seed tip c h =
        let m = canonical_payload w tip signed_at in
        let issued =
          issued_checkpoint w tip signed_at ed25519_scheme (public_key_hex w g d seed)
            (w.hex.encode (d.sign seed m)) in
        let (b, same) =
          issued-binds tip signed_at ed25519_scheme (public_key_hex w g d seed)
            (w.hex.encode (d.sign seed m)) in
        let size : (length (d.sign seed m) == 64) ≡ true = rw (d.length-sign seed m) refl in
        let accepted : ed25519_verify w g d seed issued ≡ ok true =
          rw
            (
              bytes_eq_self ed25519_scheme,
              b,
              w.hex.decode-encode _ (d.sign-IsBytes seed m),
              size,
              same,
              d.sign-verifies seed m,
            )
            refl in
        subst (λ t. ed25519_verify w g d seed t ≡ ok true) (ok-injective issued c h) accepted

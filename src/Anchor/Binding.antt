-- ===== src/Anchor/Binding.antt =====
-- The checkpoints of src/anchor.rs: what is attested verifies, and what verifies was signed over the
-- payload that the checkpoint's own fields spell.
use sovereign_ledger.Base.{
  ◌≡◌, refl, sym, ◌∙◌, ap, true, Bool-cases, ◌⊎◌, inl, inr, [], ◌∷◌, arith, subst, some-injective,
}
use sovereign_ledger.Base.Bytes.{
  bytes_eq, bytes_eq_self, bytes_eq_iff, bytes_eq→eq, bytes-cases, is_empty,
}
use sovereign_ledger.Crypto.{Bytes, here}
use sovereign_ledger.Crates.{Crates}
use sovereign_ledger.Event.Message.{MacCollides}
use sovereign_ledger.Anchor.{
  Checkpoint, Tip, rebuilt_payload, checkpoint_payload, payload_binds_fields, canonical_payload,
  file_mac, file_attest, file_verify,
}

-- Whatever is stored, the payload that is verified is the one that the fields spell.
checkpoint_payload-bound :
    (c : Checkpoint) → payload_binds_fields c ≡ true → checkpoint_payload c ≡ rebuilt_payload c
unfolding payload_binds_fields checkpoint_payload
checkpoint_payload-bound c h = elim (Bool-cases (is_empty c.payload)) [
  | inl e ↦ rw e refl
  | inr e ↦ rw e (ground (arith, bytes_eq_iff c.payload (rebuilt_payload c)))
]

module _ (w : Crates) where
  -- A checkpoint that `attest` issues verifies under the key that issued it.
  pub file_verify-file_attest :
      (key signed_at : Bytes) (tip : Tip)
      → file_verify w key (file_attest w key signed_at tip) ≡ true
  unfolding file_verify file_attest payload_binds_fields checkpoint_payload canonical_payload
      rebuilt_payload
  file_verify-file_attest key signed_at tip =
      let p = canonical_payload w tip signed_at in
      elim (Bool-cases (is_empty p)) [
        | inl e ↦ rw (e, bytes_eq_self (file_mac w key p)) refl
        | inr e ↦ rw (e, bytes_eq_self p, bytes_eq_self (file_mac w key p)) refl
      ]

  verified :
      (key : Bytes) (c : Checkpoint)
      → file_verify w key c ≡ true
      → (payload_binds_fields c ≡ true) × (file_mac w key (rebuilt_payload c) ≡ c.signature)
  unfolding file_verify
  verified key c h = elim (Bool-cases (payload_binds_fields c)) [
    | inl e ↦ (
      e,
      bytes_eq→eq _ _ (
          subst (λ t. bytes_eq (file_mac w key t) c.signature ≡ true) (checkpoint_payload-bound c e)
            (rw e at h)),
    )
    | inr e ↦ absurd (ground arith)
  ]

  -- Two checkpoints that verify under whatever keys with one signature spell one payload, or
  -- else the payloads that they spell differ and have one MAC under the two keys.
  pub file_verify_binds :
      (key key' : Bytes) (c d : Checkpoint)
      → file_verify w key c ≡ true
      → file_verify w key' d ≡ true
      → c.signature ≡ d.signature
      → (rebuilt_payload c ≡ rebuilt_payload d)
        ⊎ MacCollides w ((key, rebuilt_payload c) ∷ []) ((key', rebuilt_payload d) ∷ [])
  unfolding file_mac
  file_verify_binds key key' c d h k e =
      let (b, p) = verified key c h in
      let (b', q) = verified key' d k in
      let m = w.hmac.mac-IsDigest key (rebuilt_payload c) in
      let n = w.hmac.mac-IsDigest key' (rebuilt_payload d) in
      let same =
        some-injective (w.hmac.mac key (rebuilt_payload c)) (w.hmac.mac key' (rebuilt_payload d)) (
          sym (w.hex.decode-encode _ m.bytes)
          ∙ ap w.hex.decode (p ∙ e ∙ sym q)
          ∙ w.hex.decode-encode _ n.bytes) in
      elim (bytes-cases (rebuilt_payload c) (rebuilt_payload d)) [
        | inl r ↦ inl r
        | inr differ ↦ inr (here differ same)
      ]

-- ===== src/Seal/Binding.antt =====
-- What `verify_public` of src/seal.rs accepts as a sealed segment is bound by the Merkle root that the
-- seal's signature covers.
use sovereign_ledger.Base.{
  ◌+◌, ◌-◌, ◌%◌, ◌^◌, ◌≡◌, ◌≤◌, sym, ◌∙◌, ap, Bool-cases, Option-cases, not, ◌||◌, ◌⊎◌, inl, inr,
  some-injective, List, [], arith, length, ◌==◌,
}
use sovereign_ledger.Base.Bytes.{bytes_eq, bytes_eq_iff, is_empty}
use sovereign_ledger.Crypto.{Bytes, hash_size}
use sovereign_ledger.Crates.{Crates, SealRecord}
use sovereign_ledger.Error.{
  given, Error, Result, ok, err, returned, fail_if-then, ok-injective, ok_or,
}
use sovereign_ledger.Event.{decode_hash}
use sovereign_ledger.Event.Message.{MacCollides}
use sovereign_ledger.Ledger.Binding.{AllAgree, AllModern}
use sovereign_ledger.Merkle.{mth}
use sovereign_ledger.Merkle.Inclusion.{mth-IsDigest}
use sovereign_ledger.Merkle.Root.{LeavesCollide, mth_binds}
use sovereign_ledger.Merkle.Split.{max_size}
use sovereign_ledger.Seal.Public.{Signatures, Public, segment_hashes, check_sealed, first_prev}
use sovereign_ledger.Seal.Segment.{or_empty, segment_macs, length-segment_hashes, segment-binds}

module _ (w : Crates) (g : Signatures) where
  decoded_size :
      (x : Bytes) (e : Error) (prev : Bytes)
      → ok_or (decode_hash w x) e ≡ ok prev
      → length prev ≡ hash_size
  unfolding decode_hash
  decoded_size x e prev h = elim (Option-cases (w.hex.decode x)) [
    | inl n ↦ absurd (not_ok e prev (rw n at h))
    | inr (v, q) ↦ elim (Bool-cases (length v == hash_size)) [
      | inl t ↦
          let l : length v ≡ hash_size = ground arith in
          sym (ap length (ok-injective v prev (rw (q, t) at h))) ∙ l
      | inr t ↦ absurd (not_ok e prev (rw (q, t) at h))
    ]
  ]
    where
      not_ok : (e : Error) (p : Bytes) → err e ≡ ok p → ⊥
      not_ok e p h = ground arith

  -- The hash that the first entry of a segment follows.
  unfoldable pub opening_prev : Public → Bytes
  opening_prev s = or_empty (decode_hash w (first_prev s.buffer))

  abbrev computed : Result (List Bytes) → List Bytes
  computed (err e) = []
  computed (ok hashes) = hashes

  -- The hashes over which the root of a segment is computed.
  unfoldable pub sealed_leaves : SealRecord → Public → List Bytes
  sealed_leaves seal s = computed (segment_hashes w g seal (opening_prev s) s.buffer)

  -- The hashes that an accepted segment has, and its root.
  accepted :
      (seal : SealRecord) (s : Public)
      → check_sealed w g seal s ≡ ok tt
      → (length (opening_prev s) ≡ hash_size)
        × (segment_hashes w g seal (opening_prev s) s.buffer ≡ ok (sealed_leaves seal s))
        × (w.hex.encode (mth w.sha (sealed_leaves seal s)) ≡ seal.merkle_root)
  unfolding check_sealed opening_prev sealed_leaves
  accepted seal s h =
      let (t1, h) = fail_if-then (not (seal.segment == s.seals_seen)) _ _ h in
      let (t2, h) = fail_if-then (not (bytes_eq seal.prev_seal s.prev_seal_hash)) _ _ h in
      let (t3, h) =
        fail_if-then
          (is_empty s.buffer
            || not (seal.start_seq == s.segment_start)
            || not (seal.end_seq == (s.segment_start + length s.buffer - 1) % 2 ^ 64))
          _ _ h in
      let (prev, p, h) = returned (ok_or (decode_hash w (first_prev s.buffer)) _) _ tt h in
      let (leaves, q, h) = returned (segment_hashes w g seal prev s.buffer) _ tt h in
      let (t4, h) =
        fail_if-then (not (bytes_eq (w.hex.encode (mth w.sha leaves)) seal.merkle_root)) _ _ h in
      let root : w.hex.encode (mth w.sha leaves) ≡ seal.merkle_root =
        ground (arith, bytes_eq_iff (w.hex.encode (mth w.sha leaves)) seal.merkle_root) in
      let begins = given (decode_hash w (first_prev s.buffer)) _ prev p in
      let opens : opening_prev s ≡ prev = ap or_empty begins in
      let sealed : sealed_leaves seal s ≡ leaves =
        ap (λ t. computed (segment_hashes w g seal t s.buffer)) opens ∙ ap computed q in
      (
        ap length opens ∙ decoded_size (first_prev s.buffer) _ prev p,
        ap (λ t. segment_hashes w g seal t s.buffer) opens ∙ q ∙ ap ok (sym sealed),
        ap (λ t. w.hex.encode (mth w.sha t)) sealed ∙ root,
      )

  same_root :
      (a b : List Bytes)
      → w.hex.encode (mth w.sha a) ≡ w.hex.encode (mth w.sha b)
      → mth w.sha a ≡ mth w.sha b
  same_root a b e = some-injective (mth w.sha a) (mth w.sha b) (
      sym (w.hex.decode-encode _ (mth-IsDigest w.sha a).bytes)
      ∙ ap w.hex.decode e
      ∙ w.hex.decode-encode _ (mth-IsDigest w.sha b).bytes)

  -- Two segments that `verify_public` accepts under seals with one Merkle root, whoever signed them and
  -- whatever keys they disclose, agree entry by entry, when they have as many entries, up to 2 ^ 63; or
  -- else a pair that differs and has one digest stands at one place among the messages that prove a leaf
  -- of one root and those that prove the leaf at that index of the other, or a pair that differs and has
  -- one MAC at one place among the messages that are recomputed for the two segments. Entries of
  -- version 1 and event types of 4 GiB are left out.
  pub check_sealed_binds :
      (seal seal' : SealRecord) (s s' : Public)
      → check_sealed w g seal s ≡ ok tt
      → check_sealed w g seal' s' ≡ ok tt
      → seal.merkle_root ≡ seal'.merkle_root
      → length s.buffer ≡ length s'.buffer
      → length s.buffer ≤ max_size
      → AllModern s.buffer
      → AllModern s'.buffer
      → AllAgree s.buffer s'.buffer
        ⊎ (LeavesCollide w.sha (sealed_leaves seal s) (sealed_leaves seal' s')
            ⊎ MacCollides w
                (segment_macs w g seal (opening_prev s) s.buffer)
                (segment_macs w g seal' (opening_prev s') s'.buffer))
  check_sealed_binds seal seal' s s' h k same n small m m' =
      let (p, q, r) = accepted seal s h in
      let (p', q', r') = accepted seal' s' k in
      let a = sealed_leaves seal s in
      let b = sealed_leaves seal' s' in
      let la = length-segment_hashes w g seal _ s.buffer a q in
      let lb = length-segment_hashes w g seal' _ s'.buffer b q' in
      elim (mth_binds w.sha a b (la ∙ n ∙ sym lb) (omega (arith, la, small))
        (same_root a b (r ∙ same ∙ sym r'))) [
          | inl leaves ↦
              elim (segment-binds w g seal seal' _ _ s.buffer s'.buffer a b m m' p p' q q' leaves) [
                | inl agree ↦ inl agree
                | inr z ↦ inr (inr z)
              ]
          | inr c ↦ inr (inl c)
        ]

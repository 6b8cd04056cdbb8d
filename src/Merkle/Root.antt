-- ===== src/Merkle/Root.antt =====
-- The root that `mth` of src/merkle.rs computes binds the leaves.
use sovereign_ledger.Base.{
  ℕ, suc, ◌≡◌, ◌≤◌, refl, ◌⊎◌, inl, inr, some, List, [], ◌∷◌, arith, length, get_elem?,
  some-injective, subst,
}
use sovereign_ledger.Crypto.{Bytes, Sha256, ShaCollides}
use sovereign_ledger.Error.{ok}
use sovereign_ledger.Merkle.{mth, verify_inclusion}
use sovereign_ledger.Merkle.Split.{max_size}
use sovereign_ledger.Merkle.Hashed.{inclusion_messages}
use sovereign_ledger.Merkle.Inclusion.{
  inclusion_proof, audit_path-IsDigest, verify_inclusion-audit_path, verify_inclusion_sound,
}

module _ (sha : Sha256) where
  -- At a leaf that two trees have at one index, the messages of their proofs collide.
  abbrev pub LeavesCollide : List Bytes → List Bytes → Type 0
  LeavesCollide d e =
      (i : ℕ) × (x : Bytes) × (y : Bytes) × (get_elem? d i ≡ some x)
      × (get_elem? e i ≡ some y)
      × ShaCollides sha (inclusion_messages sha (inclusion_proof sha i d) x)
          (inclusion_messages sha (inclusion_proof sha i e) y)

  -- A leaf of one tree stands at its index in any other tree of the size with the root.
  same_leaf :
      (d e : List Bytes) (i : ℕ) (x : Bytes)
      → length d ≡ length e
      → length d ≤ max_size
      → mth sha d ≡ mth sha e
      → get_elem? d i ≡ some x
      → (get_elem? e i ≡ some x) ⊎ LeavesCollide d e
  unfolding inclusion_proof
  same_leaf d e i x n small q h =
      elim (verify_inclusion_sound sha (inclusion_proof sha i d) e x n (omega (arith, n, small))
        (audit_path-IsDigest sha i d)
        (subst (λ r. verify_inclusion sha (inclusion_proof sha i d) x r ≡ ok tt) q
          (verify_inclusion-audit_path sha i d x small h))) [
            | inl (p, t) ↦ inl p
            | inr (y, k, c) ↦ inr (i, x, y, h, k, c)
          ]

  same_leaves :
      (P : Type 0) (ds es : List Bytes)
      → length ds ≡ length es
      → ((i : ℕ) (x : Bytes) → get_elem? ds i ≡ some x → (get_elem? es i ≡ some x) ⊎ P)
      → (ds ≡ es) ⊎ P
  same_leaves P [] [] n f = inl refl
  same_leaves P [] (y ∷ es) n f = absurd (omega arith)
  same_leaves P (x ∷ ds) [] n f = absurd (omega arith)
  same_leaves P (x ∷ ds) (y ∷ es) n f = elim (f 0 x refl) [
    | inl p ↦ elim (same_leaves P ds es (omega arith) (λ i z h. f (suc i) z h)) [
      | inl q ↦ let r = some-injective y x p in inl (cc (q, r))
      | inr c ↦ inr c
    ]
    | inr c ↦ inr c
  ]

  -- Two slices of one length, up to 2 ^ 63, with one root are one slice; or else at some index the
  -- messages that `InclusionProof::verify` hashes for the leaf of one, and those for the leaf of the other,
  -- have at one place a pair that differs and has one SHA-256 digest.
  pub mth_binds :
      (d e : List Bytes)
      → length d ≡ length e
      → length d ≤ max_size
      → mth sha d ≡ mth sha e
      → (d ≡ e) ⊎ LeavesCollide d e
  mth_binds d e n small q =
      same_leaves (LeavesCollide d e) d e n (λ i x h. same_leaf d e i x n small q h)

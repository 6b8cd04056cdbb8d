-- ===== src/Merkle/Consistency/Sound.antt =====
-- What `ConsistencyProof::verify` of src/merkle.rs accepts binds the older root.
use sovereign_ledger.Base.{
  ℕ, ◌-◌, ◌^◌, ◌≤◌, ◌<◌, ◌≡◌, refl, sym, ◌∙◌, ap, subst, ◌⊎◌, inl, inr, true, false, List, [], ◌∷◌,
  arith, length, All, take, take_all, Bool-cases, ◌==◌, if◌then◌else◌,
}
use sovereign_ledger.Base.Bytes.{bytes_eq_iff, is_empty}
use sovereign_ledger.Base.Bits.{shr}
use sovereign_ledger.Crypto.{Bytes, Sha256, IsDigest, ShaCollides}
use sovereign_ledger.Error.{ok}
use sovereign_ledger.Merkle.{
  ConsistencyProof, mth, consistency_proof, seed_and_rest, split_first, verify_consistency,
}
use sovereign_ledger.Merkle.Split.{max_size}
use sovereign_ledger.Merkle.Binding.{walk-binds}
use sovereign_ledger.Base.Bits.Shift.{trailing_zeros-IsOddMultiple}
use sovereign_ledger.Merkle.Hashed.{walk_messages, consistency_messages}
use sovereign_ledger.Merkle.Consistency.Complete.{found}
use sovereign_ledger.Merkle.Opening.{opening}
use sovereign_ledger.Merkle.Consistency.{
  extension_proof, IsSized-exists, nodes_of, subproof-IsDigest,
}
use sovereign_ledger.Merkle.Sizes.{IsSized, positive, pow2_test, old_digits}
use sovereign_ledger.Merkle.Chains.{Rebuilds, rebuilds→}

module _ (sha : Sha256) where
  -- The verifier's seed and nodes are digests, and give the proof's nodes back.
  nodes_found :
      (m s a : ℕ) (nodes : List Bytes) (old : Bytes)
      → (m == 2 ^ s) ≡ (a == 0)
      → is_empty nodes ≡ false
      → nodes ≡ (
          if a == 0
          then (seed_and_rest m s nodes old).1
          else (seed_and_rest m s nodes old).0 ∷ (seed_and_rest m s nodes old).1)
  unfolding seed_and_rest split_first
  nodes_found m s a [] old e h = ground arith
  nodes_found m s a (n ∷ nodes) old e h =
      rw e (elim (Bool-cases (a == 0)) [ inl t ↦ rw t | inr t ↦ rw t ])

  found-IsDigest :
      (m s : ℕ) (nodes : List Bytes) (old : Bytes)
      → is_empty nodes ≡ false
      → IsDigest old
      → All IsDigest nodes
      → IsDigest (seed_and_rest m s nodes old).0 × All IsDigest (seed_and_rest m s nodes old).1
  unfolding seed_and_rest split_first
  found-IsDigest m s [] old h d ds = absurd (ground arith)
  found-IsDigest m s (n ∷ nodes) old h d (dn, ds) = elim (Bool-cases (m == 2 ^ s)) [
    | inl t ↦ rw t (d, (dn, ds))
    | inr t ↦ rw t (dn, ds)
  ]

  -- The messages for the newer root collide with those of the proof that the code emits.
  abbrev pub NodesCollide : ConsistencyProof → List Bytes → Bytes → Type 0
  NodesCollide p d old_root =
      ShaCollides sha (consistency_messages sha p old_root)
        (consistency_messages sha (extension_proof sha p.old_size d) (mth sha (take p.old_size d)))

  abbrev Bound : ConsistencyProof → List Bytes → Bytes → Type 0
  Bound p d old_root =
      ((old_root ≡ mth sha (take p.old_size d)) × (p.nodes ≡ consistency_proof sha p.old_size d))
      ⊎ NodesCollide p d old_root

  nodes_collided :
      (p : ConsistencyProof) (d : List Bytes) (old_root seed : Bytes) (rest : List Bytes) (s a : ℕ)
      (z : IsSized p.old_size (length d) s (64 - s) a)
      → p.new_size ≡ length d
      → seed_and_rest p.old_size s
          (consistency_proof sha p.old_size d)
          (mth sha (take p.old_size d))
        ≡ (seed, rest)
      → ShaCollides sha
          (walk_messages sha
            (64 - s)
            (seed_and_rest p.old_size s p.nodes old_root).0
            (seed_and_rest p.old_size s p.nodes old_root).1
            a
            (shr (length d - 1) s))
          (walk_messages sha (64 - s) seed rest a (shr (length d - 1) s))
      → NodesCollide p d old_root
  unfolding consistency_messages extension_proof
  nodes_collided p d old_root seed rest s a z n f c =
      rw (trailing_zeros-IsOddMultiple p.old_size s a z.shift z.odd, old_digits z, n, f) c

  older_sound :
      (p : ConsistencyProof) (d : List Bytes) (old_root : Bytes) (s a : ℕ)
      → IsSized p.old_size (length d) s (64 - s) a
      → p.new_size ≡ length d
      → length d ≤ max_size
      → is_empty p.nodes ≡ false
      → IsDigest old_root
      → All IsDigest p.nodes
      → Rebuilds sha
          (length d)
          s
          (64 - s)
          a
          (seed_and_rest p.old_size s p.nodes old_root).0
          (seed_and_rest p.old_size s p.nodes old_root).1
          old_root
          (mth sha d)
      → Bound p d old_root
  older_sound p d old_root s a z n fits ne hd ds v =
      let m = p.old_size in
      let g = 64 - s in
      let b = shr (length d - 1) s in
      let r = seed_and_rest m s p.nodes old_root in
      let (seed, rest, em, op) =
        opening sha (length d) g s m a d z.odd z.digits z.older (omega arith) fits in
      let (h0, hs) = found-IsDigest m s p.nodes old_root ne hd ds in
      let (k0, ks) =
        subst (All IsDigest) em.closed (subproof-IsDigest sha (length d) m d false [] tt) in
      elim (walk-binds sha g r.0 seed r.1 rest a b (v.size ∙ sym op.size) h0 k0 hs ks
        (v.new_root ∙ sym op.new)) [
          | inl (same_seed, same_rest) ↦ inl (
            sym v.old_root ∙ rw (same_seed, same_rest) op.old,
            nodes_found m s a p.nodes old_root (pow2_test z) ne
                ∙ rw (same_seed, same_rest)
                    (sym (nodes_of sha m d (positive z) z.older ∙ em.opened)),
          )
          | inr c ↦ inr (
              nodes_collided p d old_root seed rest s a z n (found sha m s g a d seed rest z em op)
                c)
        ]

  same_verdict :
      (p : ConsistencyProof) (old new : Bytes)
      → p.old_size ≡ p.new_size
      → verify_consistency sha p old new ≡ ok tt
      → (is_empty p.nodes ≡ true) × (old ≡ new)
  unfolding verify_consistency
  same_verdict p old new e h = ground (arith, bytes_eq_iff old new)

  module _ (p : ConsistencyProof) (d : List Bytes) (old_root : Bytes)
      (n : p.new_size ≡ length d) where
    equal_sound :
        p.old_size ≡ length d
        → verify_consistency sha p old_root (mth sha d) ≡ ok tt
        → (old_root ≡ mth sha (take p.old_size d)) × (p.nodes ≡ consistency_proof sha p.old_size d)
    unfolding verify_consistency consistency_proof
    equal_sound e h =
        let (no_nodes, same) = same_verdict p old_root (mth sha d) (e ∙ sym n) h in
        (
          same ∙ ap (mth sha) (sym (take_all p.old_size d (omega arith))),
          nil p.nodes no_nodes ∙ rw e (ground arith),
        )
      where
        nil : (hs : List Bytes) → is_empty hs ≡ true → hs ≡ []
        nil [] t = refl
        nil (x ∷ hs) t = absurd (ground arith)

    not_empty_sound :
        0 < p.old_size
        → p.old_size < length d
        → verify_consistency sha p old_root (mth sha d) ≡ ok tt
        → is_empty p.nodes ≡ false
    unfolding verify_consistency
    not_empty_sound pos l h = ground arith

    above_sound :
        0 < p.old_size
        → length d < p.old_size
        → verify_consistency sha p old_root (mth sha d) ≡ ok tt
        → ⊥
    unfolding verify_consistency
    above_sound pos l h = ground arith

  -- What `verify` accepts against the root of `d`, for a non-empty older tree and a newer one of as
  -- many leaves as `d` has, up to 2 ^ 63, where the old root and the nodes are of 32 bytes, has the
  -- root of that prefix of `d` as its old root and the nodes that `consistency_proof` emits; or else
  -- there is at one place among the messages that `verify` hashes for the newer root, and among those
  -- that it hashes for the emitted proof, a pair that differs and has one SHA-256 digest.
  pub verify_consistency_sound :
      (p : ConsistencyProof) (d : List Bytes) (old_root : Bytes)
      → p.new_size ≡ length d
      → 0 < p.old_size
      → length d ≤ max_size
      → IsDigest old_root
      → All IsDigest p.nodes
      → verify_consistency sha p old_root (mth sha d) ≡ ok tt
      → ((old_root ≡ mth sha (take p.old_size d)) × (p.nodes ≡ consistency_proof sha p.old_size d))
        ⊎ NodesCollide p d old_root
  verify_consistency_sound p d old_root n pos fits hd ds h = elim (sizes p.old_size (length d)) [
    | inl e ↦ inl (equal_sound p d old_root n e h)
    | inr other ↦ elim other [
      | inl l ↦
          let (s, a, z) = IsSized-exists p.old_size (length d) pos l fits in
          let ne = not_empty_sound p d old_root n pos l h in
          older_sound p d old_root s a z n fits ne hd ds
            (rw n at (rebuilds→ sha p old_root (mth sha d) s (64 - s) a (rw n z) ne h))
      | inr l ↦ absurd (above_sound p d old_root n pos l h)
    ]
  ]
    where
      sizes : (m n : ℕ) → (m ≡ n) ⊎ ((m < n) ⊎ (n < m))
      sizes m n = ground arith

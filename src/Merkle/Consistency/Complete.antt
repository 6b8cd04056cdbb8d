-- ===== src/Merkle/Consistency/Complete.antt =====
-- `ConsistencyProof::verify` of src/merkle.rs accepts what `consistency_proof` emits.
use sovereign_ledger.Base.{
  ℕ, ◌-◌, ◌≤◌, ◌<◌, ◌≡◌, refl, sym, subst, inl, inr, Bool, true, false, List, [], ◌∷◌, arith,
  length, take, take_all, Bool-cases, ◌==◌, if◌then◌else◌, le_or_lt, eq_or_lt,
}
use sovereign_ledger.Base.Bytes.{bytes_eq_self, is_empty}
use sovereign_ledger.Crypto.{Bytes, Sha256}
use sovereign_ledger.Error.{ok}
use sovereign_ledger.Merkle.{mth, consistency_proof, seed_and_rest, split_first, verify_consistency}
use sovereign_ledger.Merkle.Split.{max_size}
use sovereign_ledger.Merkle.Subproof.{Emits}
use sovereign_ledger.Merkle.Opening.{IsOpening, opening}
use sovereign_ledger.Merkle.Consistency.{IsSized-exists, extension_proof, nodes_of}
use sovereign_ledger.Merkle.Sizes.{IsSized, positive, inner-pos, pow2_test}
use sovereign_ledger.Merkle.Chains.{→rebuilds}

module _ (sha : Sha256) where
  -- The seed and the rest, as the verifier finds them in the code's nodes.
  pub found :
      (m s g a : ℕ) (d : List Bytes) (seed : Bytes) (rest : List Bytes)
      → IsSized m (length d) s g a
      → Emits sha (length d) m a d seed rest
      → IsOpening sha g s m a d seed rest
      → seed_and_rest m s (consistency_proof sha m d) (mth sha (take m d)) ≡ (seed, rest)
  unfolding seed_and_rest split_first
  found m s g a d seed rest z em op =
      rw (nodes_of sha m d (positive z) z.older, em.opened, pow2_test z)
        (elim (Bool-cases (a == 0)) [ inl e ↦ rw e (ground (arith, op.whole)) | inr e ↦ rw e ])

  not_empty :
      (m s g a : ℕ) (d : List Bytes) (seed : Bytes) (rest : List Bytes)
      → IsSized m (length d) s g a
      → Emits sha (length d) m a d seed rest
      → IsOpening sha g s m a d seed rest
      → is_empty (consistency_proof sha m d) ≡ false
  not_empty m s g a d seed rest z em op =
      rw (nodes_of sha m d (positive z) z.older, em.opened)
        (some_nodes (a == 0) rest seed (omega (arith, op.size, inner-pos z)))
    where
      some_nodes :
          (b : Bool) (rest : List Bytes) (seed : Bytes)
          → 1 ≤ length rest
          → is_empty (if b then rest else seed ∷ rest) ≡ false
      some_nodes true [] seed h = absurd (omega arith)
      some_nodes true (x ∷ rest) seed h = refl
      some_nodes false rest seed h = refl

  same_size :
      (d : List Bytes)
      → verify_consistency sha
          (extension_proof sha (length d) d)
          (mth sha (take (length d) d))
          (mth sha d)
        ≡ ok tt
  unfolding verify_consistency consistency_proof extension_proof
  same_size d = rw (take_all (length d) d (omega arith)) (ground (arith, bytes_eq_self (mth sha d)))

  empty_older :
      (d : List Bytes)
      → 0 < length d
      → verify_consistency sha (extension_proof sha 0 d) (mth sha []) (mth sha d) ≡ ok tt
  unfolding verify_consistency consistency_proof extension_proof
  empty_older d h = ground arith

  older_accepted :
      (m : ℕ) (d : List Bytes)
      → 0 < m
      → m < length d
      → length d ≤ max_size
      → verify_consistency sha (extension_proof sha m d) (mth sha (take m d)) (mth sha d) ≡ ok tt
  unfolding extension_proof
  older_accepted m d h k fits =
      let (s, a, z) = IsSized-exists m (length d) h k fits in
      let (seed, rest, em, op) =
        opening sha (length d) (64 - s) s m a d z.odd z.digits k (omega arith) fits in
      →rebuilds sha (extension_proof sha m d) (mth sha (take m d)) (mth sha d) s (64 - s) a z
        (not_empty m s (64 - s) a d seed rest z em op)
        (rw (found m s (64 - s) a d seed rest z em op)
          (record { size = op.size; old_root = op.old; new_root = op.new }))

  -- For every slice of up to 2 ^ 63 leaves and every older size, `verify` accepts the nodes that
  -- `consistency_proof` emits, against the root of the prefix and the root of the whole.
  pub verify_consistency-consistency_proof :
      (m : ℕ) (d : List Bytes)
      → m ≤ length d
      → length d ≤ max_size
      → verify_consistency sha (extension_proof sha m d) (mth sha (take m d)) (mth sha d) ≡ ok tt
  verify_consistency-consistency_proof m d h fits = elim (eq_or_lt m (length d) h) [
    | inl e ↦
        subst
          (λ t.
            verify_consistency sha (extension_proof sha t d) (mth sha (take t d)) (mth sha d)
            ≡ ok tt)
          (sym e) (same_size d)
    | inr l ↦ elim (le_or_lt m 0) [
      | inl z ↦
          subst
            (λ t.
              verify_consistency sha (extension_proof sha t d) (mth sha (take t d)) (mth sha d)
              ≡ ok tt)
            (let q : 0 ≡ m = omega arith in q) (empty_older d (omega arith))
      | inr pos ↦ older_accepted m d pos l fits
    ]
  ]

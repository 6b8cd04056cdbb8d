-- ===== src/Merkle/Inclusion.antt =====
-- `audit_path` and `InclusionProof::verify` of src/merkle.rs together: the path that the code emits
-- is accepted, and what else is shows a collision of SHA-256.
use sovereign_ledger.Base.{
  ℕ, zero, suc, ◌-◌, ◌≤◌, ◌≡◌, ap, Bool-cases, ltb, ◌==◌, ◌&&◌, not, sym, ◌∙◌, ◌⊎◌, inl, inr, some,
  lt→ltb, List, [], ◌∷◌, arith, length, All, get_elem?, get_elem?-lt, get_elem?_exists, All-append,
  take, drop,
}
use sovereign_ledger.Base.Bytes.{is_empty}
use sovereign_ledger.Crypto.{Bytes, Sha256, IsDigest, ShaCollides, here, later}
use sovereign_ledger.Error.{ok}
use sovereign_ledger.Merkle.{
  largest_pow2_lt, InclusionProof, leaf_hash, node_hash, mth, mth_fuel, audit_path_rec, audit_path,
  verify_inclusion,
}
use sovereign_ledger.Merkle.Split.{max_size}
use sovereign_ledger.Merkle.Path.{IsPath, audit-IsPath}
use sovereign_ledger.Merkle.Verdict.{verify_inclusion→Accepts, Accepts→verify_inclusion}
use sovereign_ledger.Merkle.Hashed.{leaf_message, walk_messages, inclusion_messages}
use sovereign_ledger.Merkle.Binding.{leaf_hash-eq, walk-binds}

module _ (sha : Sha256) where
  pub mth-IsDigest : (d : List Bytes) → IsDigest (mth sha d)
  unfolding mth mth_fuel leaf_hash node_hash
  mth-IsDigest [] = sha.digest-IsDigest []
  mth-IsDigest (x ∷ []) = sha.digest-IsDigest (0 ∷ x)
  mth-IsDigest (x ∷ y ∷ d) = sha.digest-IsDigest _

  audit_path_rec-IsDigest :
      (f m : ℕ) (d out : List Bytes)
      → All IsDigest out
      → All IsDigest (audit_path_rec sha f m d out)
  unfolding audit_path_rec
  audit_path_rec-IsDigest zero m d out h = h
  audit_path_rec-IsDigest (suc f) m d out h =
      let k = largest_pow2_lt (length d) in
      elim (Bool-cases (length d == 1)) [
        | inl e ↦ rw e h
        | inr e ↦ elim (Bool-cases (ltb m k)) [
          | inl l ↦
              rw (e, l)
                (All-append IsDigest (audit_path_rec sha f m (take k d) out) _
                  (audit_path_rec-IsDigest f m (take k d) out h) (mth-IsDigest (drop k d), tt))
          | inr l ↦
              rw (e, l)
                (All-append IsDigest (audit_path_rec sha f (m - k) (drop k d) out) _
                  (audit_path_rec-IsDigest f (m - k) (drop k d) out h)
                  (mth-IsDigest (take k d), tt))
        ]
      ]

  pub audit_path-IsDigest : (m : ℕ) (d : List Bytes) → All IsDigest (audit_path sha m d)
  unfolding audit_path
  audit_path-IsDigest m d = elim (Bool-cases (not (is_empty d) && ltb m (length d))) [
    | inl e ↦ rw e (audit_path_rec-IsDigest (length d) m d [] tt)
    | inr e ↦ rw e tt
  ]

  leaf_hash-IsDigest : (x : Bytes) → IsDigest (leaf_hash sha x)
  unfolding leaf_hash
  leaf_hash-IsDigest x = sha.digest-IsDigest (0 ∷ x)

  -- The proof that the ledger emits for the leaf `m`.
  unfoldable pub inclusion_proof : ℕ → List Bytes → InclusionProof
  inclusion_proof m d = record { index = m; tree_size = length d; path = audit_path sha m d }

  audit_path-IsPath :
      (m : ℕ) (d : List Bytes) (x : Bytes)
      → length d ≤ max_size
      → get_elem? d m ≡ some x
      → IsPath sha m d x (audit_path sha m d)
  unfolding audit_path
  audit_path-IsPath m [] x small e = absurd (ground arith)
  audit_path-IsPath m (y ∷ d) x small e =
      let h = get_elem?-lt (y ∷ d) m e in
      rw (lt→ltb m (length (y ∷ d)) h)
        (audit-IsPath sha (length (y ∷ d)) m (y ∷ d) x (omega arith) small h e)

  -- For every slice of up to 2 ^ 63 leaves and every leaf of it, `verify` accepts the path that
  -- `audit_path` emits, against the root that `mth` computes.
  pub verify_inclusion-audit_path :
      (m : ℕ) (d : List Bytes) (x : Bytes)
      → length d ≤ max_size
      → get_elem? d m ≡ some x
      → verify_inclusion sha (inclusion_proof m d) x (mth sha d) ≡ ok tt
  unfolding inclusion_proof
  verify_inclusion-audit_path m d x small e =
      let v = audit_path-IsPath m d x small e in
      Accepts→verify_inclusion sha (inclusion_proof m d) x (mth sha d)
        (record { in_range = get_elem?-lt d m e; size = v.size; leads = v.root })

  collided :
      (p : InclusionProof) (d : List Bytes) (leaf x : Bytes)
      → p.tree_size ≡ length d
      → ShaCollides sha
          (leaf_message leaf
            ∷ walk_messages sha 64 (leaf_hash sha leaf) p.path p.index (length d - 1))
          (leaf_message x
            ∷ walk_messages sha 64
                (leaf_hash sha x)
                (audit_path sha p.index d)
                p.index
                (length d - 1))
      → ShaCollides sha
          (inclusion_messages sha p leaf)
          (inclusion_messages sha (inclusion_proof p.index d) x)
  unfolding inclusion_messages inclusion_proof
  collided p d leaf x n c = rw n c

  -- What `verify` accepts against the root of `d`, for a proof over as many leaves as `d` has, up to
  -- 2 ^ 63, whose nodes are of 32 bytes, is the leaf of `d` at that index with the path that
  -- `audit_path` emits; or else there is at one place among the messages that `verify` hashes for it, and
  -- among those that it hashes for the leaf of `d` at that index with that path, a pair that differs and
  -- has one SHA-256 digest.
  pub verify_inclusion_sound :
      (p : InclusionProof) (d : List Bytes) (leaf : Bytes)
      → p.tree_size ≡ length d
      → length d ≤ max_size
      → All IsDigest p.path
      → verify_inclusion sha p leaf (mth sha d) ≡ ok tt
      → ((get_elem? d p.index ≡ some leaf) × (p.path ≡ audit_path sha p.index d))
        ⊎ ((x : Bytes) × (get_elem? d p.index ≡ some x)
            × ShaCollides sha
                (inclusion_messages sha p leaf)
                (inclusion_messages sha (inclusion_proof p.index d) x))
  verify_inclusion_sound p d leaf n small ds h =
      let v = verify_inclusion→Accepts sha p leaf (mth sha d) h in
      let (x, e) = get_elem?_exists d p.index (omega (arith, v.in_range)) in
      let w = audit_path-IsPath p.index d x small e in
      elim (walk-binds sha 64 (leaf_hash sha leaf) (leaf_hash sha x) p.path
        (audit_path sha p.index d) p.index (length d - 1) (rw n at v.size ∙ sym w.size)
        (leaf_hash-IsDigest leaf) (leaf_hash-IsDigest x) ds (audit_path-IsDigest p.index d)
        (rw n at v.leads ∙ sym w.root)) [
          | inl (same_leaf, same_path) ↦ elim (leaf_hash-eq sha leaf x same_leaf) [
            | inl l ↦ inl (e ∙ ap some (sym l), same_path)
            | inr (differ, same) ↦ inr (x, e, collided p d leaf x n (here differ same))
          ]
          | inr c ↦ inr (x, e, collided p d leaf x n (later c))
        ]

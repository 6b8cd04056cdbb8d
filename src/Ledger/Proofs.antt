-- ===== src/Ledger/Proofs.antt =====
-- The proofs that src/lib.rs hands out, against the root that it hands out.
use sovereign_ledger.Base.{
  ℕ, ◌-◌, ◌≤◌, ◌<◌, ◌≡◌, sym, ◌||◌, some, List, arith, ltb, ◌==◌, length, get_elem?,
  get_elem?_exists, take,
}
use sovereign_ledger.Crypto.{Bytes}
use sovereign_ledger.Crates.{Crates}
use sovereign_ledger.Error.{ok, fail_if-then, ok-injective}
use sovereign_ledger.Ledger.{File}
use sovereign_ledger.Ledger.Read.{leaf_hashes, merkle_root, prove_inclusion, prove_consistency}
use sovereign_ledger.Merkle.{
  InclusionProof, ConsistencyProof, mth, verify_inclusion, verify_consistency,
}
use sovereign_ledger.Merkle.Split.{max_size}
use sovereign_ledger.Merkle.Inclusion.{inclusion_proof, verify_inclusion-audit_path}
use sovereign_ledger.Merkle.Consistency.{extension_proof}
use sovereign_ledger.Merkle.Consistency.Complete.{verify_consistency-consistency_proof}

module _ (w : Crates) (file : File) (d : List Bytes) (read : leaf_hashes w file ≡ ok d)
    (small : length d ≤ max_size) where
  pub root_of : (root : Bytes) → merkle_root w file ≡ ok root → mth w.sha d ≡ root
  unfolding merkle_root
  root_of root h = ok-injective (mth w.sha d) root (rw read at h)

  pub in_range :
      (seq : ℕ) (p : InclusionProof)
      → prove_inclusion w seq file ≡ ok p
      → (0 < seq) × (seq ≤ length d) × (inclusion_proof w.sha (seq - 1) d ≡ p)
  unfolding prove_inclusion inclusion_proof
  in_range seq p h =
      let (t, h) = fail_if-then (seq == 0 || ltb (length d) seq) _ _ (rw read at h) in
      (ground arith, ground arith, ok-injective _ p h)

  -- Every inclusion proof that the ledger hands out is accepted for the entry that it was asked for,
  -- against the Merkle root that the ledger reports.
  pub prove_inclusion-verify_inclusion :
      (seq : ℕ) (p : InclusionProof) (root : Bytes)
      → prove_inclusion w seq file ≡ ok p
      → merkle_root w file ≡ ok root
      → (leaf : Bytes) × (get_elem? d (seq - 1) ≡ some leaf)
        × (verify_inclusion w.sha p leaf root ≡ ok tt)
  prove_inclusion-verify_inclusion seq p root h k =
      let (low, high, e) = in_range seq p h in
      let (leaf, found) = get_elem?_exists d (seq - 1) (omega (arith, low, high)) in
      (
        leaf,
        found,
        rw (sym e, sym (root_of root k))
            (verify_inclusion-audit_path w.sha (seq - 1) d leaf small found),
      )

  pub older :
      (old_size : ℕ) (p : ConsistencyProof)
      → prove_consistency w old_size file ≡ ok p
      → (old_size ≤ length d) × (extension_proof w.sha old_size d ≡ p)
  unfolding prove_consistency extension_proof
  older old_size p h =
      let (t, h) = fail_if-then (ltb (length d) old_size) _ _ (rw read at h) in
      (ground arith, ok-injective _ p h)

  -- Every consistency proof that the ledger hands out is accepted against the root of an earlier file
  -- whose entries are the first of this one, and the root that the ledger reports now.
  pub prove_consistency-verify_consistency :
      (old_file : File) (old_size : ℕ) (p : ConsistencyProof) (old_root root : Bytes)
      → leaf_hashes w old_file ≡ ok (take old_size d)
      → merkle_root w old_file ≡ ok old_root
      → prove_consistency w old_size file ≡ ok p
      → merkle_root w file ≡ ok root
      → verify_consistency w.sha p old_root root ≡ ok tt
  unfolding merkle_root
  prove_consistency-verify_consistency old_file old_size p old_root root r q h k =
      let (low, e) = older old_size p h in
      let o = ok-injective (mth w.sha (take old_size d)) old_root (rw r at q) in
      rw (sym e, sym (root_of root k), sym o)
        (verify_consistency-consistency_proof w.sha old_size d low small)

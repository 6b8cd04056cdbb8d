-- ===== src/Merkle/Verdict.antt =====
-- `InclusionProof::verify` of src/merkle.rs, decided by the walk of `Merkle.Walk`.
use sovereign_ledger.Base.{
  ℕ, ◌+◌, ◌-◌, ◌≤◌, ◌<◌, ◌≡◌, refl, sym, ◌∙◌, ◌≢◌, ap, inl, inr, not, ◌||◌, List, [], ◌∷◌, arith,
  length, take, drop, ◌==◌, leb, one_or_more,
}
use sovereign_ledger.Base.Bytes.{bytes_eq, bytes_eq_iff}
use sovereign_ledger.Base.Bits.{
  count_ones, diverge, ones_above, leading_zeros-bit_xor, count_ones-shr,
}
use sovereign_ledger.Crypto.{Bytes, Sha256}
use sovereign_ledger.Error.{Error, Result, ok, ◌>>◌, fail_if, fail_if-then}
use sovereign_ledger.Merkle.{
  InclusionProof, leaf_hash, decomp_incl_proof, inner_proof_size, chain_inner, chain_border_right,
  verify_path, verify_inclusion,
}
use sovereign_ledger.Merkle.Walk.{walk, chain_inner-fold_bits, border-fold_bits}

-- The two parts that the verifier computes.
pub decomp_lem : (m n : ℕ) → decomp_incl_proof m n ≡ (diverge 64 m (n - 1), ones_above 64 m (n - 1))
unfolding decomp_incl_proof
decomp_lem m n = rw (inner_lem m n, count_ones-shr)
  where
    inner_lem : (m n : ℕ) → inner_proof_size m n ≡ diverge 64 m (n - 1)
    inner_lem m n = unfold inner_proof_size in leading_zeros-bit_xor m (n - 1)

-- What an accepted proof amounts to.
pub record Accepts (sha : Sha256) (p : InclusionProof) (leaf root : Bytes) : Type 0 where
  pub in_range : p.index < p.tree_size
  pub size :
      length p.path ≡ diverge 64 p.index (p.tree_size - 1) + ones_above 64 p.index (p.tree_size - 1)
  pub leads : walk sha 64 (leaf_hash sha leaf) p.path p.index (p.tree_size - 1) ≡ root

length-zero : (hs : List Bytes) → length hs ≡ 0 → hs ≡ []
length-zero [] e = refl
length-zero (h ∷ hs) e = absurd (omega arith)

module _ (sha : Sha256) where
  -- The two chains of the verifier, on a proof of the right size.
  chains-walk :
      (acc : Bytes) (hs : List Bytes) (m n : ℕ)
      → diverge 64 m (n - 1) ≤ length hs
      → chain_border_right sha
          (chain_inner sha acc (take (diverge 64 m (n - 1)) hs) m)
          (drop (diverge 64 m (n - 1)) hs)
        ≡ walk sha 64 acc hs m (n - 1)
  chains-walk acc hs m n h =
      ap (λ t. chain_border_right sha t (drop (diverge 64 m (n - 1)) hs))
        (chain_inner-fold_bits sha acc (take (diverge 64 m (n - 1)) hs) m)
      ∙ border-fold_bits sha 64 acc hs m (n - 1) h

  single_size : diverge 64 0 0 + ones_above 64 0 0 ≡ 0
  unfolding diverge ones_above count_ones
  single_size = refl

  -- The two chains, on a proof whose inner part has `inner` hashes.
  abbrev chains : ℕ → InclusionProof → Bytes → Bytes
  chains inner p leaf =
      chain_border_right sha (chain_inner sha (leaf_hash sha leaf) (take inner p.path) p.index)
        (drop inner p.path)

  -- The tests of a tree of two leaves or more.
  abbrev many_tests : ℕ → ℕ → InclusionProof → Bytes → Bytes → Result (Unit {0})
  many_tests inner border p leaf root = do
    fail_if (not (length p.path == inner + border)) (Error.proof "wrong proof size")
    fail_if (not (bytes_eq (chains inner p leaf) root)) (Error.proof "root mismatch")

  many_tests→ :
      (inner border : ℕ) (p : InclusionProof) (leaf root : Bytes)
      → many_tests inner border p leaf root ≡ ok tt
      → (length p.path ≡ inner + border) × (chains inner p leaf ≡ root)
  many_tests→ inner border p leaf root h = ground (arith, bytes_eq_iff (chains inner p leaf) root)

  →many_tests :
      (inner border : ℕ) (p : InclusionProof) (leaf root : Bytes)
      → length p.path ≡ inner + border
      → chains inner p leaf ≡ root
      → many_tests inner border p leaf root ≡ ok tt
  →many_tests inner border p leaf root l e = ground (arith, bytes_eq_iff (chains inner p leaf) root)

  many_branch :
      (p : InclusionProof) (leaf root : Bytes)
      → p.tree_size ≢ 1
      → verify_path sha p leaf root
        ≡ many_tests
            (diverge 64 p.index (p.tree_size - 1))
            (ones_above 64 p.index (p.tree_size - 1))
            p
            leaf
            root
  unfolding verify_path
  many_branch p leaf root e = rw decomp_lem (ground arith)

  one-Accepts :
      (p : InclusionProof) (leaf root : Bytes)
      → p.index < p.tree_size
      → p.tree_size ≡ 1
      → verify_path sha p leaf root ≡ ok tt
      → Accepts sha p leaf root
  unfolding verify_path
  one-Accepts p leaf root r e h =
      let i : p.index ≡ 0 = omega arith in
      let l : p.tree_size - 1 ≡ 0 = omega arith in
      let shape : (p.path ≡ []) × (leaf_hash sha leaf ≡ root) =
        ground (arith, bytes_eq_iff (leaf_hash sha leaf) root) in
      record {
        in_range = r;
        size = rw (i, l, shape.0) (sym single_size);
        leads = rw (i, l, shape.0) (unfold walk in shape.1);
      }

  many-Accepts :
      (p : InclusionProof) (leaf root : Bytes)
      → p.index < p.tree_size
      → p.tree_size ≢ 1
      → verify_path sha p leaf root ≡ ok tt
      → Accepts sha p leaf root
  many-Accepts p leaf root r e h =
      let (size, leads) =
        many_tests→ (diverge 64 p.index (p.tree_size - 1)) (ones_above 64 p.index (p.tree_size - 1))
          p leaf root (sym (many_branch p leaf root e) ∙ h) in
      record {
        in_range = r;
        size = size;
        leads =
            sym (chains-walk (leaf_hash sha leaf) p.path p.index p.tree_size (omega (arith, size)))
            ∙ leads;
      }

  path-Accepts :
      (p : InclusionProof) (leaf root : Bytes)
      → p.index < p.tree_size
      → verify_path sha p leaf root ≡ ok tt
      → Accepts sha p leaf root
  path-Accepts p leaf root r h = elim (one_or_more p.tree_size (omega arith)) [
    | inl e ↦ one-Accepts p leaf root r e h
    | inr e ↦ many-Accepts p leaf root r (omega arith) h
  ]

  Accepts-one :
      (p : InclusionProof) (leaf root : Bytes)
      → Accepts sha p leaf root
      → p.tree_size ≡ 1
      → verify_path sha p leaf root ≡ ok tt
  unfolding verify_path
  Accepts-one p leaf root v e =
      let i : p.index ≡ 0 = omega (arith, v.in_range) in
      let l : p.tree_size - 1 ≡ 0 = omega arith in
      let none_left : p.path ≡ [] = length-zero p.path (rw (i, l) at v.size ∙ single_size) in
      let same : leaf_hash sha leaf ≡ root = unfold walk in rw (i, l, none_left) at v.leads in
      ground (arith, bytes_eq_iff (leaf_hash sha leaf) root)

  Accepts-path :
      (p : InclusionProof) (leaf root : Bytes)
      → Accepts sha p leaf root
      → verify_path sha p leaf root ≡ ok tt
  Accepts-path p leaf root v = elim (one_or_more p.tree_size (omega (arith, v.in_range))) [
    | inl e ↦ Accepts-one p leaf root v e
    | inr e ↦
        many_branch p leaf root (omega arith)
        ∙ →many_tests (diverge 64 p.index (p.tree_size - 1))
            (ones_above 64 p.index (p.tree_size - 1)) p leaf root v.size
            (chains-walk (leaf_hash sha leaf) p.path p.index p.tree_size (omega (arith, v.size))
              ∙ v.leads)
  ]

  pub verify_inclusion→Accepts :
      (p : InclusionProof) (leaf root : Bytes)
      → verify_inclusion sha p leaf root ≡ ok tt
      → Accepts sha p leaf root
  unfolding verify_inclusion
  verify_inclusion→Accepts p leaf root h =
      let (test, rest) =
        fail_if-then (p.tree_size == 0 || leb p.tree_size p.index)
          (Error.proof "proof index out of range") (verify_path sha p leaf root) h in
      path-Accepts p leaf root (ground arith) rest

  pub Accepts→verify_inclusion :
      (p : InclusionProof) (leaf root : Bytes)
      → Accepts sha p leaf root
      → verify_inclusion sha p leaf root ≡ ok tt
  unfolding verify_inclusion
  Accepts→verify_inclusion p leaf root v = ground (arith, v.in_range, Accepts-path p leaf root v)

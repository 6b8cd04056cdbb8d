-- ===== src/Merkle/Chains.antt =====
-- `ConsistencyProof::verify` of src/merkle.rs, decided by the two walks.
use sovereign_ledger.Base.{
  ℕ, ◌+◌, ◌-◌, ◌≤◌, ◌≡◌, ◌≢◌, sym, ◌∙◌, ap, false, not, List, arith, length, take, drop, ◌==◌, ltb,
}
use sovereign_ledger.Base.Bytes.{bytes_eq, bytes_eq_iff, is_empty}
use sovereign_ledger.Base.Bits.{shr, diverge, ones_above}
use sovereign_ledger.Base.Bits.Shift.{trailing_zeros-IsOddMultiple}
use sovereign_ledger.Crypto.{Bytes, Sha256}
use sovereign_ledger.Error.{Error, Result, ok, ◌>>◌, fail_if}
use sovereign_ledger.Merkle.{
  ConsistencyProof, chain_inner, chain_inner_right, chain_border_right, seed_and_rest,
  verify_consistency,
}
use sovereign_ledger.Merkle.Verdict.{decomp_lem}
use sovereign_ledger.Merkle.Walk.{walk, chain_inner-fold_bits, border-fold_bits}
use sovereign_ledger.Merkle.WalkRight.{walk_right, chain_inner_right-fold, border-fold_right}
use sovereign_ledger.Merkle.Sizes.{
  IsSized, positive, old_digits, inner-shift, border-shift, plus_minus,
}

-- What an accepted proof amounts to, for its seed and the nodes behind it.
pub record Rebuilds (sha : Sha256) (n s g a : ℕ) (seed : Bytes) (rest : List Bytes)
    (old new : Bytes) : Type 0 where
  pub size : length rest ≡ diverge g a (shr (n - 1) s) + ones_above g a (shr (n - 1) s)
  pub old_root : walk_right sha g seed rest a (shr (n - 1) s) ≡ old
  pub new_root : walk sha g seed rest a (shr (n - 1) s) ≡ new

module _ (sha : Sha256) where
  abbrev old_chain : ℕ → ℕ → Bytes → List Bytes → Bytes
  old_chain inner mask seed rest =
      chain_border_right sha (chain_inner_right sha seed (take inner rest) mask) (drop inner rest)

  abbrev new_chain : ℕ → ℕ → Bytes → List Bytes → Bytes
  new_chain inner mask seed rest =
      chain_border_right sha (chain_inner sha seed (take inner rest) mask) (drop inner rest)

  -- The tests behind the size tests.
  abbrev chain_tests : ℕ → ℕ → ℕ → Bytes → List Bytes → Bytes → Bytes → Result (Unit {0})
  chain_tests inner border mask seed rest old new = do
    fail_if (not (length rest == inner + border)) (Error.proof "wrong proof size")
    fail_if (not (bytes_eq (old_chain inner mask seed rest) old)) (Error.proof "old root mismatch")
    fail_if (not (bytes_eq (new_chain inner mask seed rest) new)) (Error.proof "root mismatch")

  chain_tests→ :
      (inner border mask : ℕ) (seed : Bytes) (rest : List Bytes) (old new : Bytes)
      → chain_tests inner border mask seed rest old new ≡ ok tt
      → (length rest ≡ inner + border)
        × (old_chain inner mask seed rest ≡ old)
        × (new_chain inner mask seed rest ≡ new)
  chain_tests→ inner border mask seed rest old new h = ground (
    arith,
    bytes_eq_iff (old_chain inner mask seed rest) old,
    bytes_eq_iff (new_chain inner mask seed rest) new,
  )

  →chain_tests :
      (inner border mask : ℕ) (seed : Bytes) (rest : List Bytes) (old new : Bytes)
      → length rest ≡ inner + border
      → old_chain inner mask seed rest ≡ old
      → new_chain inner mask seed rest ≡ new
      → chain_tests inner border mask seed rest old new ≡ ok tt
  →chain_tests inner border mask seed rest old new l p q = ground (
    arith,
    bytes_eq_iff (old_chain inner mask seed rest) old,
    bytes_eq_iff (new_chain inner mask seed rest) new,
  )

  old_chain-walk :
      (g a b : ℕ) (seed : Bytes) (rest : List Bytes)
      → diverge g a b ≤ length rest
      → old_chain (diverge g a b) a seed rest ≡ walk_right sha g seed rest a b
  old_chain-walk g a b seed rest h =
      ap (λ t. chain_border_right sha t (drop (diverge g a b) rest))
        (chain_inner_right-fold sha seed (take (diverge g a b) rest) a)
      ∙ border-fold_right sha g seed rest a b h

  new_chain-walk :
      (g a b : ℕ) (seed : Bytes) (rest : List Bytes)
      → diverge g a b ≤ length rest
      → new_chain (diverge g a b) a seed rest ≡ walk sha g seed rest a b
  new_chain-walk g a b seed rest h =
      ap (λ t. chain_border_right sha t (drop (diverge g a b) rest))
        (chain_inner-fold_bits sha seed (take (diverge g a b) rest) a)
      ∙ border-fold_bits sha g seed rest a b h

  -- The verifier between its size tests and its verdict.
  verify_branch :
      (p : ConsistencyProof) (old new : Bytes) (s g a : ℕ)
      → IsSized p.old_size p.new_size s g a
      → is_empty p.nodes ≡ false
      → verify_consistency sha p old new
        ≡ chain_tests
            (diverge g a (shr (p.new_size - 1) s))
            (ones_above g a (shr (p.new_size - 1) s))
            a
            (seed_and_rest p.old_size s p.nodes old).0
            (seed_and_rest p.old_size s p.nodes old).1
            old
            new
  unfolding verify_consistency
  verify_branch p old new s g a z e = rw (
    ne_test p.old_size p.new_size (omega (arith, z.older)),
    ne_test p.old_size 0 (omega (arith, positive z)),
    not_above p.old_size p.new_size (omega (arith, z.older)),
    e,
    trailing_zeros-IsOddMultiple p.old_size s a z.shift z.odd,
    decomp_lem (p.old_size - 1) p.new_size,
    inner-shift z,
    border-shift z,
    old_digits z,
    plus_minus s (diverge g a (shr (p.new_size - 1) s)),
  )
    where
      ne_test : (x y : ℕ) → x ≢ y → (x == y) ≡ false
      ne_test x y ne = ground arith

      not_above : (x y : ℕ) → x ≤ y → ltb y x ≡ false
      not_above x y h = ground arith

  pub rebuilds→ :
      (p : ConsistencyProof) (old new : Bytes) (s g a : ℕ)
      → IsSized p.old_size p.new_size s g a
      → is_empty p.nodes ≡ false
      → verify_consistency sha p old new ≡ ok tt
      → Rebuilds sha p.new_size s g a
          (seed_and_rest p.old_size s p.nodes old).0
          (seed_and_rest p.old_size s p.nodes old).1
          old
          new
  rebuilds→ p old new s g a z e h =
      let b = shr (p.new_size - 1) s in
      let r = seed_and_rest p.old_size s p.nodes old in
      let (size, is_old, is_new) =
        chain_tests→ (diverge g a b) (ones_above g a b) a r.0 r.1 old new
          (sym (verify_branch p old new s g a z e) ∙ h) in
      record {
        size = size;
        old_root = sym (old_chain-walk g a b r.0 r.1 (omega (arith, size))) ∙ is_old;
        new_root = sym (new_chain-walk g a b r.0 r.1 (omega (arith, size))) ∙ is_new;
      }

  pub →rebuilds :
      (p : ConsistencyProof) (old new : Bytes) (s g a : ℕ)
      → IsSized p.old_size p.new_size s g a
      → is_empty p.nodes ≡ false
      → Rebuilds sha p.new_size s g a
          (seed_and_rest p.old_size s p.nodes old).0
          (seed_and_rest p.old_size s p.nodes old).1
          old
          new
      → verify_consistency sha p old new ≡ ok tt
  →rebuilds p old new s g a z e v =
      let b = shr (p.new_size - 1) s in
      let r = seed_and_rest p.old_size s p.nodes old in
      verify_branch p old new s g a z e
      ∙ →chain_tests (diverge g a b) (ones_above g a b) a r.0 r.1 old new v.size
          (old_chain-walk g a b r.0 r.1 (omega (arith, v.size)) ∙ v.old_root)
          (new_chain-walk g a b r.0 r.1 (omega (arith, v.size)) ∙ v.new_root)

-- ===== src/Merkle/Tree.antt =====
-- The recursive equation of `mth`, whatever the fuel.
use sovereign_ledger.Base.{
  ℕ, zero, suc, ◌+◌, ◌^◌, ◌≤◌, ◌<◌, ◌≡◌, refl, List, [], ◌∷◌, arith, length, take, drop,
  length-take, length-drop, two-pow-pos,
}
use sovereign_ledger.Crypto.{Bytes, Sha256}
use sovereign_ledger.Merkle.{leaf_hash, node_hash, mth_fuel, mth}
use sovereign_ledger.Merkle.Split.{IsSplit, max_size, IsSplit-exists, largest_pow2_lt-IsSplit}

module _ {ℓ} {A : Type ℓ} where
  pub length-take_split :
      (d : List A) (p : ℕ) → IsSplit (length d) p → length (take (2 ^ p) d) ≡ 2 ^ p
  length-take_split d p s = omega (arith, length-take (2 ^ p) d, s.below)

  pub length-drop_split :
      (d : List A) (p : ℕ) → IsSplit (length d) p → length (drop (2 ^ p) d) + 2 ^ p ≡ length d
  length-drop_split d p s = omega (arith, length-drop (2 ^ p) d, s.below)

  pub part_lt :
      (d : List A) (p : ℕ)
      → IsSplit (length d) p
      → (length (take (2 ^ p) d) < length d) × (length (drop (2 ^ p) d) < length d)
  part_lt d p s = (
    omega (arith, length-take_split d p s, s.below),
    omega (arith, length-drop_split d p s, two-pow-pos p),
  )

module _ (sha : Sha256) where
  mth_fuel-step :
      (f : ℕ) (d : List Bytes) (p : ℕ)
      → IsSplit (length d) p
      → mth_fuel sha (suc f) d
        ≡ node_hash sha (mth_fuel sha f (take (2 ^ p) d)) (mth_fuel sha f (drop (2 ^ p) d))
  unfolding mth_fuel
  mth_fuel-step f [] p s = absurd (omega (arith, s.below))
  mth_fuel-step f (x ∷ []) p s = absurd (omega (arith, s.below, two-pow-pos p))
  mth_fuel-step f (x ∷ y ∷ d) p s = rw (largest_pow2_lt-IsSplit (length (x ∷ y ∷ d)) p s)

  mth_fuel-join :
      (f g : ℕ) (d : List Bytes) (p : ℕ)
      → IsSplit (length d) p
      → mth_fuel sha f (take (2 ^ p) d) ≡ mth_fuel sha g (take (2 ^ p) d)
      → mth_fuel sha f (drop (2 ^ p) d) ≡ mth_fuel sha g (drop (2 ^ p) d)
      → mth_fuel sha (suc f) d ≡ mth_fuel sha (suc g) d
  mth_fuel-join f g d p s l r = cc (mth_fuel-step f d p s, mth_fuel-step g d p s, l, r)

  -- For a slice of up to 2 ^ 63 leaves, all fuel from the length of the slice on gives one hash.
  pub mth_fuel-enough :
      (f g : ℕ) (d : List Bytes)
      → length d ≤ f
      → length d ≤ g
      → length d ≤ max_size
      → mth_fuel sha f d ≡ mth_fuel sha g d
  unfolding mth_fuel
  mth_fuel-enough f g [] hf hg small = refl
  mth_fuel-enough f g (x ∷ []) hf hg small = refl
  mth_fuel-enough zero g (x ∷ y ∷ d) hf hg small = absurd (omega arith)
  mth_fuel-enough (suc f) zero (x ∷ y ∷ d) hf hg small = absurd (omega arith)
  mth_fuel-enough (suc f) (suc g) (x ∷ y ∷ d) hf hg small =
      let (p, s) = IsSplit-exists (length (x ∷ y ∷ d)) (omega arith) small in
      let (l, r) = part_lt (x ∷ y ∷ d) p s in
      mth_fuel-join f g (x ∷ y ∷ d) p s
        (mth_fuel-enough f g (take (2 ^ p) (x ∷ y ∷ d)) (omega arith) (omega arith) (omega arith))
        (mth_fuel-enough f g (drop (2 ^ p) (x ∷ y ∷ d)) (omega arith) (omega arith) (omega arith))

  -- RFC 6962: the hash of a tree is the hash of its two parts.
  pub mth_split :
      (d : List Bytes) (p : ℕ)
      → IsSplit (length d) p
      → length d ≤ max_size
      → mth sha d ≡ node_hash sha (mth sha (take (2 ^ p) d)) (mth sha (drop (2 ^ p) d))
  unfolding mth
  mth_split d p s small =
      let n = length d in
      let l = take (2 ^ p) d in
      let r = drop (2 ^ p) d in
      let (hl, hr) = part_lt d p s in
      cc (
        mth_fuel-enough n (suc n) d (omega arith) (omega arith) small,
        mth_fuel-step n d p s,
        mth_fuel-enough n (length l) l (omega arith) (omega arith) (omega arith),
        mth_fuel-enough n (length r) r (omega arith) (omega arith) (omega arith),
      )

  pub mth_singleton : (x : Bytes) → mth sha (x ∷ []) ≡ leaf_hash sha x
  unfolding mth mth_fuel
  mth_singleton x = refl

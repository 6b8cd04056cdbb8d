-- ===== src/Merkle/Rfc.antt =====
-- The Merkle tree hash of RFC 6962 (section 2.1) as a relation, and `mth` of src/merkle.rs against it.
use sovereign_ledger.Base.{
  ℕ, zero, suc, ◌+◌, ◌^◌, ◌≤◌, ◌<◌, ◌≡◌, ◌↔◌, refl, sym, ◌∙◌, ap, subst, List, [], ◌∷◌, ◌++◌, arith,
  length, take, drop, Bool-cases, ltb, ltb→lt, inl, inr,
}
use native.Mathlib.Nat.{pow-le-pow_right}
use sovereign_ledger.Crypto.{Bytes, Sha256}
use sovereign_ledger.Merkle.{leaf_hash, node_hash, mth_fuel, mth}
use sovereign_ledger.Merkle.Split.{IsSplit, max_size, IsSplit-exists}
use sovereign_ledger.Merkle.Tree.{part_lt, mth_split}

module _ (sha : Sha256) where
  -- A list is split at the largest power of two that lies below its length.
  pub data IsRoot : List Bytes → Bytes → Type 0 where
    empty : IsRoot [] (sha.digest [])
    leaf : (x : Bytes) → IsRoot (x ∷ []) (sha.digest (0x00 ∷ x))
    node :
        (p : ℕ) (d : List Bytes) (l r : Bytes)
        → 2 ^ p < length d
        → length d ≤ 2 ^ p + 2 ^ p
        → IsRoot (take (2 ^ p) d) l
        → IsRoot (drop (2 ^ p) d) r
        → IsRoot d (sha.digest (0x01 ∷ (l ++ r)))

  node_is : (l r : Bytes) → node_hash sha l r ≡ sha.digest (0x01 ∷ (l ++ r))
  unfolding node_hash
  node_is l r = refl

  built : (f : ℕ) (d : List Bytes) → length d ≤ f → length d ≤ max_size → IsRoot d (mth sha d)
  unfolding mth mth_fuel leaf_hash
  built f [] h small = empty
  built f (x ∷ []) h small = leaf x
  built zero (x ∷ y ∷ d) h small = absurd (omega arith)
  built (suc f) (x ∷ y ∷ d) h small =
      let es = x ∷ y ∷ d in
      let (p, s) = IsSplit-exists (length es) (omega arith) small in
      let (l, r) = part_lt es p s in
      subst (IsRoot es)
        (sym (
          mth_split sha es p s small
          ∙ node_is (mth sha (take (2 ^ p) es)) (mth sha (drop (2 ^ p) es))))
        (node p es (mth sha (take (2 ^ p) es)) (mth sha (drop (2 ^ p) es)) s.below s.above
          (built f (take (2 ^ p) es) (omega arith) (omega arith))
          (built f (drop (2 ^ p) es) (omega arith) (omega arith)))

  split_small : (p n : ℕ) → 2 ^ p < n → n ≤ max_size → p < 63
  split_small p n h k = elim (Bool-cases (ltb p 63)) [
    | inl e ↦ ltb→lt p 63 e
    | inr e ↦
        let big : 63 ≤ p = ground arith in
        let grow : 2 ^ 63 ≤ 2 ^ p = pow-le-pow_right (omega arith) big in
        absurd (omega (arith, h, k, grow))
  ]

  computed : {d : List Bytes} {h : Bytes} → IsRoot d h → length d ≤ max_size → mth sha d ≡ h
  unfolding mth mth_fuel leaf_hash
  computed empty small = refl
  computed (leaf x) small = refl
  computed (node p d l r low high a b) small =
      let s : IsSplit (length d) p = record {
        below = low;
        above = high;
        small = split_small p (length d) low small;
      } in
      let (sl, sr) = part_lt d p s in
      mth_split sha d p s small
      ∙ node_is _ _
      ∙ ap (λ t. sha.digest (0x01 ∷ (t ++ mth sha (drop (2 ^ p) d)))) (computed a (omega arith))
      ∙ ap (λ t. sha.digest (0x01 ∷ (l ++ t))) (computed b (omega arith))

  -- For slices of up to 2 ^ 63 leaves, `mth` returns the hash that RFC 6962 defines, and no other hash is
  -- one by its rules.
  pub mth-IsRoot : (d : List Bytes) (h : Bytes) → length d ≤ max_size → (mth sha d ≡ h) ↔ IsRoot d h
  mth-IsRoot d h small =
      (λ q. subst (IsRoot d) q (built (length d) d (omega arith) small), λ r. computed r small)

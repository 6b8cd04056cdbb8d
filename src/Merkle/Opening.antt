-- ===== src/Merkle/Opening.antt =====
-- The nodes that `consistency_proof` of src/merkle.rs emits rebuild both roots in any tree.
use sovereign_ledger.Base.{
  ℕ, zero, suc, ◌+◌, ◌-◌, ◌*◌, ◌^◌, ◌≤◌, ◌<◌, ◌≡◌, refl, sym, ◌∙◌, ap, subst, inl, inr, List, [],
  ◌∷◌, ◌++◌, arith, length, length-append, take, drop, le_or_lt, rejoin, two-pow-pos, lt_two_pow,
}
use sovereign_ledger.Base.Bits.{
  shr, diverge, diverge_high, diverge_both, ones_above, ones_above_high, ones_above_both,
}
use sovereign_ledger.Base.Bits.Shift.{IsOddMultiple}
use sovereign_ledger.Crypto.{Bytes, Sha256}
use sovereign_ledger.Merkle.{node_hash, mth}
use sovereign_ledger.Merkle.Split.{IsSplit, max_size, IsSplit-exists}
use sovereign_ledger.Merkle.Tree.{length-take_split, length-drop_split, part_lt, mth_split}
use sovereign_ledger.Merkle.Walk.{walk, walk_high, walk_both}
use sovereign_ledger.Merkle.WalkRight.{fold_right_bits, walk_right, right_high, right_both}
use sovereign_ledger.Merkle.Digits.{digits_left, digits_right, shift-le, shr-last, shr-lt}
use sovereign_ledger.Merkle.Subproof.{
  Emits, Emits-left, Emits-right, IsFullOpening, opening_left, mth-take_split,
}
use sovereign_ledger.Merkle.FullTree.{full_opening}

module _ (sha : Sha256) where
  fold_right-zero : (seed : Bytes) (rest : List Bytes) → fold_right_bits sha seed rest 0 ≡ seed
  unfolding fold_right_bits
  fold_right-zero seed [] = refl
  fold_right-zero seed (x ∷ rest) = fold_right-zero seed rest

  -- The seed and the nodes in any tree: the sizes that the verifier computes, and both roots.
  pub record IsOpening (g s m a : ℕ) (d : List Bytes) (seed : Bytes) (rest : List Bytes)
      : Type 0 where
    pub size :
        length rest ≡ diverge g a (shr (length d - 1) s) + ones_above g a (shr (length d - 1) s)
    pub new : walk sha g seed rest a (shr (length d - 1) s) ≡ mth sha d
    pub old : walk_right sha g seed rest a (shr (length d - 1) s) ≡ mth sha (take m d)
    pub whole : a ≡ 0 → seed ≡ mth sha (take m d)

  last_shr :
      (d : List Bytes) (s e : ℕ)
      → IsSplit (length d) (s + e)
      → shr (length d - 1) s ≡ 2 ^ e + shr (length (drop (2 ^ (s + e)) d) - 1) s
  last_shr d s e i =
      let r = length (drop (2 ^ (s + e)) d) - 1 in
      let q : length d - 1 ≡ 2 ^ (s + e) + r =
        omega (arith, length-drop_split d (s + e) i, i.below) in
      rw q (shr-last s e r)

  last_bound :
      (d : List Bytes) (s e : ℕ)
      → IsSplit (length d) (s + e)
      → shr (length (drop (2 ^ (s + e)) d) - 1) s < 2 ^ e
  last_bound d s e i =
      shr-lt s e (length (drop (2 ^ (s + e)) d) - 1)
        (omega (arith, length-drop_split d (s + e) i, i.above, i.below))

  any_left :
      (g s e m a : ℕ) (d : List Bytes) (seed : Bytes) (rest : List Bytes)
      → IsSplit (length d) (s + e)
      → length d ≤ max_size
      → m ≤ 2 ^ (s + e)
      → a < 2 ^ e
      → e < g
      → IsFullOpening sha e m a (take (2 ^ (s + e)) d) seed rest
      → IsOpening g s m a d seed (rest ++ mth sha (drop (2 ^ (s + e)) d) ∷ [])
  any_left g s e m a d seed rest i fits low ha hg v =
      let w = opening_left sha e m a (s + e) d seed rest i fits low ha v in
      let b = shr (length (drop (2 ^ (s + e)) d) - 1) s in
      let nodes = rest ++ mth sha (drop (2 ^ (s + e)) d) ∷ [] in
      let hb = last_bound d s e i in
      record {
        size = rw (last_shr d s e i) (
            omega (arith, w.size, diverge_high e g a b hg ha hb, ones_above_high e g a b hg ha hb));
        new = rw (last_shr d s e i) (walk_high sha e g seed nodes a b w.size hg ha hb ∙ w.new);
        old = rw (last_shr d s e i) (right_high sha e g seed nodes a b w.size hg ha hb ∙ w.old);
        whole = λ z. sym (fold_right-zero seed nodes) ∙ (rw z at w.old);
      }

  any_right :
      (g s e m a : ℕ) (d : List Bytes) (seed : Bytes) (rest : List Bytes)
      → IsSplit (length d) (s + e)
      → length d ≤ max_size
      → 2 ^ (s + e) < m
      → m < length d
      → a < 2 ^ e
      → e < 64
      → IsOpening g s (m - 2 ^ (s + e)) a (drop (2 ^ (s + e)) d) seed rest
      → IsOpening g s m (2 ^ e + a) d seed (rest ++ mth sha (take (2 ^ (s + e)) d) ∷ [])
  any_right g s e m a d seed rest i fits high less ha he v =
      let b = shr (length (drop (2 ^ (s + e)) d) - 1) s in
      let top = mth sha (take (2 ^ (s + e)) d) in
      let hb = last_bound d s e i in
      record {
        size = rw (last_shr d s e i) (
            omega (
              arith,
              length-append rest (top ∷ []),
              v.size,
              diverge_both e g a b ha hb,
              ones_above_both e g a b he ha hb,
            ));
        new = rw (last_shr d s e i) (
            walk_both sha e g seed rest top a b v.size ha hb
            ∙ ap (node_hash sha top) v.new
            ∙ sym (mth_split sha d (s + e) i fits));
        old = rw (last_shr d s e i) (
            right_both sha e g seed rest top a b v.size ha hb
            ∙ ap (node_hash sha top) v.old
            ∙ sym (mth-take_split sha m d (s + e) i fits high (omega arith)));
        whole = λ z. absurd (omega (arith, two-pow-pos e));
      }

  abbrev pub Opening : ℕ → ℕ → ℕ → ℕ → ℕ → List Bytes → Type 0
  Opening f g s m a d =
      (seed : Bytes) × (rest : List Bytes) × Emits sha f m a d seed rest
      × IsOpening g s m a d seed rest

  step_left :
      (f g s e m a : ℕ) (d : List Bytes)
      → IsSplit (length d) (s + e)
      → IsOddMultiple m s a
      → s + g ≡ 64
      → length d ≤ suc f
      → length d ≤ max_size
      → m ≤ 2 ^ (s + e)
      → Opening (suc f) g s m a d
  step_left f g s e m a d i v hs hf fits low =
      let l = length-take_split d (s + e) i in
      let (seed, rest, em, op) =
        full_opening sha e f m s a (take (2 ^ (s + e)) d) l (omega (arith, i.small))
          (omega (arith, i.below, lt_two_pow (s + e))) v (omega (arith, l)) in
      (
        seed,
        rest ++ mth sha (drop (2 ^ (s + e)) d) ∷ [],
        Emits-left sha f m a d (s + e) seed rest i low em,
        any_left g s e m a d seed rest i fits low (digits_left m s a e v low)
            (omega (arith, i.small)) op,
      )

  step_right :
      (f g s e m a c : ℕ) (d : List Bytes)
      → IsSplit (length d) (s + e)
      → 2 ^ e + c ≡ a
      → c < 2 ^ e
      → length d ≤ max_size
      → 2 ^ (s + e) < m
      → m < length d
      → Opening f g s (m - 2 ^ (s + e)) c (drop (2 ^ (s + e)) d)
      → Opening (suc f) g s m a d
  step_right f g s e m a c d i sum bound fits high less (seed, rest, em, op) =
      let nodes = rest ++ mth sha (take (2 ^ (s + e)) d) ∷ [] in
      (
        seed,
        nodes,
        Emits-right sha f m a c d (s + e) seed rest i high less (omega (arith, two-pow-pos e)) em,
        subst (λ t. IsOpening g s m t d seed nodes) sum
            (any_right g s e m c d seed rest i fits high less bound (omega (arith, i.small)) op),
      )

  IsSplit-shifted :
      (m s a p n : ℕ) → IsOddMultiple m s a → m < n → IsSplit n p → IsSplit n (s + (p - s))
  IsSplit-shifted m s a p n v h i =
      subst (IsSplit n) (sym (rejoin s p (shift-le m s a p v (omega (arith, i.above))))) i

  -- For every older size below that of the tree.
  pub opening :
      (f g s m a : ℕ) (d : List Bytes)
      → IsOddMultiple m s a
      → s + g ≡ 64
      → m < length d
      → length d ≤ f
      → length d ≤ max_size
      → Opening f g s m a d
  opening zero g s m a d v hs h hf fits = absurd (omega arith)
  opening (suc f) g s m a d v hs h hf fits =
      let (p, i') = IsSplit-exists (length d) (omega (arith, pos)) fits in
      let e = p - s in
      let i = IsSplit-shifted m s a p (length d) v h i' in
      let (_, hr) = part_lt d (s + e) i in
      elim (le_or_lt m (2 ^ (s + e))) [
        | inl low ↦ step_left f g s e m a d i v hs hf fits low
        | inr high ↦
            let r = digits_right m s a e v high (omega (arith, i.above)) in
            step_right f g s e m a (a - 2 ^ e) d i r.sum r.bound fits high h (
              opening f g s (m - 2 ^ (s + e)) (a - 2 ^ e) (drop (2 ^ (s + e)) d) r.rest hs
                (omega (arith, length-drop_split d (s + e) i)) (omega arith) (omega arith))
      ]
    where
      one_le : 1 * 2 ^ s ≤ (a + 1) * 2 ^ s
      one_le = grind arith

      pos : 1 ≤ m
      pos = omega (arith, v.product, two-pow-pos s, one_le)

-- ===== src/Merkle/FullTree.antt =====
-- The nodes that `consistency_proof` of src/merkle.rs emits rebuild both roots in a full tree.
use sovereign_ledger.Base.{
  ℕ, zero, suc, ◌+◌, ◌-◌, ◌*◌, ◌^◌, ◌≤◌, ◌<◌, ◌≡◌, refl, sym, ap, subst, inl, inr, true, false,
  List, [], ◌∷◌, ◌++◌, arith, length, take, drop, take_all, le_or_lt, two-pow-pos,
}
use sovereign_ledger.Base.Bits.Shift.{IsOddMultiple, pow-add}
use sovereign_ledger.Crypto.{Bytes, Sha256}
use sovereign_ledger.Merkle.{mth}
use sovereign_ledger.Merkle.Split.{IsSplit, max_size}
use sovereign_ledger.Merkle.Tree.{length-take_split, length-drop_split}
use sovereign_ledger.Merkle.Walk.{fold_bits}
use sovereign_ledger.Merkle.WalkRight.{fold_right_bits}
use sovereign_ledger.Merkle.Audit.{IsSplit-full}
use sovereign_ledger.Merkle.Digits.{digits_left, digits_right, odd_multiple-ne}
use sovereign_ledger.Merkle.Subproof.{
  sub_end, Emits, Emits-left, Emits-right, IsFullOpening, opening_left, opening_right,
}
use native.Mathlib.Nat.{pow-suc, pow-le-pow_right}

module _ (sha : Sha256) where
  abbrev pub FullOpening : ℕ → ℕ → ℕ → ℕ → List Bytes → Type 0
  FullOpening f e m a d =
      (seed : Bytes) × (rest : List Bytes) × Emits sha f m a d seed rest
      × IsFullOpening sha e m a d seed rest

  full_end : (f m a : ℕ) (d : List Bytes) → m ≡ length d → a ≡ 0 → FullOpening (suc f) 0 m a d
  unfolding fold_bits fold_right_bits
  full_end f m a d e z = (
    mth sha d,
    [],
    record { closed = sub_end sha f m d false [] e; opened = rw z (sub_end sha f m d true [] e) },
    record { size = refl; new = refl; old = ap (mth sha) (sym (take_all m d (omega arith))) },
  )

  pub full_opening :
      (e f m s a : ℕ) (d : List Bytes)
      → length d ≡ 2 ^ (s + e)
      → s + e ≤ 63
      → e < f
      → IsOddMultiple m s a
      → m ≤ length d
      → FullOpening f e m a d
  full_opening e zero m s a d l small hf v h = elim hf [ ]
  full_opening zero (suc f) m s a d l small hf v h =
      let z : a < 1 = digits_left m s a 0 v (omega arith) in
      let z' : a ≡ 0 = omega arith in
      full_end f m a d
        (omega (arith, v.product, l, pow-add s 0, ap (λ (t : ℕ). (t + 1) * 2 ^ s) z')) z'
  full_opening (suc e) (suc f) m s a d l small hf v h = elim (le_or_lt m (2 ^ (s + e))) [
    | inl low ↦
        let (seed, rest, em, op) =
          full_opening e f m s a (take (2 ^ (s + e)) d) (length-take_split d (s + e) split)
            (omega arith) (omega arith) v (omega (arith, length-take_split d (s + e) split)) in
        (
          seed,
          rest ++ mth sha (drop (2 ^ (s + e)) d) ∷ [],
          Emits-left sha f m a d (s + e) seed rest split low em,
          opening_left sha e m a (s + e) d seed rest split fits low (digits_left m s a e v low) op,
        )
    | inr high ↦
        let r = digits_right m s a e v high (omega (arith, split.above, less)) in
        let (seed, rest, em, op) =
          full_opening e f (m - 2 ^ (s + e)) s (a - 2 ^ e) (drop (2 ^ (s + e)) d) half_length
            (omega arith) (omega arith) r.rest (omega (arith, half_length, l, double)) in
        (
          seed,
          rest ++ mth sha (take (2 ^ (s + e)) d) ∷ [],
          Emits-right sha f m a (a - 2 ^ e) d (s + e) seed rest split high less
              (omega (arith, r.sum, two-pow-pos e)) em,
          subst
              (λ t.
                IsFullOpening sha (suc e) m t d seed (rest ++ mth sha (take (2 ^ (s + e)) d) ∷ []))
              r.sum
              (opening_right sha e m (a - 2 ^ e) (s + e) d seed rest split fits high h r.bound op),
        )
  ]
    where
      double : 2 ^ (s + suc e) ≡ 2 ^ (s + e) + 2 ^ (s + e)
      double =
          let q : s + suc e ≡ suc (s + e) = omega arith in rw q (omega (arith, pow-suc 2 (s + e)))

      split : IsSplit (length d) (s + e)
      split =
          let q : s + suc e ≡ suc (s + e) = omega arith in
          rw (l, q) (IsSplit-full sha (s + e) (omega arith))

      fits : length d ≤ max_size
      fits = rw l (pow-le-pow_right (omega arith) small)

      half_length : length (drop (2 ^ (s + e)) d) ≡ 2 ^ (s + e)
      half_length = omega (arith, length-drop_split d (s + e) split, double, l)

      less : m < length d
      less = omega (arith, h, l, odd_multiple-ne m s a e v)

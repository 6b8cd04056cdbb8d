-- ===== src/Merkle/Sizes.antt =====
-- The sizes of a consistency proof of src/merkle.rs: `trailing_zeros` of the older size, the shift
-- by it, and the parts of the proof that `decomp_incl_proof` computes.
use sovereign_ledger.Base.{
  ℕ, zero, suc, ◌+◌, ◌-◌, ◌*◌, ◌^◌, ◌≤◌, ◌<◌, ◌≡◌, ◌≢◌, sym, ◌∙◌, arith, ◌==◌, two-pow-pos,
}
use sovereign_ledger.Base.Bits.{shr, diverge, ones_above}
use sovereign_ledger.Base.Bits.Shift.{
  IsOddMultiple, shr-below, shr-above, diverge_shift, ones_above_shift,
}

-- The digits of the two sizes of a proof with `0 < old_size < new_size`.
pub record IsSized (m n s g a : ℕ) : Type 0 where
  pub odd : IsOddMultiple m s a
  pub shift : s < 64
  pub digits : s + g ≡ 64
  pub older : m < n

pow2_cases : (m s a : ℕ) → 1 ≤ 2 ^ s → m ≡ (a + 1) * 2 ^ s → (m == 2 ^ s) ≡ (a == 0)
pow2_cases m s zero h e = let q : m ≡ 2 ^ s = omega arith in rw q (ground arith)
pow2_cases m s (suc a) h e =
    let l : 2 * 2 ^ s ≤ (suc a + 1) * 2 ^ s = grind arith in
    let q : m ≢ 2 ^ s = omega arith in ground arith

pub plus_minus : (s d : ℕ) → s + d - s ≡ d
plus_minus s d = omega arith

diverge-pos : (g a b : ℕ) → 0 < g → a ≢ b → 1 ≤ diverge g a b
unfolding diverge
diverge-pos zero a b h ne = h
diverge-pos (suc g) a b h ne = ground arith

module _ {m n s g a : ℕ} (z : IsSized m n s g a) where
  pub positive : 1 ≤ m
  positive =
      let l : 1 * 2 ^ s ≤ (a + 1) * 2 ^ s = grind arith in
      omega (arith, z.odd.product, two-pow-pos s, l)

  pub old_digits : shr (m - 1) s ≡ a
  old_digits = shr-below m s a z.odd

  parted : shr (m - 1) s ≢ shr (n - 1) s
  parted e = omega (arith, old_digits, shr-above m s a (n - 1) z.odd (omega (arith, z.older)))

  -- There is a node behind the seed.
  pub inner-pos : 1 ≤ diverge g a (shr (n - 1) s)
  inner-pos =
      diverge-pos g a (shr (n - 1) s) (omega (arith, z.shift, z.digits))
        (λ e. parted (old_digits ∙ e))

  -- The shift is taken off the inner part: it never exceeds it.
  pub inner-shift : diverge 64 (m - 1) (n - 1) ≡ s + diverge g a (shr (n - 1) s)
  inner-shift = rw (sym z.digits) (diverge_shift s g (m - 1) (n - 1) parted ∙ rw old_digits)

  pub border-shift : ones_above 64 (m - 1) (n - 1) ≡ ones_above g a (shr (n - 1) s)
  border-shift = rw (sym z.digits) (ones_above_shift s g (m - 1) (n - 1) parted ∙ rw old_digits)

  pub pow2_test : (m == 2 ^ s) ≡ (a == 0)
  pow2_test = pow2_cases m s a (two-pow-pos s) z.odd.product

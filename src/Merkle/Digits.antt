-- ===== src/Merkle/Digits.antt =====
-- The digits of an old tree size: how an odd multiple of `2 ^ s` lies in the two parts of a tree.
use sovereign_ledger.Base.{
  ℕ, zero, suc, ◌+◌, ◌-◌, ◌*◌, ◌%◌, ◌^◌, ◌≤◌, ◌<◌, ◌≡◌, ◌≢◌, sym, ◌∙◌, ap, inl, inr, arith,
  le_or_lt, two-pow-pos,
}
use sovereign_ledger.Base.Bits.{shr}
use sovereign_ledger.Base.Bits.Shift.{IsOddMultiple, pow-add}
use native.Mathlib.Nat.{pow-suc, pow-le-pow_right, mul-add-div_right, div-lt_iff_lt-mul}

le_cancel : (x y z : ℕ) → 0 < z → x * z ≤ y * z → x ≤ y
le_cancel x y z h k = elim (le_or_lt x y) [ inl l ↦ l | inr l ↦ absurd (grind arith) ]

lt_cancel : (x y z : ℕ) → x * z < y * z → x < y
lt_cancel x y z k = elim (le_or_lt y x) [ inl l ↦ absurd (grind arith) | inr l ↦ l ]

-- The whole multiple lies in the left part of a tree that is cut at `2 ^ (s + e)`.
pub digits_left : (m s a e : ℕ) → IsOddMultiple m s a → m ≤ 2 ^ (s + e) → a < 2 ^ e
digits_left m s a e v h =
    let k : (a + 1) * 2 ^ s ≤ 2 ^ e * 2 ^ s = omega (arith, v.product, pow-add s e) in
    omega (arith, le_cancel (a + 1) (2 ^ e) (2 ^ s) (two-pow-pos s) k)

-- It reaches into the right part: what stands there is an odd multiple again.
pub record IsRightPart (m s a e b : ℕ) : Type 0 where
  pub sum : 2 ^ e + b ≡ a
  pub bound : b < 2 ^ e
  pub rest : IsOddMultiple (m - 2 ^ (s + e)) s b

pub digits_right :
    (m s a e : ℕ)
    → IsOddMultiple m s a
    → 2 ^ (s + e) < m
    → m < 2 ^ (s + e) + 2 ^ (s + e)
    → IsRightPart m s a e (a - 2 ^ e)
digits_right m s a e v h k =
    let low : 2 ^ e < a + 1 =
      lt_cancel (2 ^ e) (a + 1) (2 ^ s) (omega (arith, v.product, pow-add s e)) in
    let high : a + 1 < 2 * 2 ^ e =
      lt_cancel (a + 1) (2 * 2 ^ e) (2 ^ s) (omega (arith, v.product, pow-add s e)) in
    record {
      sum = omega arith;
      bound = omega arith;
      rest = record { product = product_rest m s a e v low; even = even_rest a e v.even low high };
    }
  where
    product_rest :
        (m s a e : ℕ)
        → IsOddMultiple m s a
        → 2 ^ e < a + 1
        → m - 2 ^ (s + e) ≡ (a - 2 ^ e + 1) * 2 ^ s
    product_rest m s a e v low =
        let c = a - 2 ^ e in
        let split : a ≡ 2 ^ e + c = omega arith in
        omega (arith, v.product, pow-add s e, ap (λ (t : ℕ). t * 2 ^ s) split)

    even_rest : (a e : ℕ) → a % 2 ≡ 0 → 2 ^ e < a + 1 → a + 1 < 2 * 2 ^ e → (a - 2 ^ e) % 2 ≡ 0
    even_rest a zero h l u = absurd (omega arith)
    even_rest a (suc e) h l u = omega (arith, pow-suc 2 e)

-- The last index, shifted, in a tree that is cut at `2 ^ (s + e)`.
pub shr-last : (s e y : ℕ) → shr (2 ^ (s + e) + y) s ≡ 2 ^ e + shr y s
shr-last s e y = rw (pow-add s e) (mul-add-div_right (two-pow-pos s) (2 ^ e) y)

pub shr-lt : (s e y : ℕ) → y < 2 ^ (s + e) → shr y s < 2 ^ e
shr-lt s e y h =
    (div-lt_iff_lt-mul {k = 2 ^ s} {x = y} {y = 2 ^ e} (two-pow-pos s)).1
      (omega (arith, pow-add s e))

-- An odd multiple of `2 ^ s` is no higher power of two.
pub odd_multiple-ne : (m s a e : ℕ) → IsOddMultiple m s a → m ≢ 2 ^ (s + suc e)
odd_multiple-ne m s a e v h =
    let k : (a + 1) * 2 ^ s ≡ 2 ^ suc e * 2 ^ s = sym v.product ∙ h ∙ pow-add s (suc e) in
    let l : a + 1 ≤ 2 ^ suc e =
      le_cancel (a + 1) (2 ^ suc e) (2 ^ s) (two-pow-pos s) (omega (arith, k)) in
    let u : 2 ^ suc e ≤ a + 1 =
      le_cancel (2 ^ suc e) (a + 1) (2 ^ s) (two-pow-pos s) (omega (arith, k)) in
    omega (arith, v.even, pow-suc 2 e)

-- The shift is no larger than the exponent of the cut.
pub shift-le : (m s a p : ℕ) → IsOddMultiple m s a → m < 2 ^ p + 2 ^ p → s ≤ p
shift-le m s a p v h = elim (le_or_lt s p) [
  | inl l ↦ l
  | inr l ↦
      let g : 2 ^ suc p ≤ 2 ^ s = pow-le-pow_right (omega arith) l in
      let k : 1 * 2 ^ s ≤ (a + 1) * 2 ^ s = grind arith in
      absurd (omega (arith, v.product, pow-suc 2 p))
]

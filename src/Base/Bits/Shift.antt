-- ===== src/Base/Bits/Shift.antt =====
-- Numbers cut by a shift, and the trailing zeros of a number.
use Prim.Native.Nat.{ℕ, zero, suc, ◌+◌, ◌-◌, ◌*◌, ◌/◌, ◌%◌, ◌^◌, ◌≤◌, ◌<◌}
use mathlib.Core.Path.{◌≡◌, sym, ap, ◌∙◌}
use mathlib.Core.Logic.{◌≢◌, inl, inr}
use native.Mathlib.Nat.{
  pow-suc, div-one, zero-add, suc-add, mul-add-div_right, div-eq_of_lt, le-div_iff_mul-le,
}
use native.Mathlib.Omega.{arith}
use sovereign_ledger.Base.Numbers.{two-pow-pos}
use sovereign_ledger.Base.Tests.{◌==◌, Bool-cases}
use sovereign_ledger.Base.Bits.{shr, half-shr, diverge, ones_above, trailing_zeros, even_steps}

ne_shr : (s x y : ℕ) → shr x s ≢ shr y s → x ≢ y
ne_shr s x y ne e = ne (ap (λ t. shr t s) e)

ne_half : (s x y : ℕ) → shr x (suc s) ≢ shr y (suc s) → shr (x / 2) s ≢ shr (y / 2) s
ne_half s x y ne e = ne (sym (half-shr x s) ∙ e ∙ half-shr y s)

diverge-next : (f x y : ℕ) → x ≢ y → diverge (suc f) x y ≡ suc (diverge f (x / 2) (y / 2))
unfolding diverge
diverge-next f x y ne = ground arith

ones_above-next : (f x y : ℕ) → x ≢ y → ones_above (suc f) x y ≡ ones_above f (x / 2) (y / 2)
unfolding ones_above
ones_above-next f x y ne = ground arith

-- Below a point where the two numbers differ, all digits count.
pub diverge_shift :
    (s f x y : ℕ) → shr x s ≢ shr y s → diverge (s + f) x y ≡ s + diverge f (shr x s) (shr y s)
diverge_shift zero f x y ne = rw (div-one x, div-one y, zero-add f) (sym (zero-add (diverge f x y)))
diverge_shift (suc s) f x y ne =
    rw (suc-add s f, suc-add s (diverge f (shr x (suc s)) (shr y (suc s))))
      (diverge-next (s + f) x y (ne_shr (suc s) x y ne)
        ∙ ap suc (
            rw (half-shr x s, half-shr y s) at
              (diverge_shift s f (x / 2) (y / 2) (ne_half s x y ne))))

pub ones_above_shift :
    (s f x y : ℕ) → shr x s ≢ shr y s → ones_above (s + f) x y ≡ ones_above f (shr x s) (shr y s)
ones_above_shift zero f x y ne = rw (div-one x, div-one y, zero-add f)
ones_above_shift (suc s) f x y ne = rw (suc-add s f) (
    ones_above-next (s + f) x y (ne_shr (suc s) x y ne)
    ∙ (rw (half-shr x s, half-shr y s) at
        (ones_above_shift s f (x / 2) (y / 2) (ne_half s x y ne))))

pub pow-add : (s e : ℕ) → 2 ^ (s + e) ≡ 2 ^ e * 2 ^ s
pow-add zero e = rw (zero-add e) (omega arith)
pow-add (suc s) e = rw (suc-add s e, pow-suc 2 (s + e), pow-suc 2 s, pow-add s e) (grind arith)

-- `m` is an odd multiple of `2 ^ s`, and `a` is what stands above its lowest one.
pub record IsOddMultiple (m s a : ℕ) : Type 0 where
  pub product : m ≡ (a + 1) * 2 ^ s
  pub even : a % 2 ≡ 0

double : (h s a m : ℕ) → m ≡ 2 * h → h ≡ (a + 1) * 2 ^ s → m ≡ (a + 1) * 2 ^ suc s
double h s a m e p = omega (arith, ap (λ (t : ℕ). (a + 1) * t) (pow-suc 2 s))

pub IsOddMultiple-exists :
    (f m : ℕ) → 0 < m → m < 2 ^ f → (s : ℕ) × (a : ℕ) × (s < f) × IsOddMultiple m s a
IsOddMultiple-exists zero m h k = absurd (omega arith)
IsOddMultiple-exists (suc f) m h k = elim (Bool-cases (m % 2 == 0)) [
  | inl e ↦
      let (s, a, l, v) =
        IsOddMultiple-exists f (m / 2) (ground arith) (omega (arith, pow-suc 2 f)) in
      (
        suc s,
        a,
        omega arith,
        record { product = double (m / 2) s a m (ground arith) v.product; even = v.even },
      )
  | inr e ↦ (0, m - 1, omega arith, record { product = ground arith; even = ground arith })
]

halve : (s a m : ℕ) → IsOddMultiple m (suc s) a → (m % 2 ≡ 0) × IsOddMultiple (m / 2) s a
halve s a m v =
    let e : m ≡ 2 * ((a + 1) * 2 ^ s) =
      omega (arith, v.product, ap (λ (t : ℕ). (a + 1) * t) (pow-suc 2 s)) in
    (omega arith, record { product = omega arith; even = v.even })

even_steps-IsOddMultiple : (f m s a : ℕ) → s < f → IsOddMultiple m s a → even_steps f m ≡ s
unfolding even_steps
even_steps-IsOddMultiple zero m s a h v = elim h [ ]
even_steps-IsOddMultiple (suc f) m zero a h v = ground (arith, v.product, v.even)
even_steps-IsOddMultiple (suc f) m (suc s) a h v =
    let (e, w) = halve s a m v in
    ground (arith, even_steps-IsOddMultiple f (m / 2) s a (omega arith) w)

pub trailing_zeros-IsOddMultiple : (m s a : ℕ) → s < 64 → IsOddMultiple m s a → trailing_zeros m ≡ s
unfolding trailing_zeros
trailing_zeros-IsOddMultiple m s a h v = even_steps-IsOddMultiple 64 m s a h v

-- The index below `m`, shifted.
pub shr-below : (m s a : ℕ) → IsOddMultiple m s a → shr (m - 1) s ≡ a
shr-below m s a v =
    let e : m - 1 ≡ a * 2 ^ s + (2 ^ s - 1) = omega (arith, v.product, two-pow-pos s) in
    let l : 2 ^ s - 1 < 2 ^ s = omega (arith, two-pow-pos s) in
    rw (e, mul-add-div_right (two-pow-pos s) a (2 ^ s - 1), div-eq_of_lt l) (omega arith)

pub shr-above : (m s a x : ℕ) → IsOddMultiple m s a → m ≤ x → a < shr x s
shr-above m s a x v h =
    (le-div_iff_mul-le {k = 2 ^ s} {x = suc a} {y = x} (two-pow-pos s)).1 (omega (arith, v.product))

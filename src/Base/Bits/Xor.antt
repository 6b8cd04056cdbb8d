-- ===== src/Base/Bits/Xor.antt =====
-- Exclusive or, digit by digit.
use Prim.Native.Nat.{
  ℕ, zero, suc, ◌+◌, ◌*◌, ◌/◌, ◌%◌, ◌≤◌, bit_xor, differ, digits, bit_xor-bitwise,
}
use mathlib.Core.Path.{◌≡◌, refl, ap}
use mathlib.Core.Logic.{◌↔◌}
use native.Mathlib.Nat.{le_refl}
use native.Mathlib.Omega.{arith}

abbrev xor_digits : ℕ → ℕ → ℕ → ℕ
xor_digits n a b = digits (λ y. y) differ n a b

xor_digits_fuel : (n m a b : ℕ) → a ≤ n → a ≤ m → xor_digits n a b ≡ xor_digits m a b
xor_digits_fuel zero zero a b p q = refl
xor_digits_fuel zero (suc m) zero b p q = refl
xor_digits_fuel zero (suc m) (suc a) b p q = absurd (omega arith)
xor_digits_fuel (suc n) zero zero b p q = refl
xor_digits_fuel (suc n) zero (suc a) b p q = absurd (omega arith)
xor_digits_fuel (suc n) (suc m) zero b p q = refl
xor_digits_fuel (suc n) (suc m) (suc a) b p q =
    rw (xor_digits_fuel n m (suc a / 2) (b / 2) (omega arith) (omega arith))

zero-differ : (y : ℕ) → differ 0 y ≡ y
zero-differ y = refl

pub bit_xor_step : (a b : ℕ) → bit_xor a b ≡ bit_xor (a / 2) (b / 2) * 2 + differ (a % 2) (b % 2)
bit_xor_step zero b = simp bit_xor-bitwise (omega arith)
bit_xor_step (suc a) b =
    simp bit_xor-bitwise
      (omega (arith, xor_digits_fuel a (suc a / 2) (suc a / 2) (b / 2) (omega arith) (le_refl _)))

pub differ-eq-zero : (x y : ℕ) → (differ x y ≡ 0) ↔ (x ≡ y)
differ-eq-zero zero y = (λ e. omega arith, λ e. omega arith)
differ-eq-zero (suc x) zero = (λ e. omega arith, λ e. omega arith)
differ-eq-zero (suc x) (suc y) =
    let h = differ-eq-zero x y in (λ e. omega (arith, h.0 e), λ e. h.1 (omega arith))

pub differ-lt_two : (x y : ℕ) → x ≤ 1 → y ≤ 1 → differ x y ≤ 1
differ-lt_two zero y h k = k
differ-lt_two (suc x) zero h k = h
differ-lt_two (suc x) (suc y) h k = differ-lt_two x y (omega arith) (omega arith)

pub bit_xor-half : (a b : ℕ) → bit_xor a b / 2 ≡ bit_xor (a / 2) (b / 2)
bit_xor-half a b =
    omega (arith, bit_xor_step a b, differ-lt_two (a % 2) (b % 2) (omega arith) (omega arith))

bit_xor-eq-zero_fuel : (f a b : ℕ) → a ≤ f → (bit_xor a b ≡ 0) ↔ (a ≡ b)
bit_xor-eq-zero_fuel f zero b h = simp bit_xor-bitwise (λ e. omega arith, λ e. omega arith)
bit_xor-eq-zero_fuel zero (suc a) b h = absurd (omega arith)
bit_xor-eq-zero_fuel (suc f) (suc a) b h =
    let ih = bit_xor-eq-zero_fuel f (suc a / 2) (b / 2) (omega arith) in
    let low = differ-eq-zero (suc a % 2) (b % 2) in
    let e = bit_xor_step (suc a) b in
    (
      λ z. omega (arith, e, low.0 (omega (arith, e)), ih.0 (omega (arith, e))),
      λ z. omega (arith, e, low.1 (ap (λ (t : ℕ). t % 2) z), ih.1 (ap (λ (t : ℕ). t / 2) z)),
    )

pub bit_xor-eq-zero : (a b : ℕ) → (bit_xor a b ≡ 0) ↔ (a ≡ b)
bit_xor-eq-zero a b = bit_xor-eq-zero_fuel a a b (le_refl a)

-- ===== src/Base/Bits.antt =====
-- The operations of Rust's u64 that the code uses: shifts, leading and trailing zeros, ones, and the
-- little-endian bytes. A word is a number below 2 ^ 64.
mod Xor
pub mod Shift
use Xor.{bit_xor-eq-zero, bit_xor-half}
pub use Prim.Native.Nat.{bit_xor}
use Prim.Native.Nat.{ℕ, zero, suc, ◌+◌, ◌-◌, ◌*◌, ◌/◌, ◌%◌, ◌^◌, ◌≤◌, ◌<◌}
use mathlib.Core.Path.{◌≡◌, refl, sym, ap, ◌∙◌}
use mathlib.Core.List.{List, [], ◌∷◌, ◌++◌}
use native.Mathlib.Nat.{pow-suc, pow-succ', div-one, div-eq_of_lt, div-div-eq-div-mul}
use mathlib.Core.Logic.{inl, inr}
use native.Mathlib.Omega.{arith}
use sovereign_ledger.Base.Tests.{◌==◌, if◌then◌else◌, Bool-cases}
use sovereign_ledger.Base.Lists.{length}

abbrev pub u64_mod : ℕ
u64_mod = 2 ^ 64

abbrev pub u32_mod : ℕ
u32_mod = 2 ^ 32

-- `x << 1` on a u64.
abbrev pub shl_one : ℕ → ℕ
shl_one x = x * 2 % u64_mod

-- `x >> k`.
abbrev pub shr : ℕ → ℕ → ℕ
shr x k = x / 2 ^ k

-- The number of binary digits of `x`, at most `f`.
pub width : ℕ → ℕ → ℕ
width zero x = 0
width (suc f) x = let rest = width f (x / 2) in if x == 0 then 0 else suc rest

unfoldable pub leading_zeros : ℕ → ℕ
unfolding width
leading_zeros x = 64 - width 64 x

pub ones : ℕ → ℕ → ℕ
ones zero x = 0
ones (suc f) x = ones f (x / 2) + x % 2

unfoldable pub count_ones : ℕ → ℕ
unfolding ones
count_ones x = ones 64 x

unfoldable pub even_steps : ℕ → ℕ → ℕ
even_steps zero x = 0
even_steps (suc f) x = let rest = even_steps f (x / 2) in if x % 2 == 0 then suc rest else 0

unfoldable pub trailing_zeros : ℕ → ℕ
trailing_zeros x = even_steps 64 x

-- The number of low digits above which `a` and `b` are the same.
unfoldable pub diverge : ℕ → ℕ → ℕ → ℕ
diverge zero a b = 0
diverge (suc f) a b = let rest = diverge f (a / 2) (b / 2) in if a == b then 0 else suc rest

width-le : (f x : ℕ) → width f x ≤ f
unfolding width
width-le zero x = omega arith
width-le (suc f) x = ground (arith, width-le f (x / 2))

pub width-bit_xor : (f a b : ℕ) → width f (bit_xor a b) ≡ diverge f a b
unfolding width diverge
width-bit_xor zero a b = refl
width-bit_xor (suc f) a b =
    ground (arith, bit_xor-eq-zero a b, bit_xor-half a b, width-bit_xor f (a / 2) (b / 2))

-- `64 - (a ^ b).leading_zeros()`.
pub leading_zeros-bit_xor : (a b : ℕ) → 64 - leading_zeros (bit_xor a b) ≡ diverge 64 a b
unfolding leading_zeros
leading_zeros-bit_xor a b = omega (arith, width-bit_xor 64 a b, width-le 64 (bit_xor a b))

pub diverge_self : (f a : ℕ) → diverge f a a ≡ 0
unfolding diverge
diverge_self zero a = refl
diverge_self (suc f) a = ground arith

pub diverge-le : (f a b : ℕ) → diverge f a b ≤ f
unfolding diverge
diverge-le zero a b = omega arith
diverge-le (suc f) a b = ground (arith, diverge-le f (a / 2) (b / 2))

-- Only the second number has the digit `p`.
pub diverge_high : (p f a b : ℕ) → p < f → a < 2 ^ p → b < 2 ^ p → diverge f a (2 ^ p + b) ≡ p + 1
unfolding diverge
diverge_high p zero a b h k l = elim h [ ]
diverge_high zero (suc f) a b h k l = ground (arith, diverge_self f 0)
diverge_high (suc p) (suc f) a b h k l = ground (
  arith,
  pow-suc 2 p,
  diverge_high p f (a / 2) (b / 2) (omega arith) (omega (arith, pow-suc 2 p))
      (omega (arith, pow-suc 2 p)),
)

-- Both have it.
pub diverge_both :
    (p f a b : ℕ) → a < 2 ^ p → b < 2 ^ p → diverge f (2 ^ p + a) (2 ^ p + b) ≡ diverge f a b
unfolding diverge
diverge_both p zero a b k l = refl
diverge_both zero (suc f) a b k l = ground (arith, diverge_self f 0)
diverge_both (suc p) (suc f) a b k l = ground (
  arith,
  pow-suc 2 p,
  diverge_both p f (a / 2) (b / 2) (omega (arith, pow-suc 2 p)) (omega (arith, pow-suc 2 p)),
)

ones-zero : (f : ℕ) → ones f 0 ≡ 0
unfolding ones
ones-zero zero = refl
ones-zero (suc f) = omega (arith, ones-zero f)

pub double_half : (p a : ℕ) → (2 ^ suc p + a) / 2 ≡ 2 ^ p + a / 2
double_half p a = omega (arith, pow-suc 2 p)

pub ones_high : (p f a : ℕ) → p < f → a < 2 ^ p → ones f (2 ^ p + a) ≡ ones f a + 1
unfolding ones
ones_high p zero a h k = elim h [ ]
ones_high zero (suc f) a h k = let e : a ≡ 0 = omega arith in rw e (omega (arith, ones-zero f))
ones_high (suc p) (suc f) a h k =
    rw (double_half p a)
      (omega (arith, pow-suc 2 p, ones_high p f (a / 2) (omega arith) (omega (arith, pow-suc 2 p))))

-- The ones of `a` above the point where `a` and `b` part.
unfoldable pub ones_above : ℕ → ℕ → ℕ → ℕ
ones_above zero a b = count_ones a
ones_above (suc f) a b =
    let rest = ones_above f (a / 2) (b / 2) in if a == b then count_ones a else rest

pub half-shr : (a k : ℕ) → a / 2 / 2 ^ k ≡ a / 2 ^ suc k
half-shr a k = rw pow-succ' (div-div-eq-div-mul a 2 (2 ^ k))

pub count_ones-shr : (f a b : ℕ) → count_ones (shr a (diverge f a b)) ≡ ones_above f a b
unfolding ones_above diverge
count_ones-shr zero a b = ap count_ones (div-one a)
count_ones-shr (suc f) a b = elim (Bool-cases (a == b)) [
  | inl e ↦ rw e (ap count_ones (div-one a))
  | inr e ↦ rw (e, ← half-shr) (count_ones-shr f (a / 2) (b / 2))
]

pub ones_above_both :
    (p f a b : ℕ)
    → p < 64
    → a < 2 ^ p
    → b < 2 ^ p
    → ones_above f (2 ^ p + a) (2 ^ p + b) ≡ ones_above f a b + 1
unfolding ones_above count_ones
ones_above_both p zero a b h k l = ones_high p 64 a h k
ones_above_both zero (suc f) a b h k l = ground (arith, ones_high 0 64 a)
ones_above_both (suc p) (suc f) a b h k l = ground (
  arith,
  pow-suc 2 p,
  ones_high (suc p) 64 a,
  ones_above_both p f (a / 2) (b / 2) (omega arith) (omega (arith, pow-suc 2 p))
      (omega (arith, pow-suc 2 p)),
)

pub ones_above_high : (p f a b : ℕ) → p < f → a < 2 ^ p → b < 2 ^ p → ones_above f a (2 ^ p + b) ≡ 0
unfolding count_ones
ones_above_high p f a b h k l =
    sym (count_ones-shr f a (2 ^ p + b))
    ∙ rw (diverge_high p f a b h k l, div-eq_of_lt (bound p a k)) (ones-zero 64)
  where
    bound : (p a : ℕ) → a < 2 ^ p → a < 2 ^ (p + 1)
    bound p a k = let e : p + 1 ≡ suc p = omega arith in rw e (omega (arith, pow-suc 2 p))

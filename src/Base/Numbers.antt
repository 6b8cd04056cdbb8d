-- ===== src/Base/Numbers.antt =====
-- Small facts on the native numbers: splits on an order, and powers of two.
use Prim.Native.Nat.{ℕ, zero, suc, ◌+◌, ◌-◌, ◌^◌, ◌≤◌, ◌<◌}
use mathlib.Core.Path.{◌≡◌}
use mathlib.Core.Logic.{◌⊎◌}
use native.Mathlib.Nat.{pow-suc, one-le-pow}
use native.Mathlib.Omega.{arith}

pub le_or_lt : (k m : ℕ) → (k ≤ m) ⊎ (m < k)
le_or_lt k m = ground arith

pub eq_or_lt : (i p : ℕ) → i ≤ p → (i ≡ p) ⊎ (i < p)
eq_or_lt i p h = ground arith

pub one_or_more : (n : ℕ) → 0 < n → (n ≡ 1) ⊎ (2 ≤ n)
one_or_more n h = ground arith

pub rejoin : (k m : ℕ) → k ≤ m → k + (m - k) ≡ m
rejoin k m up = omega arith

pub two-pow-pos : (p : ℕ) → 1 ≤ 2 ^ p
two-pow-pos p = one-le-pow p 2 (omega arith)

pub lt_two_pow : (p : ℕ) → p < 2 ^ p
lt_two_pow zero = omega arith
lt_two_pow (suc p) = omega (arith, lt_two_pow p, pow-suc 2 p)

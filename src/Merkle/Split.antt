-- ===== src/Merkle/Split.antt =====
-- The place where `mth` cuts a slice: `largest_pow2_lt` of src/merkle.rs.
use native.Mathlib.Nat.{pow-suc, pow-le-pow_right}
use sovereign_ledger.Base.{
  ℕ, zero, suc, ◌+◌, ◌*◌, ◌%◌, ◌^◌, ◌≤◌, ◌<◌, ◌≡◌, refl, ◌⊎◌, inl, inr, arith, lt→ltb, Bool-cases,
  leb, eq_or_lt,
}
use sovereign_ledger.Merkle.{pow2_loop, largest_pow2_lt}

-- The exponent of the largest power of two below a number.
pub record IsSplit (n p : ℕ) : Type 0 where
  pub below : 2 ^ p < n
  pub above : n ≤ 2 ^ p + 2 ^ p
  pub small : p < 63

-- Slices that the code can hold: the loop on a u64 ends for these.
abbrev pub max_size : ℕ
max_size = 2 ^ 63

abbrev Split : ℕ → Type 0
Split n = (p : ℕ) × IsSplit n p

Split-below : (g n : ℕ) → g ≤ 63 → 2 ≤ n → n ≤ 2 ^ g → Split n
Split-below zero n small h k = absurd (omega arith)
Split-below (suc g) n small h k = elim (Bool-cases (leb n (2 ^ g))) [
  | inl e ↦ Split-below g n (omega arith) h (ground arith)
  | inr e ↦
      (g, record { below = ground arith; above = omega (arith, pow-suc 2 g); small = omega arith })
]

pub IsSplit-exists : (n : ℕ) → 2 ≤ n → n ≤ max_size → (p : ℕ) × IsSplit n p
IsSplit-exists n h k = Split-below 63 n (omega arith) h k

pow2-lt-u64 : (i : ℕ) → i < 63 → 2 ^ suc i < 2 ^ 64
pow2-lt-u64 i h = let e : 2 ^ suc i ≤ 2 ^ 63 = pow-le-pow_right (omega arith) h in omega (arith, e)

shl-pow2 : (i : ℕ) → i < 63 → 2 ^ i * 2 % 2 ^ 64 ≡ 2 ^ suc i
shl-pow2 i h = omega (arith, pow-suc 2 i, pow2-lt-u64 i h)

pow2_loop-stop : (f k n : ℕ) → n ≤ k → pow2_loop f k n ≡ k
unfolding pow2_loop
pow2_loop-stop zero k n h = refl
pow2_loop-stop (suc f) k n h = ground arith

-- From `2 ^ i` the loop ends at the power behind the exponent of the split.
pow2_loop-pow : (f i p n : ℕ) → i ≤ p → p < i + f → IsSplit n p → pow2_loop f (2 ^ i) n ≡ 2 ^ suc p
unfolding pow2_loop
pow2_loop-pow zero i p n h k s = absurd (omega arith)
pow2_loop-pow (suc f) i p n h k s =
    rw (lt→ltb (2 ^ i) n (omega (arith, s.below, grow)), shl-pow2 i (omega (arith, s.small)))
      (next (λ l. pow2_loop-pow f (suc i) p n l (omega arith) s) (eq_or_lt i p h))
  where
    grow : 2 ^ i ≤ 2 ^ p
    grow = pow-le-pow_right (omega arith) h

    next :
        (i < p → pow2_loop f (2 ^ suc i) n ≡ 2 ^ suc p)
        → (i ≡ p) ⊎ (i < p)
        → pow2_loop f (2 ^ suc i) n ≡ 2 ^ suc p
    next more (inl e) = rw e (pow2_loop-stop f (2 ^ suc p) n (omega (arith, s.above, pow-suc 2 p)))
    next more (inr l) = more l

-- For every size up to 2 ^ 63, the function returns the power of two that lies below the size, and
-- whose double does not: the 64 rounds of its loop are enough.
pub largest_pow2_lt-IsSplit : (n p : ℕ) → IsSplit n p → largest_pow2_lt n ≡ 2 ^ p
unfolding largest_pow2_lt
largest_pow2_lt-IsSplit n p s =
    rw (pow2_loop-pow 64 0 p n (omega arith) (omega (arith, s.small)) s)
      (omega (arith, pow-suc 2 p))

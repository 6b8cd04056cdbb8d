-- ===== src/Base/Bytes.antt =====
-- Tests on byte strings, and the bytes of a text literal.
use Prim.Native.Char.{code}
use Prim.Native.Nat.{ℕ, zero, suc, ◌%◌, ◌/◌, ◌^◌, ◌<◌}
use Prim.Native.String.{String}
use mathlib.Core.Path.{◌≡◌, refl, ap}
use mathlib.Core.Logic.{◌↔◌, ◌⊎◌, ◌≢◌, inl, inr}
use mathlib.Core.Bool.{Bool, true, false, ◌&&◌}
use mathlib.Core.List.{List, [], ◌∷◌}
use native.Mathlib.Omega.{arith}
use native.Mathlib.Nat.{pow-suc}
use sovereign_ledger.Base.Lists.{length, All}
use sovereign_ledger.Base.Tests.{◌==◌, Bool-cases}

-- The UTF-8 bytes of an ASCII literal.
abbrev pub codes : String → List ℕ
codes String.[] = []
codes (String.◌∷◌ c s) = code c ∷ codes s

abbrev pub is_empty {ℓ} : {A : Type ℓ} → List A → Bool
is_empty [] = true
is_empty (x ∷ xs) = false

unfoldable pub bytes_eq : List ℕ → List ℕ → Bool
bytes_eq [] [] = true
bytes_eq [] (y ∷ ys) = false
bytes_eq (x ∷ xs) [] = false
bytes_eq (x ∷ xs) (y ∷ ys) = x == y && bytes_eq xs ys

pub bytes_eq→eq : (xs ys : List ℕ) → bytes_eq xs ys ≡ true → xs ≡ ys
unfolding bytes_eq
bytes_eq→eq [] [] h = refl
bytes_eq→eq [] (y ∷ ys) h = ground arith
bytes_eq→eq (x ∷ xs) [] h = ground arith
bytes_eq→eq (x ∷ xs) (y ∷ ys) h = ground (arith, bytes_eq→eq xs ys)

pub bytes_eq_self : (xs : List ℕ) → bytes_eq xs xs ≡ true
unfolding bytes_eq
bytes_eq_self [] = refl
bytes_eq_self (x ∷ xs) = ground (arith, bytes_eq_self xs)

pub bytes_eq_iff : (xs ys : List ℕ) → (bytes_eq xs ys ≡ true) ↔ (xs ≡ ys)
bytes_eq_iff xs ys = (bytes_eq→eq xs ys, λ e. rw e (bytes_eq_self ys))

-- Byte strings can be told apart.
pub bytes-cases : (xs ys : List ℕ) → (xs ≡ ys) ⊎ (xs ≢ ys)
bytes-cases xs ys = elim (Bool-cases (bytes_eq xs ys)) [
  | inl e ↦ inl (bytes_eq→eq xs ys e)
  | inr e ↦ inr (λ p. ground (arith, (bytes_eq_iff xs ys).1 p))
]

-- `n.to_le_bytes()` of a word of `w` bytes.
unfoldable pub le_bytes : ℕ → ℕ → List ℕ
le_bytes zero n = []
le_bytes (suc w) n = n % 256 ∷ le_bytes w (n / 256)

pub length-le_bytes : (w n : ℕ) → length (le_bytes w n) ≡ w
unfolding le_bytes
length-le_bytes zero n = refl
length-le_bytes (suc w) n = ap suc (length-le_bytes w (n / 256))

pub le_bytes-IsBytes : (w n : ℕ) → All (λ b. b < 256) (le_bytes w n)
unfolding le_bytes
le_bytes-IsBytes zero n = tt
le_bytes-IsBytes (suc w) n = (omega arith, le_bytes-IsBytes w (n / 256))

-- The bytes determine the word.
pub le_bytes-injective :
    (w a b : ℕ) → a < 256 ^ w → b < 256 ^ w → le_bytes w a ≡ le_bytes w b → a ≡ b
unfolding le_bytes
le_bytes-injective zero a b h k e = omega arith
le_bytes-injective (suc w) a b h k e =
    let q = pow-suc 256 w in
    let rest =
      le_bytes-injective w (a / 256) (b / 256) (omega (arith, q)) (omega (arith, q)) (cc e) in
    let low : a % 256 ≡ b % 256 = cc e in omega arith

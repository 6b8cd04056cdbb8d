-- ===== src/Error.antt =====
-- The error type of src/lib.rs and the results that carry it. A message that the code builds with
-- `format!` is represented by its template; the errors of std::io and of serde_json keep their text.
use Prim.Native.String.{String}
use sovereign_ledger.Base.{
  ℕ, Bool, true, false, Option, none, some, ◌≡◌, refl, ap, ◌⊎◌, inl, inr, arith,
}

pub data Error : Type 0 where
  compromised : Error
  read_only : Error
  io : String → Error
  serialization : String → Error
  invalid_line : ℕ → String → Error
  broken_chain : ℕ → Error
  verification : String → Error
  lock : String → Error
  missing_key : ℕ → Error
  unsupported_version : ℕ → Error
  anchor : String → Error
  proof : String → Error

-- `Result<T, Error>`, with the error first as everywhere below.
pub data Result {ℓ} (T : Type ℓ) : Type ℓ where
  err : Error → Result T
  ok : T → Result T

-- `if b { return Err(e) }`.
abbrev pub fail_if : Bool → Error → Result (Unit {0})
fail_if true e = err e
fail_if false e = ok tt

-- `?`, and `map_err`.
infixl 4 ◌>>=◌
abbrev pub ◌>>=◌ {ℓ κ} : {T : Type ℓ} {U : Type κ} → Result T → (T → Result U) → Result U
err e >>= next = err e
ok t >>= next = next t

abbrev pub map_err {ℓ} : {T : Type ℓ} → (Error → Error) → Result T → Result T
map_err f (err e) = err (f e)
map_err f (ok t) = ok t

infixl 4 ◌>>◌
abbrev pub ◌>>◌ {ℓ} : {U : Type ℓ} → Result (Unit {0}) → Result U → Result U
first >> second = first >>= λ done. second

-- `ok_or(e)`.
abbrev pub ok_or {ℓ} : {T : Type ℓ} → Option T → Error → Result T
ok_or none e = err e
ok_or (some t) e = ok t

-- A test that was passed, and what stands behind it.
pub fail_if-then {ℓ} :
    {A : Type ℓ} (b : Bool) (e : Error) (m : Result A) {a : A}
    → (fail_if b e >> m) ≡ ok a
    → (b ≡ false) × (m ≡ ok a)
fail_if-then true e m h = ground arith
fail_if-then false e m h = (refl, h)

pub ok-injective {ℓ} : {A : Type ℓ} (a b : A) → ok a ≡ ok b → a ≡ b
ok-injective a b e = ap (value a) e
  where
    value : {A : Type ℓ} → A → Result A → A
    value d (err x) = d
    value d (ok x) = x

-- The first of two actions returned, where both did.
pub returned {ℓ κ} :
    {T : Type ℓ} {U : Type κ} (first : Result T) (next : T → Result U) (u : U)
    → (first >>= next) ≡ ok u
    → (t : T) × (first ≡ ok t) × (next t ≡ ok u)
returned (err e) next u h = ground arith
returned (ok t) next u h = (t, refl, h)

pub Result-cases {ℓ} :
    {T : Type ℓ} (r : Result T) → ((t : T) × (r ≡ ok t)) ⊎ ((e : Error) × (r ≡ err e))
Result-cases (err e) = inr (e, refl)
Result-cases (ok t) = inl (t, refl)

-- What was not absent.
pub given {ℓ} : {A : Type ℓ} (o : Option A) (e : Error) (a : A) → ok_or o e ≡ ok a → o ≡ some a
given none e a h = ground arith
given (some x) e a h = ap some (ok-injective x a h)

-- An action whose error was renamed, and that returned.
pub unmapped {ℓ} :
    {A : Type ℓ} (f : Error → Error) (r : Result A) (a : A) → map_err f r ≡ ok a → r ≡ ok a
unmapped f (err e) a h = ground arith
unmapped f (ok t) a h = h

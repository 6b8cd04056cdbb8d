-- ===== src/Base/Lists.antt =====
-- Lists measured, indexed and cut by native numbers, under the library's names.
use Prim.Native.Nat.{ℕ, zero, suc, ◌+◌, ◌-◌, ◌≤◌, ◌<◌, min}
use mathlib.Core.Path.{◌≡◌, refl, sym, ap, ◌∙◌, subst}
use mathlib.Core.List.{List, [], ◌∷◌, ◌++◌}
use mathlib.Core.Option.{Option, none, some, some-injective}
use native.Mathlib.Omega.{arith}

module _ {ℓ} {A : Type ℓ} where
  abbrev pub length : List A → ℕ
  length [] = 0
  length (x ∷ xs) = suc (length xs)

  abbrev pub get_elem? : List A → ℕ → Option A
  get_elem? [] i = none
  get_elem? (x ∷ xs) zero = some x
  get_elem? (x ∷ xs) (suc i) = get_elem? xs i

  abbrev pub take : ℕ → List A → List A
  take zero xs = []
  take (suc n) [] = []
  take (suc n) (x ∷ xs) = x ∷ take n xs

  abbrev pub drop : ℕ → List A → List A
  drop zero xs = xs
  drop (suc n) [] = []
  drop (suc n) (x ∷ xs) = drop n xs

  abbrev pub All {κ} : (A → Type κ) → List A → Type κ
  All P [] = Unit {κ}
  All P (x ∷ xs) = P x × All P xs

  pub length-append : (xs ys : List A) → length (xs ++ ys) ≡ length xs + length ys
  length-append [] ys = omega arith
  length-append (x ∷ xs) ys = omega (arith, length-append xs ys)

  pub length-take : (n : ℕ) (xs : List A) → length (take n xs) ≡ min n (length xs)
  length-take zero xs = omega arith
  length-take (suc n) [] = omega arith
  length-take (suc n) (x ∷ xs) = omega (arith, length-take n xs)

  pub length-drop : (n : ℕ) (xs : List A) → length (drop n xs) ≡ length xs - n
  length-drop zero xs = omega arith
  length-drop (suc n) [] = omega arith
  length-drop (suc n) (x ∷ xs) = omega (arith, length-drop n xs)

module _ {ℓ} {A : Type ℓ} where
  pub take-append-drop : (n : ℕ) (xs : List A) → take n xs ++ drop n xs ≡ xs
  take-append-drop zero xs = refl
  take-append-drop (suc n) [] = refl
  take-append-drop (suc n) (x ∷ xs) = ap (λ t. x ∷ t) (take-append-drop n xs)

  pub get_elem?-take : (n i : ℕ) (xs : List A) → i < n → get_elem? (take n xs) i ≡ get_elem? xs i
  get_elem?-take zero i xs h = elim h [ ]
  get_elem?-take (suc n) i [] h = refl
  get_elem?-take (suc n) zero (x ∷ xs) h = refl
  get_elem?-take (suc n) (suc i) (x ∷ xs) h = get_elem?-take n i xs (omega arith)

  pub get_elem?-drop :
      (n i : ℕ) (xs : List A) → n ≤ i → get_elem? (drop n xs) (i - n) ≡ get_elem? xs i
  get_elem?-drop zero i xs h = let e : i - 0 ≡ i = omega arith in ap (get_elem? xs) e
  get_elem?-drop (suc n) i [] h = refl
  get_elem?-drop (suc n) zero (x ∷ xs) h = elim h [ ]
  get_elem?-drop (suc n) (suc i) (x ∷ xs) h =
      let e : suc i - suc n ≡ i - n = omega arith in
      ap (get_elem? (drop n xs)) e ∙ get_elem?-drop n i xs (omega arith)

  -- Two ways to cut one list into a front of the same length.
  pub append-injective :
      (xs ys : List A) {zs ws : List A}
      → length xs ≡ length ys
      → xs ++ zs ≡ ys ++ ws
      → (xs ≡ ys) × (zs ≡ ws)
  append-injective [] [] e h = (refl, h)
  append-injective [] (y ∷ ys) e h = absurd (omega arith)
  append-injective (x ∷ xs) [] e h = absurd (omega arith)
  append-injective (x ∷ xs) (y ∷ ys) {zs} {ws} e h =
      tails (append-injective xs ys (omega arith) (cc h))
    where
      tails : (xs ≡ ys) × (zs ≡ ws) → (x ∷ xs ≡ y ∷ ys) × (zs ≡ ws)
      tails (p, q) = (cc (p, h), q)

pub get_elem?-lt {ℓ} :
    {A : Type ℓ} (d : List A) (m : ℕ) {x : A} → get_elem? d m ≡ some x → m < length d
get_elem?-lt [] m e = absurd (ground arith)
get_elem?-lt (y ∷ d) zero e = omega arith
get_elem?-lt (y ∷ d) (suc m) e = omega (arith, get_elem?-lt d m e)

pub get_elem?_exists {ℓ} :
    {A : Type ℓ} (d : List A) (m : ℕ) → m < length d → (x : A) × (get_elem? d m ≡ some x)
get_elem?_exists [] m h = absurd (omega arith)
get_elem?_exists (y ∷ d) zero h = (y, refl)
get_elem?_exists (y ∷ d) (suc m) h = get_elem?_exists d m (omega arith)

pub All-append {ℓ κ} :
    {A : Type ℓ} (P : A → Type κ) (xs ys : List A) → All P xs → All P ys → All P (xs ++ ys)
All-append P [] ys h k = k
All-append P (x ∷ xs) ys (h, hs) k = (h, All-append P xs ys hs k)

module _ {ℓ} {A : Type ℓ} where
  pub take_all : (n : ℕ) (xs : List A) → length xs ≤ n → take n xs ≡ xs
  take_all zero [] h = refl
  take_all zero (x ∷ xs) h = absurd (omega arith)
  take_all (suc n) [] h = refl
  take_all (suc n) (x ∷ xs) h = ap (λ t. x ∷ t) (take_all n xs (omega arith))

  pub take-take : (m k : ℕ) (xs : List A) → m ≤ k → take m (take k xs) ≡ take m xs
  take-take zero k xs h = refl
  take-take (suc m) zero xs h = elim h [ ]
  take-take (suc m) (suc k) [] h = refl
  take-take (suc m) (suc k) (x ∷ xs) h = ap (λ t. x ∷ t) (take-take m k xs (omega arith))

  take_nil : (n : ℕ) → ◌≡◌ {A = List A} [] (take n [])
  take_nil zero = refl
  take_nil (suc n) = refl

  pub drop-take : (k m : ℕ) (xs : List A) → drop k (take m xs) ≡ take (m - k) (drop k xs)
  drop-take zero m xs = let e : m - 0 ≡ m = omega arith in ap (λ t. take t xs) (sym e)
  drop-take (suc k) zero xs = let e : 0 - suc k ≡ 0 = omega arith in rw e
  drop-take (suc k) (suc m) [] =
      let e : suc m - suc k ≡ m - k = omega arith in rw e (take_nil (m - k))
  drop-take (suc k) (suc m) (x ∷ xs) =
      let e : suc m - suc k ≡ m - k = omega arith in rw e (drop-take k m xs)

pub get_elem?-All {ℓ κ} :
    {A : Type ℓ} (P : A → Type κ) (d : List A) (i : ℕ) (x : A)
    → All P d
    → get_elem? d i ≡ some x
    → P x
get_elem?-All P [] i x h e = absurd (ground arith)
get_elem?-All P (y ∷ d) zero x (h, hs) e = subst P (some-injective y x e) h
get_elem?-All P (y ∷ d) (suc i) x (h, hs) e = get_elem?-All P d i x hs e

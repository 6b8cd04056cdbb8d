-- ===== src/Toy/Unary.antt =====
-- A stand-in for the encoders of third-party crates: numbers in unary, in printable characters.
use sovereign_ledger.Base.{
  ℕ, zero, suc, ◌+◌, ◌≡◌, ◌≢◌, ◌<◌, refl, ◌∙◌, ap, [], ◌∷◌, ◌++◌, arith, All, ◌==◌, if◌then◌else◌,
  true,
}
use sovereign_ledger.Crypto.{Bytes}
use sovereign_ledger.Text.{run, utf8_start, utf8_step, utf8_lead, is_text}

unfoldable pub number : ℕ → Bytes → Bytes
number zero rest = 98 ∷ rest
number (suc n) rest = 97 ∷ number n rest

unfoldable pub text : Bytes → Bytes → Bytes
text [] rest = 99 ∷ rest
text (b ∷ bs) rest = number b (text bs rest)

-- What was read, and the rest.
unfoldable pub read_number : ℕ → Bytes → ℕ × Bytes
read_number n [] = (n, [])
read_number n (b ∷ bs) = let more = read_number (suc n) bs in if b == 97 then more else (n, bs)

abbrev push : ℕ → Bytes × Bytes → Bytes × Bytes
push n (s, rest) = (n ∷ s, rest)

unfoldable pub read_text : ℕ → Bytes → Bytes × Bytes
read_text n [] = ([], [])
read_text n (b ∷ bs) =
    let longer = read_text (suc n) bs in
    let next = read_text 0 bs in
    if b == 97 then longer else if b == 98 then push n next else ([], bs)

pub read_number-number : (k n : ℕ) (rest : Bytes) → read_number k (number n rest) ≡ (k + n, rest)
unfolding read_number number
read_number-number k zero rest = let q : k ≡ k + 0 = omega arith in ap (λ t. (t, rest)) q
read_number-number k (suc n) rest =
    let q : suc k + n ≡ k + suc n = omega arith in
    read_number-number (suc k) n rest ∙ ap (λ t. (t, rest)) q

pub read_number-zero : (n : ℕ) (rest : Bytes) → read_number 0 (number n rest) ≡ (n, rest)
read_number-zero n rest =
    let q : 0 + n ≡ n = omega arith in read_number-number 0 n rest ∙ ap (λ t. (t, rest)) q

read_text-number :
    (k n : ℕ) (rest : Bytes) → read_text k (number n rest) ≡ push (k + n) (read_text 0 rest)
unfolding read_text number
read_text-number k zero rest =
    let q : k ≡ k + 0 = omega arith in ap (λ t. push t (read_text 0 rest)) q
read_text-number k (suc n) rest =
    let q : suc k + n ≡ k + suc n = omega arith in
    read_text-number (suc k) n rest ∙ ap (λ t. push t (read_text 0 rest)) q

pub read_text-text : (s rest : Bytes) → read_text 0 (text s rest) ≡ (s, rest)
unfolding text read_text
read_text-text [] rest = refl
read_text-text (b ∷ s) rest =
    let q : 0 + b ≡ b = omega arith in
    read_text-number 0 b (text s rest)
    ∙ ap (λ t. push t (read_text 0 (text s rest))) q
    ∙ ap (push b) (read_text-text s rest)

-- Printable, and no newline.
abbrev pub IsPlain : Bytes → Type 0
IsPlain = All (λ b. (b ≢ 10) × (b < 128))

pub number-IsPlain : (n : ℕ) (rest : Bytes) → IsPlain rest → IsPlain (number n rest)
unfolding number
number-IsPlain zero rest h = ((omega arith, omega arith), h)
number-IsPlain (suc n) rest h = ((omega arith, omega arith), number-IsPlain n rest h)

pub text-IsPlain : (s rest : Bytes) → IsPlain rest → IsPlain (text s rest)
unfolding text
text-IsPlain [] rest h = ((omega arith, omega arith), h)
text-IsPlain (b ∷ s) rest h = number-IsPlain b (text s rest) (text-IsPlain s rest h)

run_plain : (s : Bytes) → IsPlain s → run utf8_step utf8_start s ≡ utf8_start
unfolding run utf8_step utf8_lead
run_plain [] h = refl
run_plain (b ∷ s) ((hn, hb), h) = rw (lead b hb) (run_plain s h)
  where
    lead : (b : ℕ) → b < 128 → utf8_lead b ≡ utf8_start
    lead b h = ground arith

pub is_text-plain : (s : Bytes) → IsPlain s → is_text s ≡ true
unfolding is_text
is_text-plain s h = rw (run_plain s h) refl

pub one_line-plain : (s : Bytes) → IsPlain s → All (λ b. b ≢ 10) s
one_line-plain [] h = tt
one_line-plain (b ∷ s) ((hn, hb), h) = (hn, one_line-plain s h)

-- What stands behind can be split off.
pub number-append : (n : ℕ) (xs ys : Bytes) → number n (xs ++ ys) ≡ number n xs ++ ys
unfolding number
number-append zero xs ys = refl
number-append (suc n) xs ys = ap (λ t. 97 ∷ t) (number-append n xs ys)

pub text-append : (s xs ys : Bytes) → text s (xs ++ ys) ≡ text s xs ++ ys
unfolding text
text-append [] xs ys = refl
text-append (b ∷ s) xs ys = ap (number b) (text-append s xs ys) ∙ number-append b (text s xs) ys

-- ===== src/Cli/Cef/Parts.antt =====
-- The texts of a CEF line: which bytes they cannot hold, and what a reader finds in front of such a byte.
use sovereign_ledger.Base.{
  ℕ, zero, suc, ◌+◌, ◌/◌, ◌%◌, ◌<◌, ◌≡◌, ◌≢◌, refl, ap, Bool, ◌&&◌, not, Bool-cases, inl, inr, some,
  false, [], ◌∷◌, ◌++◌, All, All-append, arith, ltb, ◌==◌, if◌then◌else◌, true,
}
use sovereign_ledger.Base.Bytes.{codes}
use sovereign_ledger.Crypto.{Bytes}
use sovereign_ledger.Text.{digits, decimal}
use sovereign_ledger.Cli.Export.{replace, cef_msg}
use sovereign_ledger.Cli.Cef.{lines, until, behind, read_msg}

-- A text without such a byte.
abbrev pub Lacks : ℕ → Bytes → Type 0
Lacks c = All (λ b. b ≢ c)

pub replace-Lacks :
    (c from : ℕ) (to s : Bytes)
    → All (λ b. b ≢ from → b ≢ c) s
    → Lacks c to
    → Lacks c (replace from to s)
unfolding replace
replace-Lacks c from to [] h k = tt
replace-Lacks c from to (b ∷ s) (h, hs) k = elim (Bool-cases (b == from)) [
  | inl e ↦ rw e (All-append (λ b. b ≢ c) to _ k (replace-Lacks c from to s hs k))
  | inr e ↦ rw e (h (λ q. ground arith), replace-Lacks c from to s hs k)
]

pub kept : (c from : ℕ) (s : Bytes) → Lacks c s → All (λ b. b ≢ from → b ≢ c) s
kept c from [] h = tt
kept c from (b ∷ s) (h, hs) = (λ q. h, kept c from s hs)

pub replaced : (c : ℕ) (s : Bytes) → All (λ b. b ≢ c → b ≢ c) s
replaced c [] = tt
replaced c (b ∷ s) = (λ q. q, replaced c s)

digits-Lacks :
    (c f n : ℕ) (out : Bytes)
    → ((d : ℕ) → d < 10 → d + 48 ≢ c)
    → Lacks c out
    → Lacks c (digits f n out)
unfolding digits
digits-Lacks c zero n out apart h = h
digits-Lacks c (suc f) n out apart h =
    let d = apart (n % 10) (omega arith) in
    elim (Bool-cases (ltb n 10)) [
      | inl e ↦ rw e (d, h)
      | inr e ↦ rw e (digits-Lacks c f (n / 10) ((n % 10 + 48) ∷ out) apart (d, h))
    ]

-- Where the byte is not a digit.
pub decimal-Lacks : (c n : ℕ) → ((d : ℕ) → d < 10 → d + 48 ≢ c) → Lacks c (decimal n)
unfolding decimal
decimal-Lacks c n apart = digits-Lacks c 20 n [] apart tt

abbrev pub no_newline : Bytes → Bool
no_newline [] = true
no_newline (b ∷ s) = not (b == 10) && no_newline s

pub literal-Lacks : (s : Bytes) → no_newline s ≡ true → Lacks 10 s
literal-Lacks [] h = tt
literal-Lacks (b ∷ s) h = elim (Bool-cases (b == 10)) [
  | inl e ↦ absurd (apart (rw e at h))
  | inr e ↦ ((λ q. ground arith), literal-Lacks s (rw e at h))
]
  where
    apart : false ≡ true → ⊥
    apart h = ground arith

pub until-append : (c : ℕ) (s rest : Bytes) → Lacks c s → until c (s ++ c ∷ rest) ≡ some (s, rest)
unfolding until
until-append c [] rest h = let e : (c == c) ≡ true = ground arith in rw e refl
until-append c (b ∷ s) rest (h, hs) =
    let e : (b == c) ≡ false = ground arith in rw (e, until-append c s rest hs) refl

pub behind-append : (s rest : Bytes) → behind s (s ++ rest) ≡ some rest
unfolding behind
behind-append [] rest = refl
behind-append (a ∷ s) rest =
    let e : (a == a) ≡ true = ground arith in rw (e, behind-append s rest) refl

pub lines-append : (s rest : Bytes) → Lacks 10 s → lines (s ++ 10 ∷ rest) ≡ s ∷ lines rest
unfolding lines
lines-append [] rest h = refl
lines-append (b ∷ s) rest (h, hs) =
    let e : (b == 10) ≡ false = ground arith in rw (e, lines-append s rest hs) refl

cef_msg-cons :
    (b : ℕ) (bs : Bytes)
    → cef_msg (b ∷ bs)
      ≡ (if b == 92 then codes "\\\\" else if b == 61 then codes "\\=" else b ∷ []) ++ cef_msg bs
unfolding cef_msg replace
cef_msg-cons b bs = elim (Bool-cases (b == 92)) [
  | inl e ↦ rw e refl
  | inr e ↦ elim (Bool-cases (b == 61)) [ inl q ↦ rw (e, q) refl | inr q ↦ rw (e, q) refl ]
]

cef_msg-nil : cef_msg [] ≡ []
unfolding cef_msg replace
cef_msg-nil = refl

pub read_msg-cef_msg : (body : Bytes) → read_msg false (cef_msg body) ≡ some body
unfolding read_msg
read_msg-cef_msg [] = rw cef_msg-nil refl
read_msg-cef_msg (b ∷ bs) =
    let back = read_msg-cef_msg bs in
    elim (Bool-cases (b == 92)) [
      | inl e ↦
          let is : 92 ≡ b = ground arith in
          rw (cef_msg-cons b bs, e, back) (ap (λ t. some (t ∷ bs)) is)
      | inr e ↦ elim (Bool-cases (b == 61)) [
        | inl q ↦
            let is : 61 ≡ b = ground arith in
            rw (cef_msg-cons b bs, e, q, back) (ap (λ t. some (t ∷ bs)) is)
        | inr q ↦ rw (cef_msg-cons b bs, e, q) (rw (e, q, back) refl)
      ]
    ]

pub cef_msg-Lacks : (body : Bytes) → Lacks 10 body → Lacks 10 (cef_msg body)
unfolding cef_msg
cef_msg-Lacks body h =
    replace-Lacks 10 61 (codes "\\=") _
      (kept 10 61 _ (
        replace-Lacks 10 92 (codes "\\\\") body (kept 10 92 body h)
          (λ q. omega arith, (λ q. omega arith, tt))))
      (λ q. omega arith, (λ q. omega arith, tt))

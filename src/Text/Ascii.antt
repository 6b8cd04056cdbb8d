-- ===== src/Text/Ascii.antt =====
-- What src/*.rs builds with `format!` is UTF-8: ASCII texts, numbers, and texts that are joined.
use sovereign_ledger.Base.{
  ℕ, zero, suc, ◌+◌, ◌/◌, ◌%◌, ◌<◌, ◌≡◌, refl, ◌∙◌, ap, true, false, Bool-cases, inl, inr, [], ◌∷◌,
  ◌++◌, All, arith, Bool, ◌&&◌, ltb, ltb→lt,
}
use sovereign_ledger.Crypto.{Bytes}
use sovereign_ledger.Text.{
  run, utf8_start, utf8_done, utf8_step, utf8_lead, is_text, digits, decimal,
}
use sovereign_ledger.Text.Lines.{run-append, done_start}

abbrev pub IsAscii : Bytes → Type 0
IsAscii = All (λ b. b < 128)

run-ascii : (s : Bytes) → IsAscii s → run utf8_step utf8_start s ≡ utf8_start
unfolding run utf8_step utf8_lead
run-ascii [] h = refl
run-ascii (b ∷ s) (h, hs) = rw (lead b h) (run-ascii s hs)
  where
    lead : (b : ℕ) → b < 128 → utf8_lead b ≡ utf8_start
    lead b h = ground arith

pub is_text-ascii : (s : Bytes) → IsAscii s → is_text s ≡ true
unfolding is_text
is_text-ascii s h = rw (run-ascii s h) refl

-- The test, for literals.
abbrev pub all_ascii : Bytes → Bool
all_ascii [] = true
all_ascii (b ∷ s) = ltb b 128 && all_ascii s

all_ascii-IsAscii : (s : Bytes) → all_ascii s ≡ true → IsAscii s
all_ascii-IsAscii [] h = tt
all_ascii-IsAscii (b ∷ s) h = elim (Bool-cases (ltb b 128)) [
  | inl e ↦ (ltb→lt b 128 e, all_ascii-IsAscii s (rw e at h))
  | inr e ↦ absurd (apart (rw e at h))
]
  where
    apart : false ≡ true → ⊥
    apart h = ground arith

pub literal-is_text : (s : Bytes) → all_ascii s ≡ true → is_text s ≡ true
literal-is_text s h = is_text-ascii s (all_ascii-IsAscii s h)

pub is_text-append :
    (xs ys : Bytes) → is_text xs ≡ true → is_text ys ≡ true → is_text (xs ++ ys) ≡ true
unfolding is_text
is_text-append xs ys h k =
    ap utf8_done (
      run-append utf8_step utf8_start xs ys
      ∙ ap (λ s. run utf8_step s ys) (done_start (run utf8_step utf8_start xs) h))
    ∙ k

digits-IsAscii : (f n : ℕ) (out : Bytes) → IsAscii out → IsAscii (digits f n out)
unfolding digits
digits-IsAscii zero n out h = h
digits-IsAscii (suc f) n out h =
    let d : n % 10 + 48 < 128 = omega arith in
    elim (Bool-cases (ltb n 10)) [
      | inl e ↦ rw e (d, h)
      | inr e ↦ rw e (digits-IsAscii f (n / 10) ((n % 10 + 48) ∷ out) (d, h))
    ]

pub decimal-is_text : (n : ℕ) → is_text (decimal n) ≡ true
unfolding decimal
decimal-is_text n = is_text-ascii (digits 20 n []) (digits-IsAscii 20 n [] tt)

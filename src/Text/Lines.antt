-- ===== src/Text/Lines.antt =====
-- A line that was written is read back: the pieces of a file with one more line, and the two ways in
-- which src/lib.rs takes the newline off.
use sovereign_ledger.Base.{
  ℕ, ◌≡◌, ◌≢◌, refl, ap, sym, ◌∙◌, true, false, List, [], ◌∷◌, ◌++◌, append_assoc, arith, All, ◌==◌,
  Bool-cases, inl, inr,
}
use sovereign_ledger.Crypto.{Bytes}
use sovereign_ledger.Text.{
  run, Utf8, utf8_start, utf8_last, utf8_two, utf8_three, utf8_bad, utf8_e0, utf8_ed, utf8_f0,
  utf8_f4, utf8_done, utf8_step, utf8_lead, White, white_start, white_c2, white_e1, white_e1_9a,
  white_e2, white_e2_80, white_e2_81, white_e3, white_e3_80, white_bad, white_step, white_lead,
  is_text, is_blank, trim_end, extend_first, read_lines, strip_newline,
}

-- What a JSON writer emits: one line of text that ends in a brace.
pub record IsLine (l : Bytes) : Type 0 where
  pub body : Bytes
  pub ends : l ≡ body ++ 125 ∷ []
  pub one_line : All (λ b. b ≢ 10) l
  pub text : is_text l ≡ true

-- A file in which every line is ended.
abbrev pub IsEnded : Bytes → Type 0
IsEnded [] = Unit
IsEnded (b ∷ []) = b ≡ 10
IsEnded (b ∷ c ∷ bs) = IsEnded (c ∷ bs)

pub run-append {ℓ} :
    {S : Type ℓ} (step : S → ℕ → S) (s : S) (xs ys : Bytes)
    → run step s (xs ++ ys) ≡ run step (run step s xs) ys
unfolding run
run-append step s [] ys = refl
run-append step s (x ∷ xs) ys = run-append step (step s x) xs ys

brace_bad_alone : (s : White) → run white_step s (125 ∷ []) ≡ white_bad
unfolding run white_step white_lead
brace_bad_alone white_start = refl
brace_bad_alone white_c2 = refl
brace_bad_alone white_e1 = refl
brace_bad_alone white_e1_9a = refl
brace_bad_alone white_e2 = refl
brace_bad_alone white_e2_80 = refl
brace_bad_alone white_e2_81 = refl
brace_bad_alone white_e3 = refl
brace_bad_alone white_e3_80 = refl
brace_bad_alone white_bad = refl

brace_bad : (s : White) → run white_step s (125 ∷ 10 ∷ []) ≡ white_bad
unfolding run white_step
brace_bad s =
    run-append white_step s (125 ∷ []) (10 ∷ [])
    ∙ ap (λ t. run white_step t (10 ∷ [])) (brace_bad_alone s)

pub done_start : (s : Utf8) → utf8_done s ≡ true → s ≡ utf8_start
done_start utf8_start h = refl
done_start utf8_last h = ground arith
done_start utf8_two h = ground arith
done_start utf8_three h = ground arith
done_start utf8_bad h = ground arith
done_start utf8_e0 h = ground arith
done_start utf8_ed h = ground arith
done_start utf8_f0 h = ground arith
done_start utf8_f4 h = ground arith

is_blank-brace : (m : Bytes) → is_blank (m ++ 125 ∷ 10 ∷ []) ≡ false
unfolding is_blank
is_blank-brace m =
    rw
      (
        run-append white_step white_start m (125 ∷ 10 ∷ []),
        brace_bad (run white_step white_start m),
      )
      refl

is_blank-ends : (m : Bytes) → is_blank (m ++ 125 ∷ []) ≡ false
unfolding is_blank
is_blank-ends m =
    rw
      (
        run-append white_step white_start m (125 ∷ []),
        brace_bad_alone (run white_step white_start m),
      )
      refl

newline_blank : is_blank (10 ∷ []) ≡ true
unfolding is_blank run white_step white_lead
newline_blank = refl

trim_end-brace : (m : Bytes) → trim_end (m ++ 125 ∷ 10 ∷ []) ≡ m ++ 125 ∷ []
unfolding trim_end
trim_end-brace [] = rw (is_blank-brace [], newline_blank) refl
trim_end-brace (b ∷ m) = rw (is_blank-brace (b ∷ m), trim_end-brace m) refl

trim_end-ends : (m : Bytes) → trim_end (m ++ 125 ∷ []) ≡ m ++ 125 ∷ []
unfolding trim_end
trim_end-ends [] = rw (is_blank-ends []) refl
trim_end-ends (b ∷ m) = rw (is_blank-ends (b ∷ m), trim_end-ends m) refl

strip_newline-brace : (m : Bytes) → strip_newline (m ++ 125 ∷ 10 ∷ []) ≡ m ++ 125 ∷ []
unfolding strip_newline
strip_newline-brace [] = refl
strip_newline-brace (b ∷ []) = ground arith
strip_newline-brace (b ∷ c ∷ []) = ground arith
strip_newline-brace (b ∷ c ∷ d ∷ m) = rw (strip_newline-brace (c ∷ d ∷ m)) (ground arith)

one_piece : (l : Bytes) → All (λ b. b ≢ 10) l → read_lines (l ++ 10 ∷ []) ≡ (l ++ 10 ∷ []) ∷ []
unfolding read_lines
one_piece [] h = refl
one_piece (b ∷ l) (hb, h) = rw (one_piece l h) (ground arith)

read_lines-some :
    (b : ℕ) (bs : Bytes) → (l : Bytes) × (ls : List Bytes) × (read_lines (b ∷ bs) ≡ l ∷ ls)
unfolding read_lines
read_lines-some b bs = elim (Bool-cases (b == 10)) [
  | inl e ↦ (10 ∷ [], read_lines bs, rw e refl)
  | inr e ↦ rw e (extended (read_lines bs))
]
  where
    extended :
        (ls : List Bytes) → (l : Bytes) × (rest : List Bytes) × (extend_first b ls ≡ l ∷ rest)
    extended [] = (b ∷ [], [], refl)
    extended (l ∷ ls) = (b ∷ l, ls, refl)

-- An ended file and what follows it are read one after the other.
pub read_lines-append :
    (xs ys : Bytes) → IsEnded xs → read_lines (xs ++ ys) ≡ read_lines xs ++ read_lines ys
unfolding read_lines
read_lines-append [] ys h = refl
read_lines-append (b ∷ []) ys h = rw h refl
read_lines-append (b ∷ c ∷ xs) ys h =
    rw (read_lines-append (c ∷ xs) ys h) (elim (Bool-cases (b == 10)) [
      | inl e ↦ rw e refl
      | inr e ↦ rw e (extend_first-append b c xs ys)
    ])
  where
    extend_first-append :
        (b c : ℕ) (xs ys : Bytes)
        → extend_first b (read_lines (c ∷ xs) ++ read_lines ys)
          ≡ extend_first b (read_lines (c ∷ xs)) ++ read_lines ys
    extend_first-append b c xs ys = let (l, ls, e) = read_lines-some c xs in rw e refl

-- The line that `writeln!` adds is a piece of its own, and both readers give it back.
module _ (l : Bytes) (w : IsLine l) where
  pub read_lines-line : read_lines (l ++ 10 ∷ []) ≡ (l ++ 10 ∷ []) ∷ []
  read_lines-line = one_piece l w.one_line

  spelled : l ++ 10 ∷ [] ≡ w.body ++ 125 ∷ 10 ∷ []
  spelled = rw w.ends (append_assoc w.body (125 ∷ []) (10 ∷ []))

  pub strip_newline-line : strip_newline (l ++ 10 ∷ []) ≡ l
  strip_newline-line = rw spelled (strip_newline-brace w.body ∙ sym w.ends)

  pub trim_end-line : trim_end (l ++ 10 ∷ []) ≡ l
  trim_end-line = rw spelled (trim_end-brace w.body ∙ sym w.ends)

  pub trim_end-stripped : trim_end l ≡ l
  trim_end-stripped = rw w.ends (trim_end-ends w.body)

  pub is_blank-line : is_blank (l ++ 10 ∷ []) ≡ false
  is_blank-line = rw spelled (is_blank-brace w.body)

  pub is_text-line : is_text (l ++ 10 ∷ []) ≡ true
  unfolding is_text run utf8_step utf8_lead
  is_text-line = rw (run-append utf8_step utf8_start l (10 ∷ []), done_start _ w.text) refl

  pub is_blank-stripped : is_blank l ≡ false
  unfolding is_blank
  is_blank-stripped =
      rw (w.ends, run-append white_step white_start w.body (125 ∷ []), brace_bad_alone _) refl

pub IsEnded-newline : (l : Bytes) → IsEnded (l ++ 10 ∷ [])
IsEnded-newline [] = refl
IsEnded-newline (b ∷ []) = refl
IsEnded-newline (b ∷ c ∷ l) = IsEnded-newline (c ∷ l)

pub IsEnded-line : (file l : Bytes) → IsEnded (file ++ (l ++ 10 ∷ []))
IsEnded-line file l = rw (sym (append_assoc file l (10 ∷ []))) (IsEnded-newline (file ++ l))

-- ===== src/Text/Tests.antt =====
-- Runs of the text functions.
use sovereign_ledger.Base.{◌≡◌, refl, true, false, [], ◌∷◌, ◌++◌}
use sovereign_ledger.Base.Bytes.{codes}
use sovereign_ledger.Text.{
  run, utf8_step, utf8_lead, white_step, white_lead, decimal, digits, is_text, is_blank, trim_end,
  read_lines, strip_newline,
}

valid : is_text (codes "ab" ++ 0xe2 ∷ 0x82 ∷ 0xac ∷ []) ≡ true
unfolding is_text run utf8_step utf8_lead
valid = refl

surrogate : is_text (0xed ∷ 0xa0 ∷ 0x80 ∷ []) ≡ false
unfolding is_text run utf8_step utf8_lead
surrogate = refl

blank : is_blank (32 ∷ 0xe2 ∷ 0x80 ∷ 0x83 ∷ 10 ∷ []) ≡ true
unfolding is_blank run white_step white_lead
blank = refl

trimmed : trim_end (codes "{ }" ++ 32 ∷ 0xc2 ∷ 0xa0 ∷ 10 ∷ []) ≡ codes "{ }"
unfolding trim_end is_blank run white_step white_lead
trimmed = refl

pieces : read_lines (codes "a" ++ 10 ∷ 10 ∷ codes "b") ≡ (97 ∷ 10 ∷ []) ∷ (10 ∷ []) ∷ codes "b" ∷ []
unfolding read_lines
pieces = refl

stripped : strip_newline (97 ∷ 13 ∷ 10 ∷ []) ≡ 97 ∷ []
unfolding strip_newline
stripped = refl

shown : decimal 18_446_744_073_709_551_615 ≡ codes "18446744073709551615"
unfolding decimal digits
shown = refl

-- ===== src/Text.antt =====
-- What src/*.rs uses of std::str and std::io::BufRead: a `String` is its UTF-8 bytes, and a file is
-- read by lines. Validity and white space are decided by automata over the bytes.
mod Tests
pub mod Lines
pub mod Ascii
use sovereign_ledger.Base.{
  ℕ, zero, suc, Bool, true, false, ◌&&◌, ◌||◌, not, ◌+◌, ◌/◌, ◌%◌, ltb, List, [], ◌∷◌, ◌++◌, leb,
  ◌==◌, if◌then◌else◌,
}
use sovereign_ledger.Base.Bytes.{is_empty}
use sovereign_ledger.Crypto.{Bytes}

abbrev between : ℕ → ℕ → ℕ → Bool
between low high b = leb low b && leb b high

unfoldable pub run {ℓ} : {S : Type ℓ} → (S → ℕ → S) → S → Bytes → S
run step state [] = state
run step state (b ∷ bs) = run step (step state b) bs

-- Between characters, or what must follow: a number of plain continuation bytes, or a first one
-- within narrower bounds, or nothing that is valid.
pub data Utf8 : Type 0 where
  utf8_start utf8_last utf8_two utf8_three utf8_bad : Utf8
  utf8_e0 utf8_ed utf8_f0 utf8_f4 : Utf8

unfoldable pub utf8_lead : ℕ → Utf8
utf8_lead b =
    if leb b 0x7f
    then utf8_start
    else if between 0xc2 0xdf b
    then utf8_last
    else if b == 0xe0
    then utf8_e0
    else if b == 0xed
    then utf8_ed
    else if between 0xe1 0xef b
    then utf8_two
    else if b == 0xf0
    then utf8_f0
    else if between 0xf1 0xf3 b
    then utf8_three
    else if b == 0xf4
    then utf8_f4
    else utf8_bad

unfoldable pub utf8_step : Utf8 → ℕ → Utf8
utf8_step utf8_start b = utf8_lead b
utf8_step utf8_last b = if between 0x80 0xbf b then utf8_start else utf8_bad
utf8_step utf8_two b = if between 0x80 0xbf b then utf8_last else utf8_bad
utf8_step utf8_three b = if between 0x80 0xbf b then utf8_two else utf8_bad
utf8_step utf8_e0 b = if between 0xa0 0xbf b then utf8_last else utf8_bad
utf8_step utf8_ed b = if between 0x80 0x9f b then utf8_last else utf8_bad
utf8_step utf8_f0 b = if between 0x90 0xbf b then utf8_two else utf8_bad
utf8_step utf8_f4 b = if between 0x80 0x8f b then utf8_two else utf8_bad
utf8_step utf8_bad b = utf8_bad

abbrev pub utf8_done : Utf8 → Bool
utf8_done utf8_start = true
utf8_done utf8_last = false
utf8_done utf8_two = false
utf8_done utf8_three = false
utf8_done utf8_bad = false
utf8_done utf8_e0 = false
utf8_done utf8_ed = false
utf8_done utf8_f0 = false
utf8_done utf8_f4 = false

-- `String::from_utf8(bytes).is_ok()`.
unfoldable pub is_text : Bytes → Bool
is_text bs = utf8_done (run utf8_step utf8_start bs)

-- Within the bytes of a character with `char::is_whitespace`, named by those that came.
pub data White : Type 0 where
  white_start white_c2 white_e1 white_e2 white_e3 white_bad : White
  white_e1_9a white_e2_80 white_e2_81 white_e3_80 : White

unfoldable pub white_lead : ℕ → White
white_lead b =
    if between 9 13 b || b == 32
    then white_start
    else if b == 0xc2
    then white_c2
    else if b == 0xe1
    then white_e1
    else if b == 0xe2
    then white_e2
    else if b == 0xe3
    then white_e3
    else white_bad

unfoldable pub white_step : White → ℕ → White
white_step white_start b = white_lead b
white_step white_c2 b = if b == 0x85 || b == 0xa0 then white_start else white_bad
white_step white_e1 b = if b == 0x9a then white_e1_9a else white_bad
white_step white_e1_9a b = if b == 0x80 then white_start else white_bad
white_step white_e2 b =
    if b == 0x80 then white_e2_80 else if b == 0x81 then white_e2_81 else white_bad
white_step white_e2_80 b =
    if between 0x80 0x8a b || b == 0xa8 || b == 0xa9 || b == 0xaf then white_start else white_bad
white_step white_e2_81 b = if b == 0x9f then white_start else white_bad
white_step white_e3 b = if b == 0x80 then white_e3_80 else white_bad
white_step white_e3_80 b = if b == 0x80 then white_start else white_bad
white_step white_bad b = white_bad

abbrev white_done : White → Bool
white_done white_start = true
white_done white_c2 = false
white_done white_e1 = false
white_done white_e1_9a = false
white_done white_e2 = false
white_done white_e2_80 = false
white_done white_e2_81 = false
white_done white_e3 = false
white_done white_e3_80 = false
white_done white_bad = false

-- `s.trim().is_empty()`.
unfoldable pub is_blank : Bytes → Bool
is_blank bs = white_done (run white_step white_start bs)

-- `s.trim_end()`: what stands in front of the longest blank suffix.
unfoldable pub trim_end : Bytes → Bytes
trim_end [] = []
trim_end (b ∷ bs) = let rest = trim_end bs in if is_blank (b ∷ bs) then [] else b ∷ rest

-- `s.trim_start()`: what stands behind the longest blank prefix, of those that end where `kept` starts.
unfoldable pub trim_start_from : White → Bytes → Bytes → Bytes
trim_start_from state kept [] = kept
trim_start_from state kept (b ∷ bs) =
    let state = white_step state b in
    trim_start_from state (if white_done state then bs else kept) bs

unfoldable pub trim : Bytes → Bytes
trim bs = trim_end (trim_start_from white_start bs bs)

-- `s.trim_end_matches('\n')`.
unfoldable pub trim_newlines : Bytes → Bytes
trim_newlines [] = []
trim_newlines (b ∷ bs) =
    let rest = trim_newlines bs in if b == 10 && is_empty rest then [] else b ∷ rest

abbrev pub extend_first : ℕ → List Bytes → List Bytes
extend_first b [] = (b ∷ []) ∷ []
extend_first b (l ∷ ls) = (b ∷ l) ∷ ls

-- What repeated `read_line` gives: the pieces of a file, each with the newline that ends it.
unfoldable pub read_lines : Bytes → List Bytes
read_lines [] = []
read_lines (b ∷ bs) =
    let rest = read_lines bs in if b == 10 then (10 ∷ []) ∷ rest else extend_first b rest

-- `BufRead::lines`: the line without "\n" or "\r\n".
unfoldable pub strip_newline : Bytes → Bytes
strip_newline [] = []
strip_newline (b ∷ bs) =
    let rest = strip_newline bs in
    if b == 10 && is_empty bs then [] else if b == 13 && is_newline bs then [] else b ∷ rest
  where
    is_newline : Bytes → Bool
    is_newline [] = false
    is_newline (c ∷ cs) = c == 10 && is_empty cs

-- `{n}` of a `u64` or `u32`: at most 20 digits, which the fuel covers.
unfoldable pub digits : ℕ → ℕ → Bytes → Bytes
digits zero n out = out
digits (suc f) n out =
    let rest = digits f (n / 10) ((n % 10 + 48) ∷ out) in
    if ltb n 10 then (n % 10 + 48) ∷ out else rest

unfoldable pub decimal : ℕ → Bytes
decimal n = digits 20 n []

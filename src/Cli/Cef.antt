-- ===== src/Cli/Cef.antt =====
-- A reader of the CEF lines that `export` of src/main.rs writes: a record ends with its line, a field of
-- the header with `|`, and a value with the next bare `=`, which no value may hold.
use sovereign_ledger.Base.{
  ℕ, Option, none, some, List, [], ◌∷◌, ◌++◌, Bool, true, false, ◌==◌, if◌then◌else◌,
}
use sovereign_ledger.Base.Bytes.{codes}
use sovereign_ledger.Crypto.{Bytes}
use sovereign_ledger.Crates.{Event}
use sovereign_ledger.Text.{decimal}
use sovereign_ledger.Cli.Export.{cef_header, cef_name}
pub mod Parts
pub mod Back

pub record CefRecord : Type 0 where
  pub name : Bytes
  pub seq : Bytes
  pub rt : Bytes
  pub msg : Bytes

infixl 4 ◌>>=◌
abbrev pub ◌>>=◌ : {A B : Type 0} → Option A → (A → Option B) → Option B
none >>= next = none
some a >>= next = next a

abbrev pub prepend : Bytes → List Bytes → List Bytes
prepend b [] = b ∷ []
prepend b (line ∷ lines) = (b ++ line) ∷ lines

-- The lines of a text.
unfoldable pub lines : Bytes → List Bytes
lines [] = []
lines (b ∷ bs) = let rest = lines bs in if b == 10 then [] ∷ rest else prepend (b ∷ []) rest

-- What stands in front of the first such byte, and what stands behind it.
unfoldable pub until : ℕ → Bytes → Option (Bytes × Bytes)
until c [] = none
until c (b ∷ bs) =
    let rest = until c bs in
    if b == c then some ([], bs) else rest >>= λ found. some (b ∷ found.0, found.1)

-- What stands behind a text.
unfoldable pub behind : Bytes → Bytes → Option Bytes
behind [] bs = some bs
behind (a ∷ pre) [] = none
behind (a ∷ pre) (b ∷ bs) = let rest = behind pre bs in if a == b then rest else none

-- A value up to the end of its line: a backslash stands for the character behind it.
unfoldable pub read_msg : Bool → Bytes → Option Bytes
read_msg true [] = none
read_msg false [] = some []
read_msg true (b ∷ bs) = read_msg false bs >>= λ msg. some (b ∷ msg)
read_msg false (b ∷ bs) =
    let escaped = read_msg true bs in
    let plain = read_msg false bs >>= λ msg. some (b ∷ msg) in
    if b == 92 then escaped else if b == 61 then none else plain

unfoldable pub read_record : Bytes → Option CefRecord
read_record line = do
  line ← behind cef_header line
  (name, line) ← until 124 line
  (seq, line) ← until 124 line
  line ← behind (codes "5|rt=") line
  (rt, line) ← until 32 line
  line ← behind (codes "msg=") line
  msg ← read_msg false line
  some (record { name = name; seq = seq; rt = rt; msg = msg })

unfoldable pub read_records : List Bytes → Option (List CefRecord)
read_records [] = some []
read_records (line ∷ lines) = do
  first ← read_record line
  rest ← read_records lines
  some (first ∷ rest)

unfoldable pub read_export : Bytes → Option (List CefRecord)
read_export text = read_records (lines text)

-- What a line holds of an entry: its type with `!` for `|`, two numbers and its body.
abbrev pub recorded : Event → CefRecord
recorded e = record {
  name = cef_name e.event_type;
  seq = decimal e.seq;
  rt = decimal e.ts;
  msg = e.body;
}

abbrev pub all_recorded : List Event → List CefRecord
all_recorded [] = []
all_recorded (e ∷ es) = recorded e ∷ all_recorded es

-- ===== src/Import/Run.antt =====
-- The imports of src/import.rs: a loop over the lines of a source that appends to a ledger and stops
-- at the first error. Entry `n` of the import is appended at `clock n`, with the disk `disk n`.
use sovereign_ledger.Base.{
  ℕ, ◌+◌, not, Option, none, some, List, [], ◌∷◌, ◌++◌, if◌then◌else◌, ◌==◌, length,
}
use sovereign_ledger.Base.Bytes.{codes}
use sovereign_ledger.Crypto.{Bytes, hash_size}
use sovereign_ledger.Crates.{Crates}
use sovereign_ledger.Error.{Error, Result, ok, err}
use sovereign_ledger.Import.{
  Values, hex_sha256, parse_value, verify_badapple_line, badapple_event_fields, or_default,
}
use sovereign_ledger.Ledger.{File, Ledger}
use sovereign_ledger.Ledger.Write.{Disk, append}
use sovereign_ledger.Merkle.{mth}
use sovereign_ledger.Text.{is_text, is_blank, read_lines, strip_newline}

pub record ImportReport : Type 0 where
  pub entries : ℕ
  pub source_tip : Bytes
  pub source_merkle_root : Option Bytes

abbrev pub State : Type 0 → Type 0
State A = Result A × Ledger × File

-- `?` on an operation of the ledger.
abbrev pub and_then : {A : Type 0} → State ℕ → (Ledger → File → State A) → State A
and_then (err e, l, file) k = (err e, l, file)
and_then (ok seq, l, file) k = k l file

-- `?` on a value that does not change the ledger.
abbrev pub or_stop : {A B : Type 0} → Result A → Ledger → File → (A → State B) → State B
or_stop (err e) l file k = (err e, l, file)
or_stop (ok a) l file k = k a

abbrev pub not_utf8 : Error
not_utf8 = Error.io "stream did not contain valid UTF-8"

-- `{m}` of a verification error gets the line in front; other errors stay.
abbrev pub at_source_line : Error → Error
at_source_line (Error.verification m) = Error.verification "source ledger failed at line {idx}: {m}"
at_source_line e = e

abbrev pub stopped_at : {A : Type 0} → Result A → Result A
stopped_at (err e) = err (at_source_line e)
stopped_at (ok a) = ok a

module _ (w : Crates) (clock : ℕ → ℕ) (disk : ℕ → Disk) where
  unfoldable pub jsonl_lines : ℕ → List Bytes → Ledger → File → State ℕ
  jsonl_lines n [] l file = (ok n, l, file)
  jsonl_lines n (raw ∷ raws) l file =
      if not (is_text raw)
      then (err not_utf8, l, file)
      else if is_blank (strip_newline raw)
      then jsonl_lines n raws l file
      else and_then (append w (clock n) (disk n) (codes "import") (strip_newline raw) l file)
          (λ l file. jsonl_lines (n + 1) raws l file)

  abbrev pub report_tip : State ℕ → State ImportReport
  report_tip (err e, l, file) = (err e, l, file)
  report_tip (ok n, l, file) = (
    ok (record { entries = n; source_tip = w.hex.encode l.last_hash; source_merkle_root = none }),
    l,
    file,
  )

  unfoldable pub import_jsonl : Bytes → Ledger → File → State ImportReport
  import_jsonl source l file = report_tip (jsonl_lines 0 (read_lines source) l file)

  module _ (j : Values) where
    unfoldable pub journald_lines : ℕ → ℕ → List Bytes → Ledger → File → State ℕ
    journald_lines idx n [] l file = (ok n, l, file)
    journald_lines idx n (raw ∷ raws) l file =
        if not (is_text raw)
        then (err not_utf8, l, file)
        else if is_blank (strip_newline raw)
        then journald_lines (idx + 1) n raws l file
        else or_stop (parse_value w j (Error.invalid_line idx) (strip_newline raw)) l file (λ v.
          and_then
            (append w (clock n) (disk n)
              (or_default (j.get_str (codes "SYSLOG_IDENTIFIER") v) (codes "journald"))
              (strip_newline raw) l file)
            (λ l file. journald_lines (idx + 1) (n + 1) raws l file))

    unfoldable pub import_journald : Bytes → Ledger → File → State ImportReport
    import_journald source l file = report_tip (journald_lines 0 0 (read_lines source) l file)

    abbrev add_leaf : List Bytes → Option Bytes → List Bytes
    add_leaf leaves none = leaves
    add_leaf leaves (some h) = if length h == hash_size then leaves ++ h ∷ [] else leaves

    unfoldable pub badapple_lines :
        List Bytes → ℕ → List Bytes → Bytes → List Bytes → Ledger → File → State ImportReport
    badapple_lines secrets n leaves prev [] l file = (
      ok (record {
        entries = n;
        source_tip = prev;
        source_merkle_root = some (w.hex.encode (mth w.sha leaves));
      }),
      l,
      file,
    )
    badapple_lines secrets n leaves prev (raw ∷ raws) l file =
        if not (is_text raw)
        then (err not_utf8, l, file)
        else if is_blank (strip_newline raw)
        then badapple_lines secrets n leaves prev raws l file
        else or_stop (stopped_at (verify_badapple_line w j (strip_newline raw) secrets prev)) l file
            (λ hash. or_stop (badapple_event_fields w j (strip_newline raw)) l file (λ fields.
              and_then (append w (clock n) (disk n) fields.0 fields.1 l file) (λ l file.
                badapple_lines secrets (n + 1) (add_leaf leaves (w.hex.decode hash)) hash raws l
                  file)))

    unfoldable pub import_badapple : List Bytes → Bytes → Ledger → File → State ImportReport
    import_badapple secrets source l file =
        badapple_lines secrets 0 [] (hex_sha256 w j (codes "bad-apple-genesis-v1"))
          (read_lines source) l file

-- ===== src/Import/Keeps.antt =====
-- An import of src/import.rs keeps the keys of the handle, wherever it stops.
use sovereign_ledger.Base.{ℕ, ◌+◌, ◌≡◌, refl, ◌∙◌, Bool-cases, inl, inr, List, [], ◌∷◌}
use sovereign_ledger.Base.Bytes.{codes}
use sovereign_ledger.Crypto.{Bytes}
use sovereign_ledger.Crates.{Crates}
use sovereign_ledger.Error.{Error, Result, ok, err, Result-cases}
use sovereign_ledger.Import.{Values, parse_value, badapple_event_fields}
use sovereign_ledger.Import.Run.{
  State, and_then, or_stop, jsonl_lines, report_tip, import_jsonl, journald_lines, import_journald,
  badapple_lines, import_badapple,
}
use sovereign_ledger.Ledger.{File, Ledger}
use sovereign_ledger.Ledger.Write.{Disk, write_line, next_entry, append}
use sovereign_ledger.Text.{is_text, is_blank, read_lines, strip_newline}

-- A relation between the handle and the file before, and those after, that every `append` keeps.
pub record Kept (w : Crates) : Type 1 where
  pub Rel : Ledger → File → Ledger → File → Type 0
  pub same : (l : Ledger) (file : File) → Rel l file l file
  pub trans :
      (l l1 l2 : Ledger) (file file1 file2 : File)
      → Rel l file l1 file1
      → Rel l1 file1 l2 file2
      → Rel l file l2 file2
  pub append_keeps :
      (now : ℕ) (disk : Disk) (event_type body : Bytes) (l : Ledger) (file : File)
      → Rel l file
          (append w now disk event_type body l file).1
          (append w now disk event_type body l file).2

module _ (w : Crates) (r : Kept w) where
  abbrev Keeps : {A : Type 0} → Ledger → File → State A → Type 0
  Keeps l file s = r.Rel l file s.1 s.2

  and_then-Keeps :
      {A : Type 0} (s : State ℕ) (k : Ledger → File → State A) (l : Ledger) (file : File)
      → Keeps l file s
      → ((l : Ledger) (file : File) → Keeps l file (k l file))
      → Keeps l file (and_then s k)
  and_then-Keeps (err e, l1, file1) k l file h g = h
  and_then-Keeps (ok seq, l1, file1) k l file h g = r.trans l l1 _ file file1 _ h (g l1 file1)

  or_stop-Keeps :
      {A B : Type 0} (m : Result A) (l : Ledger) (file : File) (k : A → State B)
      → ((a : A) → Keeps l file (k a))
      → Keeps l file (or_stop m l file k)
  or_stop-Keeps (err e) l file k g = r.same l file
  or_stop-Keeps (ok a) l file k g = g a

  module _ (clock : ℕ → ℕ) (disk : ℕ → Disk) where
    jsonl_lines-Keeps :
        (n : ℕ) (raws : List Bytes) (l : Ledger) (file : File)
        → Keeps l file (jsonl_lines w clock disk n raws l file)
    unfolding jsonl_lines
    jsonl_lines-Keeps n [] l file = r.same l file
    jsonl_lines-Keeps n (raw ∷ raws) l file = elim (Bool-cases (is_text raw)) [
      | inl t ↦ elim (Bool-cases (is_blank (strip_newline raw))) [
        | inl b ↦ rw (t, b) (jsonl_lines-Keeps n raws l file)
        | inr b ↦
            rw (t, b)
              (and_then-Keeps
                (append w (clock n) (disk n) (codes "import") (strip_newline raw) l file) _ l file
                (r.append_keeps (clock n) (disk n) (codes "import") (strip_newline raw) l file)
                (λ l1 file1. jsonl_lines-Keeps (n + 1) raws l1 file1))
      ]
      | inr t ↦ rw t (r.same l file)
    ]

    report_tip-Keeps :
        (l : Ledger) (file : File) (s : State ℕ)
        → Keeps l file s
        → Keeps l file (report_tip w clock disk s)
    report_tip-Keeps l file (err e, l1, file1) h = h
    report_tip-Keeps l file (ok n, l1, file1) h = h

    module _ (j : Values) where
      journald_lines-Keeps :
          (idx n : ℕ) (raws : List Bytes) (l : Ledger) (file : File)
          → Keeps l file (journald_lines w clock disk j idx n raws l file)
      unfolding journald_lines
      journald_lines-Keeps idx n [] l file = r.same l file
      journald_lines-Keeps idx n (raw ∷ raws) l file = elim (Bool-cases (is_text raw)) [
        | inl t ↦ elim (Bool-cases (is_blank (strip_newline raw))) [
          | inl b ↦ rw (t, b) (journald_lines-Keeps (idx + 1) n raws l file)
          | inr b ↦
              rw (t, b)
                (or_stop-Keeps (parse_value w j (Error.invalid_line idx) (strip_newline raw)) l file
                  _
                  (λ v.
                    and_then-Keeps (append w (clock n) (disk n) _ (strip_newline raw) l file) _ l
                      file (r.append_keeps (clock n) (disk n) _ (strip_newline raw) l file)
                      (λ l1 file1. journald_lines-Keeps (idx + 1) (n + 1) raws l1 file1)))
        ]
        | inr t ↦ rw t (r.same l file)
      ]

      badapple_lines-Keeps :
          (secrets : List Bytes) (n : ℕ) (leaves : List Bytes) (prev : Bytes) (raws : List Bytes)
          (l : Ledger) (file : File)
          → Keeps l file (badapple_lines w clock disk j secrets n leaves prev raws l file)
      unfolding badapple_lines
      badapple_lines-Keeps secrets n leaves prev [] l file = r.same l file
      badapple_lines-Keeps secrets n leaves prev (raw ∷ raws) l file =
          elim (Bool-cases (is_text raw)) [
            | inl t ↦ elim (Bool-cases (is_blank (strip_newline raw))) [
              | inl b ↦ rw (t, b) (badapple_lines-Keeps secrets n leaves prev raws l file)
              | inr b ↦
                  rw (t, b)
                    (or_stop-Keeps _ l file _ (λ hash.
                      or_stop-Keeps (badapple_event_fields w j (strip_newline raw)) l file _
                        (λ fields.
                          and_then-Keeps (append w (clock n) (disk n) fields.0 fields.1 l file) _ l
                            file (r.append_keeps (clock n) (disk n) fields.0 fields.1 l file)
                            (λ l1 file1.
                              badapple_lines-Keeps secrets (n + 1) _ hash raws l1 file1))))
            ]
            | inr t ↦ rw t (r.same l file)
          ]

      pub imports_keep :
          (secrets : List Bytes) (source : Bytes) (l : Ledger) (file : File)
          → Keeps l file (import_badapple w clock disk j secrets source l file)
            × Keeps l file (import_journald w clock disk j source l file)
            × Keeps l file (import_jsonl w clock disk source l file)
      unfolding import_badapple import_journald import_jsonl
      imports_keep secrets source l file = (
        badapple_lines-Keeps secrets 0 [] _ (read_lines source) l file,
        report_tip-Keeps l file _ (journald_lines-Keeps 0 0 (read_lines source) l file),
        report_tip-Keeps l file _ (jsonl_lines-Keeps 0 (read_lines source) l file),
      )

module _ (w : Crates) where
  pub append-keys :
      (now : ℕ) (disk : Disk) (event_type body : Bytes) (l : Ledger) (file : File)
      → (append w now disk event_type body l file).1.keys ≡ l.keys
  unfolding append
  append-keys now disk event_type body l file =
      elim (Result-cases (next_entry w now event_type body l)) [
        | inl ((e, hash), p) ↦
            elim (Result-cases (write_line disk l.durable (w.serde.print_event e) file).0) [
              | inl t ↦ rw (p, t.1) refl
              | inr t ↦ rw (p, t.1) refl
            ]
        | inr (x, p) ↦ rw p refl
      ]

  -- The keys stay.
  abbrev pub keys_kept : Kept w
  keys_kept = record {
    Rel = λ l file l' file'. l'.keys ≡ l.keys;
    same = λ l file. refl;
    trans = λ l l1 l2 file file1 file2 p q. q ∙ p;
    append_keeps = append-keys;
  }

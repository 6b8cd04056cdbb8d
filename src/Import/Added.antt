-- ===== src/Import/Added.antt =====
-- What the imports of src/import.rs add to the file of a ledger when they return.
use sovereign_ledger.Base.{
  ℕ, ◌+◌, ◌≡◌, refl, sym, ◌∙◌, ap, Bool-cases, inl, inr, List, [], ◌∷◌, ◌++◌, append-nil,
  append_assoc, arith, length, if◌then◌else◌,
}
use sovereign_ledger.Base.Bytes.{codes}
use sovereign_ledger.Crypto.{Bytes}
use sovereign_ledger.Crates.{Crates, Event}
use sovereign_ledger.Error.{Error, Result, ok, err, ok-injective, Result-cases}
use sovereign_ledger.Import.Run.{State, and_then, or_stop, not_utf8, jsonl_lines}
use sovereign_ledger.Ledger.{File, Ledger}
use sovereign_ledger.Ledger.Append.{append_refused, append_written}
use sovereign_ledger.Ledger.Entry.{next_entry-IsNext}
use sovereign_ledger.Ledger.Write.{healthy, contents, next_entry, append}
use sovereign_ledger.Ledger.Written.{line_of, file_of}
use sovereign_ledger.Text.{is_text, is_blank, strip_newline}

-- A type and a body for each entry, which are numbered behind a sequence number.
abbrev pub Wanted : Type 0
Wanted = List (Bytes × Bytes)

abbrev pub numbered : ℕ → Wanted → List (ℕ × Bytes × Bytes)
numbered seq [] = []
numbered seq ((event_type, body) ∷ rest) = (seq + 1, event_type, body) ∷ numbered (seq + 1) rest

abbrev pub shown : List Event → List (ℕ × Bytes × Bytes)
shown [] = []
shown (e ∷ es) = (e.seq, e.event_type, e.body) ∷ shown es

-- The lines of a source that are no blanks, without their newlines.
abbrev pub full_lines : List Bytes → List Bytes
full_lines [] = []
full_lines (raw ∷ raws) =
    let rest = full_lines raws in
    if is_blank (strip_newline raw) then rest else strip_newline raw ∷ rest

-- What each format wants of its lines, whatever ledger it goes to.
abbrev pub jsonl_wanted : List Bytes → Wanted
jsonl_wanted [] = []
jsonl_wanted (line ∷ lines) = (codes "import", line) ∷ jsonl_wanted lines

module _ (w : Crates) where
  -- The file has had the wanted entries added behind, in order and numbered one after the other.
  pub record IsImported (seq : ℕ) (file file' : File) (wanted : Wanted) : Type 0 where
    pub entries : List Event
    pub added : contents file' ≡ contents file ++ file_of w entries
    pub shows : shown entries ≡ numbered seq wanted

  -- An entry that `append` wrote.
  pub record IsAdded (event_type body : Bytes) (l l1 : Ledger) (file file1 : File) : Type 0 where
    entry : Event
    added : contents file1 ≡ contents file ++ line_of w entry
    seq : entry.seq ≡ l.seq + 1
    has_type : entry.event_type ≡ event_type
    has_body : entry.body ≡ body
    moved : l1.seq ≡ l.seq + 1

  pub append-IsAdded :
      (now : ℕ) (event_type body : Bytes) (l l1 : Ledger) (file file1 : File) (seq : ℕ)
      → append w now healthy event_type body l file ≡ (ok seq, l1, file1)
      → IsAdded event_type body l l1 file file1
  append-IsAdded now event_type body l l1 file file1 seq h =
      elim (Result-cases (next_entry w now event_type body l)) [
        | inl ((e, hash), r) ↦
            let q = sym (append_written w now event_type body l file e hash r) ∙ h in
            let n = next_entry-IsNext w now event_type body l e hash r in
            record {
              entry = e;
              added = sym (ap (λ t. contents t.2) q);
              seq = ap (λ t. t.seq) (sym n.entered);
              has_type = ap (λ t. t.event_type) (sym n.entered);
              has_body = ap (λ t. t.body) (sym n.entered);
              moved = sym (ap (λ t. t.1.seq) q);
            }
        | inr (x, r) ↦ absurd (
            not_ok x seq
              (ap (λ t. t.0) (sym (append_refused w now event_type body l file healthy x r) ∙ h)))
      ]
    where
      not_ok : (x : Error) (n : ℕ) → err x ≡ ok n → ⊥
      not_ok x n e = ground arith

  pub none-IsImported : (seq : ℕ) (file file' : File) → file ≡ file' → IsImported seq file file' []
  unfolding file_of
  none-IsImported seq file file' q = record {
    entries = [];
    added = sym (ap contents q) ∙ sym (append-nil (contents file));
    shows = refl;
  }

  pub next-IsImported :
      (event_type body : Bytes) (wanted : Wanted) (l l1 : Ledger) (file file1 file' : File)
      → IsAdded event_type body l l1 file file1
      → IsImported l1.seq file1 file' wanted
      → IsImported l.seq file file' ((event_type, body) ∷ wanted)
  unfolding file_of
  next-IsImported event_type body wanted l l1 file file1 file' a i = record {
    entries = a.entry ∷ i.entries;
    added =
        i.added
        ∙ ap (λ t. t ++ file_of w i.entries) a.added
        ∙ append_assoc (contents file) (line_of w a.entry) (file_of w i.entries);
    shows = cc (a.seq, a.has_type, a.has_body, a.moved, i.shows);
  }

pub and_then-returned :
    {A : Type 0} (s : State ℕ) (k : Ledger → File → State A) (a : A) (l' : Ledger) (file' : File)
    → and_then s k ≡ (ok a, l', file')
    → (seq : ℕ) × (l1 : Ledger) × (file1 : File) × (s ≡ (ok seq, l1, file1))
      × (k l1 file1 ≡ (ok a, l', file'))
and_then-returned (err e, l, file) k a l' file' h = absurd (not_ok e a (ap (λ t. t.0) h))
  where
    not_ok : {A : Type 0} (x : Error) (a : A) → err x ≡ ok a → ⊥
    not_ok x a e = ground arith
and_then-returned (ok seq, l, file) k a l' file' h = (seq, l, file, refl, h)

pub or_stop-returned :
    {A B : Type 0} (m : Result A) (l : Ledger) (file : File) (k : A → State B) (b : B) (l' : Ledger)
    (file' : File)
    → or_stop m l file k ≡ (ok b, l', file')
    → (a : A) × (m ≡ ok a) × (k a ≡ (ok b, l', file'))
or_stop-returned (err e) l file k b l' file' h = absurd (not_ok e b (ap (λ t. t.0) h))
  where
    not_ok : {A : Type 0} (x : Error) (a : A) → err x ≡ ok a → ⊥
    not_ok x a e = ground arith
or_stop-returned (ok a) l file k b l' file' h = (a, refl, h)

module _ (w : Crates) (clock : ℕ → ℕ) where
  pub jsonl_lines-IsImported :
      (n : ℕ) (raws : List Bytes) (l l' : Ledger) (file file' : File) (m : ℕ)
      → jsonl_lines w clock (λ k. healthy) n raws l file ≡ (ok m, l', file')
      → IsImported w l.seq file file' (jsonl_wanted (full_lines raws))
        × (m ≡ n + length (full_lines raws))
  unfolding jsonl_lines
  jsonl_lines-IsImported n [] l l' file file' m h = (
    none-IsImported w l.seq file file' (ap (λ t. t.2) h),
    omega (arith, ok-injective n m (ap (λ t. t.0) h)),
  )
  jsonl_lines-IsImported n (raw ∷ raws) l l' file file' m h = elim (Bool-cases (is_text raw)) [
    | inl t ↦ elim (Bool-cases (is_blank (strip_newline raw))) [
      | inl b ↦ rw b (jsonl_lines-IsImported n raws l l' file file' m (rw (t, b) at h))
      | inr b ↦
          let line = strip_newline raw in
          let (seq, l1, file1, p, k) =
            and_then-returned (append w (clock n) healthy (codes "import") line l file) _ m l' file'
              (rw (t, b) at h) in
          let (i, c) = jsonl_lines-IsImported (n + 1) raws l1 l' file1 file' m k in
          let a = append-IsAdded w (clock n) (codes "import") line l l1 file file1 seq p in
          rw b
            (next-IsImported w (codes "import") line _ l l1 file file1 file' a i, omega (arith, c))
    ]
    | inr t ↦ absurd (not_ok not_utf8 m (ap (λ x. x.0) (rw t at h)))
  ]
    where
      not_ok : (x : Error) (n : ℕ) → err x ≡ ok n → ⊥
      not_ok x n e = ground arith

-- ===== src/Import/Loops.antt =====
-- The loops of the imports of src/import.rs that read JSON: what each has read of its lines.
use sovereign_ledger.Base.{
  ℕ, ◌+◌, ◌≡◌, refl, ◌∙◌, ap, subst, Bool-cases, inl, inr, ◌⊎◌, List, [], ◌∷◌, arith, length,
}
use Prim.Native.String.{String}
use sovereign_ledger.Base.Bytes.{codes}
use sovereign_ledger.Crypto.{Bytes}
use sovereign_ledger.Crates.{Crates}
use sovereign_ledger.Error.{Error, Result, ok, err, ok-injective}
use sovereign_ledger.Import.{
  Values, parse_value, verify_badapple_line, badapple_event_fields, or_default,
}
use sovereign_ledger.Import.Added.{
  Wanted, full_lines, IsImported, append-IsAdded, none-IsImported, next-IsImported,
  and_then-returned, or_stop-returned,
}
use sovereign_ledger.Import.Run.{ImportReport, not_utf8, stopped_at, journald_lines, badapple_lines}
use sovereign_ledger.Ledger.{File, Ledger}
use sovereign_ledger.Ledger.Write.{healthy, append}
use sovereign_ledger.Text.{is_text, is_blank, strip_newline}

not_ok : {A : Type 0} (x : Error) (a : A) → err x ≡ ok a → ⊥
not_ok x a e = ground arith

module _ (w : Crates) (j : Values) where
  -- The lines of a Bad Apple source, each verified against the hash of the one before, and what is read
  -- of each.
  pub data IsBadapple (secrets : List Bytes) : Bytes → List Bytes → Wanted → Bytes → Type 0 where
    badapple_end : {prev : Bytes} → IsBadapple secrets prev [] [] prev
    badapple_line :
        {prev line hash event_type body tip : Bytes} {lines : List Bytes} {wanted : Wanted}
        → verify_badapple_line w j line secrets prev ≡ ok hash
        → badapple_event_fields w j line ≡ ok (event_type, body)
        → IsBadapple secrets hash lines wanted tip
        → IsBadapple secrets prev (line ∷ lines) ((event_type, body) ∷ wanted) tip

  -- The lines of a journal: each is a JSON value, whose identifier is the type.
  pub data IsJournal : List Bytes → Wanted → Type 0 where
    journal_end : IsJournal [] []
    journal_line :
        {line : Bytes} {lines : List Bytes} {wanted : Wanted} {v : j.Value}
        → j.parse line ≡ inr v
        → IsJournal lines wanted
        → IsJournal (line ∷ lines) (
            (or_default (j.get_str (codes "SYSLOG_IDENTIFIER") v) (codes "journald"), line)
            ∷ wanted)

  stopped_at-returned : {A : Type 0} (m : Result A) (a : A) → stopped_at m ≡ ok a → m ≡ ok a
  stopped_at-returned (err (Error.verification m)) a h = absurd (not_ok _ a h)
  stopped_at-returned (err e) a h = absurd (not_ok _ a h)
  stopped_at-returned (ok b) a h = h

  parse_value-returned :
      (f : String → Error) (line : Bytes) (v : j.Value)
      → parse_value w j f line ≡ ok v
      → j.parse line ≡ inr v
  unfolding parse_value
  parse_value-returned f line v h = elim (sides (j.parse line)) [
    | inl (e, q) ↦ absurd (not_ok (f e) v (rw q at h))
    | inr (u, q) ↦ q ∙ ap inr (ok-injective u v (rw q at h))
  ]
    where
      sides : (s : String ⊎ j.Value) → ((e : String) × (s ≡ inl e)) ⊎ ((u : j.Value) × (s ≡ inr u))
      sides (inl e) = inl (e, refl)
      sides (inr u) = inr (u, refl)

  module _ (clock : ℕ → ℕ) where
    pub journald_lines-IsImported :
        (idx n : ℕ) (raws : List Bytes) (l l' : Ledger) (file file' : File) (m : ℕ)
        → journald_lines w clock (λ k. healthy) j idx n raws l file ≡ (ok m, l', file')
        → (wanted : Wanted) × IsJournal (full_lines raws) wanted
          × IsImported w l.seq file file' wanted
          × (m ≡ n + length wanted)
    unfolding journald_lines
    journald_lines-IsImported idx n [] l l' file file' m h = (
      [],
      journal_end,
      none-IsImported w l.seq file file' (ap (λ t. t.2) h),
      omega (arith, ok-injective n m (ap (λ t. t.0) h)),
    )
    journald_lines-IsImported idx n (raw ∷ raws) l l' file file' m h =
        elim (Bool-cases (is_text raw)) [
          | inl t ↦ elim (Bool-cases (is_blank (strip_newline raw))) [
            | inl b ↦
                rw b (journald_lines-IsImported (idx + 1) n raws l l' file file' m (rw (t, b) at h))
            | inr b ↦
                let line = strip_newline raw in
                let (v, p, h) =
                  or_stop-returned (parse_value w j (Error.invalid_line idx) line) l file _ m l'
                    file' (rw (t, b) at h) in
                let event_type =
                  or_default (j.get_str (codes "SYSLOG_IDENTIFIER") v) (codes "journald") in
                let (seq, l1, file1, q, k) =
                  and_then-returned (append w (clock n) healthy event_type line l file) _ m l' file'
                    h in
                let (wanted, s, i, c) =
                  journald_lines-IsImported (idx + 1) (n + 1) raws l1 l' file1 file' m k in
                let a = append-IsAdded w (clock n) event_type line l l1 file file1 seq q in
                rw b (
                  (event_type, line) ∷ wanted,
                  journal_line (parse_value-returned _ line v p) s,
                  next-IsImported w event_type line wanted l l1 file file1 file' a i,
                  omega (arith, c),
                )
          ]
          | inr t ↦ absurd (not_ok not_utf8 m (ap (λ x. x.0) (rw t at h)))
        ]

    pub badapple_lines-IsImported :
        (secrets : List Bytes) (n : ℕ) (leaves : List Bytes) (prev : Bytes) (raws : List Bytes)
        (l l' : Ledger) (file file' : File) (report : ImportReport)
        → badapple_lines w clock (λ k. healthy) j secrets n leaves prev raws l file
          ≡ (ok report, l', file')
        → (wanted : Wanted) × IsBadapple secrets prev (full_lines raws) wanted report.source_tip
          × IsImported w l.seq file file' wanted
          × (report.entries ≡ n + length wanted)
    unfolding badapple_lines
    badapple_lines-IsImported secrets n leaves prev [] l l' file file' report h =
        let q = ok-injective _ report (ap (λ t. t.0) h) in
        (
          [],
          subst (λ t. IsBadapple secrets prev [] [] t) (ap (λ (t : ImportReport). t.source_tip) q)
              badapple_end,
          none-IsImported w l.seq file file' (ap (λ t. t.2) h),
          omega (arith, ap (λ (t : ImportReport). t.entries) q),
        )
    badapple_lines-IsImported secrets n leaves prev (raw ∷ raws) l l' file file' report h =
        elim (Bool-cases (is_text raw)) [
          | inl t ↦ elim (Bool-cases (is_blank (strip_newline raw))) [
            | inl b ↦ rw b (
                badapple_lines-IsImported secrets n leaves prev raws l l' file file' report
                  (rw (t, b) at h))
            | inr b ↦
                let line = strip_newline raw in
                let (hash, p, h) =
                  or_stop-returned (stopped_at (verify_badapple_line w j line secrets prev)) l file
                    _ report l' file' (rw (t, b) at h) in
                let (fields, r, h) =
                  or_stop-returned (badapple_event_fields w j line) l file _ report l' file' h in
                let (seq, l1, file1, q, k) =
                  and_then-returned (append w (clock n) healthy fields.0 fields.1 l file) _ report
                    l' file' h in
                let (wanted, s, i, c) =
                  badapple_lines-IsImported secrets (n + 1) _ hash raws l1 l' file1 file' report
                    k in
                let a = append-IsAdded w (clock n) fields.0 fields.1 l l1 file file1 seq q in
                rw b (
                  (fields.0, fields.1) ∷ wanted,
                  badapple_line (stopped_at-returned _ hash p) r s,
                  next-IsImported w fields.0 fields.1 wanted l l1 file file1 file' a i,
                  omega (arith, c),
                )
          ]
          | inr t ↦ absurd (not_ok not_utf8 report (ap (λ x. x.0) (rw t at h)))
        ]

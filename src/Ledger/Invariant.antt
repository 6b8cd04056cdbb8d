-- ===== src/Ledger/Invariant.antt =====
-- What every entry keeps of the state of the scan in src/lib.rs, the scan of a file has.
use sovereign_ledger.Base.{
  ℕ, ◌+◌, ◌≡◌, refl, sym, ◌∙◌, subst, Bool-cases, ◌⊎◌, inl, inr, some, none, List, [], ◌∷◌, arith,
  if-true, if-false,
}
use sovereign_ledger.Crypto.{Bytes}
use sovereign_ledger.Crates.{Crates, Event}
use sovereign_ledger.Error.{Error, ok, err, returned, ok-injective}
use sovereign_ledger.Ledger.{File, Scan, start, scan_event, scan_line, scan_lines, scan_file}
use sovereign_ledger.Text.{is_text, is_blank, read_lines, strip_newline}

pub sides : {A B : Type 0} (x : A ⊎ B) → ((a : A) × (x ≡ inl a)) ⊎ ((b : B) × (x ≡ inr b))
sides (inl a) = inl (a, refl)
sides (inr b) = inr (b, refl)

module _ (w : Crates) (keys : List Bytes) (P : Scan → Type 0)
    (event_keeps : (idx : ℕ) (e : Event) (s t : Scan)
      → scan_event w keys idx e s ≡ ok t
      → P s
      → P t) where
  scan_line_keeps :
      (idx : ℕ) (raw : Bytes) (s t : Scan) → scan_line w keys idx raw s ≡ ok t → P s → P t
  unfolding scan_line
  scan_line_keeps idx raw s t h d = elim (Bool-cases (is_text raw)) [
    | inl t1 ↦ elim (Bool-cases (is_blank (strip_newline raw))) [
      | inl b ↦ subst P (ok-injective s t (rw (t1, b) at h)) d
      | inr b ↦ elim (sides (w.serde.parse_event (strip_newline raw))) [
        | inl (x, p) ↦ absurd (not_ok _ t (rw (t1, b, p) at h))
        | inr (e, p) ↦ event_keeps idx e s t (rw (t1, b, p) at h) d
      ]
    ]
    | inr t1 ↦ absurd (not_ok _ t (rw t1 at h))
  ]
    where
      not_ok : (x : Error) (t : Scan) → err x ≡ ok t → ⊥
      not_ok x t e = ground arith

  scan_lines_keeps :
      (idx : ℕ) (raws : List Bytes) (s t : Scan) → scan_lines w keys idx raws s ≡ ok t → P s → P t
  unfolding scan_lines
  scan_lines_keeps idx [] s t h d = subst P (ok-injective s t h) d
  scan_lines_keeps idx (raw ∷ raws) s t h d =
      let (u, p, h) = returned (scan_line w keys idx raw s) _ t h in
      let du = scan_line_keeps idx raw s u p d in
      elim (Bool-cases u.compromised) [
        | inl b ↦ subst P (ok-injective u t (sym (if-true u.compromised _ _ b) ∙ h)) du
        | inr b ↦ scan_lines_keeps (idx + 1) raws u t (sym (if-false u.compromised _ _ b) ∙ h) du
      ]

  pub scan_file_keeps : (file : File) (t : Scan) → scan_file w keys file ≡ ok t → P start → P t
  unfolding scan_file
  scan_file_keeps none t h d = subst P (ok-injective start t h) d
  scan_file_keeps (some bytes) t h d = scan_lines_keeps 0 (read_lines bytes) start t h d

-- ===== src/Ledger/Coherent.antt =====
-- The handle and the file of src/lib.rs agree: opening the file anew reads the chain state that the
-- handle holds.
use sovereign_ledger.Base.{
  ℕ, suc, ◌+◌, ◌≤◌, ◌≡◌, refl, sym, ◌∙◌, ap, true, false, Bool-cases, if-true, if-false, inl, inr,
  some, none, List, [], ◌∷◌, ◌++◌, arith, length, if◌then◌else◌,
}
use sovereign_ledger.Crypto.{Bytes, IsDigest}
use sovereign_ledger.Crates.{Crates, Event, IsEvent}
use sovereign_ledger.Error.{Result, ok, err, ◌>>=◌, ok-injective}
use sovereign_ledger.Ledger.{
  File, Ledger, Scan, start, scan_event, scan_line, scan_lines, scan_file,
}
use sovereign_ledger.Ledger.Write.{contents}
use sovereign_ledger.Text.{read_lines}
use sovereign_ledger.Text.Lines.{
  IsEnded, read_lines-append, read_lines-line, strip_newline-line, is_text-line, is_blank-stripped,
}

pub record IsCoherent (w : Crates) (l : Ledger) (file : File) : Type 0 where
  pub scan : Scan
  pub reads : scan_file w l.keys file ≡ ok scan
  pub sound : scan.compromised ≡ false
  pub last_hash : scan.last_hash ≡ l.last_hash
  pub seq : scan.seq ≡ l.seq
  pub epoch : scan.max_epoch ≤ l.epoch
  pub seals_seen : scan.seals_seen ≡ l.seals_seen
  pub sealed_through : scan.sealed_through ≡ l.sealed_through
  pub legacy_segment0 : scan.legacy_segment0 ≡ l.legacy_segment0
  pub revealed_epochs : scan.revealed_epochs ≡ l.revealed_epochs
  pub digest : IsDigest l.last_hash
  pub ended : IsEnded (contents file)

module _ (w : Crates) (keys : List Bytes) where
  -- What stands behind a part that was read whole is read from where that part led.
  pub scan_lines-append :
      (i : ℕ) (xs ys : List Bytes) (s t : Scan)
      → scan_lines w keys i xs s ≡ ok t
      → t.compromised ≡ false
      → scan_lines w keys i (xs ++ ys) s ≡ scan_lines w keys (i + length xs) ys t
  unfolding scan_lines
  scan_lines-append i [] ys s t h c =
      let q : i ≡ i + 0 = omega arith in
      rw (ok-injective s t h) (ap (λ n. scan_lines w keys n ys t) q)
  scan_lines-append i (x ∷ xs) ys s t h c =
      let q : i + 1 + length xs ≡ i + suc (length xs) = omega arith in
      step (scan_line w keys i x s) h
        (λ u k. scan_lines-append (i + 1) xs ys u t k c ∙ ap (λ n. scan_lines w keys n ys t) q)
    where
      stopped : (u : Scan) → u.compromised ≡ true → ok u ≡ ok t → ⊥
      stopped u e k = let q = ok-injective u t k in ground (arith, ap (λ v. v.compromised) q)

      step :
          (m : Result Scan)
          → (m >>= λ u. if u.compromised then ok u else scan_lines w keys (i + 1) xs u) ≡ ok t
          → ((u : Scan)
              → scan_lines w keys (i + 1) xs u ≡ ok t
              → scan_lines w keys (i + 1) (xs ++ ys) u
                ≡ scan_lines w keys (i + suc (length xs)) ys t)
          → (m >>= λ u. if u.compromised then ok u else scan_lines w keys (i + 1) (xs ++ ys) u)
            ≡ scan_lines w keys (i + suc (length xs)) ys t
      step (err e) k go_on = ground arith
      step (ok u) k go_on = elim (Bool-cases u.compromised) [
        | inl e ↦ absurd (stopped u e (sym (if-true u.compromised _ _ e) ∙ k))
        | inr e ↦ if-false u.compromised _ _ e ∙ go_on u (sym (if-false u.compromised _ _ e) ∙ k)
      ]

  -- A line that `append` writes is read as the entry that it shows.
  pub scan_line-entry :
      (i : ℕ) (e : Event) (s : Scan)
      → IsEvent e
      → scan_line w keys i (w.serde.print_event e ++ 10 ∷ []) s ≡ scan_event w keys i e s
  unfolding scan_line
  scan_line-entry i e s h =
      let l = w.serde.print_event-IsLine e h in
      rw
        (
          is_text-line _ l,
          strip_newline-line _ l,
          is_blank-stripped _ l,
          w.serde.parse-print_event e h,
        )
        refl

  pub scan_file-entry :
      (file : File) (e : Event) (s : Scan)
      → IsEvent e
      → IsEnded (contents file)
      → scan_file w keys file ≡ ok s
      → s.compromised ≡ false
      → (i : ℕ) × (scan_file w keys (some (contents file ++ (w.serde.print_event e ++ 10 ∷ [])))
          ≡ scan_lines w keys i ((w.serde.print_event e ++ 10 ∷ []) ∷ []) s)
  unfolding scan_file
  scan_file-entry none e s h n r c =
      let l = w.serde.print_event-IsLine e h in
      (0, rw (read_lines-line _ l, ok-injective start s r) refl)
  scan_file-entry (some bytes) e s h n r c =
      let l = w.serde.print_event-IsLine e h in
      (
        0 + length (read_lines bytes),
        rw (read_lines-append bytes _ n, read_lines-line _ l)
            (scan_lines-append 0 (read_lines bytes) _ start s r c),
      )

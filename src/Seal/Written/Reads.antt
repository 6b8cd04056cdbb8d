-- ===== src/Seal/Written/Reads.antt =====
-- The loop of `verify_public` in src/seal.rs, over what was read whole and what stands behind it.
use sovereign_ledger.Base.{
  ℕ, suc, ◌+◌, ◌≡◌, refl, ◌∙◌, ap, Bool-cases, inl, inr, List, [], ◌∷◌, ◌++◌, arith, length,
}
use sovereign_ledger.Crypto.{Bytes}
use sovereign_ledger.Crates.{Crates, Event, IsEvent}
use sovereign_ledger.Error.{Error, ok, err, returned, ok-injective}
use sovereign_ledger.Ledger.Invariant.{sides}
use sovereign_ledger.Ledger.Written.{line_of}
use sovereign_ledger.Seal.Public.{Signatures, Public, public_event, public_lines}
use sovereign_ledger.Text.{is_text, is_blank, strip_newline, trim_end}
use sovereign_ledger.Text.Lines.{
  is_text-line, strip_newline-line, is_blank-stripped, trim_end-stripped,
}

module _ (w : Crates) (g : Signatures) where
  pub public_lines-append :
      (i : ℕ) (xs ys : List Bytes) (s t : Public)
      → public_lines w g i xs s ≡ ok t
      → public_lines w g i (xs ++ ys) s ≡ public_lines w g (i + length xs) ys t
  unfolding public_lines
  public_lines-append i [] ys s t h =
      let q : i ≡ i + 0 = omega arith in
      rw (ok-injective s t h) (ap (λ n. public_lines w g n ys t) q)
  public_lines-append i (x ∷ xs) ys s t h =
      let q : i + 1 + length xs ≡ i + suc (length xs) = omega arith in
      let onward = ap (λ n. public_lines w g n ys t) q in
      elim (Bool-cases (is_text x)) [
        | inl e ↦ elim (Bool-cases (is_blank (strip_newline x))) [
          | inl b ↦ rw (e, b) (public_lines-append (i + 1) xs ys s t (rw (e, b) at h) ∙ onward)
          | inr b ↦ elim (sides (w.serde.parse_event (trim_end (strip_newline x)))) [
            | inl (m, p) ↦ absurd (not_ok _ t (rw (e, b, p) at h))
            | inr (event, p) ↦
                let (u, r, k) = returned (public_event w g i event s) _ t (rw (e, b, p) at h) in
                rw (e, b, p, r) (public_lines-append (i + 1) xs ys u t k ∙ onward)
          ]
        ]
        | inr e ↦ absurd (not_ok _ t (rw e at h))
      ]
    where
      not_ok : (x : Error) (t : Public) → err x ≡ ok t → ⊥
      not_ok x t e = ground arith

  -- A line that was written is the entry that it shows.
  pub public_lines-entry :
      (i : ℕ) (e : Event) (s t : Public)
      → IsEvent e
      → public_event w g i e s ≡ ok t
      → public_lines w g i (line_of w e ∷ []) s ≡ ok t
  unfolding public_lines
  public_lines-entry i e s t h p =
      let l = w.serde.print_event-IsLine e h in
      rw
        (
          is_text-line _ l,
          strip_newline-line _ l,
          is_blank-stripped _ l,
          trim_end-stripped _ l,
          w.serde.parse-print_event e h,
          p,
        )
        refl

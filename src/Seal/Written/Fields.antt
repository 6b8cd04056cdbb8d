-- ===== src/Seal/Written/Fields.antt =====
-- The fields of the seals that src/lib.rs writes, and of the entries that they close, are in range.
use sovereign_ledger.Base.{
  ℕ, ◌+◌, ◌^◌, ◌<◌, ◌≤◌, ◌≡◌, ◌∙◌, ap, Bool, true, false, List, [], ◌∷◌, All, arith, length,
  if◌then◌else◌,
}
use sovereign_ledger.Base.Bytes.{bytes_eq}
use sovereign_ledger.Crypto.{Bytes}
use sovereign_ledger.Crates.{Crates, Event, IsEvent}
use sovereign_ledger.Event.{seal_event}
use sovereign_ledger.Seal.Written.Chained.{IsChained}
use sovereign_ledger.Seal.Written.Gather.{last_seal}
use sovereign_ledger.Seal.Written.Revealed.{IsRevealed}
use sovereign_ledger.Text.{is_text}

module _ (w : Crates) where
  -- The disclosed keys fit the Rust type.
  pub revealed-fits :
      (keys : List Bytes) (seals : ℕ) (ps : List (ℕ × Bytes))
      → All (IsRevealed w keys seals) ps
      → All (λ p. (p.0 < 2 ^ 32) × (is_text p.1 ≡ true)) ps
  revealed-fits keys seals [] h = tt
  revealed-fits keys seals (p ∷ ps) (h, hs) =
      ((h.fits, ap is_text h.shown ∙ w.hex.encode-is_text h.key), revealed-fits keys seals ps hs)

  pub last_seal-is_text :
      (es : List Event) (p : Bytes)
      → is_text p ≡ true
      → All IsEvent es
      → is_text (last_seal p es) ≡ true
  last_seal-is_text [] p h a = h
  last_seal-is_text (e ∷ es) p h (k, a) =
      last_seal-is_text es (if bytes_eq e.event_type seal_event then e.hash else p)
        (either (bytes_eq e.event_type seal_event) e.hash p k.hash h) a
    where
      either :
          (b : Bool) (x y : Bytes)
          → is_text x ≡ true
          → is_text y ≡ true
          → is_text (if b then x else y) ≡ true
      either true x y hx hy = hx
      either false x y hx hy = hy

  -- The entries of the open segment come up to the handle.
  pub chain-below :
      (keys : List Bytes) (seals : ℕ) (prev : Bytes) (n k : ℕ) (es : List Event) (last : Bytes)
      → IsChained w keys seals prev n es last
      → n + length es ≤ k + 1
      → All (λ e. e.seq ≤ k) es
  chain-below keys seals prev n k [] last c h = tt
  chain-below keys seals prev n k (e ∷ es) last (link, c) h =
      (omega (arith, link.seq), chain-below keys seals link.hash (n + 1) k es last c (omega arith))

  pub all-below :
      (j k : ℕ) (es : List Event) → j ≤ k → All (λ e. e.seq ≤ j) es → All (λ e. e.seq ≤ k) es
  all-below j k [] h a = tt
  all-below j k (e ∷ es) h (b, a) = (omega arith, all-below j k es h a)

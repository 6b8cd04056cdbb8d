-- ===== src/Seal/Written/Revealed.antt =====
-- The keys that a seal of src/lib.rs discloses: those of the epochs that its segment has used.
use sovereign_ledger.Base.{
  ℕ, ◌^◌, ◌<◌, ◌≡◌, refl, sym, ◌∙◌, ap, true, false, Bool-cases, inl, inr, some, List, [], ◌∷◌, All,
  arith, ltb, ◌==◌,
}
use sovereign_ledger.Crypto.{Bytes}
use sovereign_ledger.Crates.{Crates, IsAscending}
use sovereign_ledger.Error.{ok, ok-injective}
use sovereign_ledger.Event.{format_version, entry_key}
use sovereign_ledger.Ledger.Close.{has_epoch, insert_epoch}
use sovereign_ledger.Seal.Public.{revealed_key}

module _ (w : Crates) (keys : List Bytes) (seals : ℕ) where
  -- A pair shows the key of its epoch.
  pub record IsRevealed (p : ℕ × Bytes) : Type 0 where
    pub key : Bytes
    pub has_key : entry_key w keys p.0 seals format_version ≡ ok key
    pub shown : p.1 ≡ w.hex.encode key
    pub fits : p.0 < 2 ^ 32

  pub revealed_key-has_epoch :
      (ps : List (ℕ × Bytes)) (e : ℕ) (key : Bytes)
      → All IsRevealed ps
      → entry_key w keys e seals format_version ≡ ok key
      → has_epoch e ps ≡ true
      → revealed_key e ps ≡ some (w.hex.encode key)
  unfolding revealed_key
  revealed_key-has_epoch [] e key a k h = absurd (ground arith)
  revealed_key-has_epoch ((f, x) ∷ ps) e key (p, a) k h = elim (Bool-cases (e == f)) [
    | inl t ↦
        let same : e ≡ f = ground arith in
        let q =
          ok-injective p.key key
            (sym p.has_key ∙ ap (λ n. entry_key w keys n seals format_version) (sym same) ∙ k) in
        rw t (ap some (p.shown ∙ ap w.hex.encode q))
    | inr t ↦ rw t (revealed_key-has_epoch ps e key a k (rw t at h))
  ]

  pub insert_epoch-IsRevealed :
      (e : ℕ) (k : Bytes) (ps : List (ℕ × Bytes))
      → IsRevealed (e, k)
      → All IsRevealed ps
      → All IsRevealed (insert_epoch e k ps)
  unfolding insert_epoch
  insert_epoch-IsRevealed e k [] p a = (p, tt)
  insert_epoch-IsRevealed e k ((f, x) ∷ ps) p (q, a) = elim (Bool-cases (ltb e f)) [
    | inl t ↦ rw t (p, (q, a))
    | inr t ↦ rw t (q, insert_epoch-IsRevealed e k ps p a)
  ]

pub has_epoch-insert_epoch :
    (e : ℕ) (k : Bytes) (ps : List (ℕ × Bytes)) → has_epoch e (insert_epoch e k ps) ≡ true
unfolding insert_epoch
has_epoch-insert_epoch e k [] = ground arith
has_epoch-insert_epoch e k ((f, x) ∷ ps) = elim (Bool-cases (ltb e f)) [
  | inl t ↦ rw t (ground arith)
  | inr t ↦ rw t (ground (arith, has_epoch-insert_epoch e k ps))
]

pub has_epoch_kept :
    (d e : ℕ) (k : Bytes) (ps : List (ℕ × Bytes))
    → has_epoch d ps ≡ true
    → has_epoch d (insert_epoch e k ps) ≡ true
unfolding insert_epoch
has_epoch_kept d e k [] h = ground arith
has_epoch_kept d e k ((f, x) ∷ ps) h = elim (Bool-cases (ltb e f)) [
  | inl t ↦ rw t (ground arith)
  | inr t ↦ rw t (elim (Bool-cases (d == f)) [
    | inl q ↦ rw q refl
    | inr q ↦ rw q (has_epoch_kept d e k ps (rw q at h))
  ])
]

-- The pairs stay in order, where the epoch is a new one.
pub insert_epoch-IsAscending :
    (e : ℕ) (k : Bytes) (ps : List (ℕ × Bytes))
    → has_epoch e ps ≡ false
    → IsAscending ps
    → IsAscending (insert_epoch e k ps)
unfolding insert_epoch
insert_epoch-IsAscending e k [] h a = tt
insert_epoch-IsAscending e k ((f, x) ∷ []) h a = elim (Bool-cases (ltb e f)) [
  | inl t ↦ rw t (ground arith, tt)
  | inr t ↦ rw t (ground arith, tt)
]
insert_epoch-IsAscending e k ((f, x) ∷ (f', x') ∷ ps) h (p, a) = elim (Bool-cases (ltb e f)) [
  | inl t ↦ rw t (ground arith, (p, a))
  | inr t ↦
      let later : has_epoch e ((f', x') ∷ ps) ≡ false = ground arith in
      let rest = insert_epoch-IsAscending e k ((f', x') ∷ ps) later a in
      let low : f < e = ground arith in
      rw t (elim (Bool-cases (ltb e f')) [
        | inl u ↦ rw u (low, (rw u at rest))
        | inr u ↦ rw u (p, (rw u at rest))
      ])
]

-- ===== src/Files/Runs.antt =====
-- An action on the file system behind another: what each of them gave.
use sovereign_ledger.Base.{◌≡◌, refl, ap, subst, ◌⊎◌, inl, inr, arith}
use sovereign_ledger.Error.{Error, Result, ok, err}
use sovereign_ledger.Files.{Files, Io, and_then, ◌>>=◌, lift}

abbrev error_of : {A : Type 0} → Error → Result A → Error
error_of d (err e) = e
error_of d (ok a) = d

module _ {A B : Type 0} (m : Io A) (f : A → Io B) (files left : Files) where
  pub Io-returned :
      (b : B)
      → (m >>= f) files ≡ (ok b, left)
      → (a : A) × (mid : Files) × (m files ≡ (ok a, mid)) × (f a mid ≡ (ok b, left))
  unfolding ◌>>=◌
  Io-returned b h = by_result (m files) refl h
    where
      by_result :
          (r : Result A × Files)
          → m files ≡ r
          → and_then r f ≡ (ok b, left)
          → (a : A) × (mid : Files) × (m files ≡ (ok a, mid)) × (f a mid ≡ (ok b, left))
      by_result (err e, mid) q h = absurd (not_ok e b (ap (λ t. t.0) h))
        where
          not_ok : (e : Error) (b : B) → err e ≡ ok b → ⊥
          not_ok e b h = ground arith
      by_result (ok a, mid) q h = (a, mid, q, h)

  pub Io-failed :
      (e : Error)
      → (m >>= f) files ≡ (err e, left)
      → (m files ≡ (err e, left))
        ⊎ ((a : A) × (mid : Files) × (m files ≡ (ok a, mid)) × (f a mid ≡ (err e, left)))
  unfolding ◌>>=◌
  Io-failed e h = by_result (m files) refl h
    where
      by_result :
          (r : Result A × Files)
          → m files ≡ r
          → and_then r f ≡ (err e, left)
          → (m files ≡ (err e, left))
            ⊎ ((a : A) × (mid : Files) × (m files ≡ (ok a, mid)) × (f a mid ≡ (err e, left)))
      by_result (err x, mid) q h = inl (
          subst (λ t. m files ≡ (err t, left)) (ap (λ t. error_of x t.0) h)
            (subst (λ t. m files ≡ (err x, t)) (ap (λ t. t.1) h) q))
      by_result (ok a, mid) q h = inr (a, mid, q, h)

module _ {A B : Type 0} where
  pub Io-then :
      (m : Io A) (f : A → Io B) (files mid : Files) (a : A)
      → m files ≡ (ok a, mid)
      → (m >>= f) files ≡ f a mid
  unfolding ◌>>=◌
  Io-then m f files mid a h = rw h refl

  pub Io-stopped :
      (m : Io A) (f : A → Io B) (files mid : Files) (e : Error)
      → m files ≡ (err e, mid)
      → (m >>= f) files ≡ (err e, mid)
  unfolding ◌>>=◌
  Io-stopped m f files mid e h = rw h refl

pub lift-ok :
    {A : Type 0} (r : Result A) (files left : Files) (a : A)
    → lift r files ≡ (ok a, left)
    → (r ≡ ok a) × (files ≡ left)
lift-ok r files left a h = (ap (λ t. t.0) h, ap (λ t. t.1) h)

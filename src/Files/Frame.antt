-- ===== src/Files/Frame.antt =====
-- Which files an action on the file system leaves alone.
use Prim.Native.String.{String}
use sovereign_ledger.Base.{
  ℕ, ◌≡◌, refl, ◌∙◌, ap, false, Bool-cases, inl, inr, Option, none, some, ◌∷◌, ◌++◌, arith, length,
  length-append, Option-cases, if-false, ◌≢◌,
}
use sovereign_ledger.Base.Bytes.{bytes_eq, bytes_eq_self, bytes_eq→eq}
use sovereign_ledger.Crypto.{Bytes}
use sovereign_ledger.Error.{Result, ok, err}
use sovereign_ledger.Files.{
  FilePath, path_eq, with_name, Files, put, Io, lift, and_then, ◌>>=◌, read, read_to_string, create,
  create_new, rename, checked_text,
}
use sovereign_ledger.Ledger.Write.{Disk, healthy, open_fails, write_fails, sync_fails}

-- The action leaves the file at `q` as it is.
unfoldable pub Leaves : FilePath → {A : Type 0} → Io A → Type 0
Leaves q m = (files : Files) → (m files).1 q ≡ files q

pub put_elsewhere :
    (q p : FilePath) (content : Option Bytes) (files : Files)
    → path_eq q p ≡ false
    → put p content files q ≡ files q
unfolding put
put_elsewhere q p content files h = if-false _ _ _ h

pub put_here :
    (p : FilePath) (content : Option Bytes) (files : Files) → put p content files p ≡ content
unfolding put
put_here p content files = rw (bytes_eq_self p.dir, bytes_eq_self p.name) refl

-- A path and one whose name is longer.
pub longer_name :
    (p : FilePath) (b : ℕ) (bs : Bytes) → path_eq p (with_name (p.name ++ b ∷ bs) p) ≡ false
longer_name p b bs = elim (Bool-cases (bytes_eq p.name (p.name ++ b ∷ bs))) [
  | inl e ↦ absurd (longer (bytes_eq→eq _ _ e))
  | inr e ↦ rw (bytes_eq_self p.dir, e) refl
]
  where
    longer : p.name ≢ p.name ++ b ∷ bs
    longer e = omega (arith, ap length e, length-append p.name (b ∷ bs))

pub shorter_name :
    (p : FilePath) (b : ℕ) (bs : Bytes) → path_eq (with_name (p.name ++ b ∷ bs) p) p ≡ false
shorter_name p b bs = elim (Bool-cases (bytes_eq (p.name ++ b ∷ bs) p.name)) [
  | inl e ↦ absurd (longer (bytes_eq→eq _ _ e))
  | inr e ↦ rw (bytes_eq_self p.dir, e) refl
]
  where
    longer : p.name ++ b ∷ bs ≢ p.name
    longer e = omega (arith, ap length e, length-append p.name (b ∷ bs))

module _ (q : FilePath) where
  pub left_by : {A : Type 0} (m : Io A) → Leaves q m → (files : Files) → (m files).1 q ≡ files q
  unfolding Leaves
  left_by m h = h

  pub Leaves-by : {A : Type 0} (m : Io A) → ((files : Files) → (m files).1 q ≡ files q) → Leaves q m
  unfolding Leaves
  Leaves-by m h = h

  module _ {A B : Type 0} where
    pub Leaves-bind :
        (m : Io A) (f : A → Io B) → Leaves q m → ((a : A) → Leaves q (f a)) → Leaves q (m >>= f)
    unfolding Leaves ◌>>=◌
    Leaves-bind m f h k files = by_result (m files) (h files)
      where
        by_result : (r : Result A × Files) → r.1 q ≡ files q → (and_then r f).1 q ≡ files q
        by_result (err e, left) same = same
        by_result (ok a, left) same = k a left ∙ same

  pub Leaves-lift : {A : Type 0} (r : Result A) → Leaves q (lift r)
  unfolding Leaves
  Leaves-lift r files = refl

  pub read-Leaves : (p : FilePath) → Leaves q (read p)
  unfolding read Leaves
  read-Leaves p files = elim (Option-cases (files p)) [ inl e ↦ rw e refl | inr e ↦ rw e.1 refl ]

  pub read_to_string-Leaves : (p : FilePath) → Leaves q (read_to_string p)
  unfolding read_to_string
  read_to_string-Leaves p =
      Leaves-bind (read p) (λ bytes. lift (checked_text bytes)) (read-Leaves p)
        λ bytes. Leaves-lift (checked_text bytes)

  module _ (p : FilePath) (apart : path_eq q p ≡ false) where
    pub put-Leaves : (content : Option Bytes) (files : Files) → put p content files q ≡ files q
    put-Leaves content files = put_elsewhere q p content files apart

    pub create-Leaves : (disk : Disk) (bytes : Bytes) → Leaves q (create disk p bytes)
    unfolding create Leaves
    create-Leaves healthy bytes files = put-Leaves _ files
    create-Leaves (open_fails e) bytes files = refl
    create-Leaves (write_fails n e) bytes files = put-Leaves _ files
    create-Leaves (sync_fails e) bytes files = put-Leaves _ files

    pub create_new-Leaves : (disk : Disk) (bytes : Bytes) → Leaves q (create_new disk p bytes)
    unfolding create_new Leaves
    create_new-Leaves disk bytes files = elim (Option-cases (files p)) [
      | inl e ↦ rw e (left_by (create disk p bytes) (create-Leaves disk bytes) files)
      | inr e ↦ rw e.1 refl
    ]

  pub rename-Leaves :
      (fault : Option String) (from to : FilePath)
      → path_eq q from ≡ false
      → path_eq q to ≡ false
      → Leaves q (rename fault from to)
  unfolding rename Leaves
  rename-Leaves (some e) from to h k files = refl
  rename-Leaves none from to h k files = elim (Option-cases (files from)) [
    | inl e ↦ rw e refl
    | inr (bytes, e) ↦ rw e (put_elsewhere q to _ _ k ∙ put_elsewhere q from _ files h)
  ]

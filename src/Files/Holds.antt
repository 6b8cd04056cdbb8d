-- ===== src/Files/Holds.antt =====
-- What a file holds behind an action that returned.
use Prim.Native.String.{String}
use sovereign_ledger.Base.{
  ◌≡◌, refl, sym, ◌∙◌, ap, arith, true, Option, Option-cases, none, some, inl, inr,
}
use sovereign_ledger.Crypto.{Bytes}
use sovereign_ledger.Error.{Error, ok, err}
use sovereign_ledger.Files.{
  FilePath, Files, ◌>>=◌, read, read_to_string, create, create_new, rename,
}
use sovereign_ledger.Files.Frame.{put_here}
use sovereign_ledger.Ledger.Write.{Disk, healthy, open_fails, write_fails, sync_fails}
use sovereign_ledger.Text.{is_text}

pub not_ok : (x : Error) (u : Unit {0}) → err x ≡ ok u → ⊥
not_ok x u e = ground arith

pub create-holds :
    (disk : Disk) (p : FilePath) (bytes : Bytes) (files left : Files)
    → create disk p bytes files ≡ (ok tt, left)
    → left p ≡ some bytes
unfolding create
create-holds healthy p bytes files left h = sym (ap (λ t. t.1 p) h) ∙ put_here p (some bytes) files
create-holds (open_fails e) p bytes files left h = absurd (not_ok _ tt (ap (λ t. t.0) h))
create-holds (write_fails n e) p bytes files left h = absurd (not_ok _ tt (ap (λ t. t.0) h))
create-holds (sync_fails e) p bytes files left h = absurd (not_ok _ tt (ap (λ t. t.0) h))

pub rename-holds :
    (fault : Option String) (from to : FilePath) (bytes : Bytes) (files left : Files)
    → files from ≡ some bytes
    → rename fault from to files ≡ (ok tt, left)
    → left to ≡ some bytes
unfolding rename
rename-holds (some x) from to bytes files left e h = absurd (not_ok _ tt (ap (λ t. t.0) h))
rename-holds none from to bytes files left e h =
    sym (ap (λ t. t.1 to) (rw e at h)) ∙ put_here to (some bytes) _

pub create_new-holds :
    (disk : Disk) (p : FilePath) (bytes : Bytes) (files left : Files)
    → create_new disk p bytes files ≡ (ok tt, left)
    → left p ≡ some bytes
unfolding create_new
create_new-holds disk p bytes files left h = elim (Option-cases (files p)) [
  | inl e ↦ create-holds disk p bytes files left (rw e at h)
  | inr (old, e) ↦ absurd (not_ok _ tt (ap (λ t. t.0) (rw e at h)))
]

pub read-holds :
    (p : FilePath) (files left : Files) (bytes : Bytes)
    → read p files ≡ (ok bytes, left)
    → (files p ≡ some bytes) × (files ≡ left)
unfolding read
read-holds p files left bytes h = elim (Option-cases (files p)) [
  | inl e ↦ absurd (failed _ bytes (ap (λ t. t.0) (rw e at h)))
  | inr (found, e) ↦ (e ∙ ground arith, ap (λ t. t.1) (rw e at h))
]
  where
    failed : (x : Error) (bytes : Bytes) → err x ≡ ok bytes → ⊥
    failed x bytes e = ground arith

pub read_here :
    (p : FilePath) (files : Files) (bytes : Bytes)
    → files p ≡ some bytes
    → read p files ≡ (ok bytes, files)
unfolding read
read_here p files bytes h = rw h refl

pub read_text_here :
    (p : FilePath) (files : Files) (text : Bytes)
    → files p ≡ some text
    → is_text text ≡ true
    → read_to_string p files ≡ (ok text, files)
unfolding read_to_string read ◌>>=◌
read_text_here p files text h t = rw (h, t) refl

-- ===== src/Files.antt =====
-- What src/main.rs and src/anchor.rs use of std::fs: a path is a directory and a name, the file system
-- says what each path holds, and an operation gives its result and the files that it leaves. A fault
-- of a write is a `Disk`, as for an entry; another fault is its message.
pub mod Frame
pub mod Runs
pub mod Holds
use Prim.Native.String.{String}
use sovereign_ledger.Base.{
  Bool, true, false, ◌&&◌, not, Option, none, some, [], ◌∷◌, ◌++◌, if◌then◌else◌, take,
}
use sovereign_ledger.Base.Bytes.{bytes_eq}
use sovereign_ledger.Crypto.{Bytes}
use sovereign_ledger.Error.{Error, Result, ok, err}
use sovereign_ledger.Ledger.Write.{Disk, healthy, open_fails, write_fails, sync_fails, contents}
use sovereign_ledger.Text.{is_text}

pub record FilePath : Type 0 where
  pub dir : Bytes
  pub name : Bytes

abbrev pub path_eq : FilePath → FilePath → Bool
path_eq p q = bytes_eq p.dir q.dir && bytes_eq p.name q.name

-- `with_file_name`.
abbrev pub with_name : Bytes → FilePath → FilePath
with_name name p = record p { name = name }

abbrev pub Files : Type 0
Files = FilePath → Option Bytes

unfoldable pub put : FilePath → Option Bytes → Files → Files
put p content files q = if path_eq q p then content else files q

abbrev pub Io : Type 0 → Type 0
Io A = Files → Result A × Files

module _ {A : Type 0} where
  abbrev pub pure : A → Io A
  pure a files = (ok a, files)

  -- `?` on a value that no file depends on.
  abbrev pub lift : Result A → Io A
  lift r files = (r, files)

-- An error stops, with the files as they are.
abbrev pub and_then : {A B : Type 0} → Result A × Files → (A → Io B) → Result B × Files
and_then (err e, left) f = (err e, left)
and_then (ok a, left) f = f a left

infixl 4 ◌>>=◌ ◌>>◌
unfoldable pub ◌>>=◌ : {A B : Type 0} → Io A → (A → Io B) → Io B
◌>>=◌ m f files = and_then (m files) f

abbrev pub ◌>>◌ : {B : Type 0} → Io (Unit {0}) → Io B → Io B
m >> k = m >>= λ done. k

abbrev pub fails_with : Option String → Result (Unit {0})
fails_with none = ok tt
fails_with (some e) = err (Error.io e)

abbrev missing : Error
missing = Error.io "No such file or directory"

-- `fs::read`, or `File::open` and all that is read from it.
unfoldable pub read : FilePath → Io Bytes
read p files = found (files p)
  where
    found : Option Bytes → Result Bytes × Files
    found none = (err missing, files)
    found (some bytes) = (ok bytes, files)

abbrev checked_text : Bytes → Result Bytes
checked_text bytes =
    if is_text bytes then ok bytes else err (Error.io "stream did not contain valid UTF-8")

-- `fs::read_to_string`.
unfoldable pub read_to_string : FilePath → Io Bytes
read_to_string p = do bytes ← read p; lift (checked_text bytes)

-- A file that is created, written and synced.
unfoldable pub create : Disk → FilePath → Bytes → Io (Unit {0})
create healthy p bytes files = (ok tt, put p (some bytes) files)
create (open_fails e) p bytes files = (err (Error.io e), files)
create (write_fails n e) p bytes files = (err (Error.io e), put p (some (take n bytes)) files)
create (sync_fails e) p bytes files = (err (Error.io e), put p (some bytes) files)

-- The same with `create_new(true)`.
unfoldable pub create_new : Disk → FilePath → Bytes → Io (Unit {0})
create_new disk p bytes files = absent (files p)
  where
    absent : Option Bytes → Result (Unit {0}) × Files
    absent none = create disk p bytes files
    absent (some old) = (err (Error.io "File exists"), files)

-- A file that is there and is appended to: `append(true)`, `writeln!` and `sync_all`.
unfoldable pub append_line : Disk → FilePath → Bytes → Io (Unit {0})
append_line disk p line files = present (files p)
  where
    present : Option Bytes → Result (Unit {0}) × Files
    present none = (err missing, files)
    present (some old) = by_disk disk old
      where
        by_disk : Disk → Bytes → Result (Unit {0}) × Files
        by_disk healthy old = (ok tt, put p (some (old ++ (line ++ 10 ∷ []))) files)
        by_disk (open_fails e) old = (err (Error.io e), files)
        by_disk (write_fails n e) old = (err (Error.io e), put p (some (old ++ take n line)) files)
        by_disk (sync_fails e) old =
            (err (Error.io e), put p (some (old ++ (line ++ 10 ∷ []))) files)

-- `create(true)` without `truncate`.
abbrev pub touch : FilePath → Io (Unit {0})
touch p files = (ok tt, put p (some (contents (files p))) files)

-- `fs::remove_file`, which may fail, and its result ignored.
abbrev pub removed : Bool → FilePath → Files → Files
removed true p files = files
removed false p files = put p none files

abbrev pub remove : Bool → FilePath → Io (Unit {0})
remove fault p files = (ok tt, removed fault p files)

unfoldable pub rename : Option String → FilePath → FilePath → Io (Unit {0})
rename (some e) from to files = (err (Error.io e), files)
rename none from to files = moved (files from)
  where
    moved : Option Bytes → Result (Unit {0}) × Files
    moved none = (err missing, files)
    moved (some bytes) = (ok tt, put to (some bytes) (put from none files))

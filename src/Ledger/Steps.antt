-- ===== src/Ledger/Steps.antt =====
-- Runs of a ledger of src/lib.rs: any sequence of the operations that change it, with whatever the
-- clock, the disk and the signer do.
use sovereign_ledger.Base.{ℕ, refl, Bool, arith}
use sovereign_ledger.Crypto.{Bytes}
use sovereign_ledger.Crates.{Crates}
use sovereign_ledger.Ledger.{File, Ledger}
use sovereign_ledger.Ledger.Write.{
  Disk, append, rotate_key, set_durable, mark_readonly, mark_compromised,
}
use sovereign_ledger.Ledger.Close.{seal}
use sovereign_ledger.Seal.{SealSigner}
use sovereign_ledger.Ledger.After.{
  same_file, IsAfter, IsAfter-trans, IsAfter-same, append-IsAfter, rotate_key-IsAfter, seal-IsAfter,
}

module _ (w : Crates) where
  -- One call of an operation: the handle and the file before it, and after.
  pub data Step : Ledger → File → Ledger → File → Type 0 where
    appends :
        (now : ℕ) (disk : Disk) (event_type body : Bytes) (l : Ledger) (file : File)
        → Step l file
            (append w now disk event_type body l file).1
            (append w now disk event_type body l file).2
    rotates :
        (now : ℕ) (disk : Disk) (seed : Bytes) (l : Ledger) (file : File)
        → Step l file (rotate_key w now disk seed l file).1 (rotate_key w now disk seed l file).2
    seals :
        (now : ℕ) (disk : Disk) (signer : SealSigner) (l : Ledger) (file : File)
        → Step l file (seal w now disk signer l file).1 (seal w now disk signer l file).2
    sets_durable :
        (durable : Bool) (l : Ledger) (file : File) → Step l file (set_durable durable l) file
    marks_readonly : (l : Ledger) (file : File) → Step l file (mark_readonly l) file
    marks_compromised : (l : Ledger) (file : File) → Step l file (mark_compromised l) file

  pub data Steps : Ledger → File → Ledger → File → Type 0 where
    done : (l : Ledger) (file : File) → Steps l file l file
    then_step :
        {l l1 l2 : Ledger} {file file1 file2 : File}
        → Steps l file l1 file1
        → Step l1 file1 l2 file2
        → Steps l file l2 file2

  Step-IsAfter :
      {l : Ledger} {file : File} {l' : Ledger} {file' : File}
      → Step l file l' file'
      → IsAfter w l file l' file'
  unfolding set_durable mark_readonly mark_compromised
  Step-IsAfter (appends now disk event_type body l file) =
      append-IsAfter w now disk event_type body l file
  Step-IsAfter (rotates now disk seed l file) = rotate_key-IsAfter w now disk seed l file
  Step-IsAfter (seals now disk signer l file) = seal-IsAfter w now disk signer l file
  Step-IsAfter (sets_durable durable l file) = record {
    grows = same_file file;
    seq = omega arith;
    compromised = λ h. (h, refl);
    read_only = λ h. (h, refl);
  }
  Step-IsAfter (marks_readonly l file) = record {
    grows = same_file file;
    seq = omega arith;
    compromised = λ h. (h, refl);
    read_only = λ h. (refl, refl);
  }
  Step-IsAfter (marks_compromised l file) = record {
    grows = same_file file;
    seq = omega arith;
    compromised = λ h. (refl, refl);
    read_only = λ h. (h, refl);
  }

  -- Through any run of operations, failing ones and torn writes included: the file only ever has bytes
  -- added behind, the sequence number never falls, and a handle that is compromised or read-only stays
  -- so and leaves the file as it is.
  pub Steps-IsAfter :
      {l : Ledger} {file : File} {l' : Ledger} {file' : File}
      → Steps l file l' file'
      → IsAfter w l file l' file'
  Steps-IsAfter (done l file) = IsAfter-same w l file
  Steps-IsAfter (then_step h k) = IsAfter-trans w _ _ _ _ _ _ (Steps-IsAfter h) (Step-IsAfter k)

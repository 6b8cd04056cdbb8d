-- ===== src/Ledger/Append.antt =====
-- What `append` of src/lib.rs leaves behind: a handle and a file that agree.
use Prim.Native.String.{String}
use sovereign_ledger.Base.{
  ℕ, ◌+◌, ◌^◌, ◌<◌, ◌≡◌, refl, sym, ◌∙◌, ap, true, false, inl, inr, some, List, [], ◌∷◌, ◌++◌,
  arith, subst,
}
use sovereign_ledger.Base.Bytes.{bytes_eq}
use sovereign_ledger.Crypto.{Bytes}
use sovereign_ledger.Crates.{Crates, Event, IsEvent}
use sovereign_ledger.Error.{Error, Result, ok, err, Result-cases}
use sovereign_ledger.Event.{seal_event}
use sovereign_ledger.Ledger.{File, Ledger, seed_keys, open_with_seeds}
use sovereign_ledger.Ledger.Write.{
  Disk, healthy, open_fails, contents, write_line, next_entry, append,
}
use sovereign_ledger.Ledger.Coherent.{IsCoherent}
use sovereign_ledger.Ledger.Entry.{next_entry-IsNext}
use sovereign_ledger.Text.{is_text}
use sovereign_ledger.Ledger.Extend.{moved, cleared, entry-IsEvent, entry_written, IsCoherent-handle}

-- A disk that takes the line, or does not take any of it.
pub data IsWhole : Disk → Type 0 where
  takes : IsWhole healthy
  refuses : (e : String) → IsWhole (open_fails e)

module _ (w : Crates) where
  module _ (now : ℕ) (event_type body : Bytes) (l : Ledger) (file : File) where
    pub append_refused :
        (disk : Disk) (x : Error)
        → next_entry w now event_type body l ≡ err x
        → append w now disk event_type body l file ≡ (err x, l, file)
    unfolding append
    append_refused disk x h = rw h refl

    pub append_open_fails :
        (x : String) (e : Event) (hash : Bytes)
        → next_entry w now event_type body l ≡ ok (e, hash)
        → append w now (open_fails x) event_type body l file ≡ (err (Error.io x), l, file)
    unfolding append write_line
    append_open_fails x e hash h = rw h refl

    pub append_written :
        (e : Event) (hash : Bytes)
        → next_entry w now event_type body l ≡ ok (e, hash)
        → append w now healthy event_type body l file ≡ (
          ok (l.seq + 1),
          moved l hash,
          some (contents file ++ (w.serde.print_event e ++ 10 ∷ [])),
        )
    unfolding append write_line
    append_written e hash h =
        let n = next_entry-IsNext w now event_type body l e hash h in
        let q : e.seq ≡ l.seq + 1 = ap (λ t. t.seq) (sym n.entered) in rw (h, q) refl

    module _ (hn : now < 2 ^ 64) (ht : is_text event_type ≡ true) (hb : is_text body ≡ true)
        (he : l.epoch < 2 ^ 32) (plain : bytes_eq event_type seal_event ≡ false)
        (c : IsCoherent w l file) where
      written :
          (e : Event) (hash : Bytes)
          → next_entry w now event_type body l ≡ ok (e, hash)
          → (c' : IsCoherent w
              (moved l hash)
              (some (contents file ++ (w.serde.print_event e ++ 10 ∷ []))))
            × (c'.scan.max_epoch ≡ l.epoch)
      written e hash h =
          let n = next_entry-IsNext w now event_type body l e hash h in
          entry_written w now event_type body l file e hash c
            (subst IsEvent n.entered
              (entry-IsEvent w now event_type body l hash hn ht hb he n.fits))
            plain n

      -- Whether `append` writes its entry, refuses it, or cannot open the file: the handle and the file
      -- that it leaves agree, when they did. The entry is not a seal, its texts are UTF-8, and the time
      -- and the epoch fit their words.
      pub append-IsCoherent :
          (disk : Disk)
          → IsWhole disk
          → IsCoherent w
              (append w now disk event_type body l file).1
              (append w now disk event_type body l file).2
      append-IsCoherent disk whole = elim (Result-cases (next_entry w now event_type body l)) [
        | inl r ↦ by_disk disk whole r.0.0 r.0.1 r.1
        | inr r ↦ rw (append_refused disk r.0 r.1) c
      ]
        where
          by_disk :
              (disk : Disk)
              → IsWhole disk
              → (e : Event) (hash : Bytes) → next_entry w now event_type body l ≡ ok (e, hash)
              → IsCoherent w
                  (append w now disk event_type body l file).1
                  (append w now disk event_type body l file).2
          by_disk disk takes e hash h = rw (append_written e hash h) (written e hash h).0
          by_disk disk (refuses x) e hash h = rw (append_open_fails x e hash h) c

      -- After an `append` that returned, on a disk that takes the line, opening the file anew with the
      -- seeds of the handle's keys, of which there is one at least, gives the handle back, its flags
      -- cleared, whatever is drawn. Handle and file agreed before, the entry is not a seal, its texts are
      -- UTF-8, and the time and the epoch fit.
      pub open_with_seeds-append :
          (drawn seed : Bytes) (seeds : List Bytes) (seq : ℕ) (l' : Ledger) (file' : File)
          → seed_keys w drawn (seed ∷ seeds) ≡ l.keys
          → append w now healthy event_type body l file ≡ (ok seq, l', file')
          → open_with_seeds w drawn (seed ∷ seeds) file' ≡ ok (cleared l')
      unfolding open_with_seeds
      open_with_seeds-append drawn seed seeds seq l' file' k h =
          elim (Result-cases (next_entry w now event_type body l)) [
            | inl ((e, hash), r) ↦
                let (c', q) = written e hash r in
                let opened : open_with_seeds w drawn (seed ∷ seeds)
                      (some (contents file ++ (w.serde.print_event e ++ 10 ∷ [])))
                    ≡ ok (cleared (moved l hash)) =
                  rw (k, c'.reads) (ap ok (IsCoherent-handle w _ _ c' q)) in
                subst
                  (λ (t : Result ℕ × Ledger × File).
                    open_with_seeds w drawn (seed ∷ seeds) t.2 ≡ ok (cleared t.1))
                  (sym (append_written e hash r) ∙ h) opened
            | inr (x, r) ↦
                absurd (not_ok x seq (ap (λ t. t.0) (sym (append_refused healthy x r) ∙ h)))
          ]
        where
          not_ok : (x : Error) (n : ℕ) → err x ≡ ok n → ⊥
          not_ok x n e = ground arith

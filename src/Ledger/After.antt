-- ===== src/Ledger/After.antt =====
-- What one operation of src/lib.rs that changes the ledger keeps, whatever comes of it.
use sovereign_ledger.Base.{
  ℕ, ◌+◌, ◌^◌, ◌≡◌, ◌≤◌, refl, sym, ◌∙◌, ap, Bool, true, false, Bool-cases, arith, some, none, inl,
  inr, List, [], ◌∷◌, ◌++◌, append_assoc, append-nil, ltb, if◌then◌else◌,
}
use sovereign_ledger.Crypto.{Bytes}
use sovereign_ledger.Crates.{Crates, Event}
use sovereign_ledger.Error.{ok, Result-cases}
use sovereign_ledger.Base.Bytes.{codes}
use sovereign_ledger.Text.{decimal}
use sovereign_ledger.Event.{seal_event, key_rotation_event, key_new}
use sovereign_ledger.Ledger.{File, Ledger, next}
use sovereign_ledger.Ledger.Write.{
  Disk, healthy, open_fails, write_fails, sync_fails, contents, write_line, next_entry, append,
  rotate_key,
}
use sovereign_ledger.Ledger.Close.{seal, seal_segment}
use sovereign_ledger.Ledger.Entry.{next_entry-IsNext}
use sovereign_ledger.Seal.{SealSigner}

-- What an operation leaves of the file: all of it, and perhaps more behind.
pub record Grows (old new : File) : Type 0 where
  pub added : Bytes
  pub kept : contents new ≡ contents old ++ added

pub same_file : (file : File) → Grows file file
same_file file = record { added = []; kept = sym (append-nil (contents file)) }

grows : (file : File) (bytes : Bytes) → Grows file (some (contents file ++ bytes))
grows file bytes = record { added = bytes; kept = refl }

write_line-Grows :
    (disk : Disk) (durable : Bool) (line : Bytes) (file : File)
    → Grows file (write_line disk durable line file).1
unfolding write_line
write_line-Grows healthy durable line file = grows file _
write_line-Grows (open_fails e) durable line file = same_file file
write_line-Grows (write_fails n e) durable line file = grows file _
write_line-Grows (sync_fails e) durable line file = grows file _

apart : {b : Bool} → b ≡ true → b ≡ false → ⊥
apart h k = ground arith

module _ (w : Crates) where
  -- What any run of operations keeps.
  pub record IsAfter (l : Ledger) (file : File) (l' : Ledger) (file' : File) : Type 0 where
    pub grows : Grows file file'
    pub seq : l.seq ≤ l'.seq
    pub compromised : l.compromised ≡ true → (l'.compromised ≡ true) × (file' ≡ file)
    pub read_only : l.read_only ≡ true → (l'.read_only ≡ true) × (file' ≡ file)

  pub IsAfter-trans :
      (l l1 l2 : Ledger) (file file1 file2 : File)
      → IsAfter l file l1 file1
      → IsAfter l1 file1 l2 file2
      → IsAfter l file l2 file2
  IsAfter-trans l l1 l2 file file1 file2 a b = record {
    grows = record {
      added = a.grows.added ++ b.grows.added;
      kept =
          b.grows.kept
          ∙ ap (λ t. t ++ b.grows.added) a.grows.kept
          ∙ append_assoc (contents file) _ _;
    };
    seq = omega (arith, a.seq, b.seq);
    compromised =
        λ h. (let (h1, e1) = a.compromised h in let (h2, e2) = b.compromised h1 in (h2, e2 ∙ e1));
    read_only =
        λ h. (let (h1, e1) = a.read_only h in let (h2, e2) = b.read_only h1 in (h2, e2 ∙ e1));
  }

  pub IsAfter-same : (l : Ledger) (file : File) → IsAfter l file l file
  IsAfter-same l file = record {
    grows = same_file file;
    seq = omega arith;
    compromised = λ h. (h, refl);
    read_only = λ h. (h, refl);
  }

  -- The handle alone has changed, and not in what `IsAfter` reads.
  IsAfter-still :
      (l l' : Ledger) (file : File)
      → l.seq ≡ l'.seq
      → l.compromised ≡ l'.compromised
      → l.read_only ≡ l'.read_only
      → IsAfter l file l' file
  IsAfter-still l l' file s c r = record {
    grows = same_file file;
    seq = omega (arith, s);
    compromised = λ h. (sym c ∙ h, refl);
    read_only = λ h. (sym r ∙ h, refl);
  }

  IsAfter-revealed :
      (b : Bool) (es : List ℕ) (l l' : Ledger) (file file' : File)
      → IsAfter l file l' file'
      → IsAfter l file (if b then record l' { revealed_epochs = es } else l') file'
  IsAfter-revealed true es l l' file file' a = record {
    grows = a.grows;
    seq = a.seq;
    compromised = a.compromised;
    read_only = a.read_only;
  }
  IsAfter-revealed false es l l' file file' a = a

  pub append-IsAfter :
      (now : ℕ) (disk : Disk) (event_type body : Bytes) (l : Ledger) (file : File)
      → IsAfter l file
          (append w now disk event_type body l file).1
          (append w now disk event_type body l file).2
  unfolding append
  append-IsAfter now disk event_type body l file =
      elim (Result-cases (next_entry w now event_type body l)) [
        | inl r ↦ wrote r.0.0 r.0.1 r.1
        | inr r ↦ rw r.1 (IsAfter-same l file)
      ]
    where
      wrote :
          (e : Event) (hash : Bytes)
          → next_entry w now event_type body l ≡ ok (e, hash)
          → IsAfter l file
              (append w now disk event_type body l file).1
              (append w now disk event_type body l file).2
      wrote e hash r =
          let n = next_entry-IsNext w now event_type body l e hash r in
          let line = w.serde.print_event e in
          let g = write_line-Grows disk l.durable line file in
          let q : e.seq ≡ l.seq + 1 = ap (λ t. t.seq) (sym n.entered) in
          elim (Result-cases (write_line disk l.durable line file).0) [
            | inl t ↦
                rw (r, t.1)
                  (record {
                    grows = g;
                    seq = omega (arith, q);
                    compromised = λ h. absurd (apart h n.live);
                    read_only = λ h. absurd (apart h n.writable);
                  })
            | inr t ↦
                rw (r, t.1)
                  (record {
                    grows = g;
                    seq = omega arith;
                    compromised = λ h. absurd (apart h n.live);
                    read_only = λ h. absurd (apart h n.writable);
                  })
          ]

  pub rotate_key-IsAfter :
      (now : ℕ) (disk : Disk) (seed : Bytes) (l : Ledger) (file : File)
      → IsAfter l file (rotate_key w now disk seed l file).1 (rotate_key w now disk seed l file).2
  unfolding rotate_key
  rotate_key-IsAfter now disk seed l file =
      let keys = l.keys ++ key_new w [] (some seed) ∷ [] in
      let l1 : Ledger = record l { keys = keys; epoch = l.epoch + 1 } in
      let body = codes "{\"epoch\":" ++ (decimal (l.epoch + 1) ++ codes "}") in
      let after =
        IsAfter-trans l l1 _ file file _ (IsAfter-still l l1 file refl refl refl)
          (append-IsAfter now disk key_rotation_event body l1 file) in
      elim (Bool-cases (ltb (l.epoch + 1) (2 ^ 32))) [
        | inl e ↦ elim (Result-cases (append w now disk key_rotation_event body l1 file).0) [
          | inl t ↦ rw (e, t.1) after
          | inr t ↦ rw (e, t.1) after
        ]
        | inr e ↦ rw e (IsAfter-still l (record l { keys = keys }) file refl refl refl)
      ]

  pub seal-IsAfter :
      (now : ℕ) (disk : Disk) (signer : SealSigner) (l : Ledger) (file : File)
      → IsAfter l file (seal w now disk signer l file).1 (seal w now disk signer l file).2
  unfolding seal
  seal-IsAfter now disk signer l file = elim (Result-cases (seal_segment w signer l file)) [
    | inl (none, r) ↦ rw r (IsAfter-same l file)
    | inl (some closing, r) ↦
        let l1 : Ledger = record l { seals_seen = next l.seals_seen; sealed_through = l.seq } in
        let body = w.serde.print_seal closing in
        let after =
          IsAfter-trans l l1 _ file file _ (IsAfter-still l l1 file refl refl refl)
            (append-IsAfter now disk seal_event body l1 file) in
        elim (Result-cases (append w now disk seal_event body l1 file).0) [
          | inl t ↦ rw (r, t.1) (IsAfter-revealed _ _ l _ file _ after)
          | inr t ↦ rw (r, t.1) after
        ]
    | inr (x, r) ↦ rw r (IsAfter-same l file)
  ]

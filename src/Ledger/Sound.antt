-- ===== src/Ledger/Sound.antt =====
-- A ledger of src/lib.rs that `verify` passes is passed again behind one more entry.
use sovereign_ledger.Base.{
  ℕ, suc, ◌+◌, ◌^◌, ◌≡◌, ◌<◌, refl, sym, ◌∙◌, ap, true, false, Bool-cases, inl, inr, some, none,
  List, [], ◌∷◌, ◌++◌, arith, length, length-append, subst, if-false, ◌==◌,
}
use sovereign_ledger.Base.Bytes.{bytes_eq, bytes_eq_self}
use sovereign_ledger.Crypto.{Bytes, IsDigest}
use sovereign_ledger.Crates.{Crates, Event, IsEvent}
use sovereign_ledger.Error.{Result, ok, returned, Result-cases, ok-injective}
use sovereign_ledger.Event.{seal_event, event_hash_v2}
use sovereign_ledger.Ledger.{File, Ledger, next, items, iter}
use sovereign_ledger.Ledger.Entry.{
  IsNext, next_entry-IsNext, decode_hash-encode, event_hash-current,
}
use sovereign_ledger.Ledger.Read.{
  Chain, chain_start, note_event, check_link, check_seal, verify_event, verify_items, verify,
}
use sovereign_ledger.Ledger.Written.{line_of, items-entry}
use sovereign_ledger.Ledger.Extend.{moved, entry-IsEvent}
use sovereign_ledger.Text.{is_text, is_blank, read_lines}
use sovereign_ledger.Text.Lines.{IsEnded, IsEnded-line, read_lines-append, read_lines-line}
use sovereign_ledger.Ledger.Append.{
  IsWhole, takes, refuses, append_refused, append_open_fails, append_written,
}
use sovereign_ledger.Ledger.Write.{Disk, contents, next_entry, append}

module _ (w : Crates) where
  -- Items that are read one after the other are verified one after the other.
  verify_items-append :
      (keys : List Bytes) (idx : ℕ) (xs ys : List (Result Event)) (c d : Chain)
      → verify_items w keys idx xs c ≡ ok d
      → verify_items w keys idx (xs ++ ys) c ≡ verify_items w keys (idx + length xs) ys d
  unfolding verify_items
  verify_items-append keys idx [] ys c d h =
      let q : idx ≡ idx + 0 = omega arith in
      rw (ok-injective c d h) (ap (λ n. verify_items w keys n ys d) q)
  verify_items-append keys idx (x ∷ xs) ys c d h =
      let (e, p, h) = returned x _ d h in
      let (c1, q, h) = returned (verify_event w keys idx e c) _ d h in
      let n : idx + 1 + length xs ≡ idx + suc (length xs) = omega arith in
      rw (p, q)
        (verify_items-append keys (idx + 1) xs ys c1 d h ∙ ap (λ n. verify_items w keys n ys d) n)

  -- The chain has come to where the handle is.
  pub record IsTip (c : Chain) (l : Ledger) : Type 0 where
    pub last_hash : c.last_hash ≡ l.last_hash
    pub seals_seen : c.seals_seen ≡ l.seals_seen
    pub digest : IsDigest l.last_hash

  -- The entry that `append` writes passes `verify`.
  verify_event-next :
      (idx now : ℕ) (event_type body : Bytes) (l : Ledger) (e : Event) (hash : Bytes) (c : Chain)
      → IsNext w now event_type body l e hash
      → bytes_eq event_type seal_event ≡ false
      → IsTip c l
      → idx ≡ l.seq
      → verify_event w l.keys idx e c ≡ ok (record (note_event e c) { last_hash = hash })
  unfolding verify_event check_link check_seal note_event
  verify_event-next idx now event_type body l e hash c n plain a i =
      rw
        (
          sym n.entered,
          plain,
          a.seals_seen,
          n.has_key,
          decode_hash-encode w l.last_hash a.digest,
          a.last_hash,
          bytes_eq_self l.last_hash,
          i,
          next_seq l.seq n.fits,
          event_hash-current w l l.last_hash (l.seq + 1) now event_type body n.key,
          n.hashed,
          bytes_eq_self (w.hex.encode hash),
        )
        refl
    where
      next_seq : (k : ℕ) → k + 1 < 2 ^ 64 → (k + 1 == next k) ≡ true
      next_seq k h = ground arith

  items-append :
      (i : ℕ) (xs ys : List Bytes)
      → items w i (xs ++ ys) ≡ items w i xs ++ items w (i + length xs) ys
  unfolding items
  items-append i [] ys = let q : i ≡ i + 0 = omega arith in ap (λ n. items w n ys) q
  items-append i (x ∷ xs) ys =
      let n : i + 1 + length xs ≡ i + suc (length xs) = omega arith in
      let rest = items-append (i + 1) xs ys ∙ ap (λ m. items w (i + 1) xs ++ items w m ys) n in
      elim (Bool-cases (is_text x)) [
        | inl t ↦ elim (Bool-cases (is_blank x)) [
          | inl b ↦ rw (t, b) rest
          | inr b ↦ rw (t, b) (cc rest)
        ]
        | inr t ↦ rw t (cc rest)
      ]

  -- Every entry of the file passes `verify` under the handle's keys, and the chain ends at the handle.
  pub record IsVerified (l : Ledger) (file : File) : Type 0 where
    pub chain : Chain
    pub passes :
        verify_items w l.keys 0 (items w 0 (read_lines (contents file))) chain_start ≡ ok chain
    pub tip : IsTip chain l
    pub count : length (items w 0 (read_lines (contents file))) ≡ l.seq
    pub ended : IsEnded (contents file)

  pub IsVerified-verify : (l : Ledger) (file : File) → IsVerified l file → verify w l file ≡ ok tt
  unfolding verify iter
  IsVerified-verify l none v = refl
  IsVerified-verify l (some bytes) v = rw v.passes refl

  entry_passes :
      (now : ℕ) (event_type body : Bytes) (l : Ledger) (file : File) (e : Event) (hash : Bytes)
      → IsVerified l file
      → IsEvent e
      → bytes_eq event_type seal_event ≡ false
      → IsNext w now event_type body l e hash
      → IsVerified (moved l hash) (some (contents file ++ (w.serde.print_event e ++ 10 ∷ [])))
  unfolding note_event verify_items event_hash_v2 items
  entry_passes now event_type body l file e hash v g plain n =
      let lines = read_lines (contents file) in
      let line = w.serde.print_event-IsLine e g in
      let split : read_lines (contents file ++ line_of w e) ≡ lines ++ line_of w e ∷ [] =
        read_lines-append (contents file) (line_of w e) v.ended
        ∙ ap (λ t. lines ++ t) (read_lines-line _ line) in
      let all : items w 0 (read_lines (contents file ++ line_of w e))
          ≡ items w 0 lines ++ ok e ∷ [] =
        ap (items w 0) split
        ∙ items-append 0 lines (line_of w e ∷ [])
        ∙ ap (λ t. items w 0 lines ++ t) (items-entry w (0 + length lines) e [] g) in
      let step =
        verify_event-next (0 + length (items w 0 lines)) now event_type body l e hash v.chain n
          plain v.tip (omega (arith, v.count)) in
      record {
        chain = record (note_event e v.chain) { last_hash = hash };
        passes =
            ap (λ t. verify_items w l.keys 0 t chain_start) all
            ∙ verify_items-append l.keys 0 (items w 0 lines) (ok e ∷ []) chain_start v.chain
                v.passes
            ∙ rw step refl;
        tip = record {
          last_hash = refl;
          seals_seen =
              if-false (bytes_eq e.event_type seal_event) _ _
                (ap (λ t. bytes_eq t.event_type seal_event) (sym n.entered) ∙ plain)
              ∙ v.tip.seals_seen;
          digest = subst IsDigest n.hashed (w.hmac.mac-IsDigest n.key _);
        };
        count = ap length all ∙ omega (arith, v.count, length-append (items w 0 lines) (ok e ∷ []));
        ended = IsEnded-line (contents file) (w.serde.print_event e);
      }

  module _ (now : ℕ) (event_type body : Bytes) (l : Ledger) (file : File) (hn : now < 2 ^ 64)
      (ht : is_text event_type ≡ true) (hb : is_text body ≡ true) (he : l.epoch < 2 ^ 32)
      (plain : bytes_eq event_type seal_event ≡ false) (v : IsVerified l file) where
    written_passes :
        (e : Event) (hash : Bytes)
        → next_entry w now event_type body l ≡ ok (e, hash)
        → IsVerified (moved l hash) (some (contents file ++ (w.serde.print_event e ++ 10 ∷ [])))
    written_passes e hash h =
        let n = next_entry-IsNext w now event_type body l e hash h in
        entry_passes now event_type body l file e hash v
          (subst IsEvent n.entered (entry-IsEvent w now event_type body l hash hn ht hb he n.fits))
          plain n

    -- After `append` of an entry that is not a seal, whether it wrote it, refused it, or could not open
    -- the file, `verify` passes the file, when every entry of it passed before and the chain ended at
    -- the handle; and the same holds of it again. The texts are UTF-8, the time and the epoch fit.
    pub append-verify :
        (disk : Disk)
        → IsWhole disk
        → IsVerified
            (append w now disk event_type body l file).1
            (append w now disk event_type body l file).2
          × (verify w
                (append w now disk event_type body l file).1
                (append w now disk event_type body l file).2
              ≡ ok tt)
    append-verify disk whole = let v' = kept disk whole in (v', IsVerified-verify _ _ v')
      where
        by_disk :
            (disk : Disk)
            → IsWhole disk
            → (e : Event) (hash : Bytes) → next_entry w now event_type body l ≡ ok (e, hash)
            → IsVerified
                (append w now disk event_type body l file).1
                (append w now disk event_type body l file).2
        by_disk disk takes e hash h =
            rw (append_written w now event_type body l file e hash h) (written_passes e hash h)
        by_disk disk (refuses x) e hash h =
            rw (append_open_fails w now event_type body l file x e hash h) v

        kept :
            (disk : Disk)
            → IsWhole disk
            → IsVerified
                (append w now disk event_type body l file).1
                (append w now disk event_type body l file).2
        kept disk whole = elim (Result-cases (next_entry w now event_type body l)) [
          | inl r ↦ by_disk disk whole r.0.0 r.0.1 r.1
          | inr r ↦ rw (append_refused w now event_type body l file disk r.0 r.1) v
        ]

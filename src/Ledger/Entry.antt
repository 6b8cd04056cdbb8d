-- ===== src/Ledger/Entry.antt =====
-- The entry that `append` of src/lib.rs writes, and what `open_with_seeds` makes of it.
use sovereign_ledger.Base.{
  ℕ, ◌+◌, ◌^◌, ◌<◌, ◌≡◌, refl, sym, ap, subst, ltb→lt, max, true, false, Bool-cases, ◌&&◌, inl, inr,
  some, List, arith, ltb, ◌==◌,
}
use sovereign_ledger.Base.Bytes.{bytes_eq_self}
use sovereign_ledger.Crypto.{Bytes, IsDigest}
use sovereign_ledger.Crates.{Crates, Event}
use sovereign_ledger.Error.{Error, ok, err, fail_if-then, returned, ok-injective}
use sovereign_ledger.Event.{entry_key, event_hash, event_hash_v2, decode_hash}
use sovereign_ledger.Ledger.{Ledger, Scan, next, contains, note_segment0, check_entry}
use sovereign_ledger.Ledger.Write.{entry_version, next_entry}

module _ (w : Crates) where
  abbrev pub entry : ℕ → Bytes → Bytes → Ledger → Bytes → Event
  entry now event_type body l hash = record {
    v = entry_version l;
    seq = l.seq + 1;
    ts = now;
    event_type = event_type;
    body = body;
    epoch = l.epoch;
    prev_hash = w.hex.encode l.last_hash;
    hash = w.hex.encode hash;
  }

  -- What `append` has tested when it writes.
  pub record IsNext (now : ℕ) (event_type body : Bytes) (l : Ledger) (e : Event) (hash : Bytes)
      : Type 0 where
    pub live : l.compromised ≡ false
    pub writable : l.read_only ≡ false
    pub secret : contains l.revealed_epochs l.epoch ≡ false
    pub key : Bytes
    pub has_key : entry_key w l.keys l.epoch l.seals_seen (entry_version l) ≡ ok key
    pub fits : l.seq + 1 < 2 ^ 64
    pub hashed : event_hash_v2 w l.last_hash (l.seq + 1) now event_type body key ≡ hash
    pub entered : entry now event_type body l hash ≡ e

  pub next_entry-IsNext :
      (now : ℕ) (event_type body : Bytes) (l : Ledger) (e : Event) (hash : Bytes)
      → next_entry w now event_type body l ≡ ok (e, hash)
      → IsNext now event_type body l e hash
  unfolding next_entry
  next_entry-IsNext now event_type body l e hash h =
      let (live, h) = fail_if-then l.compromised _ _ h in
      let (writable, h) = fail_if-then l.read_only _ _ h in
      let (secret, h) = fail_if-then (contains l.revealed_epochs l.epoch) _ _ h in
      let (key, has_key, h) =
        returned (entry_key w l.keys l.epoch l.seals_seen (entry_version l)) _ (e, hash) h in
      elim (Bool-cases (ltb (l.seq + 1) (2 ^ 64))) [
        | inl fits ↦
            let q = ok-injective _ (e, hash) (rw fits at h) in
            record {
              live = live;
              writable = writable;
              secret = secret;
              key = key;
              has_key = has_key;
              fits = ltb→lt (l.seq + 1) (2 ^ 64) fits;
              hashed = ap (λ p. p.1) q;
              entered =
                  subst (λ t. entry now event_type body l t ≡ e) (ap (λ p. p.1) q)
                    (ap (λ p. p.0) q);
            }
        | inr fits ↦ absurd (not_ok _ _ (rw fits at h))
      ]
    where
      not_ok : (e : Error) (p : Event × Bytes) → err e ≡ ok p → ⊥
      not_ok e p h = ground arith

  pub decode_hash-encode : (d : Bytes) → IsDigest d → decode_hash w (w.hex.encode d) ≡ some d
  unfolding decode_hash
  decode_hash-encode d h = rw (w.hex.decode-encode d h.bytes) (ground (arith, h.size))

  pub event_hash-current :
      (l : Ledger) (prev : Bytes) (seq ts : ℕ) (event_type body key : Bytes)
      → event_hash w (entry_version l) prev seq ts event_type body key
        ≡ ok (event_hash_v2 w prev seq ts event_type body key)
  unfolding event_hash
  event_hash-current l prev seq ts event_type body key =
      elim (Bool-cases (l.seals_seen == 0 && l.legacy_segment0)) [
        | inl e ↦ rw e refl
        | inr e ↦ rw e refl
      ]

  -- The scan has come to where the handle is.
  pub record IsAt (s : Scan) (l : Ledger) : Type 0 where
    pub last_hash : s.last_hash ≡ l.last_hash
    pub seq : s.seq ≡ l.seq
    pub seals_seen : s.seals_seen ≡ l.seals_seen
    pub legacy_segment0 : s.legacy_segment0 ≡ l.legacy_segment0
    pub digest : IsDigest l.last_hash

  -- Reading the entry that `append` wrote: the tests pass, and the scan moves on with the handle.
  pub check_entry-next :
      (keys : List Bytes) (idx now : ℕ) (event_type body : Bytes) (l : Ledger) (e : Event)
      (hash : Bytes) (s : Scan)
      → IsNext now event_type body l e hash
      → IsAt s l
      → l.keys ≡ keys
      → check_entry w keys idx e s
        ≡ ok (record s { last_hash = hash; seq = l.seq + 1; max_epoch = max s.max_epoch l.epoch })
  unfolding check_entry
  check_entry-next keys idx now event_type body l e hash s n a k =
      rw
        (
          sym n.entered,
          sym k,
          a.seals_seen,
          n.has_key,
          decode_hash-encode l.last_hash a.digest,
          a.last_hash,
          bytes_eq_self l.last_hash,
          a.seq,
          next_seq l.seq n.fits,
          event_hash-current l l.last_hash (l.seq + 1) now event_type body n.key,
          n.hashed,
          bytes_eq_self (w.hex.encode hash),
        )
        refl
    where
      next_seq : (k : ℕ) → k + 1 < 2 ^ 64 → (k + 1 == next k) ≡ true
      next_seq k h = ground arith

  -- The entry of a ledger keeps the segment's kind.
  pub note_segment0-next :
      (now : ℕ) (event_type body : Bytes) (l : Ledger) (hash : Bytes) (s : Scan)
      → IsAt s l
      → (note_segment0 (entry now event_type body l hash) s).legacy_segment0 ≡ s.legacy_segment0
  unfolding note_segment0
  note_segment0-next now event_type body l hash s a = ground arith

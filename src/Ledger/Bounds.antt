-- ===== src/Ledger/Bounds.antt =====
-- Behind an opening by src/lib.rs, sequence numbers and segments fit their words.
use sovereign_ledger.Base.{
  ℕ, ◌^◌, ◌<◌, ◌≡◌, sym, ◌∙◌, subst, Bool, true, false, Bool-cases, not, ◌||◌, inl, inr, List,
  arith, ◌==◌, if◌then◌else◌, if-true, if-false,
}
use sovereign_ledger.Base.Bytes.{bytes_eq}
use sovereign_ledger.Crypto.{Bytes}
use sovereign_ledger.Crates.{Crates, Event}
use sovereign_ledger.Error.{ok, returned, ok-injective, ok_or, map_err}
use sovereign_ledger.Event.{seal_event, entry_key, event_hash, decode_hash}
use sovereign_ledger.Ledger.{
  File, Ledger, Scan, next, note_segment0, note_seal, check_entry, scan_event, scan_file, handle,
  seed_keys, open_with_seeds, bad_seal,
}
use sovereign_ledger.Ledger.Invariant.{scan_file_keeps}
use sovereign_ledger.Seal.{parse_body}

-- The fields are a `u64` and a `u64`.
pub record InRange (l : Ledger) : Type 0 where
  pub seq : l.seq < 2 ^ 64
  pub seals_seen : l.seals_seen < 2 ^ 64

pub record InRangeScan (s : Scan) : Type 0 where
  pub seq : s.seq < 2 ^ 64
  pub seals_seen : s.seals_seen < 2 ^ 64

next_fits : (n : ℕ) → next n < 2 ^ 64
next_fits n = omega arith

module _ (w : Crates) where
  module _ (keys : List Bytes) where
    settled :
        (b : Bool) (s t u : Scan)
        → (if b then ok s else ok t) ≡ ok u
        → InRangeScan s
        → InRangeScan t
        → InRangeScan u
    settled true s t u h p q = subst InRangeScan (ok-injective s u h) p
    settled false s t u h p q = subst InRangeScan (ok-injective t u h) q

    check_entry-InRangeScan :
        (idx : ℕ) (e : Event) (s t : Scan)
        → check_entry w keys idx e s ≡ ok t
        → InRangeScan s
        → InRangeScan t
    unfolding check_entry
    check_entry-InRangeScan idx e s t h d =
        let (key, p, h) = returned (entry_key w keys e.epoch s.seals_seen e.v) _ t h in
        let (prev, q, h) = returned (ok_or (decode_hash w e.prev_hash) _) _ t h in
        elim (Bool-cases (not (bytes_eq prev s.last_hash) || not (e.seq == next s.seq))) [
          | inl b ↦
              subst InRangeScan
                (ok-injective (record s { compromised = true }) t (sym (if-true _ _ _ b) ∙ h))
                (record { seq = d.seq; seals_seen = d.seals_seen })
          | inr b ↦
              let (hash, r, h) =
                returned (event_hash w e.v s.last_hash e.seq e.ts e.event_type e.body key) _ t
                  (sym (if-false _ _ _ b) ∙ h) in
              let fits : e.seq < 2 ^ 64 = seq_fits (bytes_eq prev s.last_hash) e.seq s.seq b in
              settled (not (bytes_eq e.hash (w.hex.encode hash))) _ _ t h
                (record { seq = d.seq; seals_seen = d.seals_seen })
                (record { seq = fits; seals_seen = d.seals_seen })
        ]
      where
        seq_fits : (c : Bool) (n k : ℕ) → (not c || not (n == next k)) ≡ false → n < 2 ^ 64
        seq_fits c n k h = ground (arith, next_fits k)

    note_seal-InRangeScan :
        (idx : ℕ) (e : Event) (s t : Scan)
        → note_seal w idx e s ≡ ok t
        → InRangeScan s
        → InRangeScan t
    unfolding note_seal
    note_seal-InRangeScan idx e s t h d = elim (Bool-cases (bytes_eq e.event_type seal_event)) [
      | inl b ↦
          let (r, p, h) =
            returned (map_err (bad_seal idx) (parse_body w e.body)) _ t
              (sym (if-true _ _ _ b) ∙ h) in
          subst InRangeScan (ok-injective _ t h)
            (record { seq = d.seq; seals_seen = next_fits s.seals_seen })
      | inr b ↦ subst InRangeScan (ok-injective s t (sym (if-false _ _ _ b) ∙ h)) d
    ]

    scan_event-InRangeScan :
        (idx : ℕ) (e : Event) (s t : Scan)
        → scan_event w keys idx e s ≡ ok t
        → InRangeScan s
        → InRangeScan t
    unfolding scan_event note_segment0
    scan_event-InRangeScan idx e s t h d =
        let (s1, p, h) = returned (note_seal w idx e (note_segment0 e s)) _ t h in
        check_entry-InRangeScan idx e s1 t h (
          note_seal-InRangeScan idx e (note_segment0 e s) s1 p
            (record { seq = d.seq; seals_seen = d.seals_seen }))

  pub open_with_seeds-InRange :
      (drawn : Bytes) (seeds : List Bytes) (file : File) (l : Ledger)
      → open_with_seeds w drawn seeds file ≡ ok l
      → InRange l
  unfolding open_with_seeds
  open_with_seeds-InRange drawn seeds file l h =
      let (s, p, h) = returned (scan_file w (seed_keys w drawn seeds) file) _ l h in
      let d =
        scan_file_keeps w (seed_keys w drawn seeds) InRangeScan
          (scan_event-InRangeScan (seed_keys w drawn seeds)) file s p
          (record { seq = omega arith; seals_seen = omega arith }) in
      subst InRange (ok-injective (handle w (seed_keys w drawn seeds) s) l h)
        (record { seq = d.seq; seals_seen = d.seals_seen })

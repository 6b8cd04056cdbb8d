-- ===== src/Ledger/Scanned.antt =====
-- The loop of `open_with_seeds` of src/lib.rs beside that of `verify`, over the same entries.
use sovereign_ledger.Base.{
  ℕ, suc, ◌+◌, ◌^◌, ◌≡◌, ◌<◌, refl, sym, ◌∙◌, ap, subst, false, Bool-cases, max, if◌then◌else◌,
  ◌&&◌, not, ◌||◌, inl, inr, List, [], ◌∷◌, ◌++◌, All, arith, length, if-true, ◌==◌,
}
use sovereign_ledger.Base.Bytes.{bytes_eq}
use sovereign_ledger.Crypto.{Bytes, IsDigest}
use sovereign_ledger.Crates.{Crates, Event, IsEvent}
use sovereign_ledger.Error.{
  ok, returned, fail_if-then, ok-injective, ok_or, map_err, given, unmapped,
}
use sovereign_ledger.Event.{seal_event, entry_key, event_hash, decode_hash}
use sovereign_ledger.Ledger.{
  Scan, next, note_segment0, note_seal, check_entry, scan_event, scan_lines, bad_seal,
}
use sovereign_ledger.Ledger.Binding.{read_ok}
use sovereign_ledger.Ledger.Coherent.{scan_line-entry}
use sovereign_ledger.Ledger.Link.{event_hash-IsDigest}
use sovereign_ledger.Ledger.Read.{
  Chain, note_event, check_link, check_seal, verify_event, verify_items,
}
use sovereign_ledger.Ledger.Written.{lines_of}
use sovereign_ledger.Seal.{parse_body}

-- The scan has come as far as the chain, without a break.
pub record Follows (idx : ℕ) (s : Scan) (c : Chain) : Type 0 where
  pub last_hash : s.last_hash ≡ c.last_hash
  pub seals_seen : s.seals_seen ≡ c.seals_seen
  pub seq : s.seq ≡ idx
  pub sound : s.compromised ≡ false
  pub digest : IsDigest c.last_hash

module _ (w : Crates) (keys : List Bytes) where
  -- The bookkeeping for segments ahead of the tests.
  record IsNoted (e : Event) (s t : Scan) (c : Chain) : Type 0 where
    last_hash : t.last_hash ≡ s.last_hash
    seals_seen : t.seals_seen ≡ (note_event e c).seals_seen
    seq : t.seq ≡ s.seq
    sound : t.compromised ≡ s.compromised

  note_seal-IsNoted :
      (idx j : ℕ) (e : Event) (s : Scan) (c d : Chain)
      → s.seals_seen ≡ c.seals_seen
      → check_seal w keys idx e d ≡ ok tt
      → (t : Scan) × (note_seal w j e (note_segment0 e s) ≡ ok t) × IsNoted e s t c
  unfolding check_seal note_seal note_segment0 note_event
  note_seal-IsNoted idx j e s c d q h = elim (Bool-cases (bytes_eq e.event_type seal_event)) [
    | inl b ↦
        let (seal, p, h) =
          returned (map_err (bad_seal idx) (parse_body w e.body)) _ tt
            (sym (if-true _ _ _ b) ∙ h) in
        let parsed = unmapped (bad_seal idx) (parse_body w e.body) seal p in
        let s0 = note_segment0 e s in
        (
          record s0 {
            seals_seen = next s0.seals_seen;
            sealed_through = max s0.sealed_through seal.end_seq;
            revealed_epochs =
                if s0.legacy_segment0 && next s0.seals_seen == 1
                then s0.seg0_epochs ++ s0.revealed_epochs
                else s0.revealed_epochs;
          },
          rw (b, parsed) refl,
          record { last_hash = refl; seals_seen = rw b (ap next q); seq = refl; sound = refl },
        )
    | inr b ↦ (
      note_segment0 e s,
      rw b refl,
      record { last_hash = refl; seals_seen = rw b q; seq = refl; sound = refl },
    )
  ]

  -- The tests on the chain are those of `verify`.
  check_entry-Follows :
      (idx j : ℕ) (e : Event) (s : Scan) (c : Chain) (expected : Bytes)
      → Follows idx s c
      → idx + 1 < 2 ^ 64
      → check_link w keys idx e c ≡ ok expected
      → (t : Scan) × (check_entry w keys j e s ≡ ok t)
        × Follows (idx + 1) t (record c { last_hash = expected })
  unfolding check_link check_entry
  check_entry-Follows idx j e s c expected f fits h =
      let (key, k, h) = returned (entry_key w keys e.epoch c.seals_seen e.v) _ expected h in
      let (prev, p, h) = returned (ok_or (decode_hash w e.prev_hash) _) _ expected h in
      let (linked, h) =
        fail_if-then (not (bytes_eq prev c.last_hash) || not (e.seq == next idx)) _ _ h in
      let (hash, q, h) =
        returned (event_hash w e.v c.last_hash e.seq e.ts e.event_type e.body key) _ expected h in
      let (tested, h) = fail_if-then (not (bytes_eq e.hash (w.hex.encode hash))) _ _ h in
      let same = ok-injective hash expected h in
      let numbered : e.seq ≡ idx + 1 = ground arith in
      (
        record s { last_hash = hash; seq = e.seq; max_epoch = max s.max_epoch e.epoch },
        rw
            (
              f.seals_seen,
              k,
              given (decode_hash w e.prev_hash) _ prev p,
              f.last_hash,
              f.seq,
              linked,
              q,
              tested,
            )
            refl,
        record {
          last_hash = same;
          seals_seen = f.seals_seen;
          seq = numbered;
          sound = f.sound;
          digest = subst IsDigest same (event_hash-IsDigest w e.v _ _ _ _ _ _ _ q);
        },
      )

  noted :
      (idx : ℕ) (e : Event) (s t : Scan) (c : Chain)
      → Follows idx s c
      → IsNoted e s t c
      → Follows idx t (note_event e c)
  unfolding note_event
  noted idx e s t c f n = record {
    last_hash = n.last_hash ∙ f.last_hash;
    seals_seen = n.seals_seen;
    seq = n.seq ∙ f.seq;
    sound = n.sound ∙ f.sound;
    digest = f.digest;
  }

  scan_event-Follows :
      (idx j : ℕ) (e : Event) (s : Scan) (c d : Chain)
      → Follows idx s c
      → idx + 1 < 2 ^ 64
      → verify_event w keys idx e c ≡ ok d
      → (t : Scan) × (scan_event w keys j e s ≡ ok t) × Follows (idx + 1) t d
  unfolding verify_event scan_event
  scan_event-Follows idx j e s c d f fits h =
      let c0 = note_event e c in
      let (expected, p, h) = returned (check_link w keys idx e c0) _ d h in
      let (done, q, h) = returned (check_seal w keys idx e c0) _ d h in
      let (s1, r, n) = note_seal-IsNoted idx j e s c c0 f.seals_seen q in
      let (t, u, g) = check_entry-Follows idx j e s1 c0 expected (noted idx e s s1 c f n) fits p in
      (t, rw r u, subst (Follows (idx + 1) t) (ok-injective _ d h) g)

  pub scan_lines-Follows :
      (idx : ℕ) (es : List Event) (s : Scan) (c d : Chain)
      → All IsEvent es
      → Follows idx s c
      → idx + length es < 2 ^ 64
      → verify_items w keys idx (read_ok es) c ≡ ok d
      → (t : Scan) × (scan_lines w keys idx (lines_of w es) s ≡ ok t)
        × Follows (idx + length es) t d
  unfolding verify_items scan_lines
  scan_lines-Follows idx [] s c d g f fits h =
      let n : idx ≡ idx + 0 = omega arith in
      (s, refl, subst (λ i. Follows i s d) n (subst (Follows idx s) (ok-injective c d h) f))
  scan_lines-Follows idx (e ∷ es) s c d (g, gs) f fits h =
      let (c1, p, h) = returned (verify_event w keys idx e c) _ d h in
      let (s1, q, f1) = scan_event-Follows idx idx e s c c1 f (omega arith) p in
      let (t, r, ft) = scan_lines-Follows (idx + 1) es s1 c1 d gs f1 (omega arith) h in
      let n : idx + 1 + length es ≡ idx + suc (length es) = omega arith in
      (t, rw (scan_line-entry w keys idx e s g, q, f1.sound) r, subst (λ i. Follows i t d) n ft)

-- ===== src/Seal/Written/Sealed.antt =====
-- `verify_public` of src/seal.rs on a file behind one more seal of src/lib.rs.
use sovereign_ledger.Base.{
  ℕ, ◌⊎◌, ◌+◌, ◌%◌, ◌^◌, ◌<◌, ◌≤◌, ◌≡◌, refl, sym, ◌∙◌, ap, subst, true, inl, inr, Option, some,
  none, [], ◌∷◌, ◌++◌, All, arith, length, if-true,
}
use sovereign_ledger.Base.Bytes.{bytes_eq, bytes_eq_self}
use sovereign_ledger.Crypto.{Bytes, IsDigest}
use sovereign_ledger.Crates.{Crates, Event, SealRecord, IsEvent, IsSeal}
use sovereign_ledger.Text.Lines.{IsEnded-line}
use sovereign_ledger.Error.{ok}
use sovereign_ledger.Event.{seal_event, decode_hash}
use sovereign_ledger.Ledger.{File, Ledger, next}
use sovereign_ledger.Ledger.Close.{seal_segment}
use sovereign_ledger.Ledger.Entry.{next_entry-IsNext, decode_hash-encode}
use sovereign_ledger.Ledger.Extend.{moved, entry-IsEvent}
use sovereign_ledger.Ledger.Write.{contents, next_entry}
use sovereign_ledger.Ledger.Written.{line_of}
use sovereign_ledger.Seal.{parse_body}
use sovereign_ledger.Seal.Public.{
  Signatures, Public, public_start, public_lines, close_segment, check_sealed, pin_anchor,
}
use sovereign_ledger.Seal.Written.Accepted.{IsOpen, check_sealed-closing}
use sovereign_ledger.Seal.Written.Chained.{
  IsLinked, IsNext-IsLinked, stored_hash, IsLinked-IsDigest,
}
use sovereign_ledger.Seal.Written.Closing.{identity, IsClosing, seal_segment-IsClosing, All-append}
use sovereign_ledger.Seal.Written.Entries.{next_is}
use sovereign_ledger.Seal.Written.Fields.{revealed-fits, last_seal-is_text, chain-below, all-below}
use sovereign_ledger.Seal.Written.Published.{
  IsPublished, IsChained-last, reads-entry, file_of-snoc, public_event-links,
}
use sovereign_ledger.Seal.Written.Record.{signed-IsSeal}
use sovereign_ledger.Text.{is_text, read_lines}
use sovereign_ledger.Text.Ascii.{literal-is_text}
use sovereign_ledger.Anchor.Ed25519.{Ed25519, ed25519_signer}

module _ (w : Crates) (g : Signatures) where
  -- The state of the verifier behind a seal that it accepts.
  abbrev behind : SealRecord → Event → Public → Public
  behind r e s = record s {
    sealed_entries = (s.sealed_entries + length s.buffer) % 2 ^ 64;
    buffer = [];
    prev_seal_hash = e.hash;
    seals_seen = next s.seals_seen;
    segment_start = e.seq;
    anchor_id = pin_anchor r s.anchor_id;
  }

  close_segment-seal :
      (i : ℕ) (e : Event) (s : Public) (r : SealRecord)
      → bytes_eq e.event_type seal_event ≡ true
      → parse_body w e.body ≡ ok r
      → check_sealed w g r s ≡ ok tt
      → close_segment w g i e s ≡ ok (behind r e s)
  unfolding close_segment
  close_segment-seal i e s r h q c = rw (h, q, c) refl

  parse_body-print_seal : (r : SealRecord) → IsSeal r → parse_body w (w.serde.print_seal r) ≡ ok r
  unfolding parse_body
  parse_body-print_seal r h = rw (w.serde.parse-print_seal r h) refl

  pin_anchor-same :
      (r : SealRecord) (id : Bytes × Bytes) (a : Option (Bytes × Bytes))
      → (r.scheme, r.public_key) ≡ id
      → (a ≡ none) ⊎ (a ≡ some id)
      → pin_anchor r a ≡ some id
  unfolding pin_anchor
  pin_anchor-same r id a h (inl e) = rw e (ap some h)
  pin_anchor-same r id a h (inr e) = rw e refl

module _ (w : Crates) (g : Signatures) (d : Ed25519 g) (seed : Bytes) (l : Ledger) (file : File)
    (p : IsPublished w g (identity w g d seed) l file) where
  abbrev pub bumped : Ledger
  bumped = record l { seals_seen = next l.seals_seen; sealed_through = l.seq }

  closing-IsSeal :
      (room : l.sealed_through + 1 < 2 ^ 64) (r : SealRecord)
      → IsClosing w g d seed l file p room r
      → IsSeal r
  closing-IsSeal room r c =
      let starts : next l.sealed_through < 2 ^ 64 = omega arith in
      let prev : is_text c.seg.prev_seal ≡ true =
        ap is_text c.gathered.prev_seal
        ∙ last_seal-is_text w p.buffer [] (literal-is_text [] refl) p.buffer_events in
      subst IsSeal c.closes (
        signed-IsSeal w g d seed _ p.seals_fit starts p.seq_fits (w.hex.encode-is_text _)
          (w.hex.encode-is_text _)
          (revealed-fits w l.keys l.seals_seen c.seg.epochs c.gathered.disclosed.revealed)
          c.gathered.disclosed.ascending prev refl refl)

  -- The segment that the verifier has open when it comes to the seal.
  abbrev is_open :
      (room : l.sealed_through + 1 < 2 ^ 64) (n : ℕ) (hash : Bytes)
      → l.sealed_through < l.seq
      → IsOpen w g d seed l p.modern room
          (record p.state { expected_seq = n; last_hash = hash })
          p.prev
          p.buffer
  is_open room n hash full = record {
    full = omega (arith, p.count);
    seals_seen = p.seals_seen;
    buffer = p.held;
    segment_start = p.segment_start;
    chained = p.chained;
    count = omega (arith, p.count);
    fits = p.seq_fits;
    anchor = p.anchor;
  }

  accepts :
      (room : l.sealed_through + 1 < 2 ^ 64) (r : SealRecord) (n : ℕ) (hash : Bytes)
      → IsClosing w g d seed l file p room r
      → check_sealed w g r (record p.state { expected_seq = n; last_hash = hash }) ≡ ok tt
  accepts room r n hash c =
      subst
        (λ t. check_sealed w g t (record p.state { expected_seq = n; last_hash = hash }) ≡ ok tt)
        c.closes
        (check_sealed-closing w g d seed l p.modern room
          (record p.state { expected_seq = n; last_hash = hash }) p.prev p.buffer c.seg
          (is_open room n hash c.full) c.gathered (p.prev_seal ∙ sym c.gathered.prev_seal))

  pins :
      (room : l.sealed_through + 1 < 2 ^ 64) (r : SealRecord)
      → IsClosing w g d seed l file p room r
      → pin_anchor r p.state.anchor_id ≡ some (identity w g d seed)
  pins room r c =
      pin_anchor-same w g r (identity w g d seed) p.state.anchor_id
        (ap (λ (t : SealRecord). (t.scheme, t.public_key)) (sym c.closes)) p.anchor

  closed_below : All (λ e. e.seq ≤ l.seq) (p.front ++ p.buffer)
  closed_below =
      All-append (λ e. e.seq ≤ l.seq) p.front p.buffer
        (all-below w l.sealed_through l.seq p.front (omega (arith, p.count)) p.closed)
        (chain-below w l.keys l.seals_seen p.prev (l.sealed_through + 1) l.seq p.buffer l.last_hash
          p.chained (omega (arith, p.count)))

  -- The entry of a seal that was written.
  record IsEntered (r : SealRecord) (e : Event) (hash : Bytes) : Type 0 where
    room : l.sealed_through + 1 < 2 ^ 64
    closing : IsClosing w g d seed l file p room r
    fits : l.seq + 1 < 2 ^ 64
    event : IsEvent e
    typed : bytes_eq e.event_type seal_event ≡ true
    read : parse_body w e.body ≡ ok r
    link : IsLinked w l.keys (next l.seals_seen) l.last_hash (l.seq + 1) e
    same : link.hash ≡ hash

  last-IsDigest : IsDigest l.last_hash
  last-IsDigest =
      IsChained-last w g (identity w g d seed) l.keys l.seals_seen p.prev (l.sealed_through + 1)
        p.buffer l.last_hash p.chained

  next_entry-IsEntered :
      (now : ℕ) (r : SealRecord) (e : Event) (hash : Bytes)
      → now < 2 ^ 64
      → seal_segment w (ed25519_signer w g d seed) l file ≡ ok (some r)
      → next_entry w now seal_event (w.serde.print_seal r) bumped ≡ ok (e, hash)
      → IsEntered r e hash
  next_entry-IsEntered now r e hash hn h q =
      let body = w.serde.print_seal r in
      let n = next_entry-IsNext w now seal_event body bumped e hash q in
      let room : l.sealed_through + 1 < 2 ^ 64 = omega (arith, n.fits, p.count) in
      let c = seal_segment-IsClosing w g d seed l file p room r h in
      let is_seal = closing-IsSeal room r c in
      let (link, same) =
        IsNext-IsLinked w now seal_event body bumped e hash p.modern last-IsDigest n in
      record {
        room = room;
        closing = c;
        fits = n.fits;
        event = subst IsEvent n.entered (
            entry-IsEvent w now seal_event body bumped hash hn (literal-is_text seal_event refl)
              (w.serde.print_seal-is_text r is_seal) p.epoch_fits n.fits);
        typed =
            ap (λ (t : Event). bytes_eq t.event_type seal_event) (sym n.entered)
            ∙ bytes_eq_self seal_event;
        read =
            ap (λ (t : Event). parse_body w t.body) (sym n.entered)
            ∙ parse_body-print_seal w g r is_seal;
        link = link;
        same = same;
      }

  -- The state of the verifier behind that entry.
  abbrev reached : SealRecord → Event → Bytes → Public
  reached r e hash =
      record (behind w g r e
        (record p.state { expected_seq = next p.state.expected_seq; last_hash = hash })) {
          buffer = e ∷ [];
        }

  reads_on :
      (r : SealRecord) (e : Event) (hash : Bytes) (k : IsEntered r e hash)
      → public_lines w g 0 (read_lines (contents file ++ line_of w e)) public_start
        ≡ ok (reached r e k.link.hash)
  reads_on r e hash k =
      let s1 : Public = record p.state {
        expected_seq = next p.state.expected_seq;
        last_hash = k.link.hash;
      } in
      reads-entry w g (identity w g d seed) file e p.state (reached r e k.link.hash) k.event p.ended
        p.reads
        (λ i.
          public_event-links w g (identity w g d seed) i e p.state (behind w g r e s1) k.link.hash
            l.last_hash
            (ap (decode_hash w) k.link.prev_hash ∙ decode_hash-encode w l.last_hash last-IsDigest)
            (stored_hash w l.keys (next l.seals_seen) l.last_hash (l.seq + 1) e k.link) p.last_hash
            (p.expected_seq ∙ next_is w g (identity w g d seed) l.seq k.fits ∙ sym k.link.seq)
            (close_segment-seal w g i e s1 r k.typed k.read
              (accepts k.room r (next p.state.expected_seq) k.link.hash k.closing)))

  pub closed-IsPublished :
      (now : ℕ) (r : SealRecord) (e : Event) (hash : Bytes)
      → now < 2 ^ 64
      → seal_segment w (ed25519_signer w g d seed) l file ≡ ok (some r)
      → next_entry w now seal_event (w.serde.print_seal r) bumped ≡ ok (e, hash)
      → IsPublished w g
          (identity w g d seed)
          (moved bumped hash)
          (some (contents file ++ line_of w e))
  closed-IsPublished now r e hash hn h q =
      let k = next_entry-IsEntered now r e hash hn h q in
      let digest =
        IsLinked-IsDigest w l.keys (next l.seals_seen) l.last_hash (l.seq + 1) e k.link in
      record {
        front = p.front ++ p.buffer;
        buffer = e ∷ [];
        front_events = All-append IsEvent p.front p.buffer p.front_events p.buffer_events;
        buffer_events = (k.event, tt);
        written =
            ap (λ x. x ++ line_of w e) p.written
            ∙ sym (file_of-snoc w g (identity w g d seed) (p.front ++ p.buffer) e);
        ended = IsEnded-line (contents file) (w.serde.print_event e);
        state = reached r e k.link.hash;
        reads = reads_on r e hash k;
        modern = p.modern;
        seals_fit = next_fits l.seals_seen;
        seq_fits = k.fits;
        epoch_fits = p.epoch_fits;
        prev = l.last_hash;
        chained = (k.link, (k.same, subst IsDigest k.same digest));
        count = refl;
        closed = closed_below;
        seals_seen = ap next p.seals_seen;
        last_hash = k.same;
        held = refl;
        segment_start = k.link.seq;
        sealed_entries = counted;
        expected_seq = ap next (p.expected_seq ∙ next_is w g (identity w g d seed) l.seq k.fits);
        prev_seal = sym (if-true _ _ _ k.typed);
        anchor = inr (pins k.room r k.closing);
      }
    where
      next_fits : (n : ℕ) → next n < 2 ^ 64
      next_fits n = omega arith

      add_up : (a b k m : ℕ) → a ≡ k → k + b ≡ m → m < 2 ^ 64 → (a + b) % 2 ^ 64 ≡ m
      add_up a b k m p q h = omega arith

      counted : (p.state.sealed_entries + length p.state.buffer) % 2 ^ 64 ≡ l.seq
      counted =
          add_up p.state.sealed_entries (length p.state.buffer) l.sealed_through l.seq
            p.sealed_entries (ap (λ t. l.sealed_through + length t) p.held ∙ p.count) p.seq_fits

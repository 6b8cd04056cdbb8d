-- ===== src/Seal/Written/Entries.antt =====
-- `verify_public` of src/seal.rs on a file behind one more entry of src/lib.rs that is not a seal.
use sovereign_ledger.Base.{
  ℕ, ◌+◌, ◌^◌, ◌<◌, ◌≡◌, refl, sym, ◌∙◌, ap, subst, true, false, Bool-cases, inl, inr, some, [],
  ◌∷◌, ◌++◌, append_assoc, arith, length, length-append, ltb, ltb→lt, if-false,
}
use sovereign_ledger.Base.Bytes.{bytes_eq, codes}
use sovereign_ledger.Crypto.{Bytes}
use sovereign_ledger.Crates.{Crates, Event, IsEvent}
use sovereign_ledger.Error.{ok, Result-cases}
use sovereign_ledger.Event.{seal_event, key_rotation_event, key_new, decode_hash}
use sovereign_ledger.Ledger.{File, Ledger, next}
use sovereign_ledger.Ledger.Append.{append_refused, append_written}
use sovereign_ledger.Ledger.Entry.{IsNext, next_entry-IsNext, decode_hash-encode}
use sovereign_ledger.Ledger.Extend.{moved, entry-IsEvent}
use sovereign_ledger.Ledger.Write.{healthy, contents, next_entry, append, rotate_key}
use sovereign_ledger.Ledger.Written.{line_of, file_of}
use sovereign_ledger.Seal.Public.{Signatures, Public, close_segment}
use sovereign_ledger.Seal.Written.Chained.{
  IsChained, IsChained-snoc, relinked, IsNext-IsLinked, stored_hash,
}
use sovereign_ledger.Seal.Written.Published.{
  Identity, IsPublished, IsChained-last, IsPublished-keys, reads-entry, file_of-snoc, All-snoc,
  last_seal-snoc, public_event-links,
}
use sovereign_ledger.Text.{is_text, decimal}
use sovereign_ledger.Text.Ascii.{literal-is_text, is_text-append, decimal-is_text}
use sovereign_ledger.Text.Lines.{IsEnded-line}

rotation_plain : bytes_eq key_rotation_event seal_event ≡ false
unfolding bytes_eq
rotation_plain = refl

module _ (w : Crates) (g : Signatures) (id : Identity) where
  close_segment-plain :
      (i : ℕ) (e : Event) (s : Public)
      → bytes_eq e.event_type seal_event ≡ false
      → close_segment w g i e s ≡ ok s
  unfolding close_segment
  close_segment-plain i e s h = if-false _ _ _ h

  pub next_is : (n : ℕ) → n + 1 < 2 ^ 64 → next n ≡ n + 1
  next_is n h = omega arith

  entry-IsPublished :
      (now : ℕ) (event_type body : Bytes) (l : Ledger) (file : File) (e : Event) (hash : Bytes)
      → IsPublished w g id l file
      → IsEvent e
      → bytes_eq e.event_type seal_event ≡ false
      → IsNext w now event_type body l e hash
      → IsPublished w g id (moved l hash) (some (contents file ++ line_of w e))
  entry-IsPublished now event_type body l file e hash p h plain n =
      let d =
        IsChained-last w g id l.keys l.seals_seen p.prev (l.sealed_through + 1) p.buffer l.last_hash
          p.chained in
      let (link, same) = IsNext-IsLinked w now event_type body l e hash p.modern d n in
      let t : Public = record p.state {
        expected_seq = next p.state.expected_seq;
        last_hash = link.hash;
      } in
      let q : l.seq + 1 ≡ l.sealed_through + 1 + length p.buffer = omega (arith, p.count) in
      record {
        front = p.front;
        buffer = p.buffer ++ e ∷ [];
        front_events = p.front_events;
        buffer_events = All-snoc w g id IsEvent p.buffer e p.buffer_events h;
        written =
            ap (λ x. x ++ line_of w e) p.written
            ∙ sym (file_of-snoc w g id (p.front ++ p.buffer) e)
            ∙ ap (file_of w) (append_assoc p.front p.buffer (e ∷ []));
        ended = IsEnded-line (contents file) (w.serde.print_event e);
        state = record t { buffer = p.state.buffer ++ e ∷ [] };
        reads =
            reads-entry w g id file e p.state (record t { buffer = p.state.buffer ++ e ∷ [] }) h
              p.ended p.reads
              (λ i.
                public_event-links w g id i e p.state t link.hash l.last_hash
                  (ap (decode_hash w) link.prev_hash ∙ decode_hash-encode w l.last_hash d)
                  (stored_hash w l.keys l.seals_seen l.last_hash (l.seq + 1) e link) p.last_hash
                  (p.expected_seq ∙ next_is l.seq n.fits ∙ sym link.seq)
                  (close_segment-plain i e t plain));
        modern = p.modern;
        seals_fit = p.seals_fit;
        seq_fits = n.fits;
        epoch_fits = p.epoch_fits;
        prev = p.prev;
        chained =
            subst
              (λ x.
                IsChained w l.keys l.seals_seen p.prev (l.sealed_through + 1) (p.buffer ++ e ∷ [])
                  x)
              same
              (IsChained-snoc w l.keys l.seals_seen p.prev (l.sealed_through + 1) p.buffer
                l.last_hash e p.chained
                (relinked w l.keys l.seals_seen l.last_hash l.last_hash
                  (l.sealed_through + 1 + length p.buffer) (l.seq + 1) e refl (sym q) link));
        count = omega (arith, p.count, length-append p.buffer (e ∷ []));
        closed = p.closed;
        seals_seen = p.seals_seen;
        last_hash = same;
        held = ap (λ x. x ++ e ∷ []) p.held;
        segment_start = p.segment_start;
        sealed_entries = p.sealed_entries;
        expected_seq = ap next (p.expected_seq ∙ next_is l.seq n.fits);
        prev_seal = p.prev_seal ∙ sym (last_seal-snoc w g id p.buffer [] e plain);
        anchor = p.anchor;
      }

  -- `append` of an entry that is no seal, whether it wrote or refused.
  pub append-IsPublished :
      (now : ℕ) (event_type body : Bytes) (l : Ledger) (file : File)
      → now < 2 ^ 64
      → is_text event_type ≡ true
      → is_text body ≡ true
      → bytes_eq event_type seal_event ≡ false
      → IsPublished w g id l file
      → IsPublished w g id
          (append w now healthy event_type body l file).1
          (append w now healthy event_type body l file).2
  append-IsPublished now event_type body l file hn ht hb plain p =
      elim (Result-cases (next_entry w now event_type body l)) [
        | inl ((e, hash), r) ↦
            let n = next_entry-IsNext w now event_type body l e hash r in
            let h =
              subst IsEvent n.entered
                (entry-IsEvent w now event_type body l hash hn ht hb p.epoch_fits n.fits) in
            let plain1 = ap (λ t. bytes_eq t.event_type seal_event) (sym n.entered) ∙ plain in
            rw (append_written w now event_type body l file e hash r)
              (entry-IsPublished now event_type body l file e hash p h plain1 n)
        | inr (x, r) ↦ rw (append_refused w now event_type body l file healthy x r) p
      ]

  -- `rotate_key`, whether it wrote or refused.
  pub rotate_key-IsPublished :
      (now : ℕ) (seed : Bytes) (l : Ledger) (file : File)
      → now < 2 ^ 64
      → IsPublished w g id l file
      → IsPublished w g id
          (rotate_key w now healthy seed l file).1
          (rotate_key w now healthy seed l file).2
  unfolding rotate_key
  rotate_key-IsPublished now seed l file hn p =
      let more = key_new w [] (some seed) ∷ [] in
      let l1 : Ledger = record l { keys = l.keys ++ more; epoch = l.epoch + 1 } in
      let body = codes "{\"epoch\":" ++ (decimal (l.epoch + 1) ++ codes "}") in
      let body_text : is_text body ≡ true =
        is_text-append (codes "{\"epoch\":") _ (literal-is_text _ refl) (
          is_text-append (decimal (l.epoch + 1)) (codes "}") (decimal-is_text (l.epoch + 1))
            (literal-is_text _ refl)) in
      elim (Bool-cases (ltb (l.epoch + 1) (2 ^ 32))) [
        | inl e ↦
            let moved_on =
              append-IsPublished now key_rotation_event body l1 file hn
                (literal-is_text key_rotation_event refl) body_text rotation_plain
                (IsPublished-keys w g id l file more (l.epoch + 1) (ltb→lt (l.epoch + 1) (2 ^ 32) e)
                  p) in
            elim (Result-cases (append w now healthy key_rotation_event body l1 file).0) [
              | inl t ↦ rw (e, t.1) moved_on
              | inr t ↦ rw (e, t.1) moved_on
            ]
        | inr e ↦ rw e (IsPublished-keys w g id l file more l.epoch p.epoch_fits p)
      ]

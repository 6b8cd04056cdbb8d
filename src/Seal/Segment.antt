-- ===== src/Seal/Segment.antt =====
-- The hashes that `verify_public` of src/seal.rs recomputes for a segment bind its entries.
use sovereign_ledger.Base.{
  suc, ◌≡◌, ◌≢◌, sym, ◌∙◌, ap, not, Option, none, some, ◌⊎◌, inl, inr, List, [], ◌∷◌, arith, length,
}
use sovereign_ledger.Base.Bytes.{bytes_eq, bytes_eq_iff}
use sovereign_ledger.Crypto.{Bytes, hash_size, here, later}
use sovereign_ledger.Crates.{Crates, Event, SealRecord}
use sovereign_ledger.Error.{given, ok, err, returned, fail_if-then, ok-injective, ok_or}
use sovereign_ledger.Event.{event_hash, decode_hash, message}
use sovereign_ledger.Event.Message.{MacCollides, Fields, message_of, event_hash_v2-binds}
use sovereign_ledger.Ledger.Binding.{IsModern, Agree, AllAgree, AllModern}
use sovereign_ledger.Ledger.Link.{event_hash-IsDigest, event_hash-v2}
use sovereign_ledger.Seal.Public.{Signatures, revealed_key, segment_hashes}

abbrev pub or_empty : Option Bytes → Bytes
or_empty none = []
or_empty (some b) = b

module _ (w : Crates) (g : Signatures) where
  abbrev decoded : Option Bytes → Option Bytes
  decoded none = none
  decoded (some key_hex) = decode_hash w key_hex

  -- The key of an entry, from the keys that the seal discloses.
  unfoldable pub entry_secret : SealRecord → Event → Option Bytes
  entry_secret seal e = decoded (revealed_key e.epoch seal.revealed)

  entry_secret-given :
      (seal : SealRecord) (e : Event) (key_hex key : Bytes)
      → revealed_key e.epoch seal.revealed ≡ some key_hex
      → decode_hash w key_hex ≡ some key
      → entry_secret seal e ≡ some key
  unfolding entry_secret
  entry_secret-given seal e key_hex key p q = ap decoded p ∙ q

  -- The messages that are recomputed for a segment, each with its key, the key first; up to an entry
  -- that has no hash. An entry that has no key counts with the empty one.
  unfoldable pub segment_macs : SealRecord → Bytes → List Event → List (Bytes × Bytes)
  segment_macs seal prev [] = []
  segment_macs seal prev (e ∷ es) =
      let key = or_empty (entry_secret seal e) in
      (key, message prev e.seq e.ts e.event_type e.body)
      ∷ elim (event_hash w e.v prev e.seq e.ts e.event_type e.body key) [
        | err x ↦ []
        | ok expected ↦ segment_macs seal expected es
      ]

  abbrev fields : Bytes → Event → Fields
  fields prev e = record {
    prev_hash = prev;
    seq = e.seq;
    ts = e.ts;
    event_type = e.event_type;
    body = e.body;
  }

  -- One round of the loop over a segment.
  record IsEntry (seal : SealRecord) (prev : Bytes) (e : Event) (expected : Bytes) : Type 0 where
    key : Bytes
    has_key : entry_secret seal e ≡ some key
    hashed : event_hash w e.v prev e.seq e.ts e.event_type e.body key ≡ ok expected
    written : e.hash ≡ w.hex.encode expected

  round :
      (seal : SealRecord) (prev : Bytes) (e : Event) (es : List Event) (hs : List Bytes)
      → segment_hashes w g seal prev (e ∷ es) ≡ ok hs
      → (expected : Bytes) × (rest : List Bytes) × IsEntry seal prev e expected
        × (segment_hashes w g seal expected es ≡ ok rest)
        × (expected ∷ rest ≡ hs)
  unfolding segment_hashes
  round seal prev e es hs h =
      let (key_hex, p, h) = returned (ok_or (revealed_key e.epoch seal.revealed) _) _ hs h in
      let (key, q, h) = returned (ok_or (decode_hash w key_hex) _) _ hs h in
      let (expected, r, h) =
        returned (event_hash w e.v prev e.seq e.ts e.event_type e.body key) _ hs h in
      let (tested, h) = fail_if-then (not (bytes_eq e.hash (w.hex.encode expected))) _ _ h in
      let (rest, k, h) = returned (segment_hashes w g seal expected es) _ hs h in
      let written : e.hash ≡ w.hex.encode expected =
        ground (arith, bytes_eq_iff e.hash (w.hex.encode expected)) in
      (
        expected,
        rest,
        record {
          key = key;
          has_key = entry_secret-given seal e key_hex key (given _ _ key_hex p) (given _ _ key q);
          hashed = r;
          written = written;
        },
        k,
        ok-injective (expected ∷ rest) hs h,
      )

  entry-binds :
      (seal seal' : SealRecord) (prev prev' : Bytes) (e f : Event) (x y : Bytes)
      → IsModern e
      → IsModern f
      → length prev ≡ hash_size
      → length prev' ≡ hash_size
      → (a : IsEntry seal prev e x) → (b : IsEntry seal' prev' f y) → x ≡ y
      → Agree e f
        ⊎ ((message_of (fields prev e) ≢ message_of (fields prev' f))
            × (w.hmac.mac a.key (message_of (fields prev e))
                ≡ w.hmac.mac b.key (message_of (fields prev' f))))
  entry-binds seal seal' prev prev' e f x y m n hp hp' a b same =
      elim (event_hash_v2-binds w (fields prev e) (fields prev' f) a.key b.key
        (record {
          prev_hash = hp;
          seq = m.seq;
          ts = m.ts;
          event_type = m.event_type;
          body = m.body;
        })
        (record {
          prev_hash = hp';
          seq = n.seq;
          ts = n.ts;
          event_type = n.event_type;
          body = n.body;
        })
        (event_hash-v2 w e.v _ _ _ _ _ _ _ m.v a.hashed
          ∙ same
          ∙ sym (event_hash-v2 w f.v _ _ _ _ _ _ _ n.v b.hashed))) [
            | inl q ↦ inl (record {
              seq = ap (λ (t : Fields). t.seq) q;
              ts = ap (λ (t : Fields). t.ts) q;
              event_type = ap (λ (t : Fields). t.event_type) q;
              body = ap (λ (t : Fields). t.body) q;
              hash = a.written ∙ ap w.hex.encode same ∙ sym b.written;
            })
            | inr z ↦ inr z
          ]

  empty :
      (seal : SealRecord) (prev : Bytes) (hs : List Bytes)
      → segment_hashes w g seal prev [] ≡ ok hs
      → [] ≡ hs
  unfolding segment_hashes
  empty seal prev hs h = ok-injective [] hs h

  cons_nil : (x : Bytes) (xs : List Bytes) → x ∷ xs ≡ [] → ⊥
  cons_nil x xs e = ground arith

  pub length-segment_hashes :
      (seal : SealRecord) (prev : Bytes) (es : List Event) (hs : List Bytes)
      → segment_hashes w g seal prev es ≡ ok hs
      → length hs ≡ length es
  length-segment_hashes seal prev [] hs h = ap length (sym (empty seal prev hs h))
  length-segment_hashes seal prev (e ∷ es) hs h =
      let (x, xs, a, h1, p) = round seal prev e es hs h in
      sym (ap length p) ∙ ap suc (length-segment_hashes seal x es xs h1)

  pub segment-binds :
      (seal seal' : SealRecord) (prev prev' : Bytes) (es fs : List Event) (hs ks : List Bytes)
      → AllModern es
      → AllModern fs
      → length prev ≡ hash_size
      → length prev' ≡ hash_size
      → segment_hashes w g seal prev es ≡ ok hs
      → segment_hashes w g seal' prev' fs ≡ ok ks
      → hs ≡ ks
      → AllAgree es fs ⊎ MacCollides w (segment_macs seal prev es) (segment_macs seal' prev' fs)
  unfolding segment_macs
  segment-binds seal seal' prev prev' [] [] hs ks m n hp hp' h k same = inl tt
  segment-binds seal seal' prev prev' [] (f ∷ fs) hs ks m n hp hp' h k same =
      let (y, ys, b, k1, q) = round seal' prev' f fs ks k in
      absurd (cons_nil y ys (q ∙ sym same ∙ sym (empty seal prev hs h)))
  segment-binds seal seal' prev prev' (e ∷ es) [] hs ks m n hp hp' h k same =
      let (x, xs, a, h1, p) = round seal prev e es hs h in
      absurd (cons_nil x xs (p ∙ same ∙ sym (empty seal' prev' ks k)))
  segment-binds seal seal' prev prev' (e ∷ es) (f ∷ fs) hs ks (me, ms) (ne, ns) hp hp' h k same =
      let (x, xs, a, h1, p) = round seal prev e es hs h in
      let (y, ys, b, k1, q) = round seal' prev' f fs ks k in
      let r : x ∷ xs ≡ y ∷ ys = p ∙ same ∙ sym q in
      let first : x ≡ y = cc r in
      let rest : xs ≡ ys = cc r in
      let hx = event_hash-IsDigest w e.v _ _ _ _ _ _ _ a.hashed in
      let hy = event_hash-IsDigest w f.v _ _ _ _ _ _ _ b.hashed in
      rw (a.has_key, b.has_key, a.hashed, b.hashed)
        (elim (entry-binds seal seal' prev prev' e f x y me ne hp hp' a b first) [
          | inl agree ↦
              elim (segment-binds seal seal' x y es fs xs ys ms ns hx.size hy.size h1 k1 rest) [
                | inl more ↦ inl (agree, more)
                | inr z ↦ inr (later z)
              ]
          | inr (differ, one) ↦ inr (here differ one)
        ])

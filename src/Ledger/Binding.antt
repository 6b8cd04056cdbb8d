-- ===== src/Ledger/Binding.antt =====
-- The hash that `verify` of src/lib.rs ends with binds the entries before it.
use sovereign_ledger.Base.{
  ℕ, ◌+◌, ◌≡◌, ◌≢◌, ◌<◌, ◌^◌, sym, ◌∙◌, ap, ◌⊎◌, inl, inr, List, [], ◌∷◌, arith, length,
}
use sovereign_ledger.Crypto.{Bytes, IsDigest, here, later}
use sovereign_ledger.Crates.{Crates, Event}
use sovereign_ledger.Error.{Result, ok, returned, ok-injective}
use sovereign_ledger.Event.Message.{MacCollides, Fields, message_of, event_hash_v2-binds}
use sovereign_ledger.Ledger.Authenticated.{authenticated}
use sovereign_ledger.Ledger.Read.{Chain, verify_event, verify_items}
use sovereign_ledger.Ledger.Link.{IsLink, verify_event-IsLink, event_hash-IsDigest, event_hash-v2}

-- An entry in the authenticated format, with texts that the length fields of the message can hold.
pub record IsModern (e : Event) : Type 0 where
  pub v : e.v ≢ 1
  pub seq : e.seq < 2 ^ 64
  pub ts : e.ts < 2 ^ 64
  pub event_type : length e.event_type < 2 ^ 32
  pub body : length e.body < 2 ^ 64

-- Two entries agree in everything that the MAC covers, and in their hash.
pub record Agree (e f : Event) : Type 0 where
  pub seq : e.seq ≡ f.seq
  pub ts : e.ts ≡ f.ts
  pub event_type : e.event_type ≡ f.event_type
  pub body : e.body ≡ f.body
  pub hash : e.hash ≡ f.hash

-- One after the other, and as many.
abbrev pub AllAgree : List Event → List Event → Type 0
AllAgree [] [] = Unit
AllAgree [] (f ∷ fs) = ⊥
AllAgree (e ∷ es) [] = ⊥
AllAgree (e ∷ es) (f ∷ fs) = Agree e f × AllAgree es fs

abbrev pub AllModern : List Event → Type 0
AllModern [] = Unit
AllModern (e ∷ es) = IsModern e × AllModern es

abbrev pub read_ok : List Event → List (Result Event)
read_ok [] = []
read_ok (e ∷ es) = ok e ∷ read_ok es

module _ (w : Crates) where
  abbrev fields : Chain → Event → Fields
  fields c e = record {
    prev_hash = c.last_hash;
    seq = e.seq;
    ts = e.ts;
    event_type = e.event_type;
    body = e.body;
  }

  link-binds :
      (keys keys' : List Bytes) (idx : ℕ) (e f : Event) (c d c' d' : Chain)
      → IsModern e
      → IsModern f
      → IsDigest c.last_hash
      → IsDigest c'.last_hash
      → (x : IsLink w keys idx e c d) → (y : IsLink w keys' idx f c' d')
      → d.last_hash ≡ d'.last_hash
      → (Agree e f × (c.last_hash ≡ c'.last_hash))
        ⊎ ((message_of (fields c e) ≢ message_of (fields c' f))
            × (w.hmac.mac x.key (message_of (fields c e))
                ≡ w.hmac.mac y.key (message_of (fields c' f))))
  link-binds keys keys' idx e f c d c' d' m n hc hc' x y same =
      elim (event_hash_v2-binds w (fields c e) (fields c' f) x.key y.key
        (record {
          prev_hash = hc.size;
          seq = m.seq;
          ts = m.ts;
          event_type = m.event_type;
          body = m.body;
        })
        (record {
          prev_hash = hc'.size;
          seq = n.seq;
          ts = n.ts;
          event_type = n.event_type;
          body = n.body;
        })
        (event_hash-v2 w e.v _ _ _ _ _ _ _ m.v x.hashed
          ∙ same
          ∙ sym (event_hash-v2 w f.v _ _ _ _ _ _ _ n.v y.hashed))) [
            | inl q ↦ inl (
              record {
                seq = ap (λ (t : Fields). t.seq) q;
                ts = ap (λ (t : Fields). t.ts) q;
                event_type = ap (λ (t : Fields). t.event_type) q;
                body = ap (λ (t : Fields). t.body) q;
                hash = x.hash ∙ ap w.hex.encode same ∙ sym y.hash;
              },
              ap (λ (t : Fields). t.prev_hash) q,
            )
            | inr z ↦ inr z
          ]

  pub chain-binds :
      (keys keys' : List Bytes) (idx : ℕ) (es fs : List Event) (c c' d d' : Chain)
      → AllModern es
      → AllModern fs
      → IsDigest c.last_hash
      → IsDigest c'.last_hash
      → length es ≡ length fs
      → verify_items w keys idx (read_ok es) c ≡ ok d
      → verify_items w keys' idx (read_ok fs) c' ≡ ok d'
      → d.last_hash ≡ d'.last_hash
      → (AllAgree es fs × (c.last_hash ≡ c'.last_hash))
        ⊎ MacCollides w (authenticated w keys idx es c) (authenticated w keys' idx fs c')
  unfolding verify_items authenticated
  chain-binds keys keys' idx [] [] c c' d d' m n hc hc' l h k same = inl (
    tt,
    ap (λ (t : Chain). t.last_hash) (ok-injective c d h)
        ∙ same
        ∙ sym (ap (λ (t : Chain). t.last_hash) (ok-injective c' d' k)),
  )
  chain-binds keys keys' idx [] (f ∷ fs) c c' d d' m n hc hc' l h k same = absurd (omega arith)
  chain-binds keys keys' idx (e ∷ es) [] c c' d d' m n hc hc' l h k same = absurd (omega arith)
  chain-binds keys keys' idx (e ∷ es) (f ∷ fs) c c' d d' (me, ms) (ne, ns) hc hc' l h k same =
      let (c1, h0, h1) = returned (verify_event w keys idx e c) _ d h in
      let (c1', k0, k1) = returned (verify_event w keys' idx f c') _ d' k in
      let x = verify_event-IsLink w keys idx e c c1 h0 in
      let y = verify_event-IsLink w keys' idx f c' c1' k0 in
      rw (x.has_key, y.has_key, h0, k0)
        (elim (chain-binds keys keys' (idx + 1) es fs c1 c1' d d' ms ns
          (event_hash-IsDigest w e.v _ _ _ _ _ _ _ x.hashed)
          (event_hash-IsDigest w f.v _ _ _ _ _ _ _ y.hashed) (omega arith) h1 k1 same) [
            | inl (rest, q) ↦ elim (link-binds keys keys' idx e f c c1 c' c1' me ne hc hc' x y q) [
              | inl (a, r) ↦ inl ((a, rest), r)
              | inr (differ, one) ↦ inr (here differ one)
            ]
            | inr z ↦ inr (later z)
          ])

-- ===== src/Event/Message.antt =====
-- What the version 2 hash of src/lib.rs authenticates: the fields can be read off the message.
use sovereign_ledger.Base.{
  ℕ, ◌≡◌, ◌≢◌, ◌<◌, ◌^◌, ◌%◌, refl, sym, ◌∙◌, ◌⊎◌, inl, inr, List, ◌++◌, arith, length,
  append-injective,
}
use sovereign_ledger.Base.Bytes.{
  codes, le_bytes, length-le_bytes, le_bytes-IsBytes, le_bytes-injective, bytes-cases,
}
use sovereign_ledger.Crypto.{Bytes, IsDigest, Collides, hash_size}
use sovereign_ledger.Crates.{Crates}
use sovereign_ledger.Event.{zero_hash, message, event_hash_v2}

-- Messages with their keys, the key first, under HMAC.
abbrev pub MacCollides : Crates → List (Bytes × Bytes) → List (Bytes × Bytes) → Type 0
MacCollides w = Collides (λ p. p.1) (λ p. w.hmac.mac p.0 p.1)

-- The fields of an entry that the hash covers, and the hash that they follow.
pub record Fields : Type 0 where
  pub prev_hash : Bytes
  pub seq : ℕ
  pub ts : ℕ
  pub event_type : Bytes
  pub body : Bytes

pub record InBounds (f : Fields) : Type 0 where
  pub prev_hash : length f.prev_hash ≡ hash_size
  pub seq : f.seq < 2 ^ 64
  pub ts : f.ts < 2 ^ 64
  pub event_type : length f.event_type < 2 ^ 32
  pub body : length f.body < 2 ^ 64

abbrev pub message_of : Fields → Bytes
message_of f = message f.prev_hash f.seq f.ts f.event_type f.body

word :
    (w a b : ℕ) (xs ys : Bytes)
    → a < 256 ^ w
    → b < 256 ^ w
    → le_bytes w a ++ xs ≡ le_bytes w b ++ ys
    → (a ≡ b) × (xs ≡ ys)
word w a b xs ys h k e =
    let (p, q) =
      append-injective (le_bytes w a) (le_bytes w b)
        (length-le_bytes w a ∙ sym (length-le_bytes w b)) e in
    (le_bytes-injective w a b h k p, q)

-- No two field values share a message, when the event type is shorter than 4 GiB and the other fields
-- have the sizes of their types.
pub message-injective :
    (f g : Fields) → InBounds f → InBounds g → message_of f ≡ message_of g → f ≡ g
unfolding message
message-injective f g h k e =
    let (tag, e) = append-injective (codes "SL2") (codes "SL2") refl e in
    let (same_prev, e) =
      append-injective f.prev_hash g.prev_hash (h.prev_hash ∙ sym k.prev_hash) e in
    let (same_seq, e) = word 8 f.seq g.seq _ _ h.seq k.seq e in
    let (same_ts, e) = word 8 f.ts g.ts _ _ h.ts k.ts e in
    let (size, e) =
      word 4 (length f.event_type % 2 ^ 32) (length g.event_type % 2 ^ 32) _ _ (omega arith)
        (omega arith) e in
    let (same_type, e) =
      append-injective f.event_type g.event_type (omega (arith, h.event_type, k.event_type, size))
        e in
    let (size, same_body) = word 8 (length f.body) (length g.body) f.body g.body h.body k.body e in
    λ i. record {
      prev_hash = same_prev i;
      seq = same_seq i;
      ts = same_ts i;
      event_type = same_type i;
      body = same_body i;
    }

-- Two entries with one version 2 hash, under whatever keys, have the same fields, or their messages
-- differ and have one MAC.
pub event_hash_v2-binds :
    (w : Crates) (f g : Fields) (key other_key : Bytes)
    → InBounds f
    → InBounds g
    → event_hash_v2 w f.prev_hash f.seq f.ts f.event_type f.body key
      ≡ event_hash_v2 w g.prev_hash g.seq g.ts g.event_type g.body other_key
    → (f ≡ g)
      ⊎ ((message_of f ≢ message_of g)
          × (w.hmac.mac key (message_of f) ≡ w.hmac.mac other_key (message_of g)))
unfolding event_hash_v2
event_hash_v2-binds w f g key other_key h k e = elim (bytes-cases (message_of f) (message_of g)) [
  | inl same ↦ inl (message-injective f g h k same)
  | inr differ ↦ inr (differ, e)
]

pub zero_hash-IsDigest : IsDigest zero_hash
zero_hash-IsDigest = record {
  size = length-le_bytes hash_size 0;
  bytes = le_bytes-IsBytes hash_size 0;
}

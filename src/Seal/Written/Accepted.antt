-- ===== src/Seal/Written/Accepted.antt =====
-- What src/lib.rs gathers and signs for a segment, before the tests of `verify_public` in src/seal.rs.
use sovereign_ledger.Base.{
  ℕ, suc, ◌+◌, ◌-◌, ◌%◌, ◌^◌, ◌<◌, ◌≡◌, refl, ◌∙◌, ap, subst, Bool, true, false, not, ◌&&◌, inl,
  inr, ◌⊎◌, Option, some, none, List, [], ◌∷◌, All, arith, length, ◌==◌, get_elem?,
}
use sovereign_ledger.Base.Bytes.{bytes_eq, bytes_eq_self, is_empty}
use sovereign_ledger.Crypto.{Bytes, IsDigest}
use sovereign_ledger.Crates.{Crates, Event, SealRecord}
use sovereign_ledger.Error.{ok, ok_or, ok-injective, returned}
use sovereign_ledger.Event.{
  format_version, zero_hash, entry_key, event_hash, event_hash_v2, decode_hash, segment_key,
}
use sovereign_ledger.Ledger.{Ledger, next}
use sovereign_ledger.Ledger.Close.{Segment, has_epoch, last_leaf, unsigned}
use sovereign_ledger.Ledger.Entry.{decode_hash-encode}
use sovereign_ledger.Merkle.{mth}
use sovereign_ledger.Seal.{seal_payload}
use sovereign_ledger.Seal.Public.{
  Signatures, Public, check_anchor, segment_hashes, last_of, check_sealed, verify_signature,
}
use sovereign_ledger.Seal.Written.Chained.{IsChained, hashes}
use sovereign_ledger.Seal.Written.Gather.{IsGathered}
use sovereign_ledger.Seal.Written.Record.{signed, verify_signature-ed25519}
use sovereign_ledger.Seal.Written.Revealed.{IsRevealed, revealed_key-has_epoch}
use sovereign_ledger.Anchor.Ed25519.{
  Ed25519, ed25519_scheme, ed25519_sign, public_key_hex, ed25519_signer,
}

module _ (w : Crates) (g : Signatures) where
  entry_key-IsDigest :
      (keys : List Bytes) (epoch seals : ℕ) (key : Bytes)
      → entry_key w keys epoch seals format_version ≡ ok key
      → IsDigest key
  unfolding entry_key segment_key
  entry_key-IsDigest keys epoch seals key h =
      let (base, found, h) = returned (ok_or (get_elem? keys epoch) _) _ key h in
      subst IsDigest (ok-injective _ key h) (w.hmac.mac-IsDigest base _)

  event_hash-3 :
      (prev : Bytes) (v seq ts : ℕ) (event_type body key : Bytes)
      → v ≡ format_version
      → event_hash w v prev seq ts event_type body key
        ≡ ok (event_hash_v2 w prev seq ts event_type body key)
  unfolding event_hash
  event_hash-3 prev v seq ts event_type body key h = rw h refl

  -- The hashes that the verifier recomputes are those of the chain.
  pub segment_hashes-IsChained :
      (seal : SealRecord) (keys : List Bytes) (seals : ℕ) (prev : Bytes) (n : ℕ) (es : List Event)
      (last : Bytes) (c : IsChained w keys seals prev n es last)
      → All (IsRevealed w keys seals) seal.revealed
      → All (λ e. has_epoch e.epoch seal.revealed ≡ true) es
      → segment_hashes w g seal prev es ≡ ok (hashes w keys seals prev n es last c)
  unfolding segment_hashes hashes
  segment_hashes-IsChained seal keys seals prev n [] last c r u = refl
  segment_hashes-IsChained seal keys seals prev n (e ∷ es) last (link, c) r (u, us) =
      rw
        (
          revealed_key-has_epoch w keys seals seal.revealed e.epoch link.key r link.has_key u,
          decode_hash-encode w link.key
              (entry_key-IsDigest keys e.epoch seals link.key link.has_key),
          event_hash-3 prev e.v e.seq e.ts e.event_type e.body link.key link.version,
          link.hashed,
          link.stored,
          bytes_eq_self (w.hex.encode link.hash),
          segment_hashes-IsChained seal keys seals link.hash (n + 1) es last c r us,
        )
        refl

  last_of-hashes :
      (keys : List Bytes) (seals : ℕ) (prev : Bytes) (n : ℕ) (es : List Event) (last : Bytes)
      (c : IsChained w keys seals prev n es last)
      → last_of w g prev (hashes w keys seals prev n es last c) ≡ last
  unfolding hashes
  last_of-hashes keys seals prev n [] last c = c.0
  last_of-hashes keys seals prev n (e ∷ es) last (link, c) =
      last_of-hashes keys seals link.hash (n + 1) es last c

  length-hashes :
      (keys : List Bytes) (seals : ℕ) (prev : Bytes) (n : ℕ) (es : List Event) (last : Bytes)
      (c : IsChained w keys seals prev n es last)
      → length (hashes w keys seals prev n es last c) ≡ length es
  unfolding hashes
  length-hashes keys seals prev n [] last c = refl
  length-hashes keys seals prev n (e ∷ es) last (link, c) =
      ap suc (length-hashes keys seals link.hash (n + 1) es last c)

  last_leaf-last_of : (h : Bytes) (xs : List Bytes) → last_of w g h xs ≡ last_leaf h xs
  last_leaf-last_of h [] = refl
  last_leaf-last_of h (x ∷ xs) = last_leaf-last_of x xs

  tip_same :
      (keys : List Bytes) (seals : ℕ) (prev : Bytes) (n : ℕ) (e : Event) (es : List Event)
      (last : Bytes) (c : IsChained w keys seals prev n (e ∷ es) last)
      → last_of w g prev (hashes w keys seals prev n (e ∷ es) last c)
        ≡ last_leaf zero_hash (hashes w keys seals prev n (e ∷ es) last c)
  unfolding hashes
  tip_same keys seals prev n e es last (link, c) =
      last_leaf-last_of link.hash (hashes w keys seals link.hash (n + 1) es last c)

seal_payload-signed : (r : SealRecord) (sig : Bytes) → seal_payload r ≡ seal_payload (signed r sig)
unfolding seal_payload
seal_payload-signed r sig = refl

module _ (w : Crates) (g : Signatures) (d : Ed25519 g) (seed : Bytes) where
  -- The payload that is stored is the canonical one, and the signature over it verifies.
  payload_tests :
      (r : SealRecord) (sig : Bytes)
      → r.scheme ≡ ed25519_scheme
      → r.public_key ≡ public_key_hex w g d seed
      → sig ≡ ed25519_sign w g d seed (seal_payload r)
      → ((not (is_empty (seal_payload r))
            && not (bytes_eq (seal_payload r) (seal_payload (signed r sig))))
          ≡ false)
        × (verify_signature w g r.scheme r.public_key sig (seal_payload (signed r sig)) ≡ ok true)
  unfolding seal_payload
  payload_tests r sig hs hk hg =
      let q = seal_payload-signed r sig in
      (
        subst (λ t. (not (is_empty (seal_payload r)) && not (bytes_eq (seal_payload r) t)) ≡ false)
            q (rw (bytes_eq_self (seal_payload r)) (and_false (not (is_empty (seal_payload r))))),
        subst (λ t. verify_signature w g r.scheme r.public_key sig t ≡ ok true) q
            (rw (hs, hk, hg) (verify_signature-ed25519 w g d seed (seal_payload r))),
      )
    where
      and_false : (x : Bool) → (x && not true) ≡ false
      and_false true = refl
      and_false false = refl

module _ (w : Crates) (g : Signatures) (d : Ed25519 g) (seed : Bytes) (l : Ledger)
    (modern : l.legacy_segment0 ≡ false) (room : l.sealed_through + 1 < 2 ^ 64) where
  -- The open segment of the verifier is the one that the handle has open.
  pub record IsOpen (s : Public) (prev : Bytes) (es : List Event) : Type 0 where
    pub full : 0 < length es
    pub seals_seen : s.seals_seen ≡ l.seals_seen
    pub buffer : s.buffer ≡ es
    pub segment_start : s.segment_start ≡ l.sealed_through + 1
    pub chained : IsChained w l.keys l.seals_seen prev (l.sealed_through + 1) es l.last_hash
    pub count : l.sealed_through + 1 + length es ≡ l.seq + 1
    pub fits : l.seq < 2 ^ 64
    pub anchor :
        (s.anchor_id ≡ none) ⊎ (s.anchor_id ≡ some (ed25519_scheme, public_key_hex w g d seed))

  abbrev pub empty : Segment
  empty = record { leaves = []; epochs = []; prev_seal = []; has_nonseal = false }

  abbrev pub closing : Segment → SealRecord
  closing seg =
      let r = unsigned w l seg (ed25519_signer w g d seed) (public_key_hex w g d seed) in
      signed r (ed25519_sign w g d seed (seal_payload r))

  -- The seal is accepted for the segment.
  pub check_sealed-closing :
      (s : Public) (prev : Bytes) (es : List Event) (seg : Segment) (i : IsOpen s prev es)
      → IsGathered w l modern room es
          (hashes w l.keys l.seals_seen prev (l.sealed_through + 1) es l.last_hash i.chained)
          empty
          seg
      → s.prev_seal_hash ≡ seg.prev_seal
      → check_sealed w g (closing seg) s ≡ ok tt
  unfolding check_sealed check_anchor
  check_sealed-closing s prev [] seg i k p = absurd (omega (arith, i.full))
  check_sealed-closing s prev (first ∷ es) seg i k p =
      let n = l.sealed_through + 1 in
      let seal = closing seg in
      let hs = hashes w l.keys l.seals_seen prev n (first ∷ es) l.last_hash i.chained in
      let order : (l.seals_seen == s.seals_seen) ≡ true = ground (arith, i.seals_seen) in
      let previous : bytes_eq seg.prev_seal s.prev_seal_hash ≡ true =
        rw p (bytes_eq_self seg.prev_seal) in
      let starts : (next l.sealed_through == s.segment_start) ≡ true =
        ground (arith, i.segment_start, room) in
      let ends : (l.seq == (s.segment_start + length (first ∷ es) - 1) % 2 ^ 64) ≡ true =
        ends_at s.segment_start (length es) i.segment_start i.count i.fits in
      let decoded : decode_hash w first.prev_hash ≡ some prev =
        ap (decode_hash w) i.chained.0.prev_hash ∙ decode_hash-encode w prev i.chained.0.digest in
      let recomputed =
        segment_hashes-IsChained w g seal l.keys l.seals_seen prev n (first ∷ es) l.last_hash
          i.chained k.disclosed.revealed k.used in
      let root : bytes_eq (w.hex.encode (mth w.sha hs)) (w.hex.encode (mth w.sha seg.leaves))
          ≡ true =
        rw k.leaves (bytes_eq_self (w.hex.encode (mth w.sha hs))) in
      let tip : bytes_eq (w.hex.encode (last_of w g prev hs))
            (w.hex.encode (last_leaf zero_hash seg.leaves))
          ≡ true =
        rw (k.leaves, tip_same w g l.keys l.seals_seen prev n first es l.last_hash i.chained)
          (bytes_eq_self (w.hex.encode (last_leaf zero_hash hs))) in
      let anchored : check_anchor seal s.anchor_id ≡ true =
        same_anchor seal s.anchor_id refl refl i.anchor in
      let r = unsigned w l seg (ed25519_signer w g d seed) (public_key_hex w g d seed) in
      let sig = ed25519_sign w g d seed (seal_payload r) in
      let (canonical, valid) = payload_tests w g d seed r sig refl refl refl in
      rw
        (
          order, previous, i.buffer, starts, ends, decoded, recomputed, root, tip, anchored,
          canonical, valid,
        )
        refl
    where
      same_anchor :
          (seal : SealRecord) (a : Option (Bytes × Bytes))
          → seal.scheme ≡ ed25519_scheme
          → seal.public_key ≡ public_key_hex w g d seed
          → (a ≡ none) ⊎ (a ≡ some (ed25519_scheme, public_key_hex w g d seed))
          → check_anchor seal a ≡ true
      same_anchor seal a hs hk (inl e) = rw e refl
      same_anchor seal a hs hk (inr e) =
          rw (e, hs, hk, bytes_eq_self ed25519_scheme, bytes_eq_self (public_key_hex w g d seed))
            refl

      ends_at :
          (start k : ℕ)
          → start ≡ l.sealed_through + 1
          → l.sealed_through + 1 + suc k ≡ l.seq + 1
          → l.seq < 2 ^ 64
          → (l.seq == (start + suc k - 1) % 2 ^ 64) ≡ true
      ends_at start k q c f = ground arith

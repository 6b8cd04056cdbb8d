-- ===== src/Ledger/Link.antt =====
-- What `verify` of src/lib.rs has established of an entry that it passes.
use sovereign_ledger.Base.{
  ℕ, ◌≡◌, refl, ◌∙◌, ap, Bool, true, false, not, ◌||◌, ◌⊎◌, inl, inr, List, arith, ◌==◌,
  if◌then◌else◌, ◌≢◌, subst,
}
use sovereign_ledger.Base.Bytes.{bytes_eq, bytes_eq_iff}
use sovereign_ledger.Crypto.{Bytes, IsDigest}
use sovereign_ledger.Crates.{Crates, Event}
use sovereign_ledger.Error.{Error, ok, err, returned, fail_if-then, ok-injective, ok_or}
use sovereign_ledger.Event.{entry_key, event_hash, event_hash_v1, event_hash_v2, decode_hash}
use sovereign_ledger.Ledger.{next}
use sovereign_ledger.Ledger.Read.{Chain, note_event, check_link, check_seal, verify_event}

picked :
    (a b c : Bool) (x y : Bytes) (e : Error) (hash : Bytes)
    → (if a then ok x else if b then ok y else if c then ok y else err e) ≡ ok hash
    → ((a ≡ true) × (x ≡ hash)) ⊎ (y ≡ hash)
picked true b c x y e hash h = inl (refl, ok-injective x hash h)
picked false true c x y e hash h = inr (ok-injective y hash h)
picked false false true x y e hash h = inr (ok-injective y hash h)
picked false false false x y e hash h = ground arith

module _ (w : Crates) where
  pub record IsLink (keys : List Bytes) (idx : ℕ) (event : Event) (c d : Chain) : Type 0 where
    pub key : Bytes
    pub has_key : entry_key w keys event.epoch (note_event event c).seals_seen event.v ≡ ok key
    pub hashed :
        event_hash w event.v c.last_hash event.seq event.ts event.event_type event.body key
        ≡ ok d.last_hash
    pub hash : event.hash ≡ w.hex.encode d.last_hash
    pub seq : event.seq ≡ next idx

  check_link-tests :
      (keys : List Bytes) (idx : ℕ) (event : Event) (c : Chain) (expected : Bytes)
      → check_link w keys idx event c ≡ ok expected
      → (key : Bytes) × (entry_key w keys event.epoch c.seals_seen event.v ≡ ok key)
        × (event_hash w event.v c.last_hash event.seq event.ts event.event_type event.body key
            ≡ ok expected)
        × (event.hash ≡ w.hex.encode expected)
        × (event.seq ≡ next idx)
  unfolding check_link
  check_link-tests keys idx event c expected h =
      let (key, k, h) = returned (entry_key w keys event.epoch c.seals_seen event.v) _ expected h in
      let (prev, p, h) = returned (ok_or (decode_hash w event.prev_hash) _) _ expected h in
      let (seq, h) =
        fail_if-then (not (bytes_eq prev c.last_hash) || not (event.seq == next idx)) _ _ h in
      let (hash, q, h) =
        returned
          (event_hash w event.v c.last_hash event.seq event.ts event.event_type event.body key) _
          expected h in
      let (tested, h) = fail_if-then (not (bytes_eq event.hash (w.hex.encode hash))) _ _ h in
      let e = ok-injective hash expected h in
      let written : event.hash ≡ w.hex.encode hash =
        ground (arith, bytes_eq_iff event.hash (w.hex.encode hash)) in
      let numbered : event.seq ≡ next idx = ground arith in
      (key, k, q ∙ ap ok e, written ∙ ap w.hex.encode e, numbered)

  pub verify_event-IsLink :
      (keys : List Bytes) (idx : ℕ) (event : Event) (c d : Chain)
      → verify_event w keys idx event c ≡ ok d
      → IsLink keys idx event c d
  unfolding verify_event note_event
  verify_event-IsLink keys idx event c d h =
      let c0 = note_event event c in
      let (expected, e, h) = returned (check_link w keys idx event c0) _ d h in
      let (t, s, h) = returned (check_seal w keys idx event c0) _ d h in
      let (key, known, q, written, numbered) = check_link-tests keys idx event c0 expected e in
      let last : expected ≡ d.last_hash = ap (λ (x : Chain). x.last_hash) (ok-injective _ d h) in
      record {
        key = key;
        has_key = known;
        hashed = q ∙ ap ok last;
        hash = written ∙ ap w.hex.encode last;
        seq = numbered;
      }

  pub event_hash-IsDigest :
      (v : ℕ) (prev : Bytes) (seq ts : ℕ) (event_type body key hash : Bytes)
      → event_hash w v prev seq ts event_type body key ≡ ok hash
      → IsDigest hash
  unfolding event_hash event_hash_v1 event_hash_v2
  event_hash-IsDigest v prev seq ts event_type body key hash h =
      elim (picked (v == 1) (v == 2) (v == 3) _ _ (Error.unsupported_version v) hash h) [
        | inl (t, e) ↦ subst IsDigest e (w.sha.digest-IsDigest _)
        | inr e ↦ subst IsDigest e (w.hmac.mac-IsDigest _ _)
      ]

  -- Behind version 1, there is one message format.
  pub event_hash-v2 :
      (v : ℕ) (prev : Bytes) (seq ts : ℕ) (event_type body key hash : Bytes)
      → v ≢ 1
      → event_hash w v prev seq ts event_type body key ≡ ok hash
      → event_hash_v2 w prev seq ts event_type body key ≡ hash
  unfolding event_hash
  event_hash-v2 v prev seq ts event_type body key hash ne h =
      elim (picked (v == 1) (v == 2) (v == 3) _ _ (Error.unsupported_version v) hash h) [
        | inl (t, e) ↦ absurd (ne (ground arith))
        | inr e ↦ e
      ]

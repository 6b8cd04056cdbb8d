-- ===== src/Seal/Written/Chained.antt =====
-- The entries of a segment that src/lib.rs wrote: each continues the chain under the key of its epoch.
use sovereign_ledger.Base.{
  ℕ, zero, suc, ◌+◌, ◌≡◌, refl, sym, ◌∙◌, ap, subst, Bool, true, false, ◌&&◌, ◌==◌, if◌then◌else◌,
  some, List, [], ◌∷◌, ◌++◌, arith, length, get_elem?, inl, inr, Option-cases,
}
use sovereign_ledger.Crypto.{Bytes, IsDigest}
use sovereign_ledger.Crates.{Crates, Event}
use sovereign_ledger.Error.{ok, err, Error}
use sovereign_ledger.Event.{format_version, entry_key, event_hash_v2, decode_hash}
use sovereign_ledger.Ledger.{Ledger}
use sovereign_ledger.Ledger.Write.{entry_version}
use sovereign_ledger.Ledger.Entry.{IsNext, decode_hash-encode}

module _ (w : Crates) (keys : List Bytes) (seals : ℕ) where
  -- Entry `n`, behind a hash.
  pub record IsLinked (prev : Bytes) (n : ℕ) (e : Event) : Type 0 where
    pub hash : Bytes
    pub key : Bytes
    pub digest : IsDigest prev
    pub version : e.v ≡ format_version
    pub seq : e.seq ≡ n
    pub has_key : entry_key w keys e.epoch seals format_version ≡ ok key
    pub prev_hash : e.prev_hash ≡ w.hex.encode prev
    pub hashed : event_hash_v2 w prev e.seq e.ts e.event_type e.body key ≡ hash
    pub stored : e.hash ≡ w.hex.encode hash

  -- Entries from `n` on, from one hash to another.
  abbrev pub IsChained : Bytes → ℕ → List Event → Bytes → Type 0
  IsChained prev n [] last = (prev ≡ last) × IsDigest last
  IsChained prev n (e ∷ es) last = (link : IsLinked prev n e) × IsChained link.hash (n + 1) es last

  unfoldable pub hashes :
      (prev : Bytes) (n : ℕ) (es : List Event) (last : Bytes)
      → IsChained prev n es last
      → List Bytes
  hashes prev n [] last c = []
  hashes prev n (e ∷ es) last (link, c) = link.hash ∷ hashes link.hash (n + 1) es last c

  pub IsLinked-IsDigest :
      (prev : Bytes) (n : ℕ) (e : Event) (link : IsLinked prev n e) → IsDigest link.hash
  unfolding event_hash_v2
  IsLinked-IsDigest prev n e link = subst IsDigest link.hashed (w.hmac.mac-IsDigest link.key _)

  pub stored_hash :
      (prev : Bytes) (n : ℕ) (e : Event) (link : IsLinked prev n e)
      → decode_hash w e.hash ≡ some link.hash
  stored_hash prev n e link =
      ap (decode_hash w) link.stored
      ∙ decode_hash-encode w link.hash (IsLinked-IsDigest prev n e link)

  -- The same link, at a hash and a number that are equal.
  abbrev pub relinked :
      (prev mid : Bytes) (n m : ℕ) (e : Event)
      → prev ≡ mid
      → n ≡ m
      → IsLinked mid m e
      → IsLinked prev n e
  relinked prev mid n m e p q link = record {
    hash = link.hash;
    key = link.key;
    digest = subst IsDigest (sym p) link.digest;
    version = link.version;
    seq = link.seq ∙ sym q;
    has_key = link.has_key;
    prev_hash = link.prev_hash ∙ ap w.hex.encode (sym p);
    hashed = ap (λ t. event_hash_v2 w t e.seq e.ts e.event_type e.body link.key) p ∙ link.hashed;
    stored = link.stored;
  }

  -- One more entry behind a chain.
  pub IsChained-snoc :
      (prev : Bytes) (n : ℕ) (es : List Event) (mid : Bytes) (e : Event)
      → IsChained prev n es mid
      → (link : IsLinked mid (n + length es) e) → IsChained prev n (es ++ e ∷ []) link.hash
  IsChained-snoc prev n [] mid e (same, d) link =
      let q : n ≡ n + 0 = omega arith in
      (relinked prev mid n (n + 0) e same q link, (refl, IsLinked-IsDigest mid (n + 0) e link))
  IsChained-snoc prev n (x ∷ es) mid e (first, c) link =
      let q : n + 1 + length es ≡ n + suc (length es) = omega arith in
      (
        first,
        IsChained-snoc first.hash (n + 1) es mid e c
            (relinked mid mid (n + 1 + length es) (n + suc (length es)) e refl q link),
      )

module _ (w : Crates) where
  get_elem?-append :
      (xs ys : List Bytes) (i : ℕ) (x : Bytes)
      → get_elem? xs i ≡ some x
      → get_elem? (xs ++ ys) i ≡ some x
  get_elem?-append [] ys i x h = absurd (ground arith)
  get_elem?-append (y ∷ xs) ys zero x h = h
  get_elem?-append (y ∷ xs) ys (suc i) x h = get_elem?-append xs ys i x h

  pub entry_key-append :
      (keys more : List Bytes) (epoch seals version : ℕ) (key : Bytes)
      → entry_key w keys epoch seals version ≡ ok key
      → entry_key w (keys ++ more) epoch seals version ≡ ok key
  unfolding entry_key
  entry_key-append keys more epoch seals version key h =
      elim (Option-cases (get_elem? keys epoch)) [
        | inl e ↦ absurd (not_ok _ key (rw e at h))
        | inr (base, e) ↦ rw (get_elem?-append keys more epoch base e) (rw e at h)
      ]
    where
      not_ok : (x : Error) (key : Bytes) → err x ≡ ok key → ⊥
      not_ok x key e = ground arith

  -- More keys change nothing.
  pub IsChained-keys :
      (keys more : List Bytes) (seals : ℕ) (prev : Bytes) (n : ℕ) (es : List Event) (last : Bytes)
      → IsChained w keys seals prev n es last
      → IsChained w (keys ++ more) seals prev n es last
  IsChained-keys keys more seals prev n [] last c = c
  IsChained-keys keys more seals prev n (e ∷ es) last (link, c) = (
    record {
      hash = link.hash;
      key = link.key;
      digest = link.digest;
      version = link.version;
      seq = link.seq;
      has_key = entry_key-append keys more e.epoch seals format_version link.key link.has_key;
      prev_hash = link.prev_hash;
      hashed = link.hashed;
      stored = link.stored;
    },
    IsChained-keys keys more seals link.hash (n + 1) es last c,
  )

  -- The entry that a ledger without a legacy segment writes.
  pub IsNext-IsLinked :
      (now : ℕ) (event_type body : Bytes) (l : Ledger) (e : Event) (hash : Bytes)
      → l.legacy_segment0 ≡ false
      → IsDigest l.last_hash
      → IsNext w now event_type body l e hash
      → (link : IsLinked w l.keys l.seals_seen l.last_hash (l.seq + 1) e) × (link.hash ≡ hash)
  IsNext-IsLinked now event_type body l e hash modern d n =
      let version : entry_version l ≡ format_version = rw modern (if-and (l.seals_seen == 0)) in
      (
        record {
          hash = hash;
          key = n.key;
          digest = d;
          version = ap (λ t. t.v) (sym n.entered) ∙ version;
          seq = ap (λ t. t.seq) (sym n.entered);
          has_key =
              subst (λ t. entry_key w l.keys t l.seals_seen format_version ≡ ok n.key)
                (ap (λ t. t.epoch) n.entered)
                (subst (λ t. entry_key w l.keys l.epoch l.seals_seen t ≡ ok n.key) version
                  n.has_key);
          prev_hash = ap (λ t. t.prev_hash) (sym n.entered);
          hashed =
              ap (λ (t : Event). event_hash_v2 w l.last_hash t.seq t.ts t.event_type t.body n.key)
                (sym n.entered)
              ∙ n.hashed;
          stored = ap (λ t. t.hash) (sym n.entered);
        },
        refl,
      )
    where
      if-and : (b : Bool) → (if b && false then 2 else format_version) ≡ format_version
      if-and true = refl
      if-and false = refl

-- ===== src/Seal/Written/Closing.antt =====
-- What `seal` of src/lib.rs signs for a ledger whose file `verify_public` of src/seal.rs passes.
use sovereign_ledger.Base.{
  ◌+◌, ◌-◌, ◌^◌, ◌<◌, ◌≡◌, refl, sym, ◌∙◌, ap, subst, not, Bool-cases, inl, inr, some, none,
  some-injective, List, [], ◌∷◌, ◌++◌, All, arith, length, ltb, ◌==◌, if-true, if-false,
}
use sovereign_ledger.Crypto.{Bytes}
use sovereign_ledger.Crates.{Crates, Event, SealRecord, IsEvent}
use sovereign_ledger.Error.{Error, Result, ok, err, returned, ok-injective, fail_if-then}
use sovereign_ledger.Ledger.{File, Ledger, next, iter}
use sovereign_ledger.Ledger.Binding.{read_ok}
use sovereign_ledger.Ledger.Close.{Segment, gather_event, gather, unsigned, seal_segment}
use sovereign_ledger.Ledger.Write.{contents}
use sovereign_ledger.Ledger.Written.{file_of, iter-file_of}
use sovereign_ledger.Seal.{sign_record}
use sovereign_ledger.Seal.Public.{Signatures}
use sovereign_ledger.Seal.Written.Accepted.{closing, empty}
use sovereign_ledger.Seal.Written.Chained.{hashes}
use sovereign_ledger.Seal.Written.Gather.{IsGathered, gather-closed, gather-IsGathered}
use sovereign_ledger.Seal.Written.Published.{Identity, IsPublished}
use sovereign_ledger.Seal.Written.Record.{sign_record-signed}
use sovereign_ledger.Anchor.Ed25519.{Ed25519, ed25519_scheme, public_key_hex, ed25519_signer}

module _ (w : Crates) where
  gather-append :
      (l : Ledger) (xs ys : List (Result Event)) (g h : Segment)
      → gather w l xs g ≡ ok h
      → gather w l (xs ++ ys) g ≡ gather w l ys h
  unfolding gather
  gather-append l [] ys g h p = ap (gather w l ys) (ok-injective g h p)
  gather-append l (x ∷ xs) ys g h p =
      let (event, q, p) = returned x _ h p in
      let (g1, r, p) = returned (gather_event w l event g) _ h p in
      rw (q, r) (gather-append l xs ys g1 h p)

  iter-file :
      (file : File) (es : List Event) (items : List (Result Event))
      → contents file ≡ file_of w es
      → All IsEvent es
      → iter w file ≡ ok items
      → read_ok es ≡ items
  unfolding iter
  iter-file none es items q a h = absurd (not_ok _ items h)
    where
      not_ok : (x : Error) (items : List (Result Event)) → err x ≡ ok items → ⊥
      not_ok x items e = ground arith
  iter-file (some bytes) es items q a h =
      ok-injective (read_ok es) items
        (sym (iter-file_of w es a) ∙ ap (λ t. iter w (some t)) (sym q) ∙ h)

read_ok-append : (xs ys : List Event) → read_ok (xs ++ ys) ≡ read_ok xs ++ read_ok ys
read_ok-append [] ys = refl
read_ok-append (x ∷ xs) ys = ap (λ t. ok x ∷ t) (read_ok-append xs ys)

pub All-append : (P : Event → Type 0) (xs ys : List Event) → All P xs → All P ys → All P (xs ++ ys)
All-append P [] ys a b = b
All-append P (x ∷ xs) ys (h, a) b = (h, All-append P xs ys a b)

epochs_fit : (es : List Event) → All IsEvent es → All (λ e. e.epoch < 2 ^ 32) es
epochs_fit [] h = tt
epochs_fit (e ∷ es) (h, hs) = (h.epoch, epochs_fit es hs)

module _ (w : Crates) (g : Signatures) (d : Ed25519 g) (seed : Bytes) where
  abbrev pub identity : Identity
  identity = (ed25519_scheme, public_key_hex w g d seed)

  module _ (l : Ledger) (file : File) (p : IsPublished w g identity l file)
      (room : l.sealed_through + 1 < 2 ^ 64) where
    abbrev gathered_hashes : List Bytes
    gathered_hashes =
        hashes w l.keys l.seals_seen p.prev (l.sealed_through + 1) p.buffer l.last_hash p.chained

    -- What the loop gathers from the file.
    gather-published :
        (seg : Segment) × (gather w l
            (read_ok (p.front ++ p.buffer))
            (empty w g d seed l p.modern room)
          ≡ ok seg)
        × IsGathered w l p.modern room p.buffer gathered_hashes
            (empty w g d seed l p.modern room)
            seg
    gather-published =
        let (seg, r, i) =
          gather-IsGathered w l p.modern room p.prev (l.sealed_through + 1) p.buffer l.last_hash
            (empty w g d seed l p.modern room) p.chained (omega arith) (omega (arith, p.count))
            (epochs_fit p.buffer p.buffer_events) (record { revealed = tt; ascending = tt }) in
        (
          seg,
          ap (λ t. gather w l t (empty w g d seed l p.modern room))
                (read_ok-append p.front p.buffer)
              ∙ gather-append w l (read_ok p.front) (read_ok p.buffer) _ _
                  (gather-closed w l p.modern room p.front [] _ p.closed)
              ∙ r,
          i,
        )

    -- A seal that is written is the record of the open segment, which is not empty.
    pub record IsClosing (r : SealRecord) : Type 0 where
      pub seg : Segment
      pub gathered :
          IsGathered w l p.modern room p.buffer gathered_hashes
            (empty w g d seed l p.modern room)
            seg
      pub closes : closing w g d seed l p.modern room seg ≡ r
      pub full : l.sealed_through < l.seq

    finished :
        (r r1 : SealRecord) (seg : Segment) (items : List (Result Event)) (pk : Bytes)
        → l.sealed_through < l.seq
        → iter w file ≡ ok items
        → gather w l items (empty w g d seed l p.modern room) ≡ ok seg
        → (ed25519_signer w g d seed).public_key ≡ ok pk
        → sign_record (unsigned w l seg (ed25519_signer w g d seed) pk) (ed25519_signer w g d seed)
          ≡ ok r1
        → ok (some r1) ≡ ok (some r)
        → IsClosing r
    finished r r1 seg items pk full read took has_pk signs h =
        let es = p.front ++ p.buffer in
        let same_items =
          iter-file w file es items p.written
            (All-append IsEvent p.front p.buffer p.front_events p.buffer_events) read in
        let (seg1, took1, i) = gather-published in
        let same_seg : seg1 ≡ seg = ok-injective seg1 seg (
          sym took1
          ∙ ap (λ t. gather w l t (empty w g d seed l p.modern room)) same_items
          ∙ took) in
        let same_pk = ok-injective (public_key_hex w g d seed) pk has_pk in
        let u = unsigned w l seg (ed25519_signer w g d seed) (public_key_hex w g d seed) in
        let same_r1 = ok-injective (closing w g d seed l p.modern room seg) r1 (
          sym (sign_record-signed w g d seed u)
          ∙ ap
              (λ t.
                sign_record (unsigned w l seg (ed25519_signer w g d seed) t)
                  (ed25519_signer w g d seed))
              same_pk
          ∙ signs) in
        record {
          seg = seg;
          gathered =
              subst
                (IsGathered w l p.modern room p.buffer gathered_hashes
                  (empty w g d seed l p.modern room))
                same_seg i;
          closes = same_r1 ∙ some-injective r1 r (ok-injective (some r1) (some r) h);
          full = full;
        }

    pub seal_segment-IsClosing :
        (r : SealRecord)
        → seal_segment w (ed25519_signer w g d seed) l file ≡ ok (some r)
        → IsClosing r
    unfolding seal_segment
    seal_segment-IsClosing r h =
        let (live, h) = fail_if-then l.compromised _ _ h in
        elim (Bool-cases (ltb l.seq (next l.sealed_through))) [
          | inl e ↦ absurd (not_some r (ok-injective none (some r) (sym (if-true _ _ _ e) ∙ h)))
          | inr e ↦
              let live1 : l.sealed_through < l.seq = ground (arith, room) in
              let h = sym (if-false _ _ _ e) ∙ h in
              let (items, read, h) = returned (iter w file) _ (some r) h in
              let (seg, took, h) =
                returned (gather w l items (empty w g d seed l p.modern room)) _ (some r) h in
              let (sized, h) =
                fail_if-then (not (length seg.leaves == next (l.seq - next l.sealed_through))) _ _
                  h in
              elim (Bool-cases (not seg.has_nonseal)) [
                | inl e1 ↦
                    absurd (not_some r (ok-injective none (some r) (sym (if-true _ _ _ e1) ∙ h)))
                | inr e1 ↦
                    let h = sym (if-false _ _ _ e1) ∙ h in
                    let u =
                      unsigned w l seg (ed25519_signer w g d seed) (public_key_hex w g d seed) in
                    let (r1, signs, h) =
                      returned (sign_record u (ed25519_signer w g d seed)) (λ x. ok (some x))
                        (some r) h in
                    finished r r1 seg items (public_key_hex w g d seed) live1 read took refl signs h
              ]
        ]
      where
        not_some : (r : SealRecord) → none ≡ some r → ⊥
        not_some r h = ground arith

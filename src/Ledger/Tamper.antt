-- ===== src/Ledger/Tamper.antt =====
-- Two files that `verify` of src/lib.rs passes and that end in one hash hold one sequence of entries.
use sovereign_ledger.Base.{
  ℕ, ◌+◌, ◌≡◌, sym, ◌∙◌, ap, subst, ◌⊎◌, inl, inr, List, [], ◌∷◌, arith, length, some,
  some-injective,
}
use sovereign_ledger.Crypto.{Bytes, IsDigest}
use sovereign_ledger.Crates.{Crates, Event}
use sovereign_ledger.Error.{Result, ok, returned, ok-injective}
use sovereign_ledger.Event.Message.{MacCollides, zero_hash-IsDigest}
use sovereign_ledger.Ledger.{Ledger, items, iter}
use sovereign_ledger.Ledger.Read.{
  Chain, chain_start, collect, verify_event, verify_items, verify, dump,
}
use sovereign_ledger.Text.{read_lines}
use sovereign_ledger.Ledger.Authenticated.{authenticated}
use sovereign_ledger.Ledger.Link.{verify_event-IsLink, event_hash-IsDigest}
use sovereign_ledger.Ledger.Binding.{AllAgree, AllModern, read_ok, chain-binds}

-- The hash that the last entry states.
abbrev pub tip : List Event → Bytes
tip [] = []
tip (e ∷ []) = e.hash
tip (e ∷ f ∷ es) = tip (f ∷ es)

collect-read_ok :
    (items : List (Result Event)) (es : List Event) → collect items ≡ ok es → items ≡ read_ok es
unfolding collect
collect-read_ok [] es h = ap read_ok (ok-injective [] es h)
collect-read_ok (item ∷ items) es h =
    let (e, p, h) = returned item _ es h in
    let (rest, q, h) = returned (collect items) _ es h in
    rw p (ap (λ t. ok e ∷ t) (collect-read_ok items rest q))
    ∙ ap read_ok (ok-injective (e ∷ rest) es h)

module _ (w : Crates) where
  -- The hash that `verify` ends with is the one that the last entry states.
  verify_items-tip :
      (keys : List Bytes) (idx : ℕ) (e : Event) (es : List Event) (c d : Chain)
      → verify_items w keys idx (read_ok (e ∷ es)) c ≡ ok d
      → (tip (e ∷ es) ≡ w.hex.encode d.last_hash) × IsDigest d.last_hash
  unfolding verify_items
  verify_items-tip keys idx e [] c d h =
      let (c1, h0, h1) = returned (verify_event w keys idx e c) _ d h in
      let x = verify_event-IsLink w keys idx e c c1 h0 in
      let q = ap (λ (t : Chain). t.last_hash) (ok-injective c1 d h1) in
      (
        x.hash ∙ ap w.hex.encode q,
        subst IsDigest q (event_hash-IsDigest w e.v _ _ _ _ _ _ _ x.hashed),
      )
  verify_items-tip keys idx e (f ∷ es) c d h =
      let (c1, h0, h1) = returned (verify_event w keys idx e c) _ d h in
      verify_items-tip keys (idx + 1) f es c1 d h1

  encode-injective :
      (a b : Bytes) → IsDigest a → IsDigest b → w.hex.encode a ≡ w.hex.encode b → a ≡ b
  encode-injective a b h k e =
      some-injective a b
        (sym (w.hex.decode-encode a h.bytes) ∙ ap w.hex.decode e ∙ w.hex.decode-encode b k.bytes)

  passed :
      (l : Ledger) (bytes : Bytes) (es : List Event)
      → verify w l (some bytes) ≡ ok tt
      → dump w (some bytes) ≡ ok es
      → (d : Chain) × (verify_items w l.keys 0 (read_ok es) chain_start ≡ ok d)
  unfolding verify dump iter
  passed l bytes es h k =
      let items_here = items w 0 (read_lines bytes) in
      let (d, v, t) = returned (verify_items w l.keys 0 items_here chain_start) _ tt h in
      (
        d,
        subst (λ x. verify_items w l.keys 0 x chain_start ≡ ok d) (collect-read_ok items_here es k)
            v,
      )

  -- Two files that `verify` passes, under whatever keys, with as many entries and one tip, agree entry
  -- by entry in all that the MAC covers and in the hash; or else there is at one place among the messages
  -- that `verify` authenticates in one file, and among those in the other, a pair that differs and has
  -- one MAC under the keys of the two entries. Entries of version 1 and event types of 4 GiB are left
  -- out.
  pub verify_binds_tip :
      (l l' : Ledger) (bytes bytes' : Bytes) (es fs : List Event)
      → verify w l (some bytes) ≡ ok tt
      → verify w l' (some bytes') ≡ ok tt
      → dump w (some bytes) ≡ ok es
      → dump w (some bytes') ≡ ok fs
      → AllModern es
      → AllModern fs
      → length es ≡ length fs
      → tip es ≡ tip fs
      → AllAgree es fs
        ⊎ MacCollides w
            (authenticated w l.keys 0 es chain_start)
            (authenticated w l'.keys 0 fs chain_start)
  verify_binds_tip l l' bytes bytes' es fs h h' k k' m n size same =
      let (d, v) = passed l bytes es h k in
      let (d', v') = passed l' bytes' fs h' k' in bound es fs d d' m n size same v v'
    where
      bound :
          (es fs : List Event) (d d' : Chain)
          → AllModern es
          → AllModern fs
          → length es ≡ length fs
          → tip es ≡ tip fs
          → verify_items w l.keys 0 (read_ok es) chain_start ≡ ok d
          → verify_items w l'.keys 0 (read_ok fs) chain_start ≡ ok d'
          → AllAgree es fs
            ⊎ MacCollides w
                (authenticated w l.keys 0 es chain_start)
                (authenticated w l'.keys 0 fs chain_start)
      bound [] [] d d' m n size same v v' = inl tt
      bound [] (f ∷ fs) d d' m n size same v v' = absurd (omega arith)
      bound (e ∷ es) [] d d' m n size same v v' = absurd (omega arith)
      bound (e ∷ es) (f ∷ fs) d d' m n size same v v' =
          let (p, g) = verify_items-tip l.keys 0 e es chain_start d v in
          let (p', g') = verify_items-tip l'.keys 0 f fs chain_start d' v' in
          elim (chain-binds w l.keys l'.keys 0 (e ∷ es) (f ∷ fs) chain_start chain_start d d' m n
            zero_hash-IsDigest zero_hash-IsDigest size v v'
            (encode-injective d.last_hash d'.last_hash g g' (sym p ∙ same ∙ p'))) [
              | inl (a, q) ↦ inl a
              | inr z ↦ inr z
            ]

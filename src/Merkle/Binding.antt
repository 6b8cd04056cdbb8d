-- ===== src/Merkle/Binding.antt =====
-- What a root binds: two walks to one root start at one leaf and pass the same hashes, unless they
-- show two messages with one digest.
use sovereign_ledger.Base.{
  ℕ, zero, suc, ◌/◌, ◌%◌, ◌≡◌, ◌≢◌, refl, ◌⊎◌, inl, inr, List, [], ◌∷◌, ◌++◌, arith, ◌==◌, length,
  All, append-injective, Bool-cases,
}
use sovereign_ledger.Base.Bytes.{bytes-cases}
use sovereign_ledger.Crypto.{Bytes, Sha256, IsDigest, ShaCollides, here, later}
use sovereign_ledger.Merkle.{leaf_hash, node_hash, chain_border_right}
use sovereign_ledger.Merkle.Walk.{join, walk}
use sovereign_ledger.Merkle.Hashed.{
  leaf_message, node_message, join_message, border_messages, walk_messages,
}

tail_eq : (x y : ℕ) (xs ys : Bytes) → x ∷ xs ≡ y ∷ ys → xs ≡ ys
tail_eq x y xs ys e = ground arith

module _ (sha : Sha256) where
  -- Two messages that differ, with one digest.
  abbrev Clash : Bytes → Bytes → Type 0
  Clash a b = (a ≢ b) × (sha.digest a ≡ sha.digest b)

  -- Equal digests come from one message, or clash.
  pub digest-eq : (a b : Bytes) → sha.digest a ≡ sha.digest b → (a ≡ b) ⊎ Clash a b
  digest-eq a b e = elim (bytes-cases a b) [ inl p ↦ inl p | inr p ↦ inr (p, e) ]

  pub leaf_hash-eq :
      (a b : Bytes)
      → leaf_hash sha a ≡ leaf_hash sha b
      → (a ≡ b) ⊎ Clash (leaf_message a) (leaf_message b)
  unfolding leaf_hash
  leaf_hash-eq a b e = elim (digest-eq (0 ∷ a) (0 ∷ b) e) [
    | inl p ↦ inl (tail_eq 0 0 a b p)
    | inr c ↦ inr c
  ]

  pub node_hash-eq :
      (l r l' r' : Bytes)
      → IsDigest l
      → IsDigest l'
      → node_hash sha l r ≡ node_hash sha l' r'
      → ((l ≡ l') × (r ≡ r')) ⊎ Clash (node_message l r) (node_message l' r')
  unfolding node_hash
  node_hash-eq l r l' r' d d' e = elim (digest-eq (1 ∷ (l ++ r)) (1 ∷ (l' ++ r')) e) [
    | inl p ↦
        inl (
          append-injective l l' (omega (arith, d.size, d'.size))
            (tail_eq 1 1 (l ++ r) (l' ++ r') p))
    | inr c ↦ inr c
  ]

  node_hash-IsDigest : (l r : Bytes) → IsDigest (node_hash sha l r)
  unfolding node_hash
  node_hash-IsDigest l r = sha.digest-IsDigest (1 ∷ (l ++ r))

  -- Two walks that start and pass the same, or whose messages collide.
  abbrev Same : Bytes → Bytes → List Bytes → List Bytes → List Bytes → List Bytes → Type 0
  Same acc acc' hs hs' ms ms' = ((acc ≡ acc') × (hs ≡ hs')) ⊎ ShaCollides sha ms ms'

  Same-step :
      (acc acc' h h' x x' : Bytes) (hs hs' ms ms' : List Bytes)
      → ((acc ≡ acc') × (h ≡ h')) ⊎ Clash x x'
      → hs ≡ hs'
      → Same acc acc' (h ∷ hs) (h' ∷ hs') (x ∷ ms) (x' ∷ ms')
  Same-step acc acc' h h' x x' hs hs' ms ms' (inl (p, q)) e = inl (p, cc (q, e))
  Same-step acc acc' h h' x x' hs hs' ms ms' (inr (differ, same)) e = inr (here differ same)

  border-binds :
      (acc acc' : Bytes) (hs hs' : List Bytes)
      → length hs ≡ length hs'
      → All IsDigest hs
      → All IsDigest hs'
      → chain_border_right sha acc hs ≡ chain_border_right sha acc' hs'
      → Same acc acc' hs hs' (border_messages sha acc hs) (border_messages sha acc' hs')
  unfolding chain_border_right border_messages
  border-binds acc acc' [] [] l d d' e = inl (e, refl)
  border-binds acc acc' [] (h' ∷ hs') l d d' e = absurd (omega arith)
  border-binds acc acc' (h ∷ hs) [] l d d' e = absurd (omega arith)
  border-binds acc acc' (h ∷ hs) (h' ∷ hs') l (d, ds) (d', ds') e =
      elim (border-binds (node_hash sha h acc) (node_hash sha h' acc') hs hs' (omega arith) ds ds'
        e) [
          | inl (p, q) ↦ elim (node_hash-eq h acc h' acc' d d' p) [
            | inl (u, v) ↦ inl (v, cc (u, q))
            | inr (differ, same) ↦ inr (here differ same)
          ]
          | inr c ↦ inr (later c)
        ]

  join-IsDigest : (acc h : Bytes) (m : ℕ) → IsDigest (join sha acc h m)
  join-IsDigest acc h m = elim (Bool-cases (m % 2 == 0)) [
    | inl e ↦ rw e (node_hash-IsDigest acc h)
    | inr e ↦ rw e (node_hash-IsDigest h acc)
  ]

  join-eq :
      (acc acc' h h' : Bytes) (m : ℕ)
      → IsDigest acc
      → IsDigest acc'
      → IsDigest h
      → IsDigest h'
      → join sha acc h m ≡ join sha acc' h' m
      → ((acc ≡ acc') × (h ≡ h')) ⊎ Clash (join_message acc h m) (join_message acc' h' m)
  join-eq acc acc' h h' m a a' d d' e = elim (Bool-cases (m % 2 == 0)) [
    | inl t ↦ rw t (node_hash-eq acc h acc' h' a a' (rw t at e))
    | inr t ↦ rw t (elim (node_hash-eq h acc h' acc' d d' (rw t at e)) [
      | inl (p, q) ↦ inl (q, p)
      | inr c ↦ inr c
    ])
  ]

  pub walk-binds :
      (f : ℕ) (acc acc' : Bytes) (hs hs' : List Bytes) (m last : ℕ)
      → length hs ≡ length hs'
      → IsDigest acc
      → IsDigest acc'
      → All IsDigest hs
      → All IsDigest hs'
      → walk sha f acc hs m last ≡ walk sha f acc' hs' m last
      → Same acc acc' hs hs'
          (walk_messages sha f acc hs m last)
          (walk_messages sha f acc' hs' m last)
  unfolding walk walk_messages
  walk-binds zero acc acc' hs hs' m last l a a' d d' e = border-binds acc acc' hs hs' l d d' e
  walk-binds (suc f) acc acc' [] [] m last l a a' d d' e = inl (e, refl)
  walk-binds (suc f) acc acc' [] (h' ∷ hs') m last l a a' d d' e = absurd (omega arith)
  walk-binds (suc f) acc acc' (h ∷ hs) [] m last l a a' d d' e = absurd (omega arith)
  walk-binds (suc f) acc acc' (h ∷ hs) (h' ∷ hs') m last l a a' (d, ds) (d', ds') e =
      elim (Bool-cases (m == last)) [
        | inl t ↦ rw t (border-binds acc acc' (h ∷ hs) (h' ∷ hs') l (d, ds) (d', ds') (rw t at e))
        | inr t ↦
            rw t
              (elim (walk-binds f (join sha acc h m) (join sha acc' h' m) hs hs' (m / 2) (last / 2)
                (omega arith) (join-IsDigest acc h m) (join-IsDigest acc' h' m) ds ds'
                (rw t at e)) [
                  | inl (p, q) ↦
                      Same-step acc acc' h h' _ _ hs hs' _ _ (join-eq acc acc' h h' m a a' d d' p) q
                  | inr c ↦ inr (later c)
                ])
      ]

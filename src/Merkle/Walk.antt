-- ===== src/Merkle/Walk.antt =====
-- An inclusion proof read as one walk from the leaf to the root. The code's verifier cuts the proof
-- in an inner and a border part by bit operations on the index; here that is shown to be a walk that
-- halves the index and the last index until they meet.
use sovereign_ledger.Base.{
  ℕ, zero, suc, ◌+◌, ◌/◌, ◌%◌, ◌^◌, ◌≤◌, ◌<◌, ◌≡◌, refl, sym, ◌∙◌, ◌≢◌, ap, inl, inr, List, [], ◌∷◌,
  ◌++◌, arith, ◌==◌, if◌then◌else◌, length, take, drop, Bool-cases, ==_iff,
}
use sovereign_ledger.Base.Bits.{shr, diverge, ones_above, half-shr, double_half}
use sovereign_ledger.Crypto.{Bytes, Sha256}
use sovereign_ledger.Merkle.{node_hash, chain_inner_from, chain_inner, chain_border_right}
use native.Mathlib.Nat.{pow-suc, div-one, div-div-eq-div-mul}

module _ (sha : Sha256) where
  -- One level: the digit of the index says on which side the sibling stands.
  abbrev pub join : Bytes → Bytes → ℕ → Bytes
  join acc h m = if m % 2 == 0 then node_hash sha acc h else node_hash sha h acc

  -- A proof inside a full tree.
  unfoldable pub fold_bits : Bytes → List Bytes → ℕ → Bytes
  fold_bits acc [] m = acc
  fold_bits acc (h ∷ hs) m = fold_bits (join acc h m) hs (m / 2)

  unfoldable pub walk : ℕ → Bytes → List Bytes → ℕ → ℕ → Bytes
  walk zero acc hs m last = chain_border_right sha acc hs
  walk (suc f) acc [] m last = acc
  walk (suc f) acc (h ∷ hs) m last =
      let rest = walk f (join acc h m) hs (m / 2) (last / 2) in
      if m == last then chain_border_right sha acc (h ∷ hs) else rest

  pub shr-suc : (m i : ℕ) → shr m (i + 1) ≡ shr m i / 2
  shr-suc m i =
      let e : i + 1 ≡ suc i = omega arith in
      rw (e, pow-suc 2 i) (sym (div-div-eq-div-mul m (2 ^ i) 2))

  chain_inner_from-fold_bits :
      (i : ℕ) (acc : Bytes) (hs : List Bytes) (m : ℕ)
      → chain_inner_from sha i acc hs m ≡ fold_bits acc hs (shr m i)
  unfolding chain_inner_from fold_bits
  chain_inner_from-fold_bits i acc [] m = refl
  chain_inner_from-fold_bits i acc (h ∷ hs) m =
      chain_inner_from-fold_bits (i + 1) (join acc h (shr m i)) hs m
      ∙ ap (fold_bits (join acc h (shr m i)) hs) (shr-suc m i)

  pub chain_inner-fold_bits :
      (acc : Bytes) (hs : List Bytes) (m : ℕ) → chain_inner sha acc hs m ≡ fold_bits acc hs m
  unfolding chain_inner
  chain_inner-fold_bits acc hs m =
      chain_inner_from-fold_bits 0 acc hs m ∙ ap (fold_bits acc hs) (div-one m)

  -- The inner part, then the border: the walk.
  pub border-fold_bits :
      (f : ℕ) (acc : Bytes) (hs : List Bytes) (m last : ℕ)
      → diverge f m last ≤ length hs
      → chain_border_right sha
          (fold_bits acc (take (diverge f m last) hs) m)
          (drop (diverge f m last) hs)
        ≡ walk f acc hs m last
  unfolding diverge walk fold_bits
  border-fold_bits zero acc hs m last h = refl
  border-fold_bits (suc f) acc [] m last h = elim (Bool-cases (m == last)) [
    | inl e ↦ rw e (unfold chain_border_right in refl)
    | inr e ↦ absurd (ground arith)
  ]
  border-fold_bits (suc f) acc (x ∷ hs) m last h = elim (Bool-cases (m == last)) [
    | inl e ↦ rw e
    | inr e ↦ rw e (border-fold_bits f (join acc x m) hs (m / 2) (last / 2) (ground arith))
  ]

  pub fold_bits-snoc :
      (acc : Bytes) (hs : List Bytes) (h : Bytes) (m : ℕ)
      → fold_bits acc (hs ++ h ∷ []) m ≡ join (fold_bits acc hs m) h (shr m (length hs))
  unfolding fold_bits
  fold_bits-snoc acc [] h m = ap (join acc h) (sym (div-one m))
  fold_bits-snoc acc (x ∷ hs) h m =
      fold_bits-snoc (join acc x m) hs h (m / 2)
      ∙ ap (join (fold_bits (join acc x m) hs (m / 2)) h) (half-shr m (length hs))

  join-even : (acc h : Bytes) (p a : ℕ) → join acc h (2 ^ suc p + a) ≡ join acc h a
  join-even acc h p a = let e : (2 ^ suc p + a) % 2 ≡ a % 2 = omega (arith, pow-suc 2 p) in rw e

  -- A digit above the proof's length is not read.
  pub fold_bits_low :
      (p : ℕ) (acc : Bytes) (hs : List Bytes) (a : ℕ)
      → length hs ≤ p
      → fold_bits acc hs (2 ^ p + a) ≡ fold_bits acc hs a
  unfolding fold_bits
  fold_bits_low p acc [] a h = refl
  fold_bits_low zero acc (x ∷ hs) a h = absurd (omega arith)
  fold_bits_low (suc p) acc (x ∷ hs) a h =
      rw (join-even acc x p a, double_half p a)
        (fold_bits_low p (join acc x a) hs (a / 2) (omega arith))

  walk-nil : (f : ℕ) (acc : Bytes) (m last : ℕ) → walk f acc [] m last ≡ acc
  unfolding walk chain_border_right
  walk-nil zero acc m last = refl
  walk-nil (suc f) acc m last = refl

  pub border-snoc :
      (acc : Bytes) (hs : List Bytes) (h : Bytes)
      → chain_border_right sha acc (hs ++ h ∷ []) ≡ node_hash sha h (chain_border_right sha acc hs)
  unfolding chain_border_right
  border-snoc acc [] h = refl
  border-snoc acc (x ∷ hs) h = border-snoc (node_hash sha x acc) hs h

  -- Where the last index alone has the digit `p`, all of the proof is inner.
  pub walk_high :
      (p f : ℕ) (acc : Bytes) (hs : List Bytes) (m j : ℕ)
      → length hs ≡ suc p
      → p < f
      → m < 2 ^ p
      → j < 2 ^ p
      → walk f acc hs m (2 ^ p + j) ≡ fold_bits acc hs m
  unfolding walk fold_bits
  walk_high p zero acc hs m j l h hm hj = elim h [ ]
  walk_high p (suc f) acc [] m j l h hm hj = absurd (omega arith)
  walk_high zero (suc f) acc (x ∷ []) m j l h hm hj =
      ground (arith, walk-nil f (join acc x m) (m / 2) ((1 + j) / 2))
  walk_high zero (suc f) acc (x ∷ y ∷ hs) m j l h hm hj = absurd (omega arith)
  walk_high (suc p) (suc f) acc (x ∷ hs) m j l h hm hj = ground (
    arith,
    double_half p j,
    pow-suc 2 p,
    walk_high p f (join acc x m) hs (m / 2) (j / 2) (omega arith) (omega arith)
        (omega (arith, pow-suc 2 p)) (omega (arith, pow-suc 2 p)),
  )

  walk-stop :
      (f : ℕ) (acc : Bytes) (hs : List Bytes) (m last : ℕ)
      → m ≡ last
      → walk f acc hs m last ≡ chain_border_right sha acc hs
  unfolding walk
  walk-stop zero acc hs m last e = refl
  walk-stop (suc f) acc [] m last e = unfold chain_border_right in refl
  walk-stop (suc f) acc (x ∷ hs) m last e = rw ((==_iff m last).1 e)

  walk_both-stop :
      (f : ℕ) (acc : Bytes) (hs : List Bytes) (h : Bytes) (c a b : ℕ)
      → a ≡ b
      → walk f acc (hs ++ h ∷ []) (c + a) (c + b) ≡ node_hash sha h (walk f acc hs a b)
  walk_both-stop f acc hs h c a b e =
      walk-stop f acc (hs ++ h ∷ []) (c + a) (c + b) (omega arith)
      ∙ border-snoc acc hs h
      ∙ ap (node_hash sha h) (sym (walk-stop f acc hs a b e))

  walk-next :
      (f : ℕ) (acc x : Bytes) (hs : List Bytes) (m last : ℕ)
      → m ≢ last
      → walk (suc f) acc (x ∷ hs) m last ≡ walk f (join acc x m) hs (m / 2) (last / 2)
  unfolding walk
  walk-next f acc x hs m last ne = ground arith

  -- Where both have it, the last node of the proof is the left part of the tree.
  pub walk_both :
      (p f : ℕ) (acc : Bytes) (hs : List Bytes) (h : Bytes) (a b : ℕ)
      → length hs ≡ diverge f a b + ones_above f a b
      → a < 2 ^ p
      → b < 2 ^ p
      → walk f acc (hs ++ h ∷ []) (2 ^ p + a) (2 ^ p + b) ≡ node_hash sha h (walk f acc hs a b)
  unfolding diverge ones_above walk
  walk_both p zero acc hs h a b l ha hb = border-snoc acc hs h
  walk_both zero (suc f) acc hs h a b l ha hb = walk_both-stop (suc f) acc hs h 1 a b (omega arith)
  walk_both (suc p) (suc f) acc [] h a b l ha hb =
      walk_both-stop (suc f) acc [] h (2 ^ suc p) a b (ground arith)
  walk_both (suc p) (suc f) acc (x ∷ hs) h a b l ha hb = elim (Bool-cases (a == b)) [
    | inl e ↦ walk_both-stop (suc f) acc (x ∷ hs) h (2 ^ suc p) a b (ground arith)
    | inr e ↦
        rw
          (
            walk-next f acc x (hs ++ h ∷ []) (2 ^ suc p + a) (2 ^ suc p + b) (ground arith),
            walk-next f acc x hs a b (ground arith),
            join-even acc x p a,
            double_half p a,
            double_half p b,
          )
          (walk_both p f (join acc x a) hs h (a / 2) (b / 2) (ground arith)
            (omega (arith, pow-suc 2 p)) (omega (arith, pow-suc 2 p)))
  ]

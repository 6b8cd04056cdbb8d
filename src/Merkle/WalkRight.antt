-- ===== src/Merkle/WalkRight.antt =====
-- The walk that keeps the left siblings alone: `chain_inner_right` and `chain_border_right` of
-- src/merkle.rs, which rebuild the root of the older tree.
use sovereign_ledger.Base.{
  ℕ, zero, suc, ◌+◌, ◌/◌, ◌%◌, ◌^◌, ◌≤◌, ◌<◌, ◌≡◌, ◌≢◌, refl, sym, ◌∙◌, ap, inl, inr, List, [], ◌∷◌,
  ◌++◌, arith, ◌==◌, if◌then◌else◌, length, take, drop, Bool-cases, ==_iff,
}
use sovereign_ledger.Base.Bits.{shr, diverge, ones_above, half-shr, double_half}
use sovereign_ledger.Crypto.{Bytes, Sha256}
use sovereign_ledger.Merkle.{
  node_hash, chain_inner_right_from, chain_inner_right, chain_border_right,
}
use sovereign_ledger.Merkle.Walk.{shr-suc, border-snoc}
use native.Mathlib.Nat.{pow-suc, div-one}

module _ (sha : Sha256) where
  abbrev pub join_right : Bytes → Bytes → ℕ → Bytes
  join_right acc h m = if m % 2 == 1 then node_hash sha h acc else acc

  unfoldable pub fold_right_bits : Bytes → List Bytes → ℕ → Bytes
  fold_right_bits acc [] m = acc
  fold_right_bits acc (h ∷ hs) m = fold_right_bits (join_right acc h m) hs (m / 2)

  unfoldable pub walk_right : ℕ → Bytes → List Bytes → ℕ → ℕ → Bytes
  walk_right zero acc hs m last = chain_border_right sha acc hs
  walk_right (suc f) acc [] m last = acc
  walk_right (suc f) acc (h ∷ hs) m last =
      let rest = walk_right f (join_right acc h m) hs (m / 2) (last / 2) in
      if m == last then chain_border_right sha acc (h ∷ hs) else rest

  right_from-fold :
      (i : ℕ) (acc : Bytes) (hs : List Bytes) (m : ℕ)
      → chain_inner_right_from sha i acc hs m ≡ fold_right_bits acc hs (shr m i)
  unfolding chain_inner_right_from fold_right_bits
  right_from-fold i acc [] m = refl
  right_from-fold i acc (h ∷ hs) m =
      right_from-fold (i + 1) (join_right acc h (shr m i)) hs m
      ∙ ap (fold_right_bits (join_right acc h (shr m i)) hs) (shr-suc sha m i)

  pub chain_inner_right-fold :
      (acc : Bytes) (hs : List Bytes) (m : ℕ)
      → chain_inner_right sha acc hs m ≡ fold_right_bits acc hs m
  unfolding chain_inner_right
  chain_inner_right-fold acc hs m =
      right_from-fold 0 acc hs m ∙ ap (fold_right_bits acc hs) (div-one m)

  pub border-fold_right :
      (f : ℕ) (acc : Bytes) (hs : List Bytes) (m last : ℕ)
      → diverge f m last ≤ length hs
      → chain_border_right sha
          (fold_right_bits acc (take (diverge f m last) hs) m)
          (drop (diverge f m last) hs)
        ≡ walk_right f acc hs m last
  unfolding diverge walk_right fold_right_bits
  border-fold_right zero acc hs m last h = refl
  border-fold_right (suc f) acc [] m last h = elim (Bool-cases (m == last)) [
    | inl e ↦ rw e (unfold chain_border_right in refl)
    | inr e ↦ absurd (ground arith)
  ]
  border-fold_right (suc f) acc (x ∷ hs) m last h = elim (Bool-cases (m == last)) [
    | inl e ↦ rw e
    | inr e ↦ rw e (border-fold_right f (join_right acc x m) hs (m / 2) (last / 2) (ground arith))
  ]

  pub fold_right-snoc :
      (acc : Bytes) (hs : List Bytes) (h : Bytes) (m : ℕ)
      → fold_right_bits acc (hs ++ h ∷ []) m
        ≡ join_right (fold_right_bits acc hs m) h (shr m (length hs))
  unfolding fold_right_bits
  fold_right-snoc acc [] h m = ap (join_right acc h) (sym (div-one m))
  fold_right-snoc acc (x ∷ hs) h m =
      fold_right-snoc (join_right acc x m) hs h (m / 2)
      ∙ ap (join_right (fold_right_bits (join_right acc x m) hs (m / 2)) h) (half-shr m (length hs))

  join_right-even :
      (acc h : Bytes) (p a : ℕ) → join_right acc h (2 ^ suc p + a) ≡ join_right acc h a
  join_right-even acc h p a =
      let e : (2 ^ suc p + a) % 2 ≡ a % 2 = omega (arith, pow-suc 2 p) in rw e

  pub fold_right_low :
      (p : ℕ) (acc : Bytes) (hs : List Bytes) (a : ℕ)
      → length hs ≤ p
      → fold_right_bits acc hs (2 ^ p + a) ≡ fold_right_bits acc hs a
  unfolding fold_right_bits
  fold_right_low p acc [] a h = refl
  fold_right_low zero acc (x ∷ hs) a h = absurd (omega arith)
  fold_right_low (suc p) acc (x ∷ hs) a h =
      rw (join_right-even acc x p a, double_half p a)
        (fold_right_low p (join_right acc x a) hs (a / 2) (omega arith))

  right-nil : (f : ℕ) (acc : Bytes) (m last : ℕ) → walk_right f acc [] m last ≡ acc
  unfolding walk_right chain_border_right
  right-nil zero acc m last = refl
  right-nil (suc f) acc m last = refl

  right-stop :
      (f : ℕ) (acc : Bytes) (hs : List Bytes) (m last : ℕ)
      → m ≡ last
      → walk_right f acc hs m last ≡ chain_border_right sha acc hs
  unfolding walk_right
  right-stop zero acc hs m last e = refl
  right-stop (suc f) acc [] m last e = unfold chain_border_right in refl
  right-stop (suc f) acc (x ∷ hs) m last e = rw ((==_iff m last).1 e)

  right-next :
      (f : ℕ) (acc x : Bytes) (hs : List Bytes) (m last : ℕ)
      → m ≢ last
      → walk_right (suc f) acc (x ∷ hs) m last
        ≡ walk_right f (join_right acc x m) hs (m / 2) (last / 2)
  unfolding walk_right
  right-next f acc x hs m last ne = ground arith

  pub right_high :
      (p f : ℕ) (acc : Bytes) (hs : List Bytes) (m j : ℕ)
      → length hs ≡ suc p
      → p < f
      → m < 2 ^ p
      → j < 2 ^ p
      → walk_right f acc hs m (2 ^ p + j) ≡ fold_right_bits acc hs m
  unfolding fold_right_bits
  right_high p zero acc hs m j l h hm hj = elim h [ ]
  right_high p (suc f) acc [] m j l h hm hj = absurd (omega arith)
  right_high zero (suc f) acc (x ∷ []) m j l h hm hj =
      right-next f acc x [] m (1 + j) (omega arith)
      ∙ right-nil f (join_right acc x m) (m / 2) ((1 + j) / 2)
  right_high zero (suc f) acc (x ∷ y ∷ hs) m j l h hm hj = absurd (omega arith)
  right_high (suc p) (suc f) acc (x ∷ hs) m j l h hm hj =
      right-next f acc x hs m (2 ^ suc p + j) (omega arith)
      ∙ rw (double_half p j) (
          right_high p f (join_right acc x m) hs (m / 2) (j / 2) (omega arith) (omega arith)
            (omega (arith, pow-suc 2 p)) (omega (arith, pow-suc 2 p)))

  both-stop :
      (f : ℕ) (acc : Bytes) (hs : List Bytes) (h : Bytes) (c a b : ℕ)
      → a ≡ b
      → walk_right f acc (hs ++ h ∷ []) (c + a) (c + b) ≡ node_hash sha h (walk_right f acc hs a b)
  both-stop f acc hs h c a b e =
      right-stop f acc (hs ++ h ∷ []) (c + a) (c + b) (omega arith)
      ∙ border-snoc sha acc hs h
      ∙ ap (node_hash sha h) (sym (right-stop f acc hs a b e))

  pub right_both :
      (p f : ℕ) (acc : Bytes) (hs : List Bytes) (h : Bytes) (a b : ℕ)
      → length hs ≡ diverge f a b + ones_above f a b
      → a < 2 ^ p
      → b < 2 ^ p
      → walk_right f acc (hs ++ h ∷ []) (2 ^ p + a) (2 ^ p + b)
        ≡ node_hash sha h (walk_right f acc hs a b)
  unfolding diverge ones_above walk_right
  right_both p zero acc hs h a b l ha hb = border-snoc sha acc hs h
  right_both zero (suc f) acc hs h a b l ha hb = both-stop (suc f) acc hs h 1 a b (omega arith)
  right_both (suc p) (suc f) acc [] h a b l ha hb =
      both-stop (suc f) acc [] h (2 ^ suc p) a b (ground arith)
  right_both (suc p) (suc f) acc (x ∷ hs) h a b l ha hb = elim (Bool-cases (a == b)) [
    | inl e ↦ both-stop (suc f) acc (x ∷ hs) h (2 ^ suc p) a b (ground arith)
    | inr e ↦
        rw
          (
            right-next f acc x (hs ++ h ∷ []) (2 ^ suc p + a) (2 ^ suc p + b) (ground arith),
            right-next f acc x hs a b (ground arith),
            join_right-even acc x p a,
            double_half p a,
            double_half p b,
          )
          (right_both p f (join_right acc x a) hs h (a / 2) (b / 2) (ground arith)
            (omega (arith, pow-suc 2 p)) (omega (arith, pow-suc 2 p)))
  ]

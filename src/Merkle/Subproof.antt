-- ===== src/Merkle/Subproof.antt =====
-- `subproof` of src/merkle.rs, one level at a time, and inside a full tree.
use sovereign_ledger.Base.{
  ℕ, suc, ◌+◌, ◌-◌, ◌^◌, ◌≤◌, ◌<◌, ◌≡◌, refl, sym, ◌∙◌, ap, Bool, true, false, List, [], ◌∷◌, ◌++◌,
  arith, ◌==◌, if◌then◌else◌, length, length-append, take, drop, take-take, drop-take, two-pow-pos,
  length-take,
}
use sovereign_ledger.Base.Bits.{shr}
use sovereign_ledger.Crypto.{Bytes, Sha256}
use sovereign_ledger.Merkle.{node_hash, mth, subproof}
use sovereign_ledger.Merkle.Split.{IsSplit, max_size, largest_pow2_lt-IsSplit}
use sovereign_ledger.Merkle.Tree.{mth_split}
use sovereign_ledger.Merkle.Walk.{fold_bits, fold_bits-snoc, fold_bits_low}
use sovereign_ledger.Merkle.WalkRight.{join_right, fold_right_bits, fold_right-snoc, fold_right_low}
use sovereign_ledger.Merkle.Audit.{join-lower, join-upper}
use native.Mathlib.Nat.{div-eq_of_lt, add-div_left}

module _ (sha : Sha256) where
  pub sub_end :
      (f m : ℕ) (d : List Bytes) (b : Bool) (out : List Bytes)
      → m ≡ length d
      → subproof sha (suc f) m d b out ≡ (if b then out else out ++ mth sha d ∷ [])
  unfolding subproof
  sub_end f m d b out e = ground arith

  pub sub_left :
      (f m : ℕ) (d : List Bytes) (b : Bool) (out : List Bytes) (p : ℕ)
      → IsSplit (length d) p
      → m ≤ 2 ^ p
      → subproof sha (suc f) m d b out
        ≡ subproof sha f m (take (2 ^ p) d) b out ++ mth sha (drop (2 ^ p) d) ∷ []
  unfolding subproof
  sub_left f m d b out p s h = rw (largest_pow2_lt-IsSplit (length d) p s) (ground (arith, s.below))

  pub sub_right :
      (f m : ℕ) (d : List Bytes) (b : Bool) (out : List Bytes) (p : ℕ)
      → IsSplit (length d) p
      → 2 ^ p < m
      → m < length d
      → subproof sha (suc f) m d b out
        ≡ subproof sha f (m - 2 ^ p) (drop (2 ^ p) d) false out ++ mth sha (take (2 ^ p) d) ∷ []
  unfolding subproof
  sub_right f m d b out p s h k = rw (largest_pow2_lt-IsSplit (length d) p s) (ground arith)

  -- What `subproof` emits for the older size `m`: the root of the subtree that ends there, and the
  -- nodes above it. The first is left out where the older tree is that subtree.
  pub record Emits (f m a : ℕ) (d : List Bytes) (seed : Bytes) (rest : List Bytes) : Type 0 where
    pub closed : subproof sha f m d false [] ≡ seed ∷ rest
    pub opened : subproof sha f m d true [] ≡ (if a == 0 then rest else seed ∷ rest)

  pub Emits-left :
      (f m a : ℕ) (d : List Bytes) (p : ℕ) (seed : Bytes) (rest : List Bytes)
      → IsSplit (length d) p
      → m ≤ 2 ^ p
      → Emits f m a (take (2 ^ p) d) seed rest
      → Emits (suc f) m a d seed (rest ++ mth sha (drop (2 ^ p) d) ∷ [])
  Emits-left f m a d p seed rest s h v =
      let top = mth sha (drop (2 ^ p) d) ∷ [] in
      record {
        closed = sub_left f m d false [] p s h ∙ ap (λ t. t ++ top) v.closed;
        opened =
            sub_left f m d true [] p s h
            ∙ ap (λ t. t ++ top) v.opened
            ∙ if-append (a == 0) rest seed top;
      }
    where
      if-append :
          (b : Bool) (rest : List Bytes) (seed : Bytes) (top : List Bytes)
          → (if b then rest else seed ∷ rest) ++ top
            ≡ (if b then rest ++ top else seed ∷ (rest ++ top))
      if-append true rest seed top = refl
      if-append false rest seed top = refl

  pub Emits-right :
      (f m a c : ℕ) (d : List Bytes) (p : ℕ) (seed : Bytes) (rest : List Bytes)
      → IsSplit (length d) p
      → 2 ^ p < m
      → m < length d
      → 0 < a
      → Emits f (m - 2 ^ p) c (drop (2 ^ p) d) seed rest
      → Emits (suc f) m a d seed (rest ++ mth sha (take (2 ^ p) d) ∷ [])
  Emits-right f m a c d p seed rest s h k pos v =
      let top = mth sha (take (2 ^ p) d) ∷ [] in
      let go = λ (b : Bool). sub_right f m d b [] p s h k ∙ ap (λ t. t ++ top) v.closed in
      record { closed = go false; opened = go true ∙ ground arith }

  -- The seed and the nodes of a full tree: they rebuild its root, and that of its older part.
  pub record IsFullOpening (e m a : ℕ) (d : List Bytes) (seed : Bytes) (rest : List Bytes)
      : Type 0 where
    pub size : length rest ≡ e
    pub new : fold_bits sha seed rest a ≡ mth sha d
    pub old : fold_right_bits sha seed rest a ≡ mth sha (take m d)

  right-lower : (acc h : Bytes) (a k : ℕ) → a < 2 ^ k → join_right sha acc h (shr a k) ≡ acc
  right-lower acc h a k l = rw (div-eq_of_lt l)

  right-upper :
      (acc h : Bytes) (a k : ℕ)
      → a < 2 ^ k
      → join_right sha acc h (shr (2 ^ k + a) k) ≡ node_hash sha h acc
  right-upper acc h a k l = rw (add-div_left a (two-pow-pos k), div-eq_of_lt l)

  -- The older part of a tree that reaches into the right part.
  pub mth-take_split :
      (m : ℕ) (d : List Bytes) (p : ℕ)
      → IsSplit (length d) p
      → length d ≤ max_size
      → 2 ^ p < m
      → m ≤ length d
      → mth sha (take m d)
        ≡ node_hash sha (mth sha (take (2 ^ p) d)) (mth sha (take (m - 2 ^ p) (drop (2 ^ p) d)))
  mth-take_split m d p s small h k =
      let l : length (take m d) ≡ m = omega (arith, length-take m d) in
      mth_split sha (take m d) p
        (record { below = omega arith; above = omega (arith, s.above); small = s.small })
        (omega arith)
      ∙ rw (take-take (2 ^ p) m d (omega arith), drop-take (2 ^ p) m d)

  -- One level up from the left part.
  pub opening_left :
      (e m a p : ℕ) (d : List Bytes) (seed : Bytes) (rest : List Bytes)
      → IsSplit (length d) p
      → length d ≤ max_size
      → m ≤ 2 ^ p
      → a < 2 ^ e
      → IsFullOpening e m a (take (2 ^ p) d) seed rest
      → IsFullOpening (suc e) m a d seed (rest ++ mth sha (drop (2 ^ p) d) ∷ [])
  opening_left e m a p d seed rest s small h ha v =
      let r = mth sha (drop (2 ^ p) d) in
      record {
        size = omega (arith, length-append rest (r ∷ []), v.size);
        new =
            fold_bits-snoc sha seed rest r a
            ∙ rw v.size (join-lower sha (fold_bits sha seed rest a) r a e ha)
            ∙ ap (λ t. node_hash sha t r) v.new
            ∙ sym (mth_split sha d p s small);
        old =
            fold_right-snoc sha seed rest r a
            ∙ rw v.size (right-lower (fold_right_bits sha seed rest a) r a e ha)
            ∙ v.old
            ∙ ap (mth sha) (take-take m (2 ^ p) d h);
      }

  -- One level up from the right part.
  pub opening_right :
      (e m b p : ℕ) (d : List Bytes) (seed : Bytes) (rest : List Bytes)
      → IsSplit (length d) p
      → length d ≤ max_size
      → 2 ^ p < m
      → m ≤ length d
      → b < 2 ^ e
      → IsFullOpening e (m - 2 ^ p) b (drop (2 ^ p) d) seed rest
      → IsFullOpening (suc e) m (2 ^ e + b) d seed (rest ++ mth sha (take (2 ^ p) d) ∷ [])
  opening_right e m b p d seed rest s small h k hb v =
      let l = mth sha (take (2 ^ p) d) in
      record {
        size = omega (arith, length-append rest (l ∷ []), v.size);
        new =
            fold_bits-snoc sha seed rest l (2 ^ e + b)
            ∙ rw v.size (join-upper sha (fold_bits sha seed rest (2 ^ e + b)) l b e hb)
            ∙ ap (node_hash sha l) (fold_bits_low sha e seed rest b (omega (arith, v.size)) ∙ v.new)
            ∙ sym (mth_split sha d p s small);
        old =
            fold_right-snoc sha seed rest l (2 ^ e + b)
            ∙ rw v.size (right-upper (fold_right_bits sha seed rest (2 ^ e + b)) l b e hb)
            ∙ ap (node_hash sha l)
                (fold_right_low sha e seed rest b (omega (arith, v.size)) ∙ v.old)
            ∙ sym (mth-take_split m d p s small h k);
      }

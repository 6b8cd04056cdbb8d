-- ===== src/Merkle/Audit.antt =====
-- `audit_path_rec` of src/merkle.rs inside a full tree, where every level takes one digit of the index.
use sovereign_ledger.Base.{
  ℕ, zero, suc, ◌+◌, ◌-◌, ◌^◌, ◌≤◌, ◌<◌, ◌≡◌, refl, sym, ◌∙◌, ap, subst, inl, inr, some,
  some-injective, List, [], ◌∷◌, ◌++◌, arith, length, length-append, take, drop, get_elem?,
  get_elem?-take, get_elem?-drop, le_or_lt, rejoin, two-pow-pos,
}
use sovereign_ledger.Base.Bits.{shr}
use sovereign_ledger.Crypto.{Bytes, Sha256}
use sovereign_ledger.Merkle.{leaf_hash, node_hash, mth, audit_path_rec}
use sovereign_ledger.Merkle.Split.{IsSplit, max_size, largest_pow2_lt-IsSplit}
use sovereign_ledger.Merkle.Tree.{length-take_split, length-drop_split, mth_split, mth_singleton}
use sovereign_ledger.Merkle.Walk.{join, fold_bits, fold_bits-snoc, fold_bits_low}
use native.Mathlib.Nat.{pow-suc, pow-le-pow_right, div-eq_of_lt, add-div_left}

module _ (sha : Sha256) where
  pub audit_left :
      (f m : ℕ) (d out : List Bytes) (p : ℕ)
      → IsSplit (length d) p
      → m < 2 ^ p
      → audit_path_rec sha (suc f) m d out
        ≡ audit_path_rec sha f m (take (2 ^ p) d) out ++ mth sha (drop (2 ^ p) d) ∷ []
  unfolding audit_path_rec
  audit_left f m d out p s h =
      rw (largest_pow2_lt-IsSplit (length d) p s) (ground (arith, s.below, two-pow-pos p))

  pub audit_right :
      (f m : ℕ) (d out : List Bytes) (p : ℕ)
      → IsSplit (length d) p
      → 2 ^ p ≤ m
      → audit_path_rec sha (suc f) m d out
        ≡ audit_path_rec sha f (m - 2 ^ p) (drop (2 ^ p) d) out ++ mth sha (take (2 ^ p) d) ∷ []
  unfolding audit_path_rec
  audit_right f m d out p s h =
      rw (largest_pow2_lt-IsSplit (length d) p s) (ground (arith, s.below, two-pow-pos p))

  pub audit_one : (f m : ℕ) (d out : List Bytes) → length d ≡ 1 → audit_path_rec sha f m d out ≡ out
  unfolding audit_path_rec
  audit_one zero m d out e = refl
  audit_one (suc f) m d out e = ground arith

  pub join-lower :
      (acc h : Bytes) (m k : ℕ) → m < 2 ^ k → join sha acc h (shr m k) ≡ node_hash sha acc h
  join-lower acc h m k l = rw (div-eq_of_lt l)

  pub join-upper :
      (acc h : Bytes) (a k : ℕ)
      → a < 2 ^ k
      → join sha acc h (shr (2 ^ k + a) k) ≡ node_hash sha h acc
  join-upper acc h a k l = rw (add-div_left a (two-pow-pos k), div-eq_of_lt l)

  pub IsSplit-full : (p : ℕ) → suc p ≤ 63 → IsSplit (2 ^ suc p) p
  IsSplit-full p h = record {
    below = omega (arith, pow-suc 2 p, two-pow-pos p);
    above = omega (arith, pow-suc 2 p);
    small = h;
  }

  -- A path in a tree of `size` leaves, of which the walk reaches the root.
  pub record IsFullPath (p m : ℕ) (d : List Bytes) (x : Bytes) (path : List Bytes) : Type 0 where
    pub size : length path ≡ p
    pub root : fold_bits sha (leaf_hash sha x) path m ≡ mth sha d

  pub full_left :
      (p m : ℕ) (d : List Bytes) (x : Bytes) (path : List Bytes)
      → IsSplit (length d) p
      → length d ≤ max_size
      → m < 2 ^ p
      → IsFullPath p m (take (2 ^ p) d) x path
      → IsFullPath (suc p) m d x (path ++ mth sha (drop (2 ^ p) d) ∷ [])
  full_left p m d x path s small h v = record {
    size = omega (arith, length-append path (mth sha (drop (2 ^ p) d) ∷ []), v.size);
    root =
        fold_bits-snoc sha (leaf_hash sha x) path (mth sha (drop (2 ^ p) d)) m
        ∙ rw v.size
            (join-lower (fold_bits sha (leaf_hash sha x) path m) (mth sha (drop (2 ^ p) d)) m p h)
        ∙ ap (λ t. node_hash sha t (mth sha (drop (2 ^ p) d))) v.root
        ∙ sym (mth_split sha d p s small);
  }

  full_right :
      (p a : ℕ) (d : List Bytes) (x : Bytes) (path : List Bytes)
      → IsSplit (length d) p
      → length d ≤ max_size
      → a < 2 ^ p
      → IsFullPath p a (drop (2 ^ p) d) x path
      → IsFullPath (suc p) (2 ^ p + a) d x (path ++ mth sha (take (2 ^ p) d) ∷ [])
  full_right p a d x path s small h v = record {
    size = omega (arith, length-append path (mth sha (take (2 ^ p) d) ∷ []), v.size);
    root =
        fold_bits-snoc sha (leaf_hash sha x) path (mth sha (take (2 ^ p) d)) (2 ^ p + a)
        ∙ rw v.size (
            join-upper (fold_bits sha (leaf_hash sha x) path (2 ^ p + a)) (mth sha (take (2 ^ p) d))
              a p h)
        ∙ ap (node_hash sha (mth sha (take (2 ^ p) d)))
            (fold_bits_low sha p (leaf_hash sha x) path a (omega (arith, v.size)) ∙ v.root)
        ∙ sym (mth_split sha d p s small);
  }

  pub full_one :
      (f m : ℕ) (d : List Bytes) (x : Bytes)
      → length d ≡ 1
      → get_elem? d m ≡ some x
      → IsFullPath 0 m d x (audit_path_rec sha f m d [])
  unfolding fold_bits
  full_one f m [] x l e = absurd (omega arith)
  full_one f zero (y ∷ []) x l e = rw (audit_one f 0 (y ∷ []) [] refl) (record {
    size = refl;
    root = sym (mth_singleton sha y ∙ ap (leaf_hash sha) (some-injective y x e));
  })
  full_one f (suc m) (y ∷ []) x l e = absurd (ground arith)
  full_one f m (y ∷ z ∷ d) x l e = absurd (omega arith)

  pub audit-full :
      (p f m : ℕ) (d : List Bytes) (x : Bytes)
      → length d ≡ 2 ^ p
      → p ≤ 63
      → p ≤ f
      → m < 2 ^ p
      → get_elem? d m ≡ some x
      → IsFullPath p m d x (audit_path_rec sha f m d [])
  audit-full zero f m d x l hp hf h e = full_one f m d x l e
  audit-full (suc p) zero m d x l hp hf h e = absurd (omega arith)
  audit-full (suc p) (suc f) m d x l hp hf h e = elim (le_or_lt (2 ^ p) m) [
    | inl up ↦
        let path = audit_path_rec sha f (m - 2 ^ p) (drop (2 ^ p) d) [] in
        rw (audit_right f m d [] p split up) (
          subst (λ t. IsFullPath (suc p) t d x (path ++ mth sha (take (2 ^ p) d) ∷ []))
            (rejoin (2 ^ p) m up)
            (full_right p (m - 2 ^ p) d x path split small (omega (arith, pow-suc 2 p)) (
              audit-full p f (m - 2 ^ p) (drop (2 ^ p) d) x half_length (omega arith) (omega arith)
                (omega (arith, pow-suc 2 p)) (get_elem?-drop (2 ^ p) m d up ∙ e))))
    | inr low ↦ rw (audit_left f m d [] p split low) (
        full_left p m d x (audit_path_rec sha f m (take (2 ^ p) d) []) split small low (
          audit-full p f m (take (2 ^ p) d) x (length-take_split d p split) (omega arith)
            (omega arith) low (get_elem?-take (2 ^ p) m d low ∙ e)))
  ]
    where
      split : IsSplit (length d) p
      split = rw l (IsSplit-full p hp)

      small : length d ≤ max_size
      small = rw l (pow-le-pow_right (omega arith) hp)

      half_length : length (drop (2 ^ p) d) ≡ 2 ^ p
      half_length = omega (arith, length-drop_split d p split, pow-suc 2 p)

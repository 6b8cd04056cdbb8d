-- ===== src/Merkle/Path.antt =====
-- The path of a leaf in a tree of any size: `audit_path_rec` of src/merkle.rs, read as a walk.
use sovereign_ledger.Base.{
  ℕ, zero, suc, ◌+◌, ◌-◌, ◌^◌, ◌≤◌, ◌<◌, ◌≡◌, refl, sym, ◌∙◌, ap, subst, inl, inr, some,
  some-injective, List, [], ◌∷◌, ◌++◌, arith, length, length-append, take, drop, get_elem?,
  get_elem?-take, get_elem?-drop, le_or_lt, rejoin, one_or_more, lt_two_pow,
}
use sovereign_ledger.Base.Bits.{
  count_ones, diverge, diverge_high, diverge_both, ones_above, ones_above_high, ones_above_both,
}
use sovereign_ledger.Crypto.{Bytes, Sha256}
use sovereign_ledger.Merkle.{leaf_hash, node_hash, mth, audit_path_rec}
use sovereign_ledger.Merkle.Split.{IsSplit, max_size, IsSplit-exists}
use sovereign_ledger.Merkle.Tree.{
  length-take_split, length-drop_split, part_lt, mth_split, mth_singleton,
}
use sovereign_ledger.Merkle.Walk.{walk, walk_high, walk_both}
use sovereign_ledger.Merkle.Audit.{
  audit_left, audit_right, audit_one, IsFullPath, full_left, audit-full,
}

module _ (sha : Sha256) where
  -- The path of the leaf `m` in any tree: its length is the one that the verifier computes.
  pub record IsPath (m : ℕ) (d : List Bytes) (x : Bytes) (path : List Bytes) : Type 0 where
    pub size : length path ≡ diverge 64 m (length d - 1) + ones_above 64 m (length d - 1)
    pub root : walk sha 64 (leaf_hash sha x) path m (length d - 1) ≡ mth sha d

  last_split :
      (d : List Bytes) (p : ℕ)
      → IsSplit (length d) p
      → length d - 1 ≡ 2 ^ p + (length (drop (2 ^ p) d) - 1)
  last_split d p s = omega (arith, length-drop_split d p s, s.below)

  IsPath-left :
      (p m : ℕ) (d : List Bytes) (x : Bytes) (path : List Bytes)
      → IsSplit (length d) p
      → length d ≤ max_size
      → m < 2 ^ p
      → IsFullPath sha p m (take (2 ^ p) d) x path
      → IsPath m d x (path ++ mth sha (drop (2 ^ p) d) ∷ [])
  IsPath-left p m d x path s small h v =
      let w = full_left sha p m d x path s small h v in
      let b = length (drop (2 ^ p) d) - 1 in
      let hb : b < 2 ^ p = omega (arith, length-drop_split d p s, s.above, s.below) in
      record {
        size =
            rw (last_split d p s)
              (omega (arith, w.size, s.small, diverge_high p 64 m b, ones_above_high p 64 m b));
        root = rw (last_split d p s) (
            walk_high sha p 64 (leaf_hash sha x) (path ++ mth sha (drop (2 ^ p) d) ∷ []) m b w.size
              (omega (arith, s.small)) h hb
            ∙ w.root);
      }

  IsPath-right :
      (p a : ℕ) (d : List Bytes) (x : Bytes) (path : List Bytes)
      → IsSplit (length d) p
      → length d ≤ max_size
      → a < length (drop (2 ^ p) d)
      → IsPath a (drop (2 ^ p) d) x path
      → IsPath (2 ^ p + a) d x (path ++ mth sha (take (2 ^ p) d) ∷ [])
  IsPath-right p a d x path s small h v =
      let b = length (drop (2 ^ p) d) - 1 in
      let top = mth sha (take (2 ^ p) d) in
      let hb : b < 2 ^ p = omega (arith, length-drop_split d p s, s.above, s.below) in
      record {
        size = rw (last_split d p s) (
            omega (
              arith,
              length-append path (top ∷ []),
              v.size,
              s.small,
              diverge_both p 64 a b,
              ones_above_both p 64 a b,
            ));
        root = rw (last_split d p s) (
            walk_both sha p 64 (leaf_hash sha x) path top a b v.size (omega (arith, hb, h)) hb
            ∙ ap (node_hash sha top) v.root
            ∙ sym (mth_split sha d p s small));
      }

  IsPath-one :
      (f m : ℕ) (d : List Bytes) (x : Bytes)
      → length d ≡ 1
      → get_elem? d m ≡ some x
      → IsPath m d x (audit_path_rec sha f m d [])
  unfolding diverge ones_above count_ones walk
  IsPath-one f m [] x l e = absurd (omega arith)
  IsPath-one f zero (y ∷ []) x l e = rw (audit_one sha f 0 (y ∷ []) [] refl) (record {
    size = refl;
    root = sym (mth_singleton sha y ∙ ap (leaf_hash sha) (some-injective y x e));
  })
  IsPath-one f (suc m) (y ∷ []) x l e = absurd (ground arith)
  IsPath-one f m (y ∷ z ∷ d) x l e = absurd (omega arith)

  IsPath-step_left :
      (f p m : ℕ) (d : List Bytes) (x : Bytes)
      → IsSplit (length d) p
      → length d ≤ suc f
      → length d ≤ max_size
      → m < 2 ^ p
      → get_elem? d m ≡ some x
      → IsPath m d x (audit_path_rec sha (suc f) m d [])
  IsPath-step_left f p m d x s hf small low e = rw (audit_left sha f m d [] p s low) (
      IsPath-left p m d x (audit_path_rec sha f m (take (2 ^ p) d) []) s small low (
        audit-full sha p f m (take (2 ^ p) d) x (length-take_split d p s) (omega (arith, s.small))
          (omega (arith, lt_two_pow p, s.below)) low (get_elem?-take (2 ^ p) m d low ∙ e)))

  IsPath-step_right :
      (f p m : ℕ) (d : List Bytes) (x : Bytes)
      → IsSplit (length d) p
      → length d ≤ max_size
      → 2 ^ p ≤ m
      → m < length d
      → IsPath (m - 2 ^ p) (drop (2 ^ p) d) x (audit_path_rec sha f (m - 2 ^ p) (drop (2 ^ p) d) [])
      → IsPath m d x (audit_path_rec sha (suc f) m d [])
  IsPath-step_right f p m d x s small up h v =
      let path = audit_path_rec sha f (m - 2 ^ p) (drop (2 ^ p) d) [] in
      rw (audit_right sha f m d [] p s up) (
        subst (λ t. IsPath t d x (path ++ mth sha (take (2 ^ p) d) ∷ [])) (rejoin (2 ^ p) m up)
          (IsPath-right p (m - 2 ^ p) d x path s small (omega (arith, length-drop_split d p s)) v))

  -- The path of any leaf, in a tree of any size, leads to the root.
  pub audit-IsPath :
      (f m : ℕ) (d : List Bytes) (x : Bytes)
      → length d ≤ f
      → length d ≤ max_size
      → m < length d
      → get_elem? d m ≡ some x
      → IsPath m d x (audit_path_rec sha f m d [])
  audit-IsPath zero m d x hf small h e = absurd (omega arith)
  audit-IsPath (suc f) m d x hf small h e = elim (one_or_more (length d) (omega arith)) [
    | inl l ↦ IsPath-one (suc f) m d x l e
    | inr l ↦
        let (p, s) = IsSplit-exists (length d) l small in
        let (hl, hr) = part_lt d p s in
        elim (le_or_lt (2 ^ p) m) [
          | inl up ↦ IsPath-step_right f p m d x s small up h (
              audit-IsPath f (m - 2 ^ p) (drop (2 ^ p) d) x (omega arith) (omega arith)
                (omega (arith, length-drop_split d p s)) (get_elem?-drop (2 ^ p) m d up ∙ e))
          | inr low ↦ IsPath-step_left f p m d x s hf small low e
        ]
  ]

-- ===== src/Ledger/Leaves.antt =====
-- The leaves that src/lib.rs reads back from a file are digests.
use sovereign_ledger.Base.{
  ◌≡◌, subst, arith, inl, inr, Option, none, some, some-injective, List, [], ◌∷◌, All, length,
  Bool-cases, Option-cases, ap, ◌==◌,
}
use sovereign_ledger.Crypto.{Bytes, IsDigest, hash_size}
use sovereign_ledger.Crates.{Crates, Event}
use sovereign_ledger.Error.{Error, Result, ok, returned, ok-injective, ok_or}
use sovereign_ledger.Event.{decode_hash}
use sovereign_ledger.Ledger.{File, iter}
use sovereign_ledger.Ledger.Read.{leaves, leaf_hashes}

module _ (w : Crates) where
  pub decode_hash-IsDigest : (s d : Bytes) → decode_hash w s ≡ some d → IsDigest d
  unfolding decode_hash
  decode_hash-IsDigest s d h = elim (Option-cases (w.hex.decode s)) [
    | inl e ↦ absurd (not_some d (rw e at h))
    | inr (v, e) ↦ elim (Bool-cases (length v == hash_size)) [
      | inl t ↦
          subst IsDigest (some-injective v d (rw (e, t) at h))
            (record { size = ground arith; bytes = w.hex.decode-IsBytes s v e })
      | inr t ↦ absurd (not_some d (rw (e, t) at h))
    ]
  ]
    where
      not_some : (d : Bytes) → none ≡ some d → ⊥
      not_some d h = ground arith

  pub ok_or-some : (o : Option Bytes) (e : Error) (d : Bytes) → ok_or o e ≡ ok d → o ≡ some d
  ok_or-some none e d h = ground arith
  ok_or-some (some x) e d h = ap some (ok-injective x d h)

  leaves-IsDigest :
      (items : List (Result Event)) (d : List Bytes) → leaves w items ≡ ok d → All IsDigest d
  unfolding leaves
  leaves-IsDigest [] d h = subst (All IsDigest) (ok-injective [] d h) tt
  leaves-IsDigest (item ∷ rest) d h =
      let (event, p, h) = returned item _ d h in
      let (leaf, q, h) = returned (ok_or (decode_hash w event.hash) _) _ d h in
      let (out, r, h) = returned (leaves w rest) _ d h in
      subst (All IsDigest) (ok-injective (leaf ∷ out) d h)
        (decode_hash-IsDigest event.hash leaf (ok_or-some _ _ leaf q), leaves-IsDigest rest out r)

  pub leaf_hashes-IsDigest :
      (file : File) (d : List Bytes) → leaf_hashes w file ≡ ok d → All IsDigest d
  unfolding leaf_hashes
  leaf_hashes-IsDigest file d h =
      let (items, p, h) = returned (iter w file) _ d h in leaves-IsDigest items d h

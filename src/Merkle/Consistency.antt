-- ===== src/Merkle/Consistency.antt =====
-- `consistency_proof` of src/merkle.rs: the proof that the ledger emits, and what the two directions
-- of its verification share.
pub mod Complete
pub mod Sound
use sovereign_ledger.Base.{
  ℕ, zero, suc, ◌-◌, ◌^◌, ◌≤◌, ◌<◌, ◌||◌, ltb, ◌≡◌, refl, sym, ◌∙◌, ap, subst, ◌⊎◌, inl, inr, Bool,
  true, false, List, [], ◌∷◌, ◌++◌, arith, length, All, All-append, take, drop, take_all,
  Bool-cases, ◌==◌, leb, if◌then◌else◌, le_or_lt, eq_or_lt,
}
use sovereign_ledger.Base.Bytes.{bytes_eq_iff, bytes_eq_self, is_empty}
use sovereign_ledger.Base.Bits.{shr}
use sovereign_ledger.Base.Bits.Shift.{IsOddMultiple-exists}
use sovereign_ledger.Crypto.{Bytes, Sha256, IsDigest}
use sovereign_ledger.Error.{ok}
use sovereign_ledger.Merkle.{
  ConsistencyProof, largest_pow2_lt, mth, subproof, consistency_proof, seed_and_rest, split_first,
  verify_consistency,
}
use sovereign_ledger.Merkle.Split.{max_size}
use sovereign_ledger.Merkle.Binding.{walk-binds}
use sovereign_ledger.Merkle.Inclusion.{mth-IsDigest}
use sovereign_ledger.Merkle.Subproof.{Emits}
use sovereign_ledger.Merkle.Opening.{IsOpening, opening}
use sovereign_ledger.Merkle.Sizes.{IsSized, positive, inner-pos, pow2_test}
use sovereign_ledger.Merkle.Chains.{Rebuilds, rebuilds→, →rebuilds}

-- Every pair of sizes with `0 < old_size < new_size` has its digits.
pub IsSized-exists :
    (m n : ℕ) → 0 < m → m < n → n ≤ max_size → (s : ℕ) × (a : ℕ) × IsSized m n s (64 - s) a
IsSized-exists m n h k l =
    let (s, a, ls, v) = IsOddMultiple-exists 64 m h (omega arith) in
    (s, a, record { odd = v; shift = ls; digits = omega arith; older = k })

module _ (sha : Sha256) where
  -- The proof that the ledger emits for the older size `m`.
  unfoldable pub extension_proof : ℕ → List Bytes → ConsistencyProof
  extension_proof m d = record {
    old_size = m;
    new_size = length d;
    nodes = consistency_proof sha m d;
  }

  pub nodes_of :
      (m : ℕ) (d : List Bytes)
      → 0 < m
      → m < length d
      → consistency_proof sha m d ≡ subproof sha (length d) m d true []
  unfolding consistency_proof
  nodes_of m d h k = ground arith

  pub subproof-IsDigest :
      (f m : ℕ) (d : List Bytes) (b : Bool) (out : List Bytes)
      → All IsDigest out
      → All IsDigest (subproof sha f m d b out)
  unfolding subproof
  subproof-IsDigest zero m d b out h = h
  subproof-IsDigest (suc f) m d b out h =
      let k = largest_pow2_lt (length d) in
      elim (Bool-cases (m == length d)) [
        | inl e ↦ rw e (end_IsDigest b out d h)
        | inr e ↦ elim (Bool-cases (leb m k)) [
          | inl l ↦
              rw (e, l)
                (All-append IsDigest (subproof sha f m (take k d) b out) _
                  (subproof-IsDigest f m (take k d) b out h) (mth-IsDigest sha (drop k d), tt))
          | inr l ↦
              rw (e, l)
                (All-append IsDigest (subproof sha f (m - k) (drop k d) false out) _
                  (subproof-IsDigest f (m - k) (drop k d) false out h)
                  (mth-IsDigest sha (take k d), tt))
        ]
      ]
    where
      end_IsDigest :
          (b : Bool) (out d : List Bytes)
          → All IsDigest out
          → All IsDigest (if b then out else out ++ mth sha d ∷ [])
      end_IsDigest true out d h = h
      end_IsDigest false out d h = All-append IsDigest out _ h (mth-IsDigest sha d, tt)

  pub consistency_proof-IsDigest :
      (m : ℕ) (d : List Bytes) → All IsDigest (consistency_proof sha m d)
  unfolding consistency_proof
  consistency_proof-IsDigest m d = elim (Bool-cases (m == 0 || m == length d || ltb (length d) m)) [
    | inl e ↦ rw e tt
    | inr e ↦ rw e (subproof-IsDigest (length d) m d true [] tt)
  ]

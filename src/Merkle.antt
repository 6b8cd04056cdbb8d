-- ===== src/Merkle.antt =====
-- src/merkle.rs: the RFC 6962 Merkle tree over entry hashes, its proofs and their verifiers.
-- A slice `&d[..k]` is `take k d`, and `&d[k..]` is `drop k d`. The recursions run on fuel; the
-- length of the slice is enough, since both parts are shorter.
pub mod Split
pub mod Tree
pub mod Walk
pub mod WalkRight
pub mod Digits
pub mod Audit
pub mod Path
pub mod Subproof
pub mod FullTree
pub mod Opening
pub mod Sizes
pub mod Chains
pub mod Verdict
pub mod Hashed
pub mod Binding
pub mod Inclusion
pub mod Root
pub mod Rfc
pub mod Consistency
mod Tests
use sovereign_ledger.Base.{
  ℕ, zero, suc, ◌+◌, ◌-◌, ◌%◌, ◌^◌, Bool, true, false, not, ◌&&◌, ◌||◌, List, [], ◌∷◌, ◌++◌, ltb,
  leb, ◌==◌, if◌then◌else◌, length, take, drop,
}
use sovereign_ledger.Base.Bits.{shl_one, shr, bit_xor, leading_zeros, trailing_zeros, count_ones}
use sovereign_ledger.Base.Bytes.{bytes_eq, is_empty}
use sovereign_ledger.Crypto.{Bytes, Sha256}
use sovereign_ledger.Error.{Error, Result, err, ◌>>◌, fail_if}

-- `while k < n { k <<= 1 }`; a u64 takes at most 64 rounds for n up to 2 ^ 63.
pow2_loop : ℕ → ℕ → ℕ → ℕ
pow2_loop zero k n = k
pow2_loop (suc f) k n = let rest = pow2_loop f (shl_one k) n in if ltb k n then rest else k

pub largest_pow2_lt : ℕ → ℕ
largest_pow2_lt n = shr (pow2_loop 64 1 n) 1

-- Expected length of an inclusion proof below and above the point where the paths part.
pub inner_proof_size : ℕ → ℕ → ℕ
inner_proof_size index size = 64 - leading_zeros (bit_xor index (size - 1))

pub decomp_incl_proof : ℕ → ℕ → ℕ × ℕ
decomp_incl_proof index size =
    let inner = inner_proof_size index size in (inner, count_ones (shr index inner))

pub record InclusionProof : Type 0 where
  pub index : ℕ
  pub tree_size : ℕ
  pub path : List Bytes

pub record ConsistencyProof : Type 0 where
  pub old_size : ℕ
  pub new_size : ℕ
  pub nodes : List Bytes

-- `self.nodes[0]` and `&self.nodes[1..]`; the caller has tested that there is a node.
pub split_first : List Bytes → Bytes × List Bytes
split_first [] = ([], [])
split_first (n ∷ ns) = (n, ns)

-- The hash that seeds both chains, and the nodes behind it.
pub seed_and_rest : ℕ → ℕ → List Bytes → Bytes → Bytes × List Bytes
seed_and_rest m shift nodes old_root =
    if m == 2 ^ shift then (old_root, nodes) else split_first nodes

module _ (sha : Sha256) where
  unfoldable pub leaf_hash : Bytes → Bytes
  leaf_hash d = sha.digest (0x00 ∷ d)

  pub node_hash : Bytes → Bytes → Bytes
  node_hash l r = sha.digest (0x01 ∷ (l ++ r))

  unfoldable pub mth_fuel : ℕ → List Bytes → Bytes
  mth_fuel f [] = sha.digest []
  mth_fuel f (d ∷ []) = leaf_hash d
  mth_fuel zero (d ∷ e ∷ ds) = []
  mth_fuel (suc f) (d ∷ e ∷ ds) =
      let k = largest_pow2_lt (length (d ∷ e ∷ ds)) in
      node_hash (mth_fuel f (take k (d ∷ e ∷ ds))) (mth_fuel f (drop k (d ∷ e ∷ ds)))

  unfoldable pub mth : List Bytes → Bytes
  mth d = mth_fuel (length d) d

  unfoldable pub audit_path_rec : ℕ → ℕ → List Bytes → List Bytes → List Bytes
  audit_path_rec zero m d out = out
  audit_path_rec (suc f) m d out =
      let k = largest_pow2_lt (length d) in
      let left = audit_path_rec f m (take k d) out ++ mth (drop k d) ∷ [] in
      let right = audit_path_rec f (m - k) (drop k d) out ++ mth (take k d) ∷ [] in
      if length d == 1 then out else if ltb m k then left else right

  unfoldable pub audit_path : ℕ → List Bytes → List Bytes
  audit_path m d =
      if not (is_empty d) && ltb m (length d) then audit_path_rec (length d) m d [] else []

  -- `i` counts the hashes that the loop has passed.
  pub chain_inner_from : ℕ → Bytes → List Bytes → ℕ → Bytes
  chain_inner_from i acc [] index = acc
  chain_inner_from i acc (h ∷ proof) index =
      chain_inner_from (i + 1) (if shr index i % 2 == 0 then node_hash acc h else node_hash h acc)
        proof index

  pub chain_inner : Bytes → List Bytes → ℕ → Bytes
  chain_inner seed proof index = chain_inner_from 0 seed proof index

  pub chain_inner_right_from : ℕ → Bytes → List Bytes → ℕ → Bytes
  chain_inner_right_from i acc [] index = acc
  chain_inner_right_from i acc (h ∷ proof) index =
      chain_inner_right_from (i + 1) (if shr index i % 2 == 1 then node_hash h acc else acc) proof
        index

  pub chain_inner_right : Bytes → List Bytes → ℕ → Bytes
  chain_inner_right seed proof index = chain_inner_right_from 0 seed proof index

  pub chain_border_right : Bytes → List Bytes → Bytes
  chain_border_right acc [] = acc
  chain_border_right acc (h ∷ proof) = chain_border_right (node_hash h acc) proof

  -- `InclusionProof::verify` behind its range test.
  pub verify_path : InclusionProof → Bytes → Bytes → Result (Unit {0})
  verify_path p leaf root =
      if p.tree_size == 1
      then (do
        fail_if (not (is_empty p.path)) (Error.proof "proof too long")
        fail_if (not (bytes_eq (leaf_hash leaf) root)) (Error.proof "root mismatch"))
      else (do
        let (inner, border) = decomp_incl_proof p.index p.tree_size
        fail_if (not (length p.path == inner + border)) (Error.proof "wrong proof size")
        let below = chain_inner (leaf_hash leaf) (take inner p.path) p.index
        let r = chain_border_right below (drop inner p.path)
        fail_if (not (bytes_eq r root)) (Error.proof "root mismatch"))

  unfoldable pub verify_inclusion : InclusionProof → Bytes → Bytes → Result (Unit {0})
  verify_inclusion p leaf root = do
    fail_if (p.tree_size == 0 || leb p.tree_size p.index) (Error.proof "proof index out of range")
    verify_path p leaf root

  pub subproof : ℕ → ℕ → List Bytes → Bool → List Bytes → List Bytes
  subproof zero m d b out = out
  subproof (suc f) m d b out =
      let k = largest_pow2_lt (length d) in
      let left = subproof f m (take k d) b out ++ mth (drop k d) ∷ [] in
      let right = subproof f (m - k) (drop k d) false out ++ mth (take k d) ∷ [] in
      if m == length d
      then (if b then out else out ++ mth d ∷ [])
      else if leb m k
      then left
      else right

  unfoldable pub consistency_proof : ℕ → List Bytes → List Bytes
  consistency_proof m d =
      if m == 0 || m == length d || ltb (length d) m then [] else subproof (length d) m d true []

  unfoldable pub verify_consistency : ConsistencyProof → Bytes → Bytes → Result (Unit {0})
  verify_consistency p old_root new_root =
      if p.old_size == p.new_size
      then fail_if (not (is_empty p.nodes && bytes_eq old_root new_root))
          (Error.proof "invalid empty-tree consistency")
      else if p.old_size == 0
      then fail_if (not (is_empty p.nodes)) (Error.proof "non-empty proof for empty old tree")
      else (do
        fail_if (ltb p.new_size p.old_size) (Error.proof "old_size exceeds new_size")
        fail_if (is_empty p.nodes) (Error.proof "empty proof")
        let (full, border) = decomp_incl_proof (p.old_size - 1) p.new_size
        let shift = trailing_zeros p.old_size
        let inner = full - shift
        let (seed, proof) = seed_and_rest p.old_size shift p.nodes old_root
        fail_if (not (length proof == inner + border)) (Error.proof "wrong proof size")
        let mask = shr (p.old_size - 1) shift
        let below1 = chain_inner_right seed (take inner proof) mask
        let hash1 = chain_border_right below1 (drop inner proof)
        fail_if (not (bytes_eq hash1 old_root)) (Error.proof "old root mismatch")
        let below2 = chain_inner seed (take inner proof) mask
        let hash2 = chain_border_right below2 (drop inner proof)
        fail_if (not (bytes_eq hash2 new_root)) (Error.proof "root mismatch"))

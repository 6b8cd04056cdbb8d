-- ===== src/Merkle/Tests.antt =====
-- Merkle trees of a few leaves: runs of the code's functions, and the theorems at such trees.
use sovereign_ledger.Base.{
  ℕ, ◌*◌, ◌≡◌, ◌↔◌, refl, ◌⊎◌, some, List, [], ◌∷◌, arith, get_elem?, take, length, ◌^◌,
}
use sovereign_ledger.Base.Bits.{even_steps, leading_zeros, trailing_zeros, count_ones}
use sovereign_ledger.Base.Bytes.{le_bytes, bytes_eq}
use sovereign_ledger.Crypto.{Bytes, ShaCollides}
use sovereign_ledger.Error.{Error, ok, err}
use sovereign_ledger.Merkle.{
  InclusionProof, ConsistencyProof, pow2_loop, largest_pow2_lt, inner_proof_size, decomp_incl_proof,
  leaf_hash, node_hash, mth_fuel, mth, audit_path_rec, audit_path, chain_inner_from, chain_inner,
  chain_border_right, verify_path, verify_inclusion, subproof, consistency_proof,
  verify_consistency,
}
use sovereign_ledger.Merkle.Split.{largest_pow2_lt-IsSplit}
use sovereign_ledger.Merkle.Inclusion.{
  inclusion_proof, mth-IsDigest, audit_path-IsDigest, verify_inclusion-audit_path,
  verify_inclusion_sound,
}
use sovereign_ledger.Merkle.Consistency.{extension_proof, consistency_proof-IsDigest}
use sovereign_ledger.Merkle.Consistency.Complete.{verify_consistency-consistency_proof}
use sovereign_ledger.Merkle.Consistency.Sound.{NodesCollide, verify_consistency_sound}
use sovereign_ledger.Merkle.Rfc.{IsRoot, mth-IsRoot}
use sovereign_ledger.Merkle.Tree.{mth_fuel-enough}
use sovereign_ledger.Merkle.Root.{LeavesCollide, mth_binds}
use sovereign_ledger.Merkle.Hashed.{inclusion_messages}
use sovereign_ledger.Toy.{toy_sha}

abbrev leaf : ℕ → Bytes
leaf i = le_bytes 32 (i * 1_000_003)

abbrev five : List Bytes
five = leaf 1 ∷ leaf 2 ∷ leaf 3 ∷ leaf 4 ∷ leaf 5 ∷ []

split_runs :
    (largest_pow2_lt 2 ≡ 1)
    × (largest_pow2_lt 5 ≡ 4)
    × (largest_pow2_lt 8 ≡ 4)
    × (largest_pow2_lt (2 ^ 63) ≡ 2 ^ 62)
unfolding largest_pow2_lt pow2_loop
split_runs = (refl, refl, refl, refl)

proof_parts : (decomp_incl_proof 4 5 ≡ (0, 1)) × (decomp_incl_proof 2 5 ≡ (3, 0))
unfolding decomp_incl_proof inner_proof_size leading_zeros count_ones
proof_parts = (refl, refl)

old_shift : trailing_zeros 12 ≡ 2
unfolding trailing_zeros even_steps
old_shift = refl

path_lengths : (length (audit_path toy_sha 4 five) ≡ 1) × (length (audit_path toy_sha 2 five) ≡ 3)
unfolding audit_path audit_path_rec largest_pow2_lt pow2_loop mth mth_fuel
path_lengths = (refl, refl)

node_count : length (consistency_proof toy_sha 3 five) ≡ 4
unfolding consistency_proof subproof largest_pow2_lt pow2_loop
node_count = refl

abbrev fourth : InclusionProof
fourth = record { index = 3; tree_size = 5; path = audit_path toy_sha 3 five }

wrong_leaf :
    verify_inclusion toy_sha fourth (leaf 3) (mth toy_sha five) ≡ err (Error.proof "root mismatch")
unfolding verify_inclusion verify_path decomp_incl_proof inner_proof_size leading_zeros count_ones
    chain_inner chain_inner_from chain_border_right leaf_hash node_hash audit_path audit_path_rec
    largest_pow2_lt pow2_loop mth mth_fuel le_bytes bytes_eq
wrong_leaf = refl

out_of_range :
    verify_inclusion toy_sha
      (record { index = 5; tree_size = 5; path = [] })
      (leaf 3)
      (mth toy_sha five)
    ≡ err (Error.proof "proof index out of range")
unfolding verify_inclusion
out_of_range = refl

largest_pow2_lt-IsSplit_example : largest_pow2_lt 1000 ≡ 2 ^ 9
largest_pow2_lt-IsSplit_example =
    largest_pow2_lt-IsSplit 1000 9
      (record { below = omega arith; above = omega arith; small = omega arith })

verify_inclusion-audit_path_example :
    verify_inclusion toy_sha (inclusion_proof toy_sha 3 five) (leaf 4) (mth toy_sha five) ≡ ok tt
verify_inclusion-audit_path_example =
    verify_inclusion-audit_path toy_sha 3 five (leaf 4) (omega arith) refl

fourth_verifies : verify_inclusion toy_sha fourth (leaf 4) (mth toy_sha five) ≡ ok tt
unfolding inclusion_proof
fourth_verifies = verify_inclusion-audit_path toy_sha 3 five (leaf 4) (omega arith) refl

verify_inclusion_sound_example :
    ((get_elem? five 3 ≡ some (leaf 4)) × (fourth.path ≡ audit_path toy_sha 3 five))
    ⊎ ((x : Bytes) × (get_elem? five 3 ≡ some x)
        × ShaCollides toy_sha
            (inclusion_messages toy_sha fourth (leaf 4))
            (inclusion_messages toy_sha (inclusion_proof toy_sha 3 five) x))
verify_inclusion_sound_example =
    verify_inclusion_sound toy_sha fourth five (leaf 4) refl (omega arith)
      (audit_path-IsDigest toy_sha 3 five) fourth_verifies

verify_consistency-consistency_proof_example :
    verify_consistency toy_sha
      (extension_proof toy_sha 3 five)
      (mth toy_sha (take 3 five))
      (mth toy_sha five)
    ≡ ok tt
verify_consistency-consistency_proof_example =
    verify_consistency-consistency_proof toy_sha 3 five (omega arith) (omega arith)

abbrev third : ConsistencyProof
third = record { old_size = 3; new_size = 5; nodes = consistency_proof toy_sha 3 five }

third_verifies :
    verify_consistency toy_sha third (mth toy_sha (take 3 five)) (mth toy_sha five) ≡ ok tt
unfolding extension_proof
third_verifies = verify_consistency-consistency_proof toy_sha 3 five (omega arith) (omega arith)

verify_consistency_sound_example :
    ((mth toy_sha (take 3 five) ≡ mth toy_sha (take 3 five))
      × (third.nodes ≡ consistency_proof toy_sha 3 five))
    ⊎ NodesCollide toy_sha third five (mth toy_sha (take 3 five))
verify_consistency_sound_example =
    verify_consistency_sound toy_sha third five (mth toy_sha (take 3 five)) refl (omega arith)
      (omega arith) (mth-IsDigest toy_sha (take 3 five)) (consistency_proof-IsDigest toy_sha 3 five)
      third_verifies

mth_binds_example : (five ≡ five) ⊎ LeavesCollide toy_sha five five
mth_binds_example = mth_binds toy_sha five five refl (omega arith) refl

mth-IsRoot_example : (mth toy_sha five ≡ mth toy_sha five) ↔ IsRoot toy_sha five (mth toy_sha five)
mth-IsRoot_example = mth-IsRoot toy_sha five (mth toy_sha five) (omega arith)

mth_fuel-enough_example : mth_fuel toy_sha 5 five ≡ mth_fuel toy_sha 9 five
mth_fuel-enough_example = mth_fuel-enough toy_sha 5 9 five (omega arith) (omega arith) (omega arith)

-- ===== src/Cli/Outputs.antt =====
-- src/main.rs: what the commands on proofs make of a file that was read, or of a proof.
use Prim.Native.String.{String}
use sovereign_ledger.Base.{ℕ, ◌⊎◌, inl, inr, get_elem?}
use sovereign_ledger.Crypto.{Bytes}
use sovereign_ledger.Error.{Error, Result, ok, err, ok_or, ◌>>=◌, ◌>>◌}
use sovereign_ledger.Ledger.{File, Ledger}
use sovereign_ledger.Ledger.Read.{
  verify, merkle_root, leaf_hashes, prove_inclusion, prove_consistency,
}
use sovereign_ledger.Merkle.{verify_inclusion, verify_consistency}
use sovereign_ledger.Cli.{
  Libraries, Output, root_of, inclusion, inclusion_verified, consistency, consistency_verified,
}

abbrev parsed : {A : Type 0} → String ⊎ A → Result A
parsed (inl e) = err (Error.serialization e)
parsed (inr a) = ok a

module _ (b : Libraries) where
  unfoldable pub root_output : Ledger → File → Result Output
  root_output ledger file = do
    verify b.crates ledger file
    root ← merkle_root b.crates file
    ok (root_of ledger.seq (b.crates.hex.encode ledger.last_hash) (b.crates.hex.encode root))

  unfoldable pub prove_output : ℕ → File → Result Output
  prove_output seq file = do
    proof ← prove_inclusion b.crates seq file
    leaves ← leaf_hashes b.crates file
    leaf ← ok_or (get_elem? leaves proof.index) (Error.proof "leaf missing")
    root ← merkle_root b.crates file
    ok (inclusion (b.crates.hex.encode leaf) (b.crates.hex.encode root) proof)

  unfoldable pub consistency_output : ℕ → File → Result Output
  consistency_output old_size file = do
    proof ← prove_consistency b.crates old_size file
    root ← merkle_root b.crates file
    ok (consistency (b.crates.hex.encode root) proof)

  -- The text of a proof, against a leaf and a root.
  unfoldable pub check_inclusion_text : Bytes → Bytes → Bytes → Result Output
  check_inclusion_text leaf root text = do
    proof ← parsed (b.parse_inclusion text)
    verify_inclusion b.crates.sha proof leaf root
    ok inclusion_verified

  unfoldable pub check_consistency_text : Bytes → Bytes → Bytes → Result Output
  check_consistency_text old_root new_root text = do
    proof ← parsed (b.parse_consistency text)
    verify_consistency b.crates.sha proof old_root new_root
    ok consistency_verified

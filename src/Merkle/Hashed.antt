-- ===== src/Merkle/Hashed.antt =====
-- The messages that the verifiers of src/merkle.rs hash, in the order in which they do.
use sovereign_ledger.Base.{ℕ, zero, suc, ◌-◌, ◌/◌, ◌%◌, List, [], ◌∷◌, ◌++◌, ◌==◌, if◌then◌else◌}
use sovereign_ledger.Base.Bits.{shr, trailing_zeros}
use sovereign_ledger.Crypto.{Bytes, Sha256}
use sovereign_ledger.Merkle.{InclusionProof, ConsistencyProof, leaf_hash, node_hash, seed_and_rest}
use sovereign_ledger.Merkle.Walk.{join}

-- The messages of a leaf, and of a node.
abbrev pub leaf_message : Bytes → Bytes
leaf_message leaf = 0 ∷ leaf

abbrev pub node_message : Bytes → Bytes → Bytes
node_message l r = 1 ∷ (l ++ r)

abbrev pub join_message : Bytes → Bytes → ℕ → Bytes
join_message acc h m = if m % 2 == 0 then node_message acc h else node_message h acc

module _ (sha : Sha256) where
  -- Those of `chain_border_right`.
  unfoldable pub border_messages : Bytes → List Bytes → List Bytes
  border_messages acc [] = []
  border_messages acc (h ∷ hs) = node_message h acc ∷ border_messages (node_hash sha h acc) hs

  -- Those of the inner part, and of the border behind it, as `walk` goes.
  unfoldable pub walk_messages : ℕ → Bytes → List Bytes → ℕ → ℕ → List Bytes
  walk_messages zero acc hs m last = border_messages acc hs
  walk_messages (suc f) acc [] m last = []
  walk_messages (suc f) acc (h ∷ hs) m last =
      let rest = walk_messages f (join sha acc h m) hs (m / 2) (last / 2) in
      if m == last then border_messages acc (h ∷ hs) else join_message acc h m ∷ rest

  -- What `InclusionProof::verify` hashes for a leaf.
  unfoldable pub inclusion_messages : InclusionProof → Bytes → List Bytes
  inclusion_messages p leaf =
      leaf_message leaf ∷ walk_messages 64 (leaf_hash sha leaf) p.path p.index (p.tree_size - 1)

  -- What `ConsistencyProof::verify` hashes for the newer root, beside an older one.
  unfoldable pub consistency_messages : ConsistencyProof → Bytes → List Bytes
  consistency_messages p old_root =
      let shift = trailing_zeros p.old_size in
      let (seed, rest) = seed_and_rest p.old_size shift p.nodes old_root in
      walk_messages (64 - shift) seed rest (shr (p.old_size - 1) shift) (shr (p.new_size - 1) shift)

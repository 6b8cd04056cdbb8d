-- ===== src/Ledger/Read.antt =====
-- src/lib.rs: the operations that only read: `verify`, `dump`, the leaves of the Merkle tree and the
-- proofs about them.
use sovereign_ledger.Base.{
  ℕ, ◌+◌, ◌-◌, Bool, false, not, ◌&&◌, ◌||◌, Option, none, some, List, [], ◌∷◌, ltb, ◌==◌,
  if◌then◌else◌, get_elem?, length,
}
use sovereign_ledger.Base.Bytes.{bytes_eq}
use sovereign_ledger.Crypto.{Bytes}
use sovereign_ledger.Crates.{Crates, Event}
use sovereign_ledger.Error.{Error, Result, ok, ◌>>=◌, ◌>>◌, fail_if, ok_or, map_err}
use sovereign_ledger.Event.{seal_event, zero_hash, segment_key, entry_key, event_hash, decode_hash}
use sovereign_ledger.Ledger.{File, Ledger, next, iter, bad_seal}
use sovereign_ledger.Merkle.{InclusionProof, ConsistencyProof, mth, audit_path, consistency_proof}
use sovereign_ledger.Seal.{parse_body}

-- The local variables of `verify`.
pub record Chain : Type 0 where
  pub last_hash : Bytes
  pub seals_seen : ℕ
  pub seg0_had_legacy : Bool

abbrev pub chain_start : Chain
chain_start = record { last_hash = zero_hash; seals_seen = 0; seg0_had_legacy = false }

abbrev is_some_of : Option Bytes → Bytes → Bool
is_some_of none k = false
is_some_of (some h) k = bytes_eq h k

-- `it.collect()`: the first error, or all the entries.
unfoldable pub collect : List (Result Event) → Result (List Event)
collect [] = ok []
collect (item ∷ rest) = item >>= λ event. (collect rest >>= λ events. ok (event ∷ events))

-- The counts of a line of `verify`, ahead of its tests.
unfoldable pub note_event : Event → Chain → Chain
note_event event c = record c {
  seg0_had_legacy = c.seals_seen == 0 && ltb event.v 3 || c.seg0_had_legacy;
  seals_seen = if bytes_eq event.event_type seal_event then next c.seals_seen else c.seals_seen;
}

module _ (w : Crates) where
  -- The keys that a seal discloses are those of the segment that it closes.
  unfoldable pub check_reveals : List Bytes → ℕ → Bool → List (ℕ × Bytes) → Result (Unit {0})
  check_reveals keys segment legacy [] = ok tt
  check_reveals keys segment legacy ((e, revealed_hex) ∷ rest) = do
    base ← ok_or (get_elem? keys e) (Error.missing_key e)
    let expected = if segment == 0 && legacy then base else segment_key w base segment
    fail_if (not (is_some_of (decode_hash w revealed_hex) expected))
        (Error.verification "seal at line {idx} reveals a wrong key for epoch {e}")
    check_reveals keys segment legacy rest

  unfoldable pub check_seal : List Bytes → ℕ → Event → Chain → Result (Unit {0})
  check_seal keys idx event c =
      if bytes_eq event.event_type seal_event
      then (do
        seal ← map_err (bad_seal idx) (parse_body w event.body)
        check_reveals keys seal.segment c.seg0_had_legacy seal.revealed)
      else ok tt

  -- The tests on one entry; the hash that continues the chain.
  unfoldable pub check_link : List Bytes → ℕ → Event → Chain → Result Bytes
  check_link keys idx event c = do
    key ← entry_key w keys event.epoch c.seals_seen event.v
    prev_hash ← ok_or (decode_hash w event.prev_hash) (Error.invalid_line idx "bad prev_hash")
    fail_if (not (bytes_eq prev_hash c.last_hash) || not (event.seq == next idx))
        (Error.broken_chain idx)
    expected ← event_hash w event.v c.last_hash event.seq event.ts event.event_type event.body key
    fail_if (not (bytes_eq event.hash (w.hex.encode expected))) (Error.broken_chain idx)
    ok expected

  unfoldable pub verify_event : List Bytes → ℕ → Event → Chain → Result Chain
  verify_event keys idx event c = do
    let c = note_event event c
    expected ← check_link keys idx event c
    check_seal keys idx event c
    ok (record c { last_hash = expected })

  unfoldable pub verify_items : List Bytes → ℕ → List (Result Event) → Chain → Result Chain
  verify_items keys idx [] c = ok c
  verify_items keys idx (item ∷ items) c = do
    event ← item
    d ← verify_event keys idx event c
    verify_items keys (idx + 1) items d

  unfoldable pub verify : Ledger → File → Result (Unit {0})
  verify l none = ok tt
  verify l (some bytes) = do
    items ← iter w (some bytes)
    end ← verify_items l.keys 0 items chain_start
    ok tt

  unfoldable pub dump : File → Result (List Event)
  dump none = ok []
  dump (some bytes) = iter w (some bytes) >>= collect

  unfoldable pub leaves : List (Result Event) → Result (List Bytes)
  leaves [] = ok []
  leaves (item ∷ rest) = do
    event ← item
    leaf ← ok_or (decode_hash w event.hash) (Error.verification "bad stored hash")
    out ← leaves rest
    ok (leaf ∷ out)

  unfoldable pub leaf_hashes : File → Result (List Bytes)
  leaf_hashes file = iter w file >>= leaves

  unfoldable pub merkle_root : File → Result Bytes
  merkle_root file = do d ← leaf_hashes file; ok (mth w.sha d)

  unfoldable pub prove_inclusion : ℕ → File → Result InclusionProof
  prove_inclusion seq file = do
    d ← leaf_hashes file
    fail_if (seq == 0 || ltb (length d) seq) (Error.proof "no entry with seq {seq}")
    ok (record { index = seq - 1; tree_size = length d; path = audit_path w.sha (seq - 1) d })

  unfoldable pub prove_consistency : ℕ → File → Result ConsistencyProof
  prove_consistency old_size file = do
    d ← leaf_hashes file
    fail_if (ltb (length d) old_size) (Error.proof "old_size {old_size} exceeds tree size {n}")
    ok (record {
      old_size = old_size;
      new_size = length d;
      nodes = consistency_proof w.sha old_size d;
    })

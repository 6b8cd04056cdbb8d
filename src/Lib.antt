-- ===== src/Lib.antt =====
-- Sovereign Ledger: an append-only audit log whose entries are chained by keyed hashes, sealed
-- in segments, and provable by Merkle proofs (src/*.rs).
--
-- The program's parts. A ledger handle (src/lib.rs) appends one JSON line per entry to a file;
-- each entry holds the hash of the one before it and a MAC under a key for its segment. A seal
-- (src/seal.rs) closes a segment: it discloses the segment's keys and binds its Merkle root
-- (src/merkle.rs) under a signature. An anchor (src/anchor.rs) signs the tip. Readers verify
-- the chain with the keys, or the sealed part without them, and hand out inclusion and
-- consistency proofs.
--
-- Files:
--   Base and its children: native numbers, lists, Boolean tests, bit operations, byte strings.
--   Text: what the program uses of std on strings and lines; a String is its UTF-8 bytes, and
--     UTF-8 validity and white space are decided by automata. Text/Lines: a written line is
--     read back.
--   Error: the error type of src/lib.rs and results. Crypto, Crates: the third-party crates
--     (sha2, hmac, hex, serde_json) as parameters with the behaviour that they document, and
--     the two serialised record types. Toy and its children: stand-ins that satisfy those
--     hypotheses, for runs.
--   Merkle: src/merkle.rs (leaf_hash, node_hash, largest_pow2_lt, mth, audit_path,
--     InclusionProof::verify, consistency_proof, ConsistencyProof::verify). Its children:
--     Split, Tree (the shape), Walk, WalkRight, Digits (the verifiers' loops, by the bits of
--     index and size), Audit, Path, Verdict, Hashed (the messages that the verifiers hash),
--     Binding, Inclusion (inclusion proofs), Subproof, FullTree, Opening, Sizes, Chains,
--     Consistency (consistency proofs), Root, Rfc (RFC 6962).
--   Event: Key::new, segment_key, entry_key, event_hash and its versions, decode_hash of
--     src/lib.rs. Event/Message: the message that is authenticated.
--   Ledger: SovereignLedger, open_with_seeds, LedgerIter of src/lib.rs. Ledger/Write: append,
--     rotate_key, the marks. Ledger/Close: seal. Ledger/Read: verify, dump, leaf_hashes,
--     merkle_root, prove_inclusion, prove_consistency. Proofs: Coherent, Entry, Extend, Append
--     (handle and file agree), Sound (verify after append), Scanned, Opened (opening what
--     verify passes), After, Steps (runs of operations), Ready (when append writes), Invariant,
--     Bounds (sequence numbers), Leaves, Authenticated (the messages that verify
--     authenticates), Link, Binding, Tamper (the tip binds the entries), Written (lines read
--     back), Proofs (Merkle proofs of a ledger).
--   Seal: src/seal.rs up to parse_body; Seal/Public: verify_signature and verify_public.
--     Anchor: the payloads and FileKeyAnchor of src/anchor.rs; Anchor/KeyFile, Anchor/Ed25519,
--     Anchor/Agent: write_checkpoint and the three anchors and signers; Anchor/Binding,
--     Anchor/Roundtrip, Anchor/Written, Anchor/Seeds: their proofs. Seal/Binding: what a sealed
--     segment is bound by. Seal/Written and its children: from what the ledger writes to what
--     verify_public reads (Chained, Revealed, Gather, Record, Accepted: one segment; Reads,
--     Published, Entries, Closing, Fields, Sealed: the file behind each operation; Grown: whole
--     histories).
--   Import: strip_hash_field, verify_badapple_line and slicks_key_candidates of src/import.rs;
--     Import/Run: import_badapple, import_journald, import_jsonl, over Ledger/Write's append;
--     Import/Strip, Import/Keeps, Import/Added, Import/Loops, Import/Sourced: their proofs.
--   Files: what the program uses of std::fs, as functions on a map from paths to contents;
--     Files/Frame (which files an action leaves), Files/Runs, Files/Holds: its lemmas.
--   Cli: Cli, Commands, gather_seeds, open, read_body, ledger_tip, decode_hex32 of src/main.rs,
--     with what a run finds outside as a record; Cli/Pick: pick_seal_signer, pick_anchor;
--     Cli/Commands, Cli/Outputs, Cli/Export, Cli/Import, Cli/Checkpoints: the arms of run;
--     Cli/Run: run. Cli/Atomic, Cli/ImportKeys, Cli/Imported (import), Cli/Proofs (prove and
--     check), Cli/Anchored, Cli/AnchorVerify, Cli/KeyFiles, Cli/Attested (checkpoints), Cli/Cef
--     and its children (a reader of the CEF export): their proofs.
--
-- Conventions. A theorem that rests on a hash function ends in a list of the messages that are
-- hashed on one side and a list of those on the other: Collides says that at one place of the
-- two there is a pair that differs and has one hash. Numbers are natural numbers; where a u64
-- or u32 can wrap the reduction is written out. The ledger file is a value beside the handle,
-- and each operation gives its result, the handle and the file; the clock, the random bytes
-- that a key is drawn from and what the disk does (takes the line, fails to open, writes a
-- part, fails to sync) are arguments. Sets and maps are lists. Error messages built with
-- format! are represented by their template.
--
-- Bounds and fuel. mth, audit_path and subproof run on fuel, for which the length of the slice
-- is enough, since both parts are shorter. largest_pow2_lt has 64 rounds, enough for sizes up
-- to 2^63, which slices cannot exceed; the theorems on trees have that bound. Decimal numbers
-- have at most 20 digits.
--
-- Not modelled: permissions, the blocking of the lock, memory pinning, the parsing of arguments
-- and the exit code, the text around what is printed, the endless loop of tail --follow, the
-- timeouts of the socket, the wasm bindings, the archived program, and everything outside src/.
-- The identity agent, the clock, the random bytes of a run and its faults are given from
-- outside. Read errors other than invalid UTF-8 and a missing file are left out, and so is what
-- tail and export print before they stop at an error.
pub mod Anchor
pub mod Base
pub mod Cli
pub mod Crates
pub mod Crypto
pub mod Error
pub mod Event
pub mod Files
pub mod Import
pub mod Ledger
pub mod Merkle
pub mod Seal
pub mod Text
pub mod Toy

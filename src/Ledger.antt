-- ===== src/Ledger.antt =====
-- src/lib.rs: the ledger's handle, the scan that opens a file, and the reader of its entries. The
-- file is a value beside the handle: `none` where there is none. Reads succeed, except that a line
-- which is not UTF-8 is the error that std::io gives.
pub mod Write
pub mod Scanned
pub mod Opened
pub mod Read
pub mod Close
pub mod Coherent
pub mod Entry
pub mod Leaves
pub mod Extend
pub mod Append
pub mod Link
pub mod Authenticated
pub mod Binding
pub mod Tamper
pub mod Written
pub mod Sound
pub mod Invariant
pub mod Bounds
pub mod Tests
pub mod OneEntry
pub mod Ready
mod ReadTests
pub mod Proofs
pub mod After
pub mod Steps
use Prim.Native.String.{String}
use sovereign_ledger.Base.{
  ℕ, zero, suc, ◌+◌, ◌%◌, ◌^◌, max, Bool, true, false, not, ◌&&◌, ◌||◌, ◌⊎◌, inl, inr, Option, none,
  some, List, [], ◌∷◌, ◌++◌, ltb, ◌==◌, if◌then◌else◌,
}
use sovereign_ledger.Base.Bytes.{bytes_eq}
use sovereign_ledger.Crypto.{Bytes}
use sovereign_ledger.Crates.{Crates, Event, SealRecord}
use sovereign_ledger.Error.{Error, Result, ok, err, ◌>>=◌, ok_or, map_err}
use sovereign_ledger.Event.{seal_event, zero_hash, key_new, entry_key, event_hash, decode_hash}
use sovereign_ledger.Seal.{parse_body}
use sovereign_ledger.Text.{is_text, is_blank, trim_end, read_lines, strip_newline}

abbrev pub File : Type 0
File = Option Bytes

-- `SovereignLedger`, without the path and the lock; the set of epochs lists what was inserted.
pub record Ledger : Type 0 where
  pub keys : List Bytes
  pub last_hash : Bytes
  pub seq : ℕ
  pub epoch : ℕ
  pub seals_seen : ℕ
  pub sealed_through : ℕ
  pub legacy_segment0 : Bool
  pub revealed_epochs : List ℕ
  pub read_only : Bool
  pub compromised : Bool
  pub durable : Bool

abbrev pub contains : List ℕ → ℕ → Bool
contains [] x = false
contains (y ∷ ys) x = x == y || contains ys x

-- A `u64` that is incremented.
abbrev pub next : ℕ → ℕ
next n = (n + 1) % 2 ^ 64

-- The local variables of `open_with_seeds`.
pub record Scan : Type 0 where
  pub last_hash : Bytes
  pub seq : ℕ
  pub max_epoch : ℕ
  pub seals_seen : ℕ
  pub sealed_through : ℕ
  pub compromised : Bool
  pub legacy_segment0 : Bool
  pub seg0_epochs : List ℕ
  pub revealed_epochs : List ℕ

abbrev pub start : Scan
start = record {
  last_hash = zero_hash;
  seq = 0;
  max_epoch = 0;
  seals_seen = 0;
  sealed_through = 0;
  compromised = false;
  legacy_segment0 = false;
  seg0_epochs = [];
  revealed_epochs = [];
}

-- The entries of segment 0 decide whether it is a legacy one.
unfoldable pub note_segment0 : Event → Scan → Scan
note_segment0 event s = record s {
  legacy_segment0 = s.seals_seen == 0 && ltb event.v 3 || s.legacy_segment0;
  seg0_epochs = if s.seals_seen == 0 then event.epoch ∷ s.seg0_epochs else s.seg0_epochs;
}

abbrev not_utf8 : Error
not_utf8 = Error.io "stream did not contain valid UTF-8"

abbrev pub bad_seal : ℕ → Error → Error
bad_seal idx e = Error.invalid_line idx "verification error: malformed seal record: {e}"

module _ (w : Crates) where
  -- A seal is the first entry of the segment that it opens.
  unfoldable pub note_seal : ℕ → Event → Scan → Result Scan
  note_seal idx event s =
      if bytes_eq event.event_type seal_event
      then (do
        seal ← map_err (bad_seal idx) (parse_body w event.body)
        ok (record s {
          seals_seen = next s.seals_seen;
          sealed_through = max s.sealed_through seal.end_seq;
          revealed_epochs =
              if s.legacy_segment0 && next s.seals_seen == 1
              then s.seg0_epochs ++ s.revealed_epochs
              else s.revealed_epochs;
        }))
      else ok s

  -- The tests on the chain, behind the bookkeeping for segments.
  unfoldable pub check_entry : List Bytes → ℕ → Event → Scan → Result Scan
  check_entry keys idx event s = do
    key ← entry_key w keys event.epoch s.seals_seen event.v
    prev_hash ← ok_or (decode_hash w event.prev_hash) (Error.invalid_line idx "bad prev_hash")
    if not (bytes_eq prev_hash s.last_hash) || not (event.seq == next s.seq)
        then ok (record s { compromised = true })
        else (do
          expected ←
              event_hash w event.v s.last_hash event.seq event.ts event.event_type event.body key
          if not (bytes_eq event.hash (w.hex.encode expected))
              then ok (record s { compromised = true })
              else ok (record s {
                last_hash = expected;
                seq = event.seq;
                max_epoch = max s.max_epoch event.epoch;
              }))

  unfoldable pub scan_event : List Bytes → ℕ → Event → Scan → Result Scan
  scan_event keys idx event s = do
    s ← note_seal idx event (note_segment0 event s)
    check_entry keys idx event s

  -- One round of the loop over `reader.lines().enumerate()`; the line has its newline still.
  unfoldable pub scan_line : List Bytes → ℕ → Bytes → Scan → Result Scan
  scan_line keys idx raw s =
      if not (is_text raw)
      then err not_utf8
      else if is_blank (strip_newline raw)
      then ok s
      else parsed (w.serde.parse_event (strip_newline raw))
    where
      parsed : String ⊎ Event → Result Scan
      parsed (inl e) = err (Error.invalid_line idx e)
      parsed (inr event) = scan_event keys idx event s

  unfoldable pub scan_lines : List Bytes → ℕ → List Bytes → Scan → Result Scan
  scan_lines keys idx [] s = ok s
  scan_lines keys idx (raw ∷ raws) s = scan_line keys idx raw s >>= λ t.
      (let rest = scan_lines keys (idx + 1) raws t in if t.compromised then ok t else rest)

  unfoldable pub scan_file : List Bytes → File → Result Scan
  scan_file keys none = ok start
  scan_file keys (some bytes) = scan_lines keys 0 (read_lines bytes) start

  -- The bytes that `OsRng` gives are an argument: without seeds they are the key.
  unfoldable pub seed_keys : Bytes → List Bytes → List Bytes
  seed_keys drawn [] = key_new w drawn none ∷ []
  seed_keys drawn (s ∷ seeds) = each (s ∷ seeds)
    where
      each : List Bytes → List Bytes
      each [] = []
      each (s ∷ seeds) = key_new w drawn (some s) ∷ each seeds

  abbrev pub handle : List Bytes → Scan → Ledger
  handle keys s = record {
    keys = keys;
    last_hash = s.last_hash;
    seq = s.seq;
    epoch = s.max_epoch;
    seals_seen = s.seals_seen;
    sealed_through = s.sealed_through;
    legacy_segment0 = s.legacy_segment0;
    revealed_epochs = s.revealed_epochs;
    read_only = false;
    compromised = s.compromised;
    durable = false;
  }

  unfoldable pub open_with_seeds : Bytes → List Bytes → File → Result Ledger
  open_with_seeds drawn seeds file = do
    s ← scan_file (seed_keys drawn seeds) file
    ok (handle (seed_keys drawn seeds) s)

  -- `SovereignLedger::new`.
  unfoldable pub new : Bytes → Option Bytes → File → Result Ledger
  new drawn none file = open_with_seeds drawn [] file
  new drawn (some seed) file = open_with_seeds drawn (seed ∷ []) file

  -- `LedgerIter::next`, until it is exhausted: what each line gives. Every caller stops at an error, so
  -- that what is counted behind a line that is not UTF-8 is never seen.
  unfoldable pub items : ℕ → List Bytes → List (Result Event)
  items line [] = []
  items line (raw ∷ raws) =
      let rest = items (line + 1) raws in
      if not (is_text raw)
      then err not_utf8 ∷ rest
      else if is_blank raw
      then rest
      else parsed (w.serde.parse_event (trim_end raw)) ∷ rest
    where
      parsed : String ⊎ Event → Result Event
      parsed (inl e) = err (Error.invalid_line line e)
      parsed (inr event) = ok event

  unfoldable pub iter : File → Result (List (Result Event))
  iter none = err (Error.io "not found")
  iter (some bytes) = ok (items 0 (read_lines bytes))

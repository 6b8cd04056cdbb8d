-- ===== src/Ledger/Write.antt =====
-- src/lib.rs: the operations that change the ledger: `append`, `rotate_key`, `seal`, and the marks.
-- Each gives its result, the handle and the file. The clock and what the disk does are arguments.
use Prim.Native.String.{String}
use sovereign_ledger.Base.{
  ℕ, ◌+◌, ◌^◌, Bool, true, ◌&&◌, Option, none, some, [], ◌∷◌, ◌++◌, ltb, ◌==◌, if◌then◌else◌, take,
}
use sovereign_ledger.Base.Bytes.{codes}
use sovereign_ledger.Crypto.{Bytes}
use sovereign_ledger.Crates.{Crates, Event}
use sovereign_ledger.Error.{Error, Result, ok, err, ◌>>=◌, ◌>>◌, fail_if, ok_or}
use sovereign_ledger.Event.{format_version, key_rotation_event, key_new, entry_key, event_hash_v2}
use sovereign_ledger.Ledger.{File, Ledger, contains}
use sovereign_ledger.Text.{decimal}

-- What the disk does with one `append`: it takes the line (and syncs, where that is asked for), or it
-- fails to open the file, to write more than the first bytes, or to sync what is written.
pub data Disk : Type 0 where
  healthy : Disk
  open_fails : String → Disk
  write_fails : ℕ → String → Disk
  sync_fails : String → Disk

abbrev pub contents : File → Bytes
contents none = []
contents (some bytes) = bytes

-- `OpenOptions::open`, `writeln!` and `sync_all`.
unfoldable pub write_line : Disk → Bool → Bytes → File → Result (Unit {0}) × File
write_line healthy durable line file = (ok tt, some (contents file ++ (line ++ 10 ∷ [])))
write_line (open_fails e) durable line file = (err (Error.io e), file)
write_line (write_fails n e) durable line file =
    (err (Error.io e), some (contents file ++ take n line))
write_line (sync_fails e) durable line file =
    (if durable then err (Error.io e) else ok tt, some (contents file ++ (line ++ 10 ∷ [])))

-- The format that the next entry is written in.
abbrev pub entry_version : Ledger → ℕ
entry_version l = if l.seals_seen == 0 && l.legacy_segment0 then 2 else format_version

abbrev checked_next : ℕ → ℕ → Option ℕ
checked_next w n = if ltb (n + 1) (2 ^ w) then some (n + 1) else none

unfoldable pub set_durable : Bool → Ledger → Ledger
set_durable durable l = record l { durable = durable }

unfoldable pub mark_readonly : Ledger → Ledger
mark_readonly l = record l { read_only = true }

unfoldable pub mark_compromised : Ledger → Ledger
mark_compromised l = record l { compromised = true }

abbrev pub needs_rotation : Ledger → Bool
needs_rotation l = contains l.revealed_epochs l.epoch

module _ (w : Crates) where
  -- The entry that `append` writes, and its hash.
  unfoldable pub next_entry : ℕ → Bytes → Bytes → Ledger → Result (Event × Bytes)
  next_entry now event_type body l = do
    fail_if l.compromised Error.compromised
    fail_if l.read_only Error.read_only
    fail_if (contains l.revealed_epochs l.epoch) (
        Error.verification
          "epoch {epoch} key was published by a seal; rotate to a fresh seed before appending")
    key ← entry_key w l.keys l.epoch l.seals_seen (entry_version l)
    next_seq ← ok_or (checked_next 64 l.seq) (Error.verification "sequence overflow")
    let hash = event_hash_v2 w l.last_hash next_seq now event_type body key
    ok (
      record {
        v = entry_version l;
        seq = next_seq;
        ts = now;
        event_type = event_type;
        body = body;
        epoch = l.epoch;
        prev_hash = w.hex.encode l.last_hash;
        hash = w.hex.encode hash;
      },
      hash,
    )

  unfoldable pub append : ℕ → Disk → Bytes → Bytes → Ledger → File → Result ℕ × Ledger × File
  append now disk event_type body l file = written (next_entry now event_type body l)
    where
      recorded : Event → Bytes → Result (Unit {0}) × File → Result ℕ × Ledger × File
      recorded event hash (err e, file) = (err e, l, file)
      recorded event hash (ok t, file) =
          (ok event.seq, record l { last_hash = hash; seq = event.seq }, file)

      written : Result (Event × Bytes) → Result ℕ × Ledger × File
      written (err e) = (err e, l, file)
      written (ok (event, hash)) =
          recorded event hash (write_line disk l.durable (w.serde.print_event event) file)

  -- The key is pushed, and the epoch changed, before the entry is written.
  unfoldable pub rotate_key : ℕ → Disk → Bytes → Ledger → File → Result ℕ × Ledger × File
  rotate_key now disk new_seed l file = rotated (checked_next 32 l.epoch)
    where
      pushed : Ledger
      pushed = record l { keys = l.keys ++ key_new w [] (some new_seed) ∷ [] }

      finished : ℕ → Result ℕ × Ledger × File → Result ℕ × Ledger × File
      finished epoch (err e, l, file) = (err e, l, file)
      finished epoch (ok seq, l, file) = (ok epoch, l, file)

      rotated : Option ℕ → Result ℕ × Ledger × File
      rotated none = (err (Error.verification "epoch overflow"), pushed, file)
      rotated (some epoch) = finished epoch (
          append now disk key_rotation_event (codes "{\"epoch\":" ++ (decimal epoch ++ codes "}"))
            (record pushed { epoch = epoch }) file)

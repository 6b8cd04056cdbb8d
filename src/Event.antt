-- ===== src/Event.antt =====
-- src/lib.rs: keys, the hashes that authenticate an entry, and the version dispatch.
mod Tests
pub mod Message
use sovereign_ledger.Base.{
  ℕ, zero, suc, ◌%◌, ◌^◌, Option, none, some, List, [], ◌∷◌, ◌++◌, ltb, ◌==◌, if◌then◌else◌, length,
  get_elem?,
}
use sovereign_ledger.Base.Bytes.{codes, le_bytes}
use sovereign_ledger.Crypto.{Bytes, hash_size}
use sovereign_ledger.Crates.{Crates, Event}
use sovereign_ledger.Error.{Error, Result, ok, err, ◌>>=◌, ok_or}

abbrev pub format_version : ℕ
format_version = 3

abbrev pub key_rotation_event : Bytes
key_rotation_event = codes "sovereign:key-rotation"

abbrev pub seal_event : Bytes
seal_event = codes "sovereign:seal"

-- `[0u8; HASH_SIZE]`.
abbrev pub zero_hash : Bytes
zero_hash = le_bytes hash_size 0

-- What the version 2 hash authenticates: the fields, tagged, each text behind its length.
unfoldable pub message : Bytes → ℕ → ℕ → Bytes → Bytes → Bytes
message prev_hash seq ts event_type body =
    codes "SL2"
    ++ (prev_hash
        ++ (le_bytes 8 seq
            ++ (le_bytes 8 ts
                ++ (le_bytes 4 (length event_type % 2 ^ 32)
                    ++ (event_type ++ (le_bytes 8 (length body) ++ body))))))

module _ (w : Crates) where
  -- `Key::new`, and the bytes that `OsRng` gives this call, which a seed leaves unused.
  unfoldable pub key_new : Bytes → Option Bytes → Bytes
  key_new drawn (some seed) = w.sha.digest (codes "SOVEREIGN_LEDGER:" ++ seed)
  key_new drawn none = drawn

  unfoldable pub segment_key : Bytes → ℕ → Bytes
  segment_key base segment = w.hmac.mac base (codes "sovereign-segment-v1" ++ le_bytes 8 segment)

  unfoldable pub entry_key : List Bytes → ℕ → ℕ → ℕ → Result Bytes
  entry_key base_keys epoch seals_seen version = do
    base ← ok_or (get_elem? base_keys epoch) (Error.missing_key epoch)
    if ltb version 3 then ok base else ok (segment_key base seals_seen)

  unfoldable pub event_hash_v1 : Bytes → ℕ → ℕ → Bytes → Bytes → Bytes → Bytes
  event_hash_v1 prev_hash seq ts event_type body key =
      w.sha.digest
        (prev_hash ++ (le_bytes 8 seq ++ (le_bytes 8 ts ++ (event_type ++ (body ++ key)))))

  unfoldable pub event_hash_v2 : Bytes → ℕ → ℕ → Bytes → Bytes → Bytes → Bytes
  event_hash_v2 prev_hash seq ts event_type body key =
      w.hmac.mac key (message prev_hash seq ts event_type body)

  unfoldable pub event_hash : ℕ → Bytes → ℕ → ℕ → Bytes → Bytes → Bytes → Result Bytes
  event_hash version prev_hash seq ts event_type body key =
      if version == 1
      then ok (event_hash_v1 prev_hash seq ts event_type body key)
      else if version == 2
      then ok (event_hash_v2 prev_hash seq ts event_type body key)
      else if version == 3
      then ok (event_hash_v2 prev_hash seq ts event_type body key)
      else err (Error.unsupported_version version)

  unfoldable pub decode_hash : Bytes → Option Bytes
  decode_hash s = sized (w.hex.decode s)
    where
      sized : Option Bytes → Option Bytes
      sized none = none
      sized (some v) = if length v == hash_size then some v else none

-- ===== src/Crates.antt =====
-- The third-party crates that src/*.rs calls, as parameters with what they document: sha2 and hmac,
-- hex, serde_json (for the two record types of the ledger), and rand. With them stand those two
-- types, whose serialisation src/lib.rs and src/seal.rs derive.
use Prim.Native.String.{String}
use sovereign_ledger.Base.{ℕ, ◌≡◌, [], ◌∷◌, ◌<◌, ◌^◌, ◌⊎◌, inr, Option, some, true, List, All}
use sovereign_ledger.Crypto.{Bytes, IsBytes, IsDigest, Sha256}
use sovereign_ledger.Text.{is_text}
use sovereign_ledger.Text.Lines.{IsLine}

pub record Event : Type 0 where
  pub v : ℕ
  pub seq : ℕ
  pub ts : ℕ
  pub event_type : Bytes
  pub body : Bytes
  pub epoch : ℕ
  pub prev_hash : Bytes
  pub hash : Bytes

pub record SealRecord : Type 0 where
  pub segment : ℕ
  pub start_seq : ℕ
  pub end_seq : ℕ
  pub tip_hash : Bytes
  pub merkle_root : Bytes
  pub revealed : List (ℕ × Bytes)
  pub prev_seal : Bytes
  pub scheme : Bytes
  pub public_key : Bytes
  pub signature : Bytes
  pub payload : Bytes

-- The values that the Rust type holds: its integers fit, and its strings are UTF-8.
pub record IsEvent (e : Event) : Type 0 where
  pub v : e.v < 2 ^ 32
  pub seq : e.seq < 2 ^ 64
  pub ts : e.ts < 2 ^ 64
  pub event_type : is_text e.event_type ≡ true
  pub body : is_text e.body ≡ true
  pub epoch : e.epoch < 2 ^ 32
  pub prev_hash : is_text e.prev_hash ≡ true
  pub hash : is_text e.hash ≡ true

-- A `BTreeMap` lists its keys in order, each once.
abbrev pub IsAscending : List (ℕ × Bytes) → Type 0
IsAscending [] = Unit
IsAscending (p ∷ []) = Unit
IsAscending (p ∷ q ∷ ps) = (p.0 < q.0) × IsAscending (q ∷ ps)

pub record IsSeal (r : SealRecord) : Type 0 where
  pub segment : r.segment < 2 ^ 64
  pub start_seq : r.start_seq < 2 ^ 64
  pub end_seq : r.end_seq < 2 ^ 64
  pub tip_hash : is_text r.tip_hash ≡ true
  pub merkle_root : is_text r.merkle_root ≡ true
  pub revealed : All (λ p. (p.0 < 2 ^ 32) × (is_text p.1 ≡ true)) r.revealed
  pub ascending : IsAscending r.revealed
  pub prev_seal : is_text r.prev_seal ≡ true
  pub scheme : is_text r.scheme ≡ true
  pub public_key : is_text r.public_key ≡ true
  pub signature : is_text r.signature ≡ true
  pub payload : is_text r.payload ≡ true

-- `Hmac<Sha256>` over the concatenation of what `update` is given.
pub record Hmac : Type 0 where
  pub mac : Bytes → Bytes → Bytes
  pub mac-IsDigest : (key message : Bytes) → IsDigest (mac key message)

-- `hex::encode` and `hex::decode`.
pub record Hex : Type 0 where
  pub encode : Bytes → Bytes
  pub decode : Bytes → Option Bytes
  pub decode-encode : (bs : Bytes) → IsBytes bs → decode (encode bs) ≡ some bs
  pub decode-IsBytes : (s bs : Bytes) → decode s ≡ some bs → IsBytes bs
  pub encode-is_text : (bs : Bytes) → is_text (encode bs) ≡ true

-- `serde_json::to_string` and `serde_json::from_str`, whose error is kept as its text.
pub record Serde : Type 0 where
  pub print_event : Event → Bytes
  pub parse_event : Bytes → String ⊎ Event
  pub parse-print_event : (e : Event) → IsEvent e → parse_event (print_event e) ≡ inr e
  pub print_event-IsLine : (e : Event) → IsEvent e → IsLine (print_event e)
  pub print_seal : SealRecord → Bytes
  pub parse_seal : Bytes → String ⊎ SealRecord
  pub parse-print_seal : (r : SealRecord) → IsSeal r → parse_seal (print_seal r) ≡ inr r
  pub print_seal-is_text : (r : SealRecord) → IsSeal r → is_text (print_seal r) ≡ true

pub record Crates : Type 0 where
  pub sha : Sha256
  pub hmac : Hmac
  pub hex : Hex
  pub serde : Serde

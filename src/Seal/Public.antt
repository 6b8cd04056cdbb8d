-- ===== src/Seal/Public.antt =====
-- src/seal.rs: verification without keys. A loop over the lines keeps the open segment; a seal is
-- checked against the segment that it closes.
use Prim.Native.String.{String}
use sovereign_ledger.Base.{
  ℕ, ◌+◌, ◌-◌, ◌%◌, ◌^◌, Bool, true, not, ◌&&◌, ◌||◌, ◌⊎◌, inl, inr, Option, none, some, List, [],
  ◌∷◌, ◌++◌, ◌==◌, if◌then◌else◌, length,
}
use sovereign_ledger.Base.Bytes.{bytes_eq, codes, is_empty}
use sovereign_ledger.Crypto.{Bytes}
use sovereign_ledger.Crates.{Crates, Event, SealRecord}
use sovereign_ledger.Error.{Error, Result, ok, err, ◌>>=◌, ◌>>◌, fail_if, ok_or, map_err}
use sovereign_ledger.Event.{seal_event, zero_hash, event_hash, decode_hash}
use sovereign_ledger.Merkle.{mth}
use sovereign_ledger.Seal.{seal_payload, parse_body}
use sovereign_ledger.Text.{is_text, is_blank, trim_end, read_lines, strip_newline}

-- The crates ed25519_dalek, p256 and base64: whether bytes are a key or a signature of the kind, and
-- whether a signature verifies.
pub record Signatures : Type 0 where
  pub ed25519_key : Bytes → Bool
  pub ed25519_verify : Bytes → Bytes → Bytes → Bool
  pub base64_decode : Bytes → Option Bytes
  pub p256_key : Bytes → Bool
  pub p256_signature : Bytes → Bool
  pub p256_verify : Bytes → Bytes → Bytes → Bool

pub record PublicVerifyReport : Type 0 where
  pub sealed_entries : ℕ
  pub unsealed_entries : ℕ
  pub segments : ℕ
  pub anchor_id : Option (Bytes × Bytes)

-- The local variables of `verify_public`.
pub record Public : Type 0 where
  pub seals_seen : ℕ
  pub last_hash : Bytes
  pub buffer : List Event
  pub segment_start : ℕ
  pub sealed_entries : ℕ
  pub prev_seal_hash : Bytes
  pub anchor_id : Option (Bytes × Bytes)
  pub expected_seq : ℕ

abbrev pub public_start : Public
public_start = record {
  seals_seen = 0;
  last_hash = zero_hash;
  buffer = [];
  segment_start = 1;
  sealed_entries = 0;
  prev_seal_hash = [];
  anchor_id = none;
  expected_seq = 1;
}

abbrev succ64 : ℕ → ℕ
succ64 n = (n + 1) % 2 ^ 64

-- `BTreeMap::get`.
unfoldable pub revealed_key : ℕ → List (ℕ × Bytes) → Option Bytes
revealed_key e [] = none
revealed_key e ((f, k) ∷ ps) = let rest = revealed_key e ps in if e == f then some k else rest

-- `v.try_into().ok()` for an array of `n` bytes.
abbrev pub sized : ℕ → Option Bytes → Option Bytes
sized n none = none
sized n (some v) = if length v == n then some v else none

-- The identity is pinned by the first seal.
unfoldable pub check_anchor : SealRecord → Option (Bytes × Bytes) → Bool
check_anchor seal none = true
check_anchor seal (some (scheme, pk)) = bytes_eq scheme seal.scheme && bytes_eq pk seal.public_key

unfoldable pub pin_anchor : SealRecord → Option (Bytes × Bytes) → Option (Bytes × Bytes)
pin_anchor seal none = some (seal.scheme, seal.public_key)
pin_anchor seal (some id) = some id

abbrev pub first_prev : List Event → Bytes
first_prev [] = []
first_prev (e ∷ es) = e.prev_hash

-- An error at a line of the ledger; the number is left out of the text.
abbrev at_line : String → Error
at_line m = Error.verification m

module _ (w : Crates) (g : Signatures) where
  unfoldable pub verify_signature : Bytes → Bytes → Bytes → Bytes → Result Bool
  verify_signature scheme public_key signature payload =
      if bytes_eq scheme (codes "ed25519-file")
      then (do
        pk ← ok_or (sized 32 (w.hex.decode public_key)) (at_line "bad ed25519 seal public key")
        fail_if (not (g.ed25519_key pk)) (at_line "bad ed25519 seal public key: {e}")
        sig ← ok_or (sized 64 (w.hex.decode signature)) (at_line "bad ed25519 seal signature")
        ok (g.ed25519_verify pk payload sig))
      else if bytes_eq scheme (codes "secure-enclave")
      then (do
        pk ← ok_or (g.base64_decode public_key) (at_line "bad enclave seal public key: {e}")
        fail_if (not (g.p256_key pk)) (at_line "bad enclave seal public key: {e}")
        der ← ok_or (g.base64_decode signature) (at_line "bad enclave seal signature: {e}")
        fail_if (not (g.p256_signature der)) (at_line "bad enclave seal signature: {e}")
        ok (g.p256_verify pk payload der))
      else err (at_line "seal scheme '{other}' is not publicly verifiable (symmetric anchor)")

  -- The loop over the entries of a segment: the hashes, from the one before.
  unfoldable pub segment_hashes : SealRecord → Bytes → List Event → Result (List Bytes)
  segment_hashes seal prev [] = ok []
  segment_hashes seal prev (e ∷ es) = do
    key_hex ←
        ok_or (revealed_key e.epoch seal.revealed)
          (at_line "seal does not reveal a key for epoch {epoch}")
    key ← ok_or (decode_hash w key_hex) (at_line "seal reveals a malformed key")
    expected ← event_hash w e.v prev e.seq e.ts e.event_type e.body key
    fail_if (not (bytes_eq e.hash (w.hex.encode expected)))
        (at_line "entry seq {seq} fails authentication")
    rest ← segment_hashes seal expected es
    ok (expected ∷ rest)

  abbrev pub last_of : Bytes → List Bytes → Bytes
  last_of h [] = h
  last_of h (x ∷ xs) = last_of x xs

  unfoldable pub check_sealed : SealRecord → Public → Result (Unit {0})
  check_sealed seal s = do
    fail_if (not (seal.segment == s.seals_seen)) (at_line "seal out of order")
    fail_if (not (bytes_eq seal.prev_seal s.prev_seal_hash))
        (at_line "seal prev_seal does not match the previous seal event")
    fail_if
        (is_empty s.buffer
          || not (seal.start_seq == s.segment_start)
          || not (seal.end_seq == (s.segment_start + length s.buffer - 1) % 2 ^ 64))
        (at_line "seal covers [{}..{}] but segment contains {} entries from {}")
    prev ← ok_or (decode_hash w (first_prev s.buffer)) (Error.verification "bad prev_hash")
    leaves ← segment_hashes seal prev s.buffer
    fail_if (not (bytes_eq (w.hex.encode (mth w.sha leaves)) seal.merkle_root))
        (at_line "seal merkle_root does not match segment entries")
    fail_if (not (bytes_eq (w.hex.encode (last_of prev leaves)) seal.tip_hash))
        (at_line "seal tip_hash does not match segment tip")
    fail_if (not (check_anchor seal s.anchor_id)) (at_line "seal anchor identity changed mid-chain")
    fail_if (not (is_empty seal.payload) && not (bytes_eq seal.payload (seal_payload seal)))
        (at_line "seal payload does not match canonical seal fields")
    valid ← verify_signature seal.scheme seal.public_key seal.signature (seal_payload seal)
    fail_if (not valid) (at_line "seal signature invalid")

  -- An entry that is linked to the last one; where it is a seal, the segment before it is closed.
  unfoldable pub close_segment : ℕ → Event → Public → Result Public
  close_segment line event s =
      if bytes_eq event.event_type seal_event
      then (do
        seal ←
            map_err (λ e. Error.invalid_line line "verification error: malformed seal record: {e}")
              (parse_body w event.body)
        check_sealed seal s
        ok (record s {
          sealed_entries = (s.sealed_entries + length s.buffer) % 2 ^ 64;
          buffer = [];
          prev_seal_hash = event.hash;
          seals_seen = succ64 s.seals_seen;
          segment_start = event.seq;
          anchor_id = pin_anchor seal s.anchor_id;
        }))
      else ok s

  unfoldable pub public_event : ℕ → Event → Public → Result Public
  public_event line event s = do
    prev_hash ← ok_or (decode_hash w event.prev_hash) (Error.invalid_line line "bad prev_hash")
    fail_if (not (bytes_eq prev_hash s.last_hash) || not (event.seq == s.expected_seq))
        (Error.broken_chain line)
    hash ← ok_or (decode_hash w event.hash) (Error.invalid_line line "bad hash")
    t ←
        close_segment line event
          (record s { expected_seq = succ64 s.expected_seq; last_hash = hash })
    ok (record t { buffer = t.buffer ++ event ∷ [] })

  unfoldable pub public_lines : ℕ → List Bytes → Public → Result Public
  public_lines line [] s = ok s
  public_lines line (raw ∷ raws) s =
      if not (is_text raw)
      then err (Error.io "stream did not contain valid UTF-8")
      else if is_blank (strip_newline raw)
      then public_lines (line + 1) raws s
      else parsed (w.serde.parse_event (trim_end (strip_newline raw))) >>= λ event.
          public_event line event s >>= λ t. public_lines (line + 1) raws t
    where
      parsed : String ⊎ Event → Result Event
      parsed (inl e) = err (Error.invalid_line line e)
      parsed (inr event) = ok event

  unfoldable pub verify_public : Bytes → Result PublicVerifyReport
  verify_public bytes = do
    s ← public_lines 0 (read_lines bytes) public_start
    ok (record {
      sealed_entries = s.sealed_entries;
      unsealed_entries = length s.buffer;
      segments = s.seals_seen;
      anchor_id = s.anchor_id;
    })

-- ===== src/Import.antt =====
-- src/import.rs: logs of other formats, verified line by line and appended to a ledger. Values of
-- serde_json are a parameter; the clock and the disk are functions of the entries that were appended.
mod Tests
pub mod Strip
pub mod Run
pub mod Added
pub mod Loops
pub mod Sourced
pub mod Keeps
use Prim.Native.String.{String}
use sovereign_ledger.Base.{
  ℕ, zero, suc, ◌+◌, Bool, true, false, not, ◌&&◌, ◌||◌, ◌⊎◌, inl, inr, Option, none, some, List,
  [], ◌∷◌, ◌++◌, ltb, leb, ◌==◌, if◌then◌else◌, length, take, drop,
}
use sovereign_ledger.Base.Bytes.{bytes_eq, codes, is_empty}
use sovereign_ledger.Crypto.{Bytes, hash_size}
use sovereign_ledger.Crates.{Crates}
use sovereign_ledger.Error.{Error, Result, ok, err, ◌>>=◌, ◌>>◌, fail_if, ok_or}
use sovereign_ledger.Ledger.{File, Ledger}
use sovereign_ledger.Ledger.Write.{Disk, append}
use sovereign_ledger.Merkle.{mth}
use sovereign_ledger.Text.{is_text, is_blank, trim_end, read_lines, strip_newline, trim}

-- `serde_json::Value`: `get(k).and_then(as_str)`, `get(k).is_some()`, `get(k).map(to_string)`, and
-- whether a text is an object (`from_str::<BTreeMap<String, Value>>`).
pub record Values : Type 1 where
  pub Value : Type 0
  pub parse : Bytes → String ⊎ Value
  pub get_str : Bytes → Value → Option Bytes
  pub has : Bytes → Value → Bool
  pub get_text : Bytes → Value → Option Bytes
  pub is_object : Bytes → Bool

abbrev pub is_ascii_whitespace : ℕ → Bool
is_ascii_whitespace b = b == 32 || b == 9 || b == 10 || b == 12 || b == 13

abbrev within : ℕ → ℕ → ℕ → Bool
within low high b = leb low b && leb b high

abbrev pub is_ascii_hexdigit : ℕ → Bool
is_ascii_hexdigit b = within 48 57 b || within 97 102 b || within 65 70 b

unfoldable pub all_hexdigit : Bytes → Bool
all_hexdigit [] = true
all_hexdigit (b ∷ bs) = is_ascii_hexdigit b && all_hexdigit bs

unfoldable pub skip_white : Bytes → Bytes
skip_white [] = []
skip_white (b ∷ bs) = let rest = skip_white bs in if is_ascii_whitespace b then rest else b ∷ bs

-- What stands behind a prefix.
unfoldable pub after_prefix : Bytes → Bytes → Option Bytes
after_prefix [] bs = some bs
after_prefix (p ∷ ps) [] = none
after_prefix (p ∷ ps) (b ∷ bs) = let rest = after_prefix ps bs in if p == b then rest else none

infixl 4 ◌>>?◌
abbrev pub ◌>>?◌ {ℓ κ} : {A : Type ℓ} {B : Type κ} → Option A → (A → Option B) → Option B
none >>? f = none
some a >>? f = f a

-- `"hash":"…64hex…"` at the front: the value, and what stands behind the field.
unfoldable pub field_at : Bytes → Option (Bytes × Bytes)
field_at bs = after_prefix (codes "\"hash\"") bs >>? λ rest.
    after_prefix (codes ":") (skip_white rest) >>? λ rest.
    after_prefix (codes "\"") (skip_white rest) >>? λ value.
    after_prefix (codes "\"") (drop 64 value) >>? λ post.
    (if all_hexdigit (take 64 value) then some (take 64 value, post) else none)

unfoldable pub reverse_onto : Bytes → Bytes → Bytes
reverse_onto [] out = out
reverse_onto (b ∷ bs) out = reverse_onto bs (b ∷ out)

-- The prefix, last byte first, without the comma and the white space at its end.
unfoldable pub before_comma : Bytes → Option Bytes
before_comma prefix = after_prefix (codes ",") (skip_white prefix)

module _ (j : Values) where
  -- One round of the loop, at the place between a prefix (last byte first) and the rest.
  unfoldable pub strip_here : Bytes → Bytes → Option (Bytes × Bytes)
  strip_here prefix rest = field_at rest >>? λ found. before_comma prefix >>? λ kept.
      (if j.is_object (reverse_onto kept found.1)
        then some (reverse_onto kept found.1, found.0)
        else none)

  abbrev or_else : Option (Bytes × Bytes) → Option (Bytes × Bytes) → Option (Bytes × Bytes)
  or_else none later = later
  or_else (some x) later = some x

  unfoldable pub strip_from : Bytes → Bytes → Option (Bytes × Bytes)
  strip_from prefix [] = none
  strip_from prefix (b ∷ bs) = or_else (strip_here prefix (b ∷ bs)) (strip_from (b ∷ prefix) bs)

  unfoldable pub strip_hash_field : Bytes → Option (Bytes × Bytes)
  strip_hash_field line = strip_from [] line

-- `unwrap_or`.
abbrev pub or_default : Option Bytes → Bytes → Bytes
or_default none d = d
or_default (some x) d = x

module _ (w : Crates) (j : Values) where
  unfoldable pub hex_sha256 : Bytes → Bytes
  hex_sha256 content = w.hex.encode (w.sha.digest content)

  unfoldable pub hex_hmac_sha256 : Bytes → Bytes → Bytes
  hex_hmac_sha256 key content = w.hex.encode (w.hmac.mac key content)

  unfoldable pub any_secret : List Bytes → Bytes → Bytes → Bool
  any_secret [] content stored = false
  any_secret (k ∷ ks) content stored =
      bytes_eq (hex_hmac_sha256 k content) stored || any_secret ks content stored

  abbrev matches : List Bytes → Bytes → Bytes → Bool
  matches secrets content stored =
      bytes_eq (hex_sha256 content) stored || any_secret secrets content stored

  -- The two schemas: an explicit `prev_hash`, or the chain folded into the hash.
  unfoldable pub check_schema : j.Value → List Bytes → Bytes → Bytes → Bytes → Result Bool
  check_schema entry secrets prev body stored = by_prev (j.get_str (codes "prev_hash") entry)
    where
      by_prev : Option Bytes → Result Bool
      by_prev (some entry_prev) = do
        fail_if (not (bytes_eq entry_prev prev))
            (Error.verification "prev_hash mismatch: expected {prev}, got {entry_prev}")
        ok (matches secrets body stored)
      by_prev none =
          if j.has (codes "timestamp") entry && j.has (codes "event_type") entry
          then ok (matches secrets (prev ++ body) stored)
          else err (
              Error.verification
                "unrecognized entry schema (no prev_hash, no timestamp/event_type)")

  unfoldable pub parse_value : (String → Error) → Bytes → Result j.Value
  parse_value f bs = parsed (j.parse bs)
    where
      parsed : String ⊎ j.Value → Result j.Value
      parsed (inl e) = err (f e)
      parsed (inr v) = ok v

  unfoldable pub verify_badapple_line : Bytes → List Bytes → Bytes → Result Bytes
  verify_badapple_line line secrets prev = if is_blank line then ok prev else (do
    entry ← parse_value Error.verification line
    stripped ← ok_or (strip_hash_field j line) (Error.verification "missing 'hash' field")
    valid ← check_schema entry secrets prev stripped.0 stripped.1
    fail_if (not valid)
        (Error.verification "hash mismatch: stored {stored_hash} does not match any known scheme")
    ok stripped.1)

  unfoldable pub badapple_event_fields : Bytes → Result (Bytes × Bytes)
  badapple_event_fields line = do
    entry ← parse_value Error.serialization line
    ok (
      or_default (j.get_str (codes "type") entry) (codes "audit"),
      or_default (j.get_text (codes "data") entry) line,
    )

abbrev when : Bool → Bytes → List Bytes
when b x = if b then x ∷ [] else []

abbrev decoded : Option Bytes → List Bytes
decoded none = []
decoded (some x) = x ∷ []

module _ (w : Crates) where
  -- The keys that the text of a key file can stand for, the decoded hexadecimal first.
  unfoldable pub text_candidates : Bytes → List Bytes
  text_candidates text =
      (if leb 32 (length (trim text)) && all_hexdigit (trim text)
        then decoded (w.hex.decode (trim text))
        else [])
      ++ (text ∷ when (not (is_empty (trim text)) && not (bytes_eq (trim text) text)) (trim text))

  unfoldable pub slicks_key_candidates : Bytes → List Bytes
  slicks_key_candidates raw =
      (if is_text raw then text_candidates raw else []) ++ when (not (is_empty raw)) raw

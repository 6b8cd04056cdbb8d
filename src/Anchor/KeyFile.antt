-- ===== src/Anchor/KeyFile.antt =====
-- `FileKeyAnchor` of src/anchor.rs as an `Anchor` and as a `SealSigner`, and the file of its key; and
-- the file of a checkpoint.
use Prim.Native.String.{String}
use sovereign_ledger.Base.{
  ℕ, ◌<◌, ◌^◌, ◌≡◌, ◌⊎◌, inr, Option, none, some, true, List, All, [], ◌∷◌, ◌++◌, if◌then◌else◌,
  ◌==◌,
}
use sovereign_ledger.Base.Bytes.{codes, is_empty}
use sovereign_ledger.Crypto.{Bytes}
use sovereign_ledger.Crates.{Crates}
use sovereign_ledger.Error.{Error, Result, ok, err}
use sovereign_ledger.Files.{FilePath, with_name, Io, pure, ◌>>◌, read, create, create_new, rename}
use sovereign_ledger.Ledger.Write.{Disk}
use sovereign_ledger.Seal.{SealSigner}
use sovereign_ledger.Text.{is_text}
use sovereign_ledger.Anchor.{Anchor, Checkpoint, file_mac, key_id, file_attest, file_verify}

-- The raw bytes of the file are the key.
unfoldable pub file_key_from_file : FilePath → Io Bytes
file_key_from_file p = read p

unfoldable pub file_key_generate : Disk → Bytes → FilePath → Io Bytes
file_key_generate disk fresh p = do create_new disk p fresh; pure fresh

abbrev pub optional {ℓ} : {A : Type ℓ} → Option A → List A
optional none = []
optional (some a) = a ∷ []

module _ (w : Crates) where
  abbrev pub file_key_anchor : Bytes → Bytes → Anchor
  file_key_anchor signed_at key = record {
    attest = λ tip. ok (file_attest w key signed_at tip);
    verify = λ c. ok (file_verify w key c);
  }

  unfoldable pub file_key_sign : Bytes → Bytes → Result Bytes
  file_key_sign key payload =
      if is_text payload
      then ok (file_mac w key payload)
      else err (Error.anchor "seal payload is not utf-8: {e}")

  abbrev pub file_key_signer : Bytes → SealSigner
  file_key_signer key = record {
    scheme = codes "hmac-sha256";
    public_key = ok (key_id w key);
    sign = file_key_sign key;
  }

-- The values that the Rust type holds.
pub record IsCheckpoint (c : Checkpoint) : Type 0 where
  pub entry_count : c.entry_count < 2 ^ 64
  pub genesis : is_text c.genesis ≡ true
  pub tip_hash : is_text c.tip_hash ≡ true
  pub merkle_root : All (λ t. is_text t ≡ true) (optional c.merkle_root)
  pub signed_at : is_text c.signed_at ≡ true
  pub scheme : is_text c.scheme ≡ true
  pub public_key : All (λ t. is_text t ≡ true) (optional c.public_key)
  pub signature : is_text c.signature ≡ true
  pub payload : is_text c.payload ≡ true

-- serde_json for a checkpoint: `from_str`, and `to_string_pretty`, which reads back.
pub record CheckpointText : Type 0 where
  pub print : Checkpoint → Bytes
  pub parse : Bytes → String ⊎ Checkpoint
  pub print-is_text : (c : Checkpoint) → IsCheckpoint c → is_text (print c ++ 10 ∷ []) ≡ true
  pub parse-print : (c : Checkpoint) → IsCheckpoint c → parse (print c ++ 10 ∷ []) ≡ inr c

-- `with_extension("tmp")`: the last dot of a name, unless it is the first byte, starts the extension.
abbrev or_else_cut : Option Bytes → Option Bytes → Option Bytes
or_else_cut (some s) first = some s
or_else_cut none first = first

abbrev prepend : ℕ → Option Bytes → Option Bytes
prepend b none = none
prepend b (some s) = some (b ∷ s)

unfoldable pub cut_last_dot : Bytes → Option Bytes
cut_last_dot [] = none
cut_last_dot (b ∷ bs) =
    or_else_cut (prepend b (cut_last_dot bs)) (if b == 46 then some [] else none)

unfoldable pub file_stem : Bytes → Bytes
file_stem name = stem (cut_last_dot name)
  where
    stem : Option Bytes → Bytes
    stem none = name
    stem (some s) = if is_empty s then name else s

unfoldable pub write_checkpoint :
    CheckpointText → Disk → Option String → FilePath → Checkpoint → Io FilePath
write_checkpoint t disk fault path c = do
  create disk (with_name (file_stem path.name ++ codes ".tmp") path) (t.print c ++ 10 ∷ [])
  rename fault (with_name (file_stem path.name ++ codes ".tmp") path) path
  pure path

-- ===== src/Seal.antt =====
-- src/seal.rs: the record that closes a segment, its canonical payload and its signature.
pub mod Public
pub mod Segment
pub mod Binding
pub mod Written
mod Tests
use Prim.Native.String.{String}
use sovereign_ledger.Base.{
  ℕ, zero, suc, ◌+◌, ◌/◌, ◌%◌, ◌⊎◌, inl, inr, List, [], ◌∷◌, ◌++◌, ltb, if◌then◌else◌,
}
use sovereign_ledger.Base.Bytes.{codes}
use sovereign_ledger.Crypto.{Bytes}
use sovereign_ledger.Crates.{Crates, SealRecord}
use sovereign_ledger.Error.{Error, Result, ok, err, ◌>>=◌}
use sovereign_ledger.Text.{decimal}

-- The trait `SealSigner`; what an implementation does is up to it.
pub record SealSigner : Type 0 where
  pub scheme : Bytes
  pub public_key : Result Bytes
  pub sign : Bytes → Result Bytes

-- `"{e}": "{k}"`.
unfoldable pub revealed_pair : ℕ × Bytes → Bytes
revealed_pair (e, k) = codes "\"" ++ (decimal e ++ (codes "\": \"" ++ (k ++ codes "\"")))

-- The pairs, joined by `", "`.
unfoldable pub revealed_text : List (ℕ × Bytes) → Bytes
revealed_text [] = []
revealed_text (p ∷ []) = revealed_pair p
revealed_text (p ∷ q ∷ ps) = revealed_pair p ++ (codes ", " ++ revealed_text (q ∷ ps))

unfoldable pub seal_payload : SealRecord → Bytes
seal_payload r =
    codes "{\"end_seq\": "
    ++ (decimal r.end_seq
        ++ (codes ", \"merkle_root\": \""
            ++ (r.merkle_root
                ++ (codes "\", \"revealed\": {"
                    ++ (revealed_text r.revealed
                        ++ (codes "}, \"segment\": "
                            ++ (decimal r.segment
                                ++ (codes ", \"start_seq\": "
                                    ++ (decimal r.start_seq
                                        ++ (codes ", \"tip_hash\": \""
                                            ++ (r.tip_hash ++ codes "\"}")))))))))))

unfoldable pub sign_record : SealRecord → SealSigner → Result SealRecord
sign_record r signer = do
  signature ← signer.sign (seal_payload r)
  ok (record r { payload = seal_payload r; signature = signature })

module _ (w : Crates) where
  unfoldable pub parse_body : Bytes → Result SealRecord
  parse_body body = parsed (w.serde.parse_seal body)
    where
      parsed : String ⊎ SealRecord → Result SealRecord
      parsed (inl e) = err (Error.verification "malformed seal record: {e}")
      parsed (inr r) = ok r

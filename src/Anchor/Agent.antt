-- ===== src/Anchor/Agent.antt =====
-- `IdentityAgentAnchor` of src/anchor.rs: a process behind a socket that signs and verifies. What it
-- answers is up to it.
use Prim.Native.String.{String}
use sovereign_ledger.Base.{
  Bool, false, not, ◌⊎◌, inl, inr, Option, none, some, [], ◌∷◌, ◌++◌, if◌then◌else◌,
}
use sovereign_ledger.Base.Bytes.{codes, is_empty}
use sovereign_ledger.Crypto.{Bytes}
use sovereign_ledger.Crates.{Crates}
use sovereign_ledger.Error.{Error, Result, ok, err, ◌>>=◌, ◌>>◌, ok_or, fail_if}
use sovereign_ledger.Seal.{SealSigner}
use sovereign_ledger.Anchor.{
  Anchor, Checkpoint, Tip, issued_checkpoint, canonical_payload, checkpoint_payload,
  payload_binds_fields,
}

-- What `json!` builds: the command, and its fields.
pub data Request : Type 0 where
  get_public_key : Request
  sign_message : Bytes → Request
  verify_message : Bytes → Bytes → Bytes → Request

-- The agent at a socket, with the crates serde_json and base64: whether the socket is there, the line
-- that is answered to a line (empty where the connection is closed), and the values of serde_json.
pub record Agent : Type 1 where
  pub exists : Bool
  pub answer : Bytes → String ⊎ Bytes
  pub Value : Type 0
  pub print : Request → Bytes
  pub parse : Bytes → String ⊎ Value
  pub get_bool : Bytes → Value → Option Bool
  pub get_str : Bytes → Value → Option Bytes
  pub encode64 : Bytes → Bytes

abbrev pub is_true : Option Bool → Bool
is_true none = false
is_true (some b) = b

module _ (a : Agent) where
  abbrev io_or_line : String ⊎ Bytes → Result Bytes
  io_or_line (inl e) = err (Error.io e)
  io_or_line (inr line) = ok line

  abbrev parsed : String ⊎ a.Value → Result a.Value
  parsed (inl e) = err (Error.serialization e)
  parsed (inr v) = ok v

  unfoldable pub call : Request → Result a.Value
  call request = do
    fail_if (not a.exists) (Error.anchor "identity agent socket not found")
    line ← io_or_line (a.answer (a.print request ++ 10 ∷ []))
    fail_if (is_empty line) (Error.anchor "identity agent closed the connection")
    resp ← parsed (a.parse line)
    fail_if (not (is_true (a.get_bool (codes "ok") resp))) (Error.anchor "{error}")
    ok resp

  unfoldable pub agent_public_key : Result Bytes
  agent_public_key = do
    resp ← call get_public_key
    ok_or (a.get_str (codes "public_key") resp) (Error.anchor "agent returned no public key")

  unfoldable pub agent_sign : Bytes → Result Bytes
  agent_sign message_b64 = do
    resp ← call (sign_message message_b64)
    ok_or (a.get_str (codes "signature") resp) (Error.anchor "agent returned no signature")

  unfoldable pub agent_verify : Checkpoint → Result Bool
  agent_verify c = if not (payload_binds_fields c) then ok false else (do
    public_key ← ok_or c.public_key (Error.anchor "checkpoint has no public key")
    resp ← call (verify_message (a.encode64 (checkpoint_payload c)) c.signature public_key)
    ok (is_true (a.get_bool (codes "valid") resp)))

  module _ (w : Crates) where
    unfoldable pub agent_attest : Bytes → Tip → Result Checkpoint
    agent_attest signed_at tip = do
      signature ← agent_sign (a.encode64 (canonical_payload w tip signed_at))
      public_key ← agent_public_key
      ok (issued_checkpoint w tip signed_at (codes "secure-enclave") public_key signature)

    abbrev pub agent_anchor : Bytes → Anchor
    agent_anchor signed_at = record { attest = agent_attest signed_at; verify = agent_verify }

  abbrev pub agent_signer : SealSigner
  agent_signer = record {
    scheme = codes "secure-enclave";
    public_key = agent_public_key;
    sign = λ payload. agent_sign (a.encode64 payload);
  }

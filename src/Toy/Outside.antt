-- ===== src/Toy/Outside.antt =====
-- Stand-ins for the rest of what the command line is given: signatures, checkpoints, an agent that is
-- not there, and a disk without faults.
use Prim.Native.String.{String}
use sovereign_ledger.Base.{
  ◌≡◌, refl, sym, ◌∙◌, ap, ◌⊎◌, inl, inr, true, false, Option, none, some, List, [], ◌∷◌, ◌++◌,
  length, ◌==◌,
}
use sovereign_ledger.Base.Bytes.{
  bytes_eq, bytes_eq_self, codes, le_bytes, length-le_bytes, le_bytes-IsBytes,
}
use sovereign_ledger.Crypto.{Bytes}
use sovereign_ledger.Import.{Values}
use sovereign_ledger.Ledger.Write.{healthy}
use sovereign_ledger.Merkle.{InclusionProof, ConsistencyProof}
use sovereign_ledger.Seal.Public.{Signatures}
use sovereign_ledger.Text.{is_text}
use sovereign_ledger.Text.Ascii.{is_text-append, literal-is_text}
use sovereign_ledger.Anchor.{Checkpoint}
use sovereign_ledger.Anchor.Agent.{Agent}
use sovereign_ledger.Anchor.Ed25519.{Ed25519}
use sovereign_ledger.Anchor.KeyFile.{CheckpointText}
use sovereign_ledger.Cli.{Outside, Libraries}
use sovereign_ledger.Toy.{mix}
use sovereign_ledger.Toy.Unary.{
  number, text, read_number, read_text, read_number-zero, read_text-text, IsPlain, number-IsPlain,
  text-IsPlain, is_text-plain, number-append, text-append,
}
use sovereign_ledger.Toy.World.{toy}

-- A signature is the mix of key and message.
abbrev toy_key : Bytes → Bytes
toy_key seed = le_bytes 32 (mix seed)

abbrev toy_sign : Bytes → Bytes → Bytes
toy_sign key m = le_bytes 64 (mix (key ++ m))

abbrev pub toy_signatures : Signatures
toy_signatures = record {
  ed25519_key = λ key. length key == 32;
  ed25519_verify = λ key m sig. bytes_eq sig (toy_sign key m);
  base64_decode = λ s. none;
  p256_key = λ key. false;
  p256_signature = λ sig. false;
  p256_verify = λ key m sig. false;
}

abbrev pub toy_ed25519 : Ed25519 toy_signatures
toy_ed25519 = record {
  verifying_key = toy_key;
  sign = λ seed m. toy_sign (toy_key seed) m;
  verifying_key-IsBytes = λ seed. le_bytes-IsBytes 32 (mix seed);
  length-verifying_key = λ seed. length-le_bytes 32 (mix seed);
  verifying_key-accepted = λ seed. rw (length-le_bytes 32 (mix seed)) refl;
  sign-IsBytes = λ seed m. le_bytes-IsBytes 64 (mix (toy_key seed ++ m));
  length-sign = λ seed m. length-le_bytes 64 (mix (toy_key seed ++ m));
  sign-verifies = λ seed m. bytes_eq_self (toy_sign (toy_key seed) m);
}

-- A checkpoint by its fields: the count in unary, then the texts, an optional one with a byte in front.
unfoldable pub texts : List Bytes → Bytes → Bytes
texts [] rest = rest
texts (s ∷ ss) rest = text s (texts ss rest)

texts-append : (ss : List Bytes) (xs ys : Bytes) → texts ss (xs ++ ys) ≡ texts ss xs ++ ys
unfolding texts
texts-append [] xs ys = refl
texts-append (s ∷ ss) xs ys = ap (text s) (texts-append ss xs ys) ∙ text-append s (texts ss xs) ys

texts-IsPlain : (ss : List Bytes) → IsPlain (texts ss [])
unfolding texts
texts-IsPlain [] = tt
texts-IsPlain (s ∷ ss) = text-IsPlain s (texts ss []) (texts-IsPlain ss)

abbrev put_optional : Option Bytes → Bytes
put_optional none = []
put_optional (some s) = 0 ∷ s

abbrev get_optional : Bytes → Option Bytes
get_optional [] = none
get_optional (b ∷ s) = some s

get-put_optional : (x : Option Bytes) → get_optional (put_optional x) ≡ x
get-put_optional none = refl
get-put_optional (some s) = refl

abbrev fields : Checkpoint → List Bytes
fields c =
    c.genesis
    ∷ c.tip_hash
    ∷ put_optional c.merkle_root
    ∷ c.signed_at
    ∷ c.scheme
    ∷ put_optional c.public_key
    ∷ c.signature
    ∷ c.payload
    ∷ []

unfoldable pub print_checkpoint : Checkpoint → Bytes
print_checkpoint c = number c.entry_count (texts (fields c) [])

unfoldable pub parse_checkpoint : Bytes → String ⊎ Checkpoint
parse_checkpoint bs =
    let (entry_count, bs) = read_number 0 bs in
    let (genesis, bs) = read_text 0 bs in
    let (tip_hash, bs) = read_text 0 bs in
    let (merkle_root, bs) = read_text 0 bs in
    let (signed_at, bs) = read_text 0 bs in
    let (scheme, bs) = read_text 0 bs in
    let (public_key, bs) = read_text 0 bs in
    let (signature, bs) = read_text 0 bs in
    let (payload, bs) = read_text 0 bs in
    inr (record {
      entry_count = entry_count;
      genesis = genesis;
      tip_hash = tip_hash;
      merkle_root = get_optional merkle_root;
      signed_at = signed_at;
      scheme = scheme;
      public_key = get_optional public_key;
      signature = signature;
      payload = payload;
    })

print_checkpoint-newline :
    (c : Checkpoint)
    → print_checkpoint c ++ 10 ∷ [] ≡ number c.entry_count (texts (fields c) (10 ∷ []))
unfolding print_checkpoint
print_checkpoint-newline c =
    sym (number-append c.entry_count (texts (fields c) []) (10 ∷ []))
    ∙ ap (number c.entry_count) (sym (texts-append (fields c) [] (10 ∷ [])))

pub parse-print_checkpoint :
    (c : Checkpoint) → parse_checkpoint (print_checkpoint c ++ 10 ∷ []) ≡ inr c
unfolding parse_checkpoint texts
parse-print_checkpoint c =
    rw
      (
        print_checkpoint-newline c,
        read_number-zero c.entry_count _,
        read_text-text c.genesis _,
        read_text-text c.tip_hash _,
        read_text-text (put_optional c.merkle_root) _,
        read_text-text c.signed_at _,
        read_text-text c.scheme _,
        read_text-text (put_optional c.public_key) _,
        read_text-text c.signature _,
        read_text-text c.payload _,
        get-put_optional c.merkle_root,
        get-put_optional c.public_key,
      )
      refl

pub print_checkpoint-is_text : (c : Checkpoint) → is_text (print_checkpoint c ++ 10 ∷ []) ≡ true
unfolding print_checkpoint
print_checkpoint-is_text c =
    is_text-append (print_checkpoint c) (10 ∷ [])
      (is_text-plain _ (number-IsPlain c.entry_count _ (texts-IsPlain (fields c))))
      (literal-is_text (10 ∷ []) refl)

abbrev pub toy_checkpoints : CheckpointText
toy_checkpoints = record {
  print = print_checkpoint;
  parse = parse_checkpoint;
  print-is_text = λ c h. print_checkpoint-is_text c;
  parse-print = λ c h. parse-print_checkpoint c;
}

-- Every text is an object without fields.
abbrev toy_values : Values
toy_values = record {
  Value = Unit;
  parse = λ bs. inr tt;
  get_str = λ k v. none;
  has = λ k v. false;
  get_text = λ k v. none;
  is_object = λ bs. true;
}

abbrev absent : Agent
absent = record {
  exists = false;
  answer = λ line. inl "connection refused";
  Value = Unit;
  print = λ request. [];
  parse = λ bs. inr tt;
  get_bool = λ k v. none;
  get_str = λ k v. none;
  encode64 = λ bs. bs;
}

abbrev pub toy_outside : Outside
toy_outside = record {
  stdin = [];
  env_key = some (codes "seed");
  clock = λ n. n;
  signed_at = codes "now";
  pid = codes "1";
  fresh = le_bytes 32 9;
  drawn_key = le_bytes 32 4;
  agents = λ p. absent;
  disk = λ n. healthy;
  key_disk = healthy;
  out_disk = healthy;
  lock_fault = none;
  sync_fault = none;
  rename_fault = none;
  remove_fault = λ n. false;
}

-- Every text reads as the proofs that are given.
abbrev pub toy_libraries : InclusionProof → ConsistencyProof → Libraries
toy_libraries inclusion consistency = record {
  crates = toy;
  signatures = toy_signatures;
  ed25519 = toy_ed25519;
  values = toy_values;
  checkpoints = toy_checkpoints;
  parse_inclusion = λ text. inr inclusion;
  parse_consistency = λ text. inr consistency;
}

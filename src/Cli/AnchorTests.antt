-- ===== src/Cli/AnchorTests.antt =====
-- Checkpoints over the stand-ins.
use sovereign_ledger.Base.{◌≡◌, refl, true, false, none, some, [], ◌∷◌, ◌++◌, arith}
use sovereign_ledger.Base.Bytes.{codes, bytes_eq, length-le_bytes}
use sovereign_ledger.Error.{Error, Result, ok, err}
use sovereign_ledger.Files.{FilePath, Files, put, path_eq, create, create_new, rename, ◌>>=◌}
use sovereign_ledger.Ledger.{items, iter, open_with_seeds, scan_file, scan_lines}
use sovereign_ledger.Ledger.Read.{verify, verify_items, merkle_root, leaf_hashes, leaves}
use sovereign_ledger.Text.{read_lines, is_text, run, utf8_step, utf8_lead}
use sovereign_ledger.Toy.Outside.{toy_outside}
use sovereign_ledger.Anchor.{Checkpoint, Tip, issued_checkpoint}
use sovereign_ledger.Base.{inr}
use sovereign_ledger.Anchor.Agent.{Agent, call, agent_attest, agent_sign, agent_public_key}
use sovereign_ledger.Anchor.Roundtrip.{IsHonest}
use sovereign_ledger.Cli.Attested.{key_anchor-verify}
use sovereign_ledger.Cli.{Outside}
use sovereign_ledger.Base.Bytes.{le_bytes}
use sovereign_ledger.Toy.World.{toy}
use sovereign_ledger.Anchor.Ed25519.{ed25519_generate, ed25519_attest}
use sovereign_ledger.Anchor.KeyFile.{IsCheckpoint, write_checkpoint, file_stem, cut_last_dot}
use sovereign_ledger.Anchor.Written.{tmp_of}
use sovereign_ledger.Cli.{
  KeyOptions, Output, checkpoint_signed, checkpoint_valid, init, open_cli, open_at, gather_seeds,
  ledger_tip, lock_path,
}
use sovereign_ledger.Cli.Anchored.{generates}
use sovereign_ledger.Cli.AnchorVerify.{run_anchor-verify}
use sovereign_ledger.Cli.Checkpoints.{run_anchor, run_anchor_verify, checkpoint_path}
use sovereign_ledger.Cli.KeyFiles.{run_anchor_verify-key_file}
use sovereign_ledger.Cli.Pick.{pick_anchor, agent_at, key_anchor}
use sovereign_ledger.Cli.Tests.{libraries, named, at_log, nothing}

abbrev log : FilePath
log = named (codes "log")

abbrev key : FilePath
key = named (codes "key")

abbrev options : KeyOptions
options = record {
  agent = none;
  ed25519_key_file = none;
  ed25519_gen_key_file = some key;
  key_file = none;
  gen_key_file = none;
}

abbrev out : FilePath
out = checkpoint_path log none

-- A checkpoint of an empty ledger, with a key that is generated.
abbrev empty_log : Files
empty_log = put log (some []) nothing

abbrev anchored : Result Output × Files
anchored = run_anchor libraries toy_outside (at_log init) options none (codes "g") empty_log

anchored_returns : anchored ≡ (ok (checkpoint_signed out), anchored.1)
unfolding run_anchor ledger_tip open_cli open_at gather_seeds pick_anchor ed25519_generate create
    create_new ◌>>=◌ open_with_seeds scan_file put bytes_eq iter items read_lines verify
    verify_items merkle_root leaf_hashes leaves ed25519_attest write_checkpoint rename scan_lines
    file_stem cut_last_dot
anchored_returns = refl

genesis_text : is_text (codes "g") ≡ true
unfolding is_text run utf8_step utf8_lead
genesis_text = refl

at_text : is_text (codes "now") ≡ true
unfolding is_text run utf8_step utf8_lead
at_text = refl

apart_lock : path_eq key (lock_path log) ≡ false
unfolding bytes_eq
apart_lock = refl

apart_out : path_eq key out ≡ false
unfolding bytes_eq
apart_out = refl

apart_tmp : path_eq key (tmp_of out) ≡ false
unfolding bytes_eq file_stem cut_last_dot
apart_tmp = refl

run_anchor-verify_example :
    run_anchor_verify libraries toy_outside out none (some key) none anchored.1
    ≡ (ok checkpoint_valid, anchored.1)
run_anchor-verify_example =
    run_anchor-verify libraries toy_outside (at_log init) key options none (codes "g")
      (generates refl) (length-le_bytes 32 9) genesis_text at_text apart_lock apart_out apart_tmp
      empty_log anchored.1 anchored.1 out toy_outside none anchored_returns refl refl

-- A checkpoint without a line, and a key file beside it.
abbrev blank : Checkpoint
blank = record {
  entry_count = 0;
  genesis = [];
  tip_hash = [];
  merkle_root = none;
  signed_at = [];
  scheme = [];
  public_key = none;
  signature = [];
  payload = [];
}

abbrev beside : Files
beside p = some (libraries.checkpoints.print blank ++ 10 ∷ [])

empty_text : is_text [] ≡ true
unfolding is_text run
empty_text = refl

blank_fits : IsCheckpoint blank
blank_fits = record {
  entry_count = omega arith;
  genesis = empty_text;
  tip_hash = empty_text;
  merkle_root = tt;
  signed_at = empty_text;
  scheme = empty_text;
  public_key = tt;
  signature = empty_text;
  payload = empty_text;
}

run_anchor_verify-key_file_example :
    run_anchor_verify libraries toy_outside out none none (some key) beside
    ≡ (err (Error.io "File exists"), beside)
run_anchor_verify-key_file_example =
    run_anchor_verify-key_file libraries toy_outside beside out key none none
      (libraries.checkpoints.print blank ++ 10 ∷ []) (libraries.checkpoints.print blank ++ 10 ∷ [])
      blank refl (libraries.checkpoints.print-is_text blank blank_fits)
      (libraries.checkpoints.parse-print blank blank_fits) refl

-- An agent with one signature, which it accepts.
abbrev obliging : Agent
obliging = record {
  exists = true;
  answer = λ line. inr (0 ∷ []);
  Value = Unit;
  print = λ request. [];
  parse = λ bs. inr tt;
  get_bool = λ k v. some true;
  get_str = λ k v. some (7 ∷ []);
  encode64 = λ bs. bs;
}

abbrev with_agent : Outside
with_agent = record toy_outside { agents = λ p. obliging }

obliging-IsHonest : IsHonest obliging
unfolding call
obliging-IsHonest = record { accepts = λ m sig key s k. (tt, refl, refl) }

abbrev a_tip : Tip
a_tip = record {
  tip_hash = le_bytes 32 1;
  merkle_root = le_bytes 32 2;
  entry_count = 3;
  genesis = codes "g";
}

abbrev by_agent : Checkpoint
by_agent = issued_checkpoint toy a_tip (codes "now") (codes "secure-enclave") (7 ∷ []) (7 ∷ [])

agent_attests : (key_anchor libraries with_agent (agent_at out)).attest a_tip ≡ ok by_agent
unfolding agent_attest agent_sign agent_public_key call
agent_attests = refl

key_anchor-verify_example :
    (key_anchor libraries with_agent (agent_at out)).verify by_agent ≡ ok true
key_anchor-verify_example =
    key_anchor-verify libraries with_agent (agent_at out) a_tip by_agent (λ p. obliging-IsHonest)
      agent_attests

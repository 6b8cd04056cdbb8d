-- ===== src/Cli/Commands.antt =====
-- src/main.rs: the commands that work on the ledger, each by the arm of `run` that handles it.
use sovereign_ledger.Base.{
  ℕ, ◌-◌, Bool, true, false, ◌||◌, Option, none, some, List, [], ◌∷◌, ◌==◌, if◌then◌else◌,
}
use sovereign_ledger.Crypto.{Bytes}
use sovereign_ledger.Error.{Error, Result, ok, err, fail_if}
use sovereign_ledger.Files.{
  FilePath, Files, Io, pure, lift, fails_with, ◌>>=◌, ◌>>◌, read, read_to_string, append_line,
}
use sovereign_ledger.Ledger.{File, Ledger}
use sovereign_ledger.Ledger.Close.{seal}
use sovereign_ledger.Ledger.Read.{verify, merkle_root}
use sovereign_ledger.Ledger.Write.{append, rotate_key, set_durable, needs_rotation}
use sovereign_ledger.Seal.Public.{verify_public}
use sovereign_ledger.Cli.{
  Cli, KeyOptions, Outside, Libraries, Output, ready, appended, publicly_valid, chain_valid, sealed,
  nothing_to_seal, rotated, gather_seeds, read_body, open_cli, peek, decode_hex32,
}
use sovereign_ledger.Cli.Outputs.{
  root_output, prove_output, consistency_output, check_inclusion_text, check_consistency_text,
}
use sovereign_ledger.Cli.Pick.{pick_seal_signer, key_signer}

-- An operation of the ledger, on the file at a path.
unfoldable pub on_file :
    {A : Type 0} → FilePath → (File → Result A × Ledger × File) → Io (A × Ledger)
on_file p op files = let (r, l, file) = op (files p) in (with_ledger r l, put_file p file files)
  where
    with_ledger : {A : Type 0} → Result A → Ledger → Result (A × Ledger)
    with_ledger (err e) l = err e
    with_ledger (ok a) l = ok (a, l)

    put_file : FilePath → File → Files → Files
    put_file p file files = sovereign_ledger.Files.put p file files

module _ (b : Libraries) (o : Outside) (cli : Cli) where
  unfoldable pub run_init : Io Output
  run_init = do ledger ← open_cli b o cli; pure (ready ledger.seq ledger.epoch)

  unfoldable pub run_append : Bytes → Option Bytes → Bool → Io Output
  run_append event_type body durable = do
    ledger ← open_cli b o cli
    body ← lift (read_body o body)
    written ← on_file cli.path (
        append b.crates (o.clock 0) (o.disk 0) event_type body
          (if durable then set_durable true ledger else ledger))
    pure (appended written.0)

  -- Without keys the seals are what is verified.
  unfoldable pub verify_sealed : Io Output
  verify_sealed = do
    bytes ← read cli.path
    report ← lift (verify_public b.crates b.signatures bytes)
    lift (fail_if (report.segments == 0) (Error.verification "no seal records found"))
    pure (publicly_valid report)

  abbrev tip_and_root : Ledger → File → Result (Option (Bytes × Bytes))
  tip_and_root ledger file = elim (merkle_root b.crates file) [
    | err e ↦ err e
    | ok root ↦ ok (some (b.crates.hex.encode ledger.last_hash, b.crates.hex.encode root))
  ]

  unfoldable pub verify_keyed : Io Output
  verify_keyed = do
    ledger ← open_cli b o cli
    file ← peek cli.path
    lift (verify b.crates ledger file)
    tip ← lift (if cli.json then tip_and_root ledger file else ok none)
    pure (chain_valid ledger.seq tip)

  abbrev no_seeds : List Bytes → Bool
  no_seeds [] = true
  no_seeds (s ∷ ss) = false

  unfoldable pub run_verify : Bool → Io Output
  run_verify public = do
    seeds ← gather_seeds o cli
    if public || no_seeds seeds then verify_sealed else verify_keyed

  -- The signer comes first, and its key file with it.
  unfoldable pub run_seal : KeyOptions → Io Output
  run_seal k = do
    key ← pick_seal_signer o k.agent k.ed25519_key_file k.ed25519_gen_key_file k.key_file
    ledger ← open_cli b o cli
    result ← on_file cli.path (seal b.crates (o.clock 0) (o.disk 0) (key_signer b o key) ledger)
    report result.0 result.1
    where
      report : Option ℕ → Ledger → Io Output
      report none l = pure nothing_to_seal
      report (some seq) l = do
        lift (fails_with o.sync_fault)
        pure (sealed (l.seq - 1) seq (l.seals_seen - 1) (needs_rotation l))

  -- A seed that is drawn is appended to the file of seeds before it is used.
  unfoldable pub new_seed : Option Bytes → Io Bytes
  new_seed (some s) = pure s
  new_seed none = by_file cli.keys_file
    where
      by_file : Option FilePath → Io Bytes
      by_file none = lift (err (Error.verification "rotate-key needs --seed or --keys-file"))
      by_file (some f) = do
        append_line o.key_disk f (b.crates.hex.encode o.fresh)
        pure (b.crates.hex.encode o.fresh)

  unfoldable pub run_rotate : Option Bytes → Io Output
  run_rotate seed = do
    ledger ← open_cli b o cli
    seed ← new_seed seed
    result ← on_file cli.path (rotate_key b.crates (o.clock 0) (o.disk 0) seed ledger)
    pure (rotated result.0)

  unfoldable pub run_root : Io Output
  run_root = do ledger ← open_cli b o cli; file ← peek cli.path; lift (root_output b ledger file)

  unfoldable pub run_prove : ℕ → Io Output
  run_prove seq = do ledger ← open_cli b o cli; file ← peek cli.path; lift (prove_output b seq file)

  unfoldable pub run_prove_consistency : ℕ → Io Output
  run_prove_consistency old_size = do
    ledger ← open_cli b o cli
    file ← peek cli.path
    lift (consistency_output b old_size file)

-- The commands that need no ledger.
module _ (b : Libraries) where
  unfoldable pub run_check_inclusion : Bytes → Bytes → FilePath → Io Output
  run_check_inclusion leaf root proof = do
    leaf ← lift (decode_hex32 b leaf)
    root ← lift (decode_hex32 b root)
    text ← read_to_string proof
    lift (check_inclusion_text b leaf root text)

  unfoldable pub run_check_consistency : Bytes → Bytes → FilePath → Io Output
  run_check_consistency old_root new_root proof = do
    old_root ← lift (decode_hex32 b old_root)
    new_root ← lift (decode_hex32 b new_root)
    text ← read_to_string proof
    lift (check_consistency_text b old_root new_root text)

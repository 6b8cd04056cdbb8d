-- ===== src/Cli/Run.antt =====
-- src/main.rs: `run`.
use sovereign_ledger.Files.{Io}
use sovereign_ledger.Cli.{
  Cli, Command, init, append_event, verify_chain, seal_segment, tail, export, import, rotate,
  show_root, prove, check_inclusion, prove_consistency, check_consistency, anchor, anchor_verify,
  Outside, Libraries, Output,
}
use sovereign_ledger.Cli.Commands.{
  run_init, run_append, run_verify, run_seal, run_rotate, run_root, run_prove, run_check_inclusion,
  run_prove_consistency, run_check_consistency,
}
use sovereign_ledger.Cli.Export.{run_tail, run_export}
use sovereign_ledger.Cli.Import.{run_import}
use sovereign_ledger.Cli.Checkpoints.{run_anchor, run_anchor_verify}

module _ (b : Libraries) (o : Outside) where
  unfoldable pub run : Cli → Io Output
  run cli = by_command cli.command
    where
      by_command : Command → Io Output
      by_command init = run_init b o cli
      by_command (append_event event_type body durable) = run_append b o cli event_type body durable
      by_command (verify_chain public) = run_verify b o cli public
      by_command (seal_segment k) = run_seal b o cli k
      by_command (tail count) = run_tail b o cli count
      by_command (export format) = run_export b o cli format
      by_command (import from source source_key) = run_import b o cli from source source_key
      by_command (rotate seed) = run_rotate b o cli seed
      by_command show_root = run_root b o cli
      by_command (prove seq) = run_prove b o cli seq
      by_command (check_inclusion leaf root proof) = run_check_inclusion b leaf root proof
      by_command (prove_consistency old_size) = run_prove_consistency b o cli old_size
      by_command (check_consistency old_root new_root proof) =
          run_check_consistency b old_root new_root proof
      by_command (anchor k out genesis) = run_anchor b o cli k out genesis
      by_command (anchor_verify checkpoint agent ed25519_file key) =
          run_anchor_verify b o checkpoint agent ed25519_file key

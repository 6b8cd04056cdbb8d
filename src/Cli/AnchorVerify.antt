-- ===== src/Cli/AnchorVerify.antt =====
-- A checkpoint of `anchor` of src/main.rs, with an Ed25519 key, before `anchor-verify`.
use sovereign_ledger.Base.{
  ◌≡◌, refl, sym, ◌∙◌, ap, subst, arith, true, false, Option, none, some, [], ◌∷◌, ◌++◌, length,
}
use sovereign_ledger.Crypto.{Bytes, hash_size}
use sovereign_ledger.Error.{ok}
use sovereign_ledger.Files.{FilePath, path_eq, Files, lift, pure, read, read_to_string}
use sovereign_ledger.Files.Frame.{left_by}
use sovereign_ledger.Files.Holds.{read_text_here}
use sovereign_ledger.Files.Runs.{Io-then, Io-returned, lift-ok}
use sovereign_ledger.Text.{is_text}
use sovereign_ledger.Anchor.{Checkpoint, Tip}
use sovereign_ledger.Anchor.Ed25519.{ed25519_from_file, ed25519_attest}
use sovereign_ledger.Anchor.KeyFile.{IsCheckpoint, write_checkpoint}
use sovereign_ledger.Anchor.Roundtrip.{ed25519_anchor-IsSound}
use sovereign_ledger.Anchor.Seeds.{ed25519_from_file-reads}
use sovereign_ledger.Anchor.Written.{
  tmp_of, ed25519_attest-IsCheckpoint, write_checkpoint-holds, write_checkpoint-Leaves,
}
use sovereign_ledger.Cli.{
  Cli, KeyOptions, Outside, Libraries, checkpoint_signed, checkpoint_valid, ledger_tip, lock_path,
}
use sovereign_ledger.Cli.Checkpoints.{checkpoint_path, run_anchor, run_anchor_verify}
use sovereign_ledger.Cli.Pick.{ed25519_key, pick_anchor, key_anchor}
use sovereign_ledger.Cli.Anchored.{NamesKey, picked, tip-kept, ledger_tip-Leaves}

module _ (b : Libraries) (o : Outside) (cli : Cli) (key : FilePath) (k : KeyOptions)
    (out : Option FilePath) (genesis : Bytes) (names : NamesKey key k)
    (fresh : length o.fresh ≡ hash_size) (genesis_text : is_text genesis ≡ true)
    (at_text : is_text o.signed_at ≡ true) (apart_lock : path_eq key (lock_path cli.path) ≡ false)
    (apart_out : path_eq key (checkpoint_path cli.path out) ≡ false)
    (apart_tmp : path_eq key (tmp_of (checkpoint_path cli.path out)) ≡ false) where
  -- The key and the checkpoint that `anchor` leaves in their files.
  record IsAnchored (left : Files) (p : FilePath) : Type 0 where
    pub seed : Bytes
    pub size : length seed ≡ hash_size
    pub key_holds : left key ≡ some seed
    pub tip : Tip
    pub checkpoint : Checkpoint
    pub attested :
        ed25519_attest b.crates b.signatures b.ed25519 seed o.signed_at tip ≡ ok checkpoint
    pub fits : IsCheckpoint checkpoint
    pub holds : left p ≡ some (b.checkpoints.print checkpoint ++ 10 ∷ [])

  finished :
      (seed : Bytes) (tip : Tip) (c : Checkpoint) (f1 f2 f3 f4 left : Files) (p q : FilePath)
      → length seed ≡ hash_size
      → f1 key ≡ some seed
      → ledger_tip b o cli genesis f1 ≡ (ok tip, f2)
      → lift (ed25519_attest b.crates b.signatures b.ed25519 seed o.signed_at tip) f2 ≡ (ok c, f3)
      → write_checkpoint b.checkpoints o.out_disk o.rename_fault (checkpoint_path cli.path out) c f3
        ≡ (ok q, f4)
      → pure (checkpoint_signed q) f4 ≡ (ok (checkpoint_signed p), left)
      → IsAnchored left p
  finished seed tip c f1 f2 f3 f4 left p q size seed_holds has_tip attests written h =
      let at = checkpoint_path cli.path out in
      let (labelled, count) = tip-kept b o cli genesis f1 f2 tip has_tip in
      let (attested, same1) =
        lift-ok (ed25519_attest b.crates b.signatures b.ed25519 seed o.signed_at tip) f2 f3 c
          attests in
      let (named, holds) =
        write_checkpoint-holds b.checkpoints o.out_disk o.rename_fault at c f3 f4 q written in
      let end : f4 ≡ left = ap (λ t. t.1) h in
      let p_is : p ≡ at = ground arith in
      let kept1 : f2 key ≡ f1 key =
        sym (ap (λ t. t.1 key) has_tip)
        ∙ left_by key (ledger_tip b o cli genesis)
            (ledger_tip-Leaves b o key cli genesis apart_lock) f1 in
      let kept2 : f4 key ≡ f3 key =
        sym (ap (λ t. t.1 key) written)
        ∙ left_by key (write_checkpoint b.checkpoints o.out_disk o.rename_fault at c)
            (write_checkpoint-Leaves b.checkpoints o.out_disk o.rename_fault at c key apart_out
              apart_tmp)
            f3 in
      let text : is_text tip.genesis ≡ true = ap is_text labelled ∙ genesis_text in
      record {
        seed = seed;
        size = size;
        key_holds =
            ap (λ (t : Files). t key) (sym end)
            ∙ kept2
            ∙ ap (λ (t : Files). t key) (sym same1)
            ∙ kept1
            ∙ seed_holds;
        tip = tip;
        checkpoint = c;
        attested = attested;
        fits =
            ed25519_attest-IsCheckpoint b.crates tip o.signed_at count text at_text b.signatures
              b.ed25519 seed c attested;
        holds = ap (λ (t : Files). t p) (sym end) ∙ ap f4 p_is ∙ holds;
      }

  run_anchor-IsAnchored :
      (files left : Files) (p : FilePath)
      → run_anchor b o cli k out genesis files ≡ (ok (checkpoint_signed p), left)
      → IsAnchored left p
  unfolding run_anchor
  run_anchor-IsAnchored files left p h =
      let (x, f1, pick, h) =
        Io-returned
          (pick_anchor o k.agent k.ed25519_key_file k.ed25519_gen_key_file k.key_file
            k.gen_key_file)
          _ files left _ h in
      let (seed, is_seed, seed_holds, size) = picked b o key k files f1 x names fresh pick in
      let (tip, f2, read, h) = Io-returned (ledger_tip b o cli genesis) _ f1 left _ h in
      let (c, f3, attests, h) = Io-returned (lift ((key_anchor b o x).attest tip)) _ f2 left _ h in
      let (q, f4, written, h) =
        Io-returned
          (write_checkpoint b.checkpoints o.out_disk o.rename_fault (checkpoint_path cli.path out)
            c)
          _ f3 left _ h in
      let attests1 =
        subst (λ t. lift ((key_anchor b o t).attest tip) f2 ≡ (ok c, f3)) is_seed attests in
      finished seed tip c f1 f2 f3 f4 left p q size seed_holds read attests1 written h

  -- A checkpoint that `anchor` signs with an Ed25519 key, read from its file or generated into it, is
  -- valid for `anchor-verify` with that key file, at any later run that finds the two files as they
  -- were. The label and the time are UTF-8, and the key file is none of the files that `anchor` writes.
  pub run_anchor-verify :
      (files left later : Files) (p : FilePath) (o' : Outside) (agent : Option FilePath)
      → run_anchor b o cli k out genesis files ≡ (ok (checkpoint_signed p), left)
      → later p ≡ left p
      → later key ≡ left key
      → run_anchor_verify b o' p agent (some key) none later ≡ (ok checkpoint_valid, later)
  unfolding run_anchor_verify pick_anchor
  run_anchor-verify files left later p o' agent h same_p same_key =
      let i = run_anchor-IsAnchored files left p h in
      let text = b.checkpoints.print i.checkpoint ++ 10 ∷ [] in
      let valid =
        ed25519_anchor-IsSound b.crates b.signatures b.ed25519 o.signed_at i.seed i.tip i.checkpoint
          i.attested in
      Io-then (read_to_string p) _ later later text (
        read_text_here p later text (same_p ∙ i.holds)
          (b.checkpoints.print-is_text i.checkpoint i.fits))
      ∙ rw (b.checkpoints.parse-print i.checkpoint i.fits) (
          Io-then (lift (ok i.checkpoint)) _ later later i.checkpoint refl
          ∙ Io-then (pick_anchor o' agent (some key) none none none) _ later later
              (ed25519_key i.seed)
              (Io-then (ed25519_from_file key) _ later later i.seed
                (ed25519_from_file-reads key later i.seed (same_key ∙ i.key_holds) i.size))
          ∙ Io-then (lift ((key_anchor b o' (ed25519_key i.seed)).verify i.checkpoint)) _ later
              later true (ap (λ t. (t, later)) valid)
          ∙ Io-then (lift (ok tt)) _ later later tt refl)

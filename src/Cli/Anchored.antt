-- ===== src/Cli/Anchored.antt =====
-- The key that `anchor` of src/main.rs signs with, and the tip that it signs.
use sovereign_ledger.Base.{◌<◌, ◌^◌, ◌≡◌, refl, sym, ◌∙◌, ap, subst, false, none, some, length}
use sovereign_ledger.Crypto.{Bytes, hash_size}
use sovereign_ledger.Error.{ok, ok-injective}
use sovereign_ledger.Files.{FilePath, path_eq, Files, lift, pure, touch}
use sovereign_ledger.Files.Frame.{Leaves, Leaves-bind, Leaves-lift}
use sovereign_ledger.Files.Runs.{Io-then, Io-returned}
use sovereign_ledger.Ledger.{Ledger}
use sovereign_ledger.Ledger.Bounds.{InRange, open_with_seeds-InRange}
use sovereign_ledger.Ledger.Read.{verify, merkle_root}
use sovereign_ledger.Anchor.{Tip}
use sovereign_ledger.Anchor.Ed25519.{ed25519_from_file, ed25519_generate}
use sovereign_ledger.Anchor.Seeds.{ed25519_generate-holds, ed25519_from_file-holds}
use sovereign_ledger.Cli.{
  Cli, KeyOptions, Outside, Libraries, ledger_tip, open_cli, open_at, gather_seeds, lock_path, peek,
  locked,
}
use sovereign_ledger.Cli.Atomic.{peek-Leaves, gather_seeds-Leaves, open_at-Leaves}
use sovereign_ledger.Cli.Pick.{Key, ed25519_key, pick_anchor}

-- The options name the file of an Ed25519 key, which is there or is to be generated.
pub data NamesKey (key : FilePath) (k : KeyOptions) : Type 0 where
  generates : k.ed25519_gen_key_file ≡ some key → NamesKey key k
  reads : k.ed25519_gen_key_file ≡ none → k.ed25519_key_file ≡ some key → NamesKey key k

module _ (b : Libraries) (o : Outside) where
  -- The key that was picked is what the file holds.
  pub picked :
      (key : FilePath) (k : KeyOptions) (files left : Files) (x : Key)
      → NamesKey key k
      → length o.fresh ≡ hash_size
      → pick_anchor o k.agent k.ed25519_key_file k.ed25519_gen_key_file k.key_file k.gen_key_file
          files
        ≡ (ok x, left)
      → (seed : Bytes) × (x ≡ ed25519_key seed) × (left key ≡ some seed) × (length seed ≡ hash_size)
  unfolding pick_anchor
  picked key k files left x (generates g) fresh h =
      let (seed, mid, made, h) =
        Io-returned (ed25519_generate o.key_disk o.fresh key) (λ seed. pure (ed25519_key seed))
          files left x (rw g at h) in
      let (same, holds) = ed25519_generate-holds o.key_disk o.fresh key files mid seed made in
      let end : mid ≡ left = ap (λ t. t.1) h in
      (
        seed,
        sym (ok-injective (ed25519_key seed) x (ap (λ t. t.0) h)),
        ap (λ (t : Files). t key) (sym end) ∙ holds ∙ ap some same,
        ap length (sym same) ∙ fresh,
      )
  picked key k files left x (reads g f) fresh h =
      let (seed, mid, found, h) =
        Io-returned (ed25519_from_file key) (λ seed. pure (ed25519_key seed)) files left x
          (rw (g, f) at h) in
      let (holds, size) = ed25519_from_file-holds key files mid seed found in
      let end : mid ≡ left = ap (λ t. t.1) h in
      (
        seed,
        sym (ok-injective (ed25519_key seed) x (ap (λ t. t.0) h)),
        ap (λ (t : Files). t key) (sym end) ∙ holds,
        size,
      )

  pub opened-InRange :
      (cli : Cli) (files left : Files) (l : Ledger)
      → open_cli b o cli files ≡ (ok l, left)
      → InRange l
  unfolding open_cli open_at
  opened-InRange cli files left l h =
      let (seeds, f1, gathered, h) = Io-returned (gather_seeds o cli) _ files left l h in
      let (u, f2, touched, h) = Io-returned (touch (lock_path cli.path)) _ f1 left l h in
      let (u, f3, taken, h) = Io-returned (lift (locked o.lock_fault)) _ f2 left l h in
      let h = sym (Io-then (peek cli.path) _ f3 f3 _ refl) ∙ h in
      open_with_seeds-InRange b.crates o.drawn_key seeds (f3 cli.path) l (ap (λ t. t.0) h)

  pub tip-kept :
      (cli : Cli) (genesis : Bytes) (files left : Files) (tip : Tip)
      → ledger_tip b o cli genesis files ≡ (ok tip, left)
      → (tip.genesis ≡ genesis) × (tip.entry_count < 2 ^ 64)
  unfolding ledger_tip
  tip-kept cli genesis files left tip h =
      let (l, f1, opened, h) = Io-returned (open_cli b o cli) _ files left tip h in
      let h = sym (Io-then (peek cli.path) _ f1 f1 _ refl) ∙ h in
      let (u, f2, passed, h) =
        Io-returned (lift (verify b.crates l (f1 cli.path))) _ f1 left tip h in
      let (root, f3, rooted, h) =
        Io-returned (lift (merkle_root b.crates (f1 cli.path))) _ f2 left tip h in
      let same = ok-injective _ tip (ap (λ t. t.0) h) in
      (
        ap (λ (t : Tip). t.genesis) (sym same),
        subst (λ (t : Tip). t.entry_count < 2 ^ 64) same (opened-InRange cli files f1 l opened).seq,
      )

  pub ledger_tip-Leaves :
      (q : FilePath) (cli : Cli) (genesis : Bytes)
      → path_eq q (lock_path cli.path) ≡ false
      → Leaves q (ledger_tip b o cli genesis)
  unfolding ledger_tip open_cli
  ledger_tip-Leaves q cli genesis h =
      Leaves-bind q (open_cli b o cli) _
        (Leaves-bind q (gather_seeds o cli) _ (gather_seeds-Leaves q o cli)
          (λ seeds. open_at-Leaves q b o cli.path seeds h))
        (λ l. Leaves-bind q (peek cli.path) _ (peek-Leaves q cli.path) (λ file.
          Leaves-bind q (lift (verify b.crates l file)) _ (Leaves-lift q _) (λ done.
            Leaves-bind q (lift (merkle_root b.crates file)) _ (Leaves-lift q _)
              (λ root. Leaves-lift q (ok _)))))

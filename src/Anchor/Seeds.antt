-- ===== src/Anchor/Seeds.antt =====
-- The file of an Ed25519 seed of src/anchor.rs: what was generated is read, and it is read back.
use sovereign_ledger.Base.{◌≡◌, refl, sym, ◌∙◌, ap, arith, some, length, ◌==◌, not}
use sovereign_ledger.Crypto.{Bytes, hash_size}
use sovereign_ledger.Error.{Error, ok, fail_if}
use sovereign_ledger.Files.{FilePath, Files, lift, ◌>>=◌, read, create_new}
use sovereign_ledger.Files.Holds.{create_new-holds, read-holds}
use sovereign_ledger.Files.Runs.{Io-returned, lift-ok}
use sovereign_ledger.Ledger.Write.{Disk}
use sovereign_ledger.Anchor.Ed25519.{ed25519_from_file, ed25519_generate}

pub ed25519_generate-holds :
    (disk : Disk) (fresh : Bytes) (p : FilePath) (files left : Files) (seed : Bytes)
    → ed25519_generate disk fresh p files ≡ (ok seed, left)
    → (fresh ≡ seed) × (left p ≡ some fresh)
unfolding ed25519_generate
ed25519_generate-holds disk fresh p files left seed h =
    let (u, mid, made, h) = Io-returned (create_new disk p fresh) _ files left seed h in
    let same : mid ≡ left = ap (λ t. t.1) h in
    (
      ground arith,
      ap (λ (t : Files). t p) (sym same) ∙ create_new-holds disk p fresh files mid made,
    )

pub ed25519_from_file-holds :
    (p : FilePath) (files left : Files) (seed : Bytes)
    → ed25519_from_file p files ≡ (ok seed, left)
    → (left p ≡ some seed) × (length seed ≡ hash_size)
unfolding ed25519_from_file
ed25519_from_file-holds p files left seed h =
    let (raw, f1, found, h) = Io-returned (read p) _ files left seed h in
    let (u, f2, sized, h) =
      Io-returned
        (lift (
          fail_if (not (length raw == hash_size))
            (Error.anchor "ed25519 key file must be 32 bytes")))
        _ f1 left seed h in
    let (holds, same) = read-holds p files f1 raw found in
    let (size, same1) = lift-ok _ f1 f2 tt sized in
    let same2 : f2 ≡ left = ap (λ t. t.1) h in
    let raw_seed : raw ≡ seed = ground arith in
    (
      ap (λ (t : Files). t p) (sym (same ∙ same1 ∙ same2)) ∙ holds ∙ ap some raw_seed,
      ap length (sym raw_seed) ∙ ground arith,
    )

pub ed25519_from_file-reads :
    (p : FilePath) (files : Files) (seed : Bytes)
    → files p ≡ some seed
    → length seed ≡ hash_size
    → ed25519_from_file p files ≡ (ok seed, files)
unfolding ed25519_from_file read ◌>>=◌
ed25519_from_file-reads p files seed h n = rw (h, n) refl

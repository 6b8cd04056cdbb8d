-- ===== src/Anchor/Written.antt =====
-- A checkpoint of src/anchor.rs that was written to its file is read back as it was.
use Prim.Native.String.{String}
use sovereign_ledger.Base.{
  ◌<◌, ◌^◌, ◌≡◌, refl, sym, ◌∙◌, ap, subst, arith, true, false, Option, some, [], ◌∷◌, ◌++◌,
}
use sovereign_ledger.Base.Bytes.{codes}
use sovereign_ledger.Crypto.{Bytes}
use sovereign_ledger.Crates.{Crates}
use sovereign_ledger.Error.{ok, ok-injective}
use sovereign_ledger.Files.{FilePath, path_eq, with_name, Files, create, rename}
use sovereign_ledger.Files.Frame.{Leaves, Leaves-bind, Leaves-lift, create-Leaves, rename-Leaves}
use sovereign_ledger.Files.Holds.{create-holds, rename-holds}
use sovereign_ledger.Files.Runs.{Io-returned}
use sovereign_ledger.Ledger.Write.{Disk}
use sovereign_ledger.Text.{is_text, decimal}
use sovereign_ledger.Text.Ascii.{literal-is_text, is_text-append, decimal-is_text}
use sovereign_ledger.Anchor.{
  Checkpoint, Tip, issued_checkpoint, canonical_payload, payload_with_root,
}
use sovereign_ledger.Anchor.Ed25519.{
  Ed25519, ed25519_scheme, ed25519_sign, public_key_hex, ed25519_attest,
}
use sovereign_ledger.Seal.Public.{Signatures}
use sovereign_ledger.Anchor.KeyFile.{IsCheckpoint, CheckpointText, file_stem, write_checkpoint}

module _ (w : Crates) (tip : Tip) (signed_at : Bytes) (count : tip.entry_count < 2 ^ 64)
    (genesis : is_text tip.genesis ≡ true) (at : is_text signed_at ≡ true) where
  canonical_payload-is_text : is_text (canonical_payload w tip signed_at) ≡ true
  unfolding canonical_payload payload_with_root
  canonical_payload-is_text =
      is_text-append (codes "{\"entry_count\": ") _ (literal-is_text _ refl) (
        is_text-append (decimal tip.entry_count) _ (decimal-is_text tip.entry_count) (
          is_text-append (codes ", \"genesis\": \"") _ (literal-is_text _ refl) (
            is_text-append tip.genesis _ genesis (
              is_text-append (codes "\", \"merkle_root\": \"") _ (literal-is_text _ refl) (
                is_text-append _ _ (w.hex.encode-is_text tip.merkle_root) (
                  is_text-append (codes "\", \"signed_at\": \"") _ (literal-is_text _ refl) (
                    is_text-append signed_at _ at (
                      is_text-append (codes "\", \"tip_hash\": \"") _ (literal-is_text _ refl) (
                        is_text-append _ (codes "\"}") (w.hex.encode-is_text tip.tip_hash)
                          (literal-is_text _ refl))))))))))

  -- What an anchor issues fits the Rust type, when the texts that it is given do.
  pub issued_checkpoint-IsCheckpoint :
      (scheme key sig : Bytes)
      → is_text scheme ≡ true
      → is_text key ≡ true
      → is_text sig ≡ true
      → IsCheckpoint (issued_checkpoint w tip signed_at scheme key sig)
  issued_checkpoint-IsCheckpoint scheme key sig hs hk hg = record {
    entry_count = count;
    genesis = genesis;
    tip_hash = w.hex.encode-is_text tip.tip_hash;
    merkle_root = (w.hex.encode-is_text tip.merkle_root, tt);
    signed_at = at;
    scheme = hs;
    public_key = (hk, tt);
    signature = hg;
    payload = canonical_payload-is_text;
  }

  pub ed25519_attest-IsCheckpoint :
      (g : Signatures) (d : Ed25519 g) (seed : Bytes) (c : Checkpoint)
      → ed25519_attest w g d seed signed_at tip ≡ ok c
      → IsCheckpoint c
  unfolding ed25519_attest public_key_hex ed25519_sign
  ed25519_attest-IsCheckpoint g d seed c h = subst IsCheckpoint (ok-injective _ c h) (
      issued_checkpoint-IsCheckpoint ed25519_scheme _ _ (literal-is_text ed25519_scheme refl)
        (w.hex.encode-is_text (d.verifying_key seed))
        (w.hex.encode-is_text (d.sign seed (canonical_payload w tip signed_at))))

abbrev pub tmp_of : FilePath → FilePath
tmp_of p = with_name (file_stem p.name ++ codes ".tmp") p

-- The file holds the text of the checkpoint, and a file that is neither it nor its temporary one is kept.
pub write_checkpoint-holds :
    (t : CheckpointText) (disk : Disk) (fault : Option String) (path : FilePath) (c : Checkpoint)
    (files left : Files) (p : FilePath)
    → write_checkpoint t disk fault path c files ≡ (ok p, left)
    → (p ≡ path) × (left path ≡ some (t.print c ++ 10 ∷ []))
unfolding write_checkpoint
write_checkpoint-holds t disk fault path c files left p h =
    let (u, f1, made, h) = Io-returned (create disk (tmp_of path) _) _ files left p h in
    let (u, f2, moved, h) = Io-returned (rename fault (tmp_of path) path) _ f1 left p h in
    let same : p ≡ path = ground arith in
    (
      same,
      ap (λ (x : Files). x path) (sym (ap (λ t. t.1) h))
          ∙ rename-holds fault (tmp_of path) path _ f1 f2
              (create-holds disk (tmp_of path) _ files f1 made) moved,
    )

pub write_checkpoint-Leaves :
    (t : CheckpointText) (disk : Disk) (fault : Option String) (path : FilePath) (c : Checkpoint)
    (q : FilePath)
    → path_eq q path ≡ false
    → path_eq q (tmp_of path) ≡ false
    → Leaves q (write_checkpoint t disk fault path c)
unfolding write_checkpoint
write_checkpoint-Leaves t disk fault path c q h k =
    Leaves-bind q (create disk (tmp_of path) _) _ (create-Leaves q (tmp_of path) k disk _) (λ done.
      Leaves-bind q (rename fault (tmp_of path) path) _
        (rename-Leaves q fault (tmp_of path) path k h) (λ done. Leaves-lift q (ok path)))

-- ===== src/Cli/Proofs.antt =====
-- The proofs that src/main.rs prints, and the commands that check them.
use sovereign_ledger.Base.{
  ℕ, ◌-◌, ◌≡◌, ◌≤◌, refl, sym, ◌∙◌, ap, subst, arith, true, inr, some, some-injective, List, length,
  get_elem?, get_elem?-All, take,
}
use sovereign_ledger.Crypto.{Bytes, IsDigest}
use sovereign_ledger.Error.{ok, returned, ok-injective, ok_or}
use sovereign_ledger.Files.{FilePath, Files, lift, read, read_to_string}
use sovereign_ledger.Files.Holds.{read_text_here}
use sovereign_ledger.Files.Runs.{Io-then, Io-returned, lift-ok}
use sovereign_ledger.Ledger.{File}
use sovereign_ledger.Ledger.Leaves.{ok_or-some, leaf_hashes-IsDigest}
use sovereign_ledger.Ledger.Entry.{decode_hash-encode}
use sovereign_ledger.Ledger.Proofs.{
  root_of, in_range, prove_inclusion-verify_inclusion, prove_consistency-verify_consistency,
}
use sovereign_ledger.Ledger.Read.{leaf_hashes, merkle_root, prove_inclusion, prove_consistency}
use sovereign_ledger.Merkle.{InclusionProof, ConsistencyProof, mth, verify_inclusion}
use sovereign_ledger.Merkle.Inclusion.{mth-IsDigest, inclusion_proof}
use sovereign_ledger.Merkle.Split.{max_size}
use sovereign_ledger.Text.{is_text}
use sovereign_ledger.Cli.{
  Cli, Outside, Libraries, Output, inclusion, inclusion_verified, consistency, consistency_verified,
  open_cli, peek, decode_hex32,
}
use sovereign_ledger.Cli.Outputs.{
  prove_output, consistency_output, check_inclusion_text, check_consistency_text,
}
use sovereign_ledger.Cli.Commands.{
  run_prove, run_check_inclusion, run_prove_consistency, run_check_consistency,
}

module _ (b : Libraries) (o : Outside) (cli : Cli) where
  -- What `prove` has read when it prints, in the file that is there behind it.
  prove-read :
      (seq : ℕ) (files left : Files) (out : Output)
      → run_prove b o cli seq files ≡ (ok out, left)
      → prove_output b seq (left cli.path) ≡ ok out
  unfolding run_prove
  prove-read seq files left out h =
      let (l, mid, opened, h) = Io-returned (open_cli b o cli) _ files left out h in
      let h = sym (Io-then (peek cli.path) _ mid mid _ refl) ∙ h in
      let (printed, same) = lift-ok (prove_output b seq (mid cli.path)) mid left out h in
      subst (λ (t : Files). prove_output b seq (t cli.path) ≡ ok out) same printed

  -- The values behind the output.
  prove_output-values :
      (seq : ℕ) (file : File) (leaf root : Bytes) (proof : InclusionProof)
      → prove_output b seq file ≡ ok (inclusion leaf root proof)
      → (d : List Bytes) × (x r : Bytes) × (prove_inclusion b.crates seq file ≡ ok proof)
        × (leaf_hashes b.crates file ≡ ok d)
        × (get_elem? d proof.index ≡ some x)
        × (merkle_root b.crates file ≡ ok r)
        × (b.crates.hex.encode x ≡ leaf)
        × (b.crates.hex.encode r ≡ root)
  unfolding prove_output
  prove_output-values seq file leaf root proof h =
      let (p, proved, h) = returned (prove_inclusion b.crates seq file) _ _ h in
      let (d, read, h) = returned (leaf_hashes b.crates file) _ _ h in
      let (x, found, h) = returned (ok_or (get_elem? d p.index) _) _ _ h in
      let (r, rooted, h) = returned (merkle_root b.crates file) _ _ h in
      let same : p ≡ proof = ground arith in
      (
        d,
        x,
        r,
        proved ∙ ap ok same,
        read,
        ap (λ (t : InclusionProof). get_elem? d t.index) (sym same)
            ∙ ok_or-some b.crates _ _ x found,
        rooted,
        ground arith,
        ground arith,
      )

  decode_hex32-encode : (x : Bytes) → IsDigest x → decode_hex32 b (b.crates.hex.encode x) ≡ ok x
  unfolding decode_hex32
  decode_hex32-encode x h = rw (decode_hash-encode b.crates x h) refl

  checks :
      (other : Files) (leaf root text : Bytes) (proof : InclusionProof) (p : FilePath) (x r : Bytes)
      → decode_hex32 b leaf ≡ ok x
      → decode_hex32 b root ≡ ok r
      → other p ≡ some text
      → is_text text ≡ true
      → b.parse_inclusion text ≡ inr proof
      → verify_inclusion b.crates.sha proof x r ≡ ok tt
      → run_check_inclusion b leaf root p other ≡ (ok inclusion_verified, other)
  unfolding run_check_inclusion check_inclusion_text
  checks other leaf root text proof p x r dx dr holds utf8 parses verified =
      Io-then (lift (decode_hex32 b leaf)) _ other other x (ap (λ t. (t, other)) dx)
      ∙ Io-then (lift (decode_hex32 b root)) _ other other r (ap (λ t. (t, other)) dr)
      ∙ Io-then (read_to_string p) _ other other text (read_text_here p other text holds utf8)
      ∙ rw (parses, verified) refl

  -- What `prove` prints is what `check-inclusion` accepts: the leaf and the root as they are printed, and
  -- any file whose text reads as the proof. The ledger has at most 2 ^ 63 entries.
  pub run_prove-check :
      (seq : ℕ) (files left other : Files) (leaf root text : Bytes) (proof : InclusionProof)
      (p : FilePath) (d : List Bytes)
      → run_prove b o cli seq files ≡ (ok (inclusion leaf root proof), left)
      → leaf_hashes b.crates (left cli.path) ≡ ok d
      → length d ≤ max_size
      → other p ≡ some text
      → is_text text ≡ true
      → b.parse_inclusion text ≡ inr proof
      → run_check_inclusion b leaf root p other ≡ (ok inclusion_verified, other)
  unfolding inclusion_proof
  run_prove-check seq files left other leaf root text proof p d h stored small holds utf8 parses =
      let printed = prove-read seq files left _ h in
      let (d1, x, r, proved, read1, found, rooted, l, q) =
        prove_output-values seq (left cli.path) leaf root proof printed in
      let same : d1 ≡ d = ok-injective d1 d (sym read1 ∙ stored) in
      let (low, high, made) = in_range b.crates (left cli.path) d stored small seq proof proved in
      let (y, at, verified) =
        prove_inclusion-verify_inclusion b.crates (left cli.path) d stored small seq proof r proved
          rooted in
      let index : proof.index ≡ seq - 1 = ap (λ (t : InclusionProof). t.index) (sym made) in
      let found1 : get_elem? d (seq - 1) ≡ some x =
        subst (λ n. get_elem? d n ≡ some x) index
          (subst (λ t. get_elem? t proof.index ≡ some x) same found) in
      let x_same : y ≡ x = some-injective y x (sym at ∙ found1) in
      let x_digest =
        get_elem?-All IsDigest d (seq - 1) x
          (leaf_hashes-IsDigest b.crates (left cli.path) d stored) found1 in
      let r_digest =
        subst IsDigest (root_of b.crates (left cli.path) d stored small r rooted)
          (mth-IsDigest b.crates.sha d) in
      checks other leaf root text proof p x r
        (subst (λ t. decode_hex32 b t ≡ ok x) l (decode_hex32-encode x x_digest))
        (subst (λ t. decode_hex32 b t ≡ ok r) q (decode_hex32-encode r r_digest)) holds utf8 parses
        (subst (λ t. verify_inclusion b.crates.sha proof t r ≡ ok tt) x_same verified)

  consistency-read :
      (old_size : ℕ) (files left : Files) (root : Bytes) (proof : ConsistencyProof)
      → run_prove_consistency b o cli old_size files ≡ (ok (consistency root proof), left)
      → (r : Bytes) × (prove_consistency b.crates old_size (left cli.path) ≡ ok proof)
        × (merkle_root b.crates (left cli.path) ≡ ok r)
        × (b.crates.hex.encode r ≡ root)
  unfolding run_prove_consistency consistency_output
  consistency-read old_size files left root proof h =
      let (l, mid, opened, h) = Io-returned (open_cli b o cli) _ files left _ h in
      let h = sym (Io-then (peek cli.path) _ mid mid _ refl) ∙ h in
      let (printed, same) = lift-ok (consistency_output b old_size (mid cli.path)) mid left _ h in
      let (p, proved, h) = returned (prove_consistency b.crates old_size (left cli.path)) _ _ (
        subst
          (λ (t : Files). consistency_output b old_size (t cli.path) ≡ ok (consistency root proof))
          same printed) in
      let (r, rooted, h) = returned (merkle_root b.crates (left cli.path)) _ _ h in
      let same : p ≡ proof = ground arith in (r, proved ∙ ap ok same, rooted, ground arith)

  -- What `prove-consistency` prints is what `check-consistency` accepts, against the root that an earlier
  -- file printed whose entries are the first of this one, and the root as it is printed; from any file
  -- whose text reads as the proof. The ledger has at most 2 ^ 63 entries.
  pub run_prove_consistency-check :
      (old_size : ℕ) (files left other : Files) (old_file : File) (root text old_root : Bytes)
      (proof : ConsistencyProof) (p : FilePath) (d : List Bytes)
      → run_prove_consistency b o cli old_size files ≡ (ok (consistency root proof), left)
      → leaf_hashes b.crates (left cli.path) ≡ ok d
      → length d ≤ max_size
      → leaf_hashes b.crates old_file ≡ ok (take old_size d)
      → merkle_root b.crates old_file ≡ ok old_root
      → other p ≡ some text
      → is_text text ≡ true
      → b.parse_consistency text ≡ inr proof
      → run_check_consistency b (b.crates.hex.encode old_root) root p other
        ≡ (ok consistency_verified, other)
  unfolding run_check_consistency check_consistency_text merkle_root
  run_prove_consistency-check old_size files left other old_file root text old_root proof p d h
        stored small old old_rooted holds utf8 parses =
      let (r, proved, rooted, q) = consistency-read old_size files left root proof h in
      let verified =
        prove_consistency-verify_consistency b.crates (left cli.path) d stored small old_file
          old_size proof old_root r old old_rooted proved rooted in
      let r_digest =
        subst IsDigest (root_of b.crates (left cli.path) d stored small r rooted)
          (mth-IsDigest b.crates.sha d) in
      let old_digest =
        subst IsDigest
          (ok-injective (mth b.crates.sha (take old_size d)) old_root (rw old at old_rooted))
          (mth-IsDigest b.crates.sha (take old_size d)) in
      let dr = subst (λ t. decode_hex32 b t ≡ ok r) q (decode_hex32-encode r r_digest) in
      Io-then (lift (decode_hex32 b (b.crates.hex.encode old_root))) _ other other old_root
        (ap (λ t. (t, other)) (decode_hex32-encode old_root old_digest))
      ∙ Io-then (lift (decode_hex32 b root)) _ other other r (ap (λ t. (t, other)) dr)
      ∙ Io-then (read_to_string p) _ other other text (read_text_here p other text holds utf8)
      ∙ rw (parses, verified) refl

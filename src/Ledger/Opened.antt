-- ===== src/Ledger/Opened.antt =====
-- What `verify` of src/lib.rs passes, `open_with_seeds` opens.
use sovereign_ledger.Base.{
  suc, ◌+◌, ◌^◌, ◌≡◌, ◌<◌, refl, sym, ◌∙◌, ap, subst, false, some, List, [], ◌∷◌, ◌++◌, All, arith,
  length,
}
use sovereign_ledger.Crypto.{Bytes, IsDigest}
use sovereign_ledger.Crates.{Crates, Event, IsEvent}
use sovereign_ledger.Error.{ok, returned, ok-injective}
use sovereign_ledger.Event.Message.{zero_hash-IsDigest}
use sovereign_ledger.Ledger.{
  Ledger, Scan, start, scan_lines, scan_file, handle, seed_keys, open_with_seeds, items, iter,
}
use sovereign_ledger.Ledger.Binding.{read_ok}
use sovereign_ledger.Ledger.Read.{Chain, chain_start, verify_items, verify}
use sovereign_ledger.Ledger.Sound.{IsVerified}
use sovereign_ledger.Ledger.Written.{line_of, file_of, lines_of, read_lines-file_of, iter-file_of}
use sovereign_ledger.Text.{read_lines}
use sovereign_ledger.Text.Lines.{IsEnded, IsEnded-newline}
use sovereign_ledger.Ledger.Scanned.{Follows, scan_lines-Follows}

IsEnded-append : (xs ys : Bytes) → IsEnded xs → IsEnded ys → IsEnded (xs ++ ys)
IsEnded-append [] ys h k = k
IsEnded-append (b ∷ []) [] h k = h
IsEnded-append (b ∷ []) (c ∷ ys) h k = k
IsEnded-append (b ∷ c ∷ xs) ys h k = IsEnded-append (c ∷ xs) ys h k

module _ (w : Crates) where
  file_of-IsEnded : (es : List Event) → IsEnded (file_of w es)
  unfolding file_of
  file_of-IsEnded [] = tt
  file_of-IsEnded (e ∷ es) =
      IsEnded-append (line_of w e) (file_of w es) (IsEnded-newline (w.serde.print_event e))
        (file_of-IsEnded es)

  -- What `verify` has gone through.
  passed :
      (l : Ledger) (keys : List Bytes) (es : List Event)
      → All IsEvent es
      → l.keys ≡ keys
      → verify w l (some (file_of w es)) ≡ ok tt
      → (d : Chain) × (verify_items w keys 0 (read_ok es) chain_start ≡ ok d)
  unfolding verify
  passed l keys es g same h =
      let (d, v, done) =
        returned (verify_items w l.keys 0 (read_ok es) chain_start) _ tt
          (rw (iter-file_of w es g) at h) in
      (d, ap (λ k. verify_items w k 0 (read_ok es) chain_start) (sym same) ∙ v)

  scanned :
      (drawn : Bytes) (seeds : List Bytes) (es : List Event) (t : Scan)
      → All IsEvent es
      → scan_lines w (seed_keys w drawn seeds) 0 (lines_of w es) start ≡ ok t
      → open_with_seeds w drawn seeds (some (file_of w es))
        ≡ ok (handle w (seed_keys w drawn seeds) t)
  unfolding open_with_seeds scan_file
  scanned drawn seeds es t g r = rw (read_lines-file_of w es g, r) refl

  length-read_ok : (es : List Event) → length (read_ok es) ≡ length es
  length-read_ok [] = refl
  length-read_ok (e ∷ es) = ap suc (length-read_ok es)

  items-file_of :
      (es : List Event) → All IsEvent es → items w 0 (read_lines (file_of w es)) ≡ read_ok es
  unfolding iter
  items-file_of es g = ok-injective _ _ (iter-file_of w es g)

  tip-IsVerified :
      (keys : List Bytes) (es : List Event) (t : Scan) (d : Chain)
      → All IsEvent es
      → verify_items w keys 0 (read_ok es) chain_start ≡ ok d
      → Follows (length es) t d
      → IsVerified w (handle w keys t) (some (file_of w es))
  tip-IsVerified keys es t d g v f = record {
    chain = d;
    passes = ap (λ x. verify_items w keys 0 x chain_start) (items-file_of es g) ∙ v;
    tip = record {
      last_hash = sym f.last_hash;
      seals_seen = sym f.seals_seen;
      digest = subst IsDigest (sym f.last_hash) f.digest;
    };
    count = ap length (items-file_of es g) ∙ length-read_ok es ∙ sym f.seq;
    ended = file_of-IsEnded es;
  }

  begins : Follows 0 start chain_start
  begins = record {
    last_hash = refl;
    seals_seen = refl;
    seq = refl;
    sound = refl;
    digest = zero_hash-IsDigest;
  }

  -- A file of written entries that `verify` passes, `open_with_seeds` opens with the seeds of the keys:
  -- the handle is not compromised, every entry of the file passes `verify` under its keys, the chain ends
  -- at its tip, and its sequence number counts the entries, when they are fewer than 2 ^ 64.
  pub verify-open_with_seeds :
      (l : Ledger) (drawn : Bytes) (seeds : List Bytes) (es : List Event)
      → All IsEvent es
      → length es < 2 ^ 64
      → l.keys ≡ seed_keys w drawn seeds
      → verify w l (some (file_of w es)) ≡ ok tt
      → (h : Ledger) × (open_with_seeds w drawn seeds (some (file_of w es)) ≡ ok h)
        × (h.compromised ≡ false)
        × (h.seq ≡ length es)
        × IsVerified w h (some (file_of w es))
  verify-open_with_seeds l drawn seeds es g fits same h =
      let keys = seed_keys w drawn seeds in
      let (d, v) = passed l keys es g same h in
      let (t, r, f) =
        scan_lines-Follows w keys 0 es start chain_start d g begins (omega (arith, fits)) v in
      let n : 0 + length es ≡ length es = omega arith in
      let f : Follows (length es) t d = subst (λ i. Follows i t d) n f in
      (
        handle w keys t,
        scanned drawn seeds es t g r,
        f.sound,
        f.seq,
        tip-IsVerified keys es t d g v f,
      )

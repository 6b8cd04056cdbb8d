-- ===== src/Seal/Written/Grown.antt =====
-- `verify_public` of src/seal.rs on the ledgers that src/lib.rs writes from nothing.
use sovereign_ledger.Base.{
  ℕ, ◌+◌, ◌^◌, ◌<◌, ◌≡◌, ◌⊎◌, inl, inr, refl, sym, ◌∙◌, ap, subst, Bool, true, false, ◌&&◌, ◌==◌,
  if◌then◌else◌, Option, none, some, List, [], ◌++◌, length, arith,
}
use sovereign_ledger.Base.Bytes.{bytes_eq}
use sovereign_ledger.Crypto.{Bytes}
use sovereign_ledger.Crates.{Crates, Event, SealRecord}
use sovereign_ledger.Error.{Error, Result, ok, err, Result-cases}
use sovereign_ledger.Event.{seal_event}
use sovereign_ledger.Event.Message.{zero_hash-IsDigest}
use sovereign_ledger.Ledger.{File, Ledger, start, handle, seed_keys}
use sovereign_ledger.Ledger.Append.{append_refused, append_written}
use sovereign_ledger.Ledger.Close.{seal, seal_segment}
use sovereign_ledger.Ledger.Extend.{moved}
use sovereign_ledger.Ledger.Write.{healthy, contents, next_entry, append, rotate_key}
use sovereign_ledger.Ledger.Written.{line_of, file_of}
use sovereign_ledger.Seal.Public.{Signatures, public_start, public_lines, verify_public}
use sovereign_ledger.Seal.Written.Closing.{identity}
use sovereign_ledger.Seal.Written.Entries.{append-IsPublished, rotate_key-IsPublished}
use sovereign_ledger.Seal.Written.Published.{Identity, IsPublished}
use sovereign_ledger.Seal.Written.Sealed.{bumped, closed-IsPublished}
use sovereign_ledger.Text.{is_text, read_lines}
use sovereign_ledger.Anchor.Ed25519.{Ed25519, ed25519_signer}

module _ (w : Crates) (g : Signatures) (id : Identity) where
  start-IsPublished : (keys : List Bytes) → IsPublished w g id (handle w keys start) none
  unfolding file_of read_lines public_lines
  start-IsPublished keys = record {
    front = [];
    buffer = [];
    front_events = tt;
    buffer_events = tt;
    written = refl;
    ended = tt;
    state = public_start;
    reads = refl;
    modern = refl;
    seals_fit = omega arith;
    seq_fits = omega arith;
    epoch_fits = omega arith;
    prev = start.last_hash;
    chained = (refl, zero_hash-IsDigest);
    count = refl;
    closed = tt;
    seals_seen = refl;
    last_hash = refl;
    held = refl;
    segment_start = refl;
    sealed_entries = refl;
    expected_seq = refl;
    prev_seal = refl;
    anchor = inl refl;
  }

module _ (w : Crates) (g : Signatures) (d : Ed25519 g) (seed : Bytes) where
  module _ (now : ℕ) (hn : now < 2 ^ 64) (l : Ledger) (file : File)
      (p : IsPublished w g (identity w g d seed) l file) where
    seal_written :
        (r : SealRecord) (e : Event) (hash : Bytes)
        → seal_segment w (ed25519_signer w g d seed) l file ≡ ok (some r)
        → next_entry w now seal_event (w.serde.print_seal r) (bumped w g d seed l file p)
          ≡ ok (e, hash)
        → seal w now healthy (ed25519_signer w g d seed) l file ≡ (
          ok (some (l.seq + 1)),
          moved (bumped w g d seed l file p) hash,
          some (contents file ++ line_of w e),
        )
    unfolding seal
    seal_written r e hash h q =
        rw
          (
            h,
            append_written w now seal_event (w.serde.print_seal r) (bumped w g d seed l file p) file
                e hash q,
          )
          (ap (λ t. (ok (some (l.seq + 1)), t, some (contents file ++ line_of w e)))
            (stays (r.segment == 0) l.legacy_segment0 _ _ p.modern))
      where
        stays : (b c : Bool) (x y : Ledger) → c ≡ false → (if b && c then x else y) ≡ y
        stays true c x y h = rw h refl
        stays false c x y h = refl

    seal_idle :
        seal_segment w (ed25519_signer w g d seed) l file ≡ ok none
        → seal w now healthy (ed25519_signer w g d seed) l file ≡ (ok none, l, file)
    unfolding seal
    seal_idle h = rw h refl

    seal_failed :
        (x : Error)
        → seal_segment w (ed25519_signer w g d seed) l file ≡ err x
        → (seal w now healthy (ed25519_signer w g d seed) l file).0 ≡ err x
    unfolding seal
    seal_failed x h = rw h refl

    seal_refused :
        (r : SealRecord) (x : Error)
        → seal_segment w (ed25519_signer w g d seed) l file ≡ ok (some r)
        → next_entry w now seal_event (w.serde.print_seal r) (bumped w g d seed l file p) ≡ err x
        → (seal w now healthy (ed25519_signer w g d seed) l file).0 ≡ err x
    unfolding seal
    seal_refused r x h q =
        rw
          (
            h,
            append_refused w now seal_event (w.serde.print_seal r) (bumped w g d seed l file p) file
                healthy x q,
          )
          refl

    -- A seal that returned, whether it closed a segment or had none to close.
    seal-IsPublished :
        (out : Option ℕ) (l' : Ledger) (file' : File)
        → seal w now healthy (ed25519_signer w g d seed) l file ≡ (ok out, l', file')
        → IsPublished w g (identity w g d seed) l' file'
    seal-IsPublished out l' file' h =
        elim (Result-cases (seal_segment w (ed25519_signer w g d seed) l file)) [
          | inl (none, e) ↦
              subst
                (λ (t : Result (Option ℕ) × Ledger × File).
                  IsPublished w g (identity w g d seed) t.1 t.2)
                (sym (seal_idle e) ∙ h) p
          | inl (some r, e) ↦
              elim (Result-cases
                (next_entry w now seal_event (w.serde.print_seal r) (bumped w g d seed l file p))) [
                  | inl ((event, hash), q) ↦
                      subst
                        (λ (t : Result (Option ℕ) × Ledger × File).
                          IsPublished w g (identity w g d seed) t.1 t.2)
                        (sym (seal_written r event hash e q) ∙ h)
                        (closed-IsPublished w g d seed l file p now r event hash hn e q)
                  | inr (x, q) ↦
                      absurd (not_ok x out (sym (seal_refused r x e q) ∙ ap (λ t. t.0) h))
                ]
          | inr (x, e) ↦ absurd (not_ok x out (sym (seal_failed x e) ∙ ap (λ t. t.0) h))
        ]
      where
        not_ok : (x : Error) (out : Option ℕ) → err x ≡ ok out → ⊥
        not_ok x out h = ground arith

  -- A ledger that was opened on nothing, and what operations made of it and of its file: entries that are
  -- no seals, rotations, and seals with the key that returned, on a disk that takes the lines.
  pub data Grown : Ledger → File → Type 0 where
    opened :
        (drawn : Bytes) (seeds : List Bytes) → Grown (handle w (seed_keys w drawn seeds) start) none
    appended :
        {l : Ledger} {file : File} (now : ℕ) (event_type body : Bytes)
        → now < 2 ^ 64
        → is_text event_type ≡ true
        → is_text body ≡ true
        → bytes_eq event_type seal_event ≡ false
        → Grown l file
        → Grown
            (append w now healthy event_type body l file).1
            (append w now healthy event_type body l file).2
    rotated :
        {l : Ledger} {file : File} (now : ℕ) (key_seed : Bytes)
        → now < 2 ^ 64
        → Grown l file
        → Grown
            (rotate_key w now healthy key_seed l file).1
            (rotate_key w now healthy key_seed l file).2
    sealed :
        {l l' : Ledger} {file file' : File} (now : ℕ) (out : Option ℕ)
        → now < 2 ^ 64
        → seal w now healthy (ed25519_signer w g d seed) l file ≡ (ok out, l', file')
        → Grown l file
        → Grown l' file'

  Grown-IsPublished :
      {l : Ledger} {file : File} → Grown l file → IsPublished w g (identity w g d seed) l file
  Grown-IsPublished (opened drawn seeds) =
      start-IsPublished w g (identity w g d seed) (seed_keys w drawn seeds)
  Grown-IsPublished (appended now event_type body hn ht hb plain k) =
      append-IsPublished w g (identity w g d seed) now event_type body _ _ hn ht hb plain
        (Grown-IsPublished k)
  Grown-IsPublished (rotated now key_seed hn k) =
      rotate_key-IsPublished w g (identity w g d seed) now key_seed _ _ hn (Grown-IsPublished k)
  Grown-IsPublished (sealed now out hn h k) =
      seal-IsPublished now hn _ _ (Grown-IsPublished k) out _ _ h

  -- A ledger that was opened on nothing and then only had entries appended that are no seals, keys
  -- rotated and segments sealed with one Ed25519 key, every seal having returned, on a disk that takes the
  -- lines, with texts in UTF-8 and times that fit their words, passes `verify_public`. The report counts as
  -- sealed what the handle has sealed, the rest of its entries as unsealed, as many segments as the handle,
  -- and no signer or that key.
  pub verify_public-Grown :
      (l : Ledger) (file : File)
      → Grown l file
      → (unsealed : ℕ) × (anchor : Option Identity) × (verify_public w g (contents file)
          ≡ ok (record {
            sealed_entries = l.sealed_through;
            unsealed_entries = unsealed;
            segments = l.seals_seen;
            anchor_id = anchor;
          }))
        × (l.sealed_through + unsealed ≡ l.seq)
        × ((anchor ≡ none) ⊎ (anchor ≡ some (identity w g d seed)))
  unfolding verify_public
  verify_public-Grown l file k =
      let p = Grown-IsPublished k in
      (
        length p.state.buffer,
        p.state.anchor_id,
        rw p.reads (rw (p.sealed_entries, p.seals_seen) refl),
        ap (λ t. l.sealed_through + length t) p.held ∙ p.count,
        p.anchor,
      )

-- ===== src/Ledger/Ready.antt =====
-- When `append` of src/lib.rs takes an entry.
use sovereign_ledger.Base.{
  ℕ, ◌+◌, ◌^◌, ◌<◌, ◌≡◌, ◌↔◌, refl, sym, ◌∙◌, ap, false, inl, inr, arith, lt→ltb,
}
use sovereign_ledger.Crypto.{Bytes}
use sovereign_ledger.Crates.{Crates}
use sovereign_ledger.Error.{Error, ok, err, Result-cases, ok-injective}
use sovereign_ledger.Event.{entry_key, event_hash_v2}
use sovereign_ledger.Ledger.{File, Ledger, contains}
use sovereign_ledger.Ledger.Append.{append_refused, append_written}
use sovereign_ledger.Ledger.Entry.{entry, next_entry-IsNext}
use sovereign_ledger.Ledger.Write.{healthy, entry_version, next_entry, append}

module _ (w : Crates) where
  -- A handle that is neither compromised nor read-only, whose epoch no seal has published and has a key,
  -- and whose next sequence number fits a `u64`.
  pub record IsReady (l : Ledger) : Type 0 where
    pub live : l.compromised ≡ false
    pub writable : l.read_only ≡ false
    pub secret : contains l.revealed_epochs l.epoch ≡ false
    pub key : Bytes
    pub has_key : entry_key w l.keys l.epoch l.seals_seen (entry_version l) ≡ ok key
    pub fits : l.seq + 1 < 2 ^ 64

  module _ (now : ℕ) (event_type body : Bytes) (l : Ledger) (file : File) where
    next_entry-IsReady :
        (i : IsReady l)
        → next_entry w now event_type body l
          ≡ ok (
            entry w now event_type body l
                (event_hash_v2 w l.last_hash (l.seq + 1) now event_type body i.key),
            event_hash_v2 w l.last_hash (l.seq + 1) now event_type body i.key,
          )
    unfolding next_entry
    next_entry-IsReady i =
        rw (i.live, i.writable, i.secret, i.has_key, lt→ltb (l.seq + 1) (2 ^ 64) i.fits) refl

    ready :
        (n : ℕ)
        → (append w now healthy event_type body l file).0 ≡ ok n
        → IsReady l × (n ≡ l.seq + 1)
    ready n h = elim (Result-cases (next_entry w now event_type body l)) [
      | inl ((e, hash), q) ↦
          let i = next_entry-IsNext w now event_type body l e hash q in
          (
            record {
              live = i.live;
              writable = i.writable;
              secret = i.secret;
              key = i.key;
              has_key = i.has_key;
              fits = i.fits;
            },
            sym (
                ok-injective (l.seq + 1) n
                  (ap (λ t. t.0) (sym (append_written w now event_type body l file e hash q)) ∙ h)),
          )
      | inr (x, q) ↦ absurd (
          not_ok x n
            (ap (λ t. t.0) (sym (append_refused w now event_type body l file healthy x q)) ∙ h))
    ]
      where
        not_ok : (x : Error) (n : ℕ) → err x ≡ ok n → ⊥
        not_ok x n h = ground arith

    -- On a disk that takes the line, `append` returns a sequence number exactly when the handle is ready, and
    -- it is the one behind the last.
    pub append-IsReady :
        (n : ℕ)
        → ((append w now healthy event_type body l file).0 ≡ ok n) ↔ (IsReady l × (n ≡ l.seq + 1))
    append-IsReady n = (
      ready n,
      λ (i, q).
          ap (λ t. t.0) (append_written w now event_type body l file _ _ (next_entry-IsReady i))
          ∙ ap ok (sym q),
    )

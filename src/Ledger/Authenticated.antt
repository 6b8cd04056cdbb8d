-- ===== src/Ledger/Authenticated.antt =====
-- The messages that `verify` of src/lib.rs authenticates, each with its key, the key first.
use sovereign_ledger.Base.{ℕ, ◌+◌, List, [], ◌∷◌}
use sovereign_ledger.Crypto.{Bytes}
use sovereign_ledger.Crates.{Crates, Event}
use sovereign_ledger.Error.{Result, ok, err}
use sovereign_ledger.Event.{entry_key, message}
use sovereign_ledger.Ledger.Read.{Chain, note_event, verify_event}

abbrev or_empty : Result Bytes → Bytes
or_empty (ok key) = key
or_empty (err e) = []

module _ (w : Crates) where
  -- Up to an entry that fails.
  unfoldable pub authenticated : List Bytes → ℕ → List Event → Chain → List (Bytes × Bytes)
  authenticated keys idx [] c = []
  authenticated keys idx (e ∷ es) c =
      (
        or_empty (entry_key w keys e.epoch (note_event e c).seals_seen e.v),
        message c.last_hash e.seq e.ts e.event_type e.body,
      )
      ∷ elim (verify_event w keys idx e c) [ err x ↦ [] | ok d ↦ authenticated keys (idx + 1) es d ]

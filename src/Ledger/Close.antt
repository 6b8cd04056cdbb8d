-- ===== src/Ledger/Close.antt =====
-- src/lib.rs: `seal` closes a segment: it reads the segment back, signs what it found, and appends
-- the seal as the first entry of the next one.
use sovereign_ledger.Base.{
  ℕ, ◌-◌, Bool, false, not, ◌&&◌, ◌||◌, Option, none, some, List, [], ◌∷◌, ◌++◌, ltb, ◌==◌,
  if◌then◌else◌, length,
}
use sovereign_ledger.Base.Bytes.{bytes_eq}
use sovereign_ledger.Crypto.{Bytes}
use sovereign_ledger.Crates.{Crates, Event, SealRecord}
use sovereign_ledger.Error.{Error, Result, ok, err, ◌>>=◌, ◌>>◌, fail_if, ok_or}
use sovereign_ledger.Event.{seal_event, zero_hash, entry_key, decode_hash}
use sovereign_ledger.Ledger.{File, Ledger, next, iter}
use sovereign_ledger.Ledger.Write.{Disk, append, entry_version}
use sovereign_ledger.Merkle.{mth}
use sovereign_ledger.Seal.{SealSigner, sign_record}

-- What the loop of `seal` collects.
pub record Segment : Type 0 where
  pub leaves : List Bytes
  pub epochs : List (ℕ × Bytes)
  pub prev_seal : Bytes
  pub has_nonseal : Bool

abbrev pub has_epoch : ℕ → List (ℕ × Bytes) → Bool
has_epoch e [] = false
has_epoch e ((f, k) ∷ ps) = e == f || has_epoch e ps

-- `BTreeMap::insert` at a vacant entry.
unfoldable pub insert_epoch : ℕ → Bytes → List (ℕ × Bytes) → List (ℕ × Bytes)
insert_epoch e k [] = (e, k) ∷ []
insert_epoch e k ((f, h) ∷ ps) =
    let rest = insert_epoch e k ps in if ltb e f then (e, k) ∷ (f, h) ∷ ps else (f, h) ∷ rest

abbrev pub last_leaf : Bytes → List Bytes → Bytes
last_leaf h [] = h
last_leaf h (x ∷ xs) = last_leaf x xs

abbrev pub epoch_list : List (ℕ × Bytes) → List ℕ
epoch_list [] = []
epoch_list ((e, k) ∷ ps) = e ∷ epoch_list ps

module _ (w : Crates) where
  unfoldable pub gather_epoch : Ledger → ℕ → List (ℕ × Bytes) → Result (List (ℕ × Bytes))
  gather_epoch l epoch epochs = if has_epoch epoch epochs then ok epochs else (do
    k ← entry_key w l.keys epoch l.seals_seen (entry_version l)
    ok (insert_epoch epoch (w.hex.encode k) epochs))

  unfoldable pub gather_event : Ledger → Event → Segment → Result Segment
  gather_event l event g =
      if ltb event.seq (next l.sealed_through) || ltb l.seq event.seq then ok g else (do
        leaf ← ok_or (decode_hash w event.hash) (Error.verification "bad stored hash")
        epochs ← gather_epoch l event.epoch g.epochs
        ok (record {
          leaves = g.leaves ++ leaf ∷ [];
          epochs = epochs;
          prev_seal = if bytes_eq event.event_type seal_event then event.hash else g.prev_seal;
          has_nonseal = not (bytes_eq event.event_type seal_event) || g.has_nonseal;
        }))

  unfoldable pub gather : Ledger → List (Result Event) → Segment → Result Segment
  gather l [] g = ok g
  gather l (item ∷ items) g = do event ← item; h ← gather_event l event g; gather l items h

  -- The record for what was gathered, unsigned.
  abbrev pub unsigned : Ledger → Segment → SealSigner → Bytes → SealRecord
  unsigned l g signer public_key = record {
    segment = l.seals_seen;
    start_seq = next l.sealed_through;
    end_seq = l.seq;
    tip_hash = w.hex.encode (last_leaf zero_hash g.leaves);
    merkle_root = w.hex.encode (mth w.sha g.leaves);
    revealed = g.epochs;
    prev_seal = g.prev_seal;
    scheme = signer.scheme;
    public_key = public_key;
    signature = [];
    payload = [];
  }

  -- `seal` up to the signature; nothing where there is nothing new to seal.
  unfoldable pub seal_segment : SealSigner → Ledger → File → Result (Option SealRecord)
  seal_segment signer l file = do
    fail_if l.compromised Error.compromised
    if ltb l.seq (next l.sealed_through) then ok none else (do
      items ← iter w file
      g ← gather l items (record { leaves = []; epochs = []; prev_seal = []; has_nonseal = false })
      fail_if (not (length g.leaves == next (l.seq - next l.sealed_through)))
          (Error.verification "segment bounds mismatch")
      if not g.has_nonseal then ok none else (do
        public_key ← signer.public_key
        seal ← sign_record (unsigned l g signer public_key) signer
        ok (some seal)))

  -- The index is bumped, and the boundary moved, before the seal is appended.
  unfoldable pub seal : ℕ → Disk → SealSigner → Ledger → File → Result (Option ℕ) × Ledger × File
  seal now disk signer l file = sealed (seal_segment signer l file)
    where
      finished : SealRecord → Result ℕ × Ledger × File → Result (Option ℕ) × Ledger × File
      finished r (err e, l, file) = (err e, l, file)
      finished r (ok seq, l, file) = (
        ok (some seq),
        if r.segment == 0 && l.legacy_segment0
            then record l { revealed_epochs = epoch_list r.revealed ++ l.revealed_epochs }
            else l,
        file,
      )

      sealed : Result (Option SealRecord) → Result (Option ℕ) × Ledger × File
      sealed (err e) = (err e, l, file)
      sealed (ok none) = (ok none, l, file)
      sealed (ok (some r)) = finished r (
          append w now disk seal_event (w.serde.print_seal r)
            (record l { seals_seen = next l.seals_seen; sealed_through = l.seq }) file)

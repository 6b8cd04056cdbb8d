-- ===== src/Seal/Written/Gather.antt =====
-- What the loop of `seal` in src/lib.rs collects from a file whose last segment is a chain.
use sovereign_ledger.Base.{
  ℕ, suc, ◌+◌, ◌^◌, ◌<◌, ◌≤◌, ◌≡◌, refl, sym, ◌∙◌, Bool, true, false, not, ◌||◌, ◌&&◌, Bool-cases,
  inl, inr, List, [], ◌∷◌, ◌++◌, All, append_assoc, arith, ltb, length, ◌==◌, append-nil,
  if◌then◌else◌,
}
use sovereign_ledger.Base.Bytes.{bytes_eq}
use sovereign_ledger.Crypto.{Bytes}
use sovereign_ledger.Crates.{Crates, Event, IsAscending}
use sovereign_ledger.Error.{Result, ok}
use sovereign_ledger.Event.{format_version, seal_event, entry_key}
use sovereign_ledger.Ledger.{Ledger, next}
use sovereign_ledger.Ledger.Binding.{read_ok}
use sovereign_ledger.Ledger.Close.{
  Segment, has_epoch, insert_epoch, gather_epoch, gather_event, gather,
}
use sovereign_ledger.Ledger.Write.{entry_version}
use sovereign_ledger.Seal.Written.Chained.{IsChained, hashes, stored_hash}
use sovereign_ledger.Seal.Written.Revealed.{
  IsRevealed, insert_epoch-IsRevealed, has_epoch-insert_epoch, has_epoch_kept,
  insert_epoch-IsAscending,
}

-- The hash of the last seal, behind one that came before.
abbrev pub last_seal : Bytes → List Event → Bytes
last_seal p [] = p
last_seal p (e ∷ es) = last_seal (if bytes_eq e.event_type seal_event then e.hash else p) es

module _ (w : Crates) (l : Ledger) (modern : l.legacy_segment0 ≡ false)
    (room : l.sealed_through + 1 < 2 ^ 64) where
  -- Entries of segments that are closed are passed over.
  pub gather-closed :
      (front : List Event) (items : List (Result Event)) (g : Segment)
      → All (λ e. e.seq ≤ l.sealed_through) front
      → gather w l (read_ok front) g ≡ ok g
  unfolding gather gather_event
  gather-closed [] items g a = refl
  gather-closed (e ∷ front) items g (h, a) =
      let skip : (ltb e.seq (next l.sealed_through) || ltb l.seq e.seq) ≡ true = ground arith in
      rw skip (gather-closed front items g a)

  -- The disclosed epochs so far: keys of this segment, in order.
  pub record IsDisclosed (epochs : List (ℕ × Bytes)) : Type 0 where
    pub revealed : All (IsRevealed w l.keys l.seals_seen) epochs
    pub ascending : IsAscending epochs

  version : entry_version l ≡ format_version
  version = rw modern (if-and (l.seals_seen == 0))
    where
      if-and : (b : Bool) → (if b && false then 2 else format_version) ≡ format_version
      if-and true = refl
      if-and false = refl

  gather_epoch-adds :
      (epoch : ℕ) (key : Bytes) (epochs : List (ℕ × Bytes))
      → entry_key w l.keys epoch l.seals_seen format_version ≡ ok key
      → epoch < 2 ^ 32
      → IsDisclosed epochs
      → (after : List (ℕ × Bytes)) × (gather_epoch w l epoch epochs ≡ ok after)
        × IsDisclosed after
        × (has_epoch epoch after ≡ true)
        × ((d : ℕ) → has_epoch d epochs ≡ true → has_epoch d after ≡ true)
  unfolding gather_epoch
  gather_epoch-adds epoch key epochs k fits d = elim (Bool-cases (has_epoch epoch epochs)) [
    | inl e ↦ (epochs, rw e refl, d, e, λ x h. h)
    | inr e ↦ (
      insert_epoch epoch (w.hex.encode key) epochs,
      rw (e, version, k) refl,
      record {
        revealed =
            insert_epoch-IsRevealed w l.keys l.seals_seen epoch (w.hex.encode key) epochs
              (record { key = key; has_key = k; shown = refl; fits = fits }) d.revealed;
        ascending = insert_epoch-IsAscending epoch (w.hex.encode key) epochs e d.ascending;
      },
      has_epoch-insert_epoch epoch (w.hex.encode key) epochs,
      λ x h. has_epoch_kept x epoch (w.hex.encode key) epochs h,
    )
  ]

  in_segment :
      (seq n k : ℕ)
      → seq ≡ n
      → l.sealed_through < n
      → n + suc k ≡ l.seq + 1
      → (ltb seq (next l.sealed_through) || ltb l.seq seq) ≡ false
  in_segment seq n k q low high = ground arith

  -- What is gathered from a chain behind `g`.
  pub record IsGathered (es : List Event) (hs : List Bytes) (g g' : Segment) : Type 0 where
    pub leaves : g'.leaves ≡ g.leaves ++ hs
    pub disclosed : IsDisclosed g'.epochs
    pub used : All (λ e. has_epoch e.epoch g'.epochs ≡ true) es
    pub kept : (d : ℕ) → has_epoch d g.epochs ≡ true → has_epoch d g'.epochs ≡ true
    pub prev_seal : g'.prev_seal ≡ last_seal g.prev_seal es

  pub gather-IsGathered :
      (prev : Bytes) (n : ℕ) (es : List Event) (last : Bytes) (g : Segment)
      (c : IsChained w l.keys l.seals_seen prev n es last)
      → l.sealed_through < n
      → n + length es ≡ l.seq + 1
      → All (λ e. e.epoch < 2 ^ 32) es
      → IsDisclosed g.epochs
      → (g' : Segment) × (gather w l (read_ok es) g ≡ ok g')
        × IsGathered es (hashes w l.keys l.seals_seen prev n es last c) g g'
  unfolding gather gather_event hashes
  gather-IsGathered prev n [] last g c low high fit d = (
    g,
    refl,
    record {
      leaves = sym (append-nil g.leaves);
      disclosed = d;
      used = tt;
      kept = λ x h. h;
      prev_seal = refl;
    },
  )
  gather-IsGathered prev n (e ∷ es) last g (link, c) low high (f, fit) d =
      let (after, adds, d1, has, keeps) =
        gather_epoch-adds e.epoch link.key g.epochs link.has_key f d in
      let g1 : Segment = record {
        leaves = g.leaves ++ link.hash ∷ [];
        epochs = after;
        prev_seal = if bytes_eq e.event_type seal_event then e.hash else g.prev_seal;
        has_nonseal = not (bytes_eq e.event_type seal_event) || g.has_nonseal;
      } in
      let (g', read, i) =
        gather-IsGathered link.hash (n + 1) es last g1 c (omega arith) (omega (arith, high)) fit
          d1 in
      let takes : (ltb e.seq (next l.sealed_through) || ltb l.seq e.seq) ≡ false =
        in_segment e.seq n (length es) link.seq low high in
      (
        g',
        rw (takes, stored_hash w l.keys l.seals_seen prev n e link, adds) read,
        record {
          leaves = i.leaves ∙ append_assoc g.leaves (link.hash ∷ []) _;
          disclosed = i.disclosed;
          used = (i.kept e.epoch has, i.used);
          kept = λ x h. i.kept x (keeps x h);
          prev_seal = i.prev_seal;
        },
      )

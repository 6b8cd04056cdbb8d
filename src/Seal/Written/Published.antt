-- ===== src/Seal/Written/Published.antt =====
-- A ledger of src/lib.rs whose file `verify_public` of src/seal.rs passes, at the point where the handle
-- is; and such a ledger behind one more entry.
use sovereign_ledger.Base.{
  ℕ, ◌+◌, ◌^◌, ◌<◌, ◌≤◌, ◌≡◌, refl, sym, ◌∙◌, ap, true, false, ◌⊎◌, none, some, List, [], ◌∷◌, ◌++◌,
  append_assoc, append-nil, All, arith, length, ◌==◌, if-false, if◌then◌else◌,
}
use sovereign_ledger.Base.Bytes.{bytes_eq, bytes_eq_self}
use sovereign_ledger.Crypto.{Bytes, IsDigest}
use sovereign_ledger.Crates.{Crates, Event, IsEvent}
use sovereign_ledger.Error.{ok}
use sovereign_ledger.Event.{seal_event, decode_hash}
use sovereign_ledger.Ledger.{File, Ledger, next}
use sovereign_ledger.Ledger.Write.{contents}
use sovereign_ledger.Ledger.Written.{line_of, file_of}
use sovereign_ledger.Seal.Public.{
  Signatures, Public, public_start, close_segment, public_event, public_lines,
}
use sovereign_ledger.Seal.Written.Chained.{IsChained, IsChained-keys}
use sovereign_ledger.Seal.Written.Gather.{last_seal}
use sovereign_ledger.Seal.Written.Reads.{public_lines-append, public_lines-entry}
use sovereign_ledger.Text.{read_lines}
use sovereign_ledger.Text.Lines.{IsEnded, read_lines-append, read_lines-line}

-- The signer of the seals, by its scheme and its public key.
abbrev pub Identity : Type 0
Identity = Bytes × Bytes

module _ (w : Crates) (g : Signatures) (id : Identity) where
  pub record IsPublished (l : Ledger) (file : File) : Type 0 where
    -- The entries of the closed segments, and of the open one.
    pub front : List Event
    pub buffer : List Event
    pub front_events : All IsEvent front
    pub buffer_events : All IsEvent buffer
    pub written : contents file ≡ file_of w (front ++ buffer)
    pub ended : IsEnded (contents file)
    pub state : Public
    pub reads : public_lines w g 0 (read_lines (contents file)) public_start ≡ ok state
    pub modern : l.legacy_segment0 ≡ false
    pub seals_fit : l.seals_seen < 2 ^ 64
    pub seq_fits : l.seq < 2 ^ 64
    pub epoch_fits : l.epoch < 2 ^ 32
    pub prev : Bytes
    pub chained : IsChained w l.keys l.seals_seen prev (l.sealed_through + 1) buffer l.last_hash
    pub count : l.sealed_through + length buffer ≡ l.seq
    pub closed : All (λ e. e.seq ≤ l.sealed_through) front
    pub seals_seen : state.seals_seen ≡ l.seals_seen
    pub last_hash : state.last_hash ≡ l.last_hash
    pub held : state.buffer ≡ buffer
    pub segment_start : state.segment_start ≡ l.sealed_through + 1
    pub sealed_entries : state.sealed_entries ≡ l.sealed_through
    pub expected_seq : state.expected_seq ≡ next l.seq
    pub prev_seal : state.prev_seal_hash ≡ last_seal [] buffer
    pub anchor : (state.anchor_id ≡ none) ⊎ (state.anchor_id ≡ some id)

  pub IsChained-last :
      (keys : List Bytes) (seals : ℕ) (prev : Bytes) (n : ℕ) (es : List Event) (last : Bytes)
      → IsChained w keys seals prev n es last
      → IsDigest last
  IsChained-last keys seals prev n [] last c = c.1
  IsChained-last keys seals prev n (e ∷ es) last (link, c) =
      IsChained-last keys seals link.hash (n + 1) es last c

  -- A key more, and another epoch.
  pub IsPublished-keys :
      (l : Ledger) (file : File) (more : List Bytes) (epoch : ℕ)
      → epoch < 2 ^ 32
      → IsPublished l file
      → IsPublished (record l { keys = l.keys ++ more; epoch = epoch }) file
  IsPublished-keys l file more epoch fits p = record {
    front = p.front;
    buffer = p.buffer;
    front_events = p.front_events;
    buffer_events = p.buffer_events;
    written = p.written;
    ended = p.ended;
    state = p.state;
    reads = p.reads;
    modern = p.modern;
    seals_fit = p.seals_fit;
    seq_fits = p.seq_fits;
    epoch_fits = fits;
    prev = p.prev;
    chained =
        IsChained-keys w l.keys more l.seals_seen p.prev (l.sealed_through + 1) p.buffer l.last_hash
          p.chained;
    count = p.count;
    closed = p.closed;
    seals_seen = p.seals_seen;
    last_hash = p.last_hash;
    held = p.held;
    segment_start = p.segment_start;
    sealed_entries = p.sealed_entries;
    expected_seq = p.expected_seq;
    prev_seal = p.prev_seal;
    anchor = p.anchor;
  }

  -- The lines behind one more entry are read as far as its event leads.
  pub reads-entry :
      (file : File) (e : Event) (s t : Public)
      → IsEvent e
      → IsEnded (contents file)
      → public_lines w g 0 (read_lines (contents file)) public_start ≡ ok s
      → ((i : ℕ) → public_event w g i e s ≡ ok t)
      → public_lines w g 0 (read_lines (contents file ++ line_of w e)) public_start ≡ ok t
  reads-entry file e s t h ended r p =
      let line = w.serde.print_event-IsLine e h in
      let split : read_lines (contents file ++ line_of w e)
          ≡ read_lines (contents file) ++ line_of w e ∷ [] =
        read_lines-append (contents file) (line_of w e) ended
        ∙ ap (λ t. read_lines (contents file) ++ t) (read_lines-line _ line) in
      ap (λ x. public_lines w g 0 x public_start) split
      ∙ public_lines-append w g 0 (read_lines (contents file)) (line_of w e ∷ []) public_start s r
      ∙ public_lines-entry w g _ e s t h (p _)

  pub file_of-snoc :
      (es : List Event) (e : Event) → file_of w (es ++ e ∷ []) ≡ file_of w es ++ line_of w e
  unfolding file_of
  file_of-snoc [] e = append-nil (line_of w e)
  file_of-snoc (x ∷ es) e =
      ap (λ t. line_of w x ++ t) (file_of-snoc es e) ∙ sym (append_assoc (line_of w x) _ _)

  pub All-snoc :
      (P : Event → Type 0) (es : List Event) (e : Event) → All P es → P e → All P (es ++ e ∷ [])
  All-snoc P [] e a h = (h, tt)
  All-snoc P (x ∷ es) e (b, a) h = (b, All-snoc P es e a h)

  pub last_seal-snoc :
      (es : List Event) (p : Bytes) (e : Event)
      → bytes_eq e.event_type seal_event ≡ false
      → last_seal p (es ++ e ∷ []) ≡ last_seal p es
  last_seal-snoc [] p e h = if-false _ _ _ h
  last_seal-snoc (x ∷ es) p e h =
      last_seal-snoc es (if bytes_eq x.event_type seal_event then x.hash else p) e h

  -- An entry that continues the chain, up to where a seal would close the segment.
  pub public_event-links :
      (i : ℕ) (e : Event) (s t : Public) (hash last : Bytes)
      → decode_hash w e.prev_hash ≡ some last
      → decode_hash w e.hash ≡ some hash
      → s.last_hash ≡ last
      → s.expected_seq ≡ e.seq
      → close_segment w g i e (record s { expected_seq = next s.expected_seq; last_hash = hash })
        ≡ ok t
      → public_event w g i e s ≡ ok (record t { buffer = t.buffer ++ e ∷ [] })
  unfolding public_event
  public_event-links i e s t hash last p h same q c =
      let linked : bytes_eq last s.last_hash ≡ true = rw same (bytes_eq_self last) in
      let numbered : (e.seq == s.expected_seq) ≡ true = ground (arith, q) in
      rw (p, linked, numbered, h, c) refl

-- ===== src/Ledger/Extend.antt =====
-- The scan of `open_with_seeds` and the handle of src/lib.rs, behind one more entry.
use sovereign_ledger.Base.{
  ℕ, ◌+◌, ◌^◌, ◌<◌, ◌≡◌, refl, sym, ◌∙◌, ap, max, Bool, true, false, ◌&&◌, some, List, [], ◌∷◌,
  ◌++◌, arith, ◌==◌, if◌then◌else◌, if-same, subst,
}
use sovereign_ledger.Base.Bytes.{bytes_eq}
use sovereign_ledger.Crypto.{Bytes, IsDigest}
use sovereign_ledger.Crates.{Crates, Event, IsEvent}
use sovereign_ledger.Error.{ok}
use sovereign_ledger.Event.{seal_event, format_version, event_hash_v2}
use sovereign_ledger.Ledger.{
  File, Ledger, Scan, handle, note_segment0, note_seal, scan_event, scan_lines,
}
use sovereign_ledger.Ledger.Write.{contents}
use sovereign_ledger.Ledger.Coherent.{IsCoherent, scan_line-entry, scan_file-entry}
use sovereign_ledger.Ledger.Entry.{entry, IsNext, IsAt, check_entry-next, note_segment0-next}
use sovereign_ledger.Text.{is_text}
use sovereign_ledger.Text.Lines.{IsEnded-line}

-- The handle behind an entry, and one that was just opened.
abbrev pub moved : Ledger → Bytes → Ledger
moved l hash = record l { last_hash = hash; seq = l.seq + 1 }

abbrev pub cleared : Ledger → Ledger
cleared l = record l { read_only = false; compromised = false; durable = false }

module _ (w : Crates) where
  pub entry-IsEvent :
      (now : ℕ) (event_type body : Bytes) (l : Ledger) (hash : Bytes)
      → now < 2 ^ 64
      → is_text event_type ≡ true
      → is_text body ≡ true
      → l.epoch < 2 ^ 32
      → l.seq + 1 < 2 ^ 64
      → IsEvent (entry w now event_type body l hash)
  entry-IsEvent now event_type body l hash hn ht hb he hs = record {
    v = version_fits (l.seals_seen == 0 && l.legacy_segment0);
    seq = hs;
    ts = hn;
    event_type = ht;
    body = hb;
    epoch = he;
    prev_hash = w.hex.encode-is_text l.last_hash;
    hash = w.hex.encode-is_text hash;
  }
    where
      version_fits : (b : Bool) → (if b then 2 else format_version) < 2 ^ 32
      version_fits true = omega arith
      version_fits false = omega arith

  read_entry :
      (keys : List Bytes) (i now : ℕ) (event_type body : Bytes) (l : Ledger) (e : Event)
      (hash : Bytes) (s : Scan)
      → IsEvent e
      → bytes_eq event_type seal_event ≡ false
      → IsNext w now event_type body l e hash
      → IsAt w s l
      → l.keys ≡ keys
      → scan_lines w keys i ((w.serde.print_event e ++ 10 ∷ []) ∷ []) s
        ≡ ok (record (note_segment0 e s) {
          last_hash = hash;
          seq = l.seq + 1;
          max_epoch = max s.max_epoch l.epoch;
        })
  unfolding scan_lines scan_event note_seal note_segment0
  read_entry keys i now event_type body l e hash s g plain n a k =
      let at : IsAt w (note_segment0 e s) l = record {
        last_hash = a.last_hash;
        seq = a.seq;
        seals_seen = a.seals_seen;
        legacy_segment0 =
            ap (λ t. (note_segment0 t s).legacy_segment0) (sym n.entered)
            ∙ note_segment0-next w now event_type body l hash s a
            ∙ a.legacy_segment0;
        digest = a.digest;
      } in
      let q : bytes_eq e.event_type seal_event ≡ false =
        ap (λ t. bytes_eq t.event_type seal_event) (sym n.entered) ∙ plain in
      rw
        (
          scan_line-entry w keys i e s g,
          q,
          check_entry-next w keys i now event_type body l e hash (note_segment0 e s) n at k,
        )
        (if-same s.compromised _)

  -- The state of the scan, and that of the handle, seed_keys, open_with_seeds, behind a written entry.
  pub entry_written :
      (now : ℕ) (event_type body : Bytes) (l : Ledger) (file : File) (e : Event) (hash : Bytes)
      → IsCoherent w l file
      → IsEvent e
      → bytes_eq event_type seal_event ≡ false
      → IsNext w now event_type body l e hash
      → (c' : IsCoherent w
          (moved l hash)
          (some (contents file ++ (w.serde.print_event e ++ 10 ∷ []))))
        × (c'.scan.max_epoch ≡ l.epoch)
  unfolding note_segment0 event_hash_v2
  entry_written now event_type body l file e hash c g plain n =
      let at : IsAt w c.scan l = record {
        last_hash = c.last_hash;
        seq = c.seq;
        seals_seen = c.seals_seen;
        legacy_segment0 = c.legacy_segment0;
        digest = c.digest;
      } in
      let (i, r) = scan_file-entry w l.keys file e c.scan g c.ended c.reads c.sound in
      (
        record {
          scan = record (note_segment0 e c.scan) {
            last_hash = hash;
            seq = l.seq + 1;
            max_epoch = max c.scan.max_epoch l.epoch;
          };
          reads = r ∙ read_entry l.keys i now event_type body l e hash c.scan g plain n at refl;
          sound = c.sound;
          last_hash = refl;
          seq = refl;
          epoch = omega (arith, c.epoch);
          seals_seen = c.seals_seen;
          sealed_through = c.sealed_through;
          legacy_segment0 =
              ap (λ t. (note_segment0 t c.scan).legacy_segment0) (sym n.entered)
              ∙ note_segment0-next w now event_type body l hash c.scan at
              ∙ c.legacy_segment0;
          revealed_epochs = c.revealed_epochs;
          digest = subst IsDigest n.hashed (w.hmac.mac-IsDigest n.key _);
          ended = IsEnded-line (contents file) (w.serde.print_event e);
        },
        let q : max c.scan.max_epoch l.epoch ≡ l.epoch = omega (arith, c.epoch) in q,
      )

  -- The handle that `open_with_seeds` makes of the file.
  pub IsCoherent-handle :
      (l : Ledger) (file : File) (c : IsCoherent w l file)
      → c.scan.max_epoch ≡ l.epoch
      → handle w l.keys c.scan ≡ cleared l
  IsCoherent-handle l file c e =
      rw
        (
          c.last_hash, c.seq, e, c.seals_seen, c.sealed_through, c.legacy_segment0,
          c.revealed_epochs, c.sound,
        )
        refl

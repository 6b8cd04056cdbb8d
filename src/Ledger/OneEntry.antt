-- ===== src/Ledger/OneEntry.antt =====
-- The ledger of the runs with one entry, and what its file reads as.
use sovereign_ledger.Base.{◌≡◌, refl, ap, sym, ◌∙◌, subst, some, [], ◌∷◌, arith, append-nil}
use sovereign_ledger.Crypto.{Bytes, IsDigest}
use sovereign_ledger.Crates.{Event, IsEvent}
use sovereign_ledger.Error.{Result, ok, err}
use sovereign_ledger.Event.{entry_key, event_hash_v2, decode_hash}
use sovereign_ledger.Ledger.{iter, seed_keys}
use sovereign_ledger.Ledger.Append.{append_written}
use sovereign_ledger.Ledger.Binding.{read_ok}
use sovereign_ledger.Ledger.Entry.{IsNext, next_entry-IsNext, decode_hash-encode}
use sovereign_ledger.Ledger.Extend.{entry-IsEvent}
use sovereign_ledger.Ledger.Read.{leaf_hashes, leaves}
use sovereign_ledger.Ledger.Tests.{fresh, a, a-is_text, after}
use sovereign_ledger.Ledger.Write.{next_entry}
use sovereign_ledger.Ledger.Written.{line_of, file_of, iter-file_of}
use sovereign_ledger.Base.{none}
use sovereign_ledger.Toy.World.{toy}

-- Its entry, and the digest of that.
abbrev entry_of : Result (Event × Bytes) → Event × Bytes
entry_of (ok p) = p
entry_of (err x) = (
  record {
    v = 0;
    seq = 0;
    ts = 0;
    event_type = [];
    body = [];
    epoch = 0;
    prev_hash = [];
    hash = [];
  },
  [],
)

abbrev pub written : Event × Bytes
written = entry_of (next_entry toy 5 a a fresh)

written_is : next_entry toy 5 a a fresh ≡ ok (written.0, written.1)
unfolding next_entry entry_key seed_keys
written_is = refl

abbrev pub tip : Bytes
tip = written.1

abbrev is_next : IsNext toy 5 a a fresh written.0 tip
is_next = next_entry-IsNext toy 5 a a fresh written.0 tip written_is

tip-IsDigest : IsDigest tip
unfolding event_hash_v2
tip-IsDigest = subst IsDigest is_next.hashed (toy.hmac.mac-IsDigest is_next.key _)

pub written-IsEvent : IsEvent written.0
written-IsEvent = subst IsEvent is_next.entered (
    entry-IsEvent toy 5 a a fresh tip (omega arith) a-is_text a-is_text (omega arith) (omega arith))

pub written_file : after.2 ≡ some (file_of toy (written.0 ∷ []))
unfolding file_of
written_file =
    ap (λ t. t.2) (append_written toy 5 a a fresh none written.0 tip written_is)
    ∙ ap some (sym (append-nil (line_of toy written.0)))

decodes : decode_hash toy written.0.hash ≡ some tip
decodes =
    ap (λ t. decode_hash toy t.hash) (sym is_next.entered) ∙ decode_hash-encode toy tip tip-IsDigest

pub stored_reads : leaf_hashes toy after.2 ≡ ok (tip ∷ [])
unfolding leaf_hashes leaves
stored_reads =
    ap (leaf_hashes toy) written_file
    ∙ rw (iter-file_of toy (written.0 ∷ []) (written-IsEvent, tt), decodes) refl

pub after_reads : iter toy after.2 ≡ ok (read_ok (written.0 ∷ []))
after_reads = ap (iter toy) written_file ∙ iter-file_of toy (written.0 ∷ []) (written-IsEvent, tt)

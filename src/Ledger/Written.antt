-- ===== src/Ledger/Written.antt =====
-- Entries that src/lib.rs has written are the entries that it reads.
use sovereign_ledger.Base.{ℕ, ◌+◌, ◌≡◌, refl, ◌∙◌, ap, some, List, [], ◌∷◌, ◌++◌, All}
use sovereign_ledger.Crypto.{Bytes}
use sovereign_ledger.Crates.{Crates, Event, IsEvent}
use sovereign_ledger.Error.{ok}
use sovereign_ledger.Ledger.{items, iter}
use sovereign_ledger.Ledger.Read.{collect, dump}
use sovereign_ledger.Ledger.Binding.{read_ok}
use sovereign_ledger.Text.{read_lines}
use sovereign_ledger.Text.Lines.{
  IsEnded-newline, read_lines-append, read_lines-line, trim_end-line, is_text-line, is_blank-line,
}

module _ (w : Crates) where
  abbrev pub line_of : Event → Bytes
  line_of e = w.serde.print_event e ++ 10 ∷ []

  -- What repeated `writeln!` leaves in a new file.
  unfoldable pub file_of : List Event → Bytes
  file_of [] = []
  file_of (e ∷ es) = line_of e ++ file_of es

  abbrev pub lines_of : List Event → List Bytes
  lines_of [] = []
  lines_of (e ∷ es) = line_of e ∷ lines_of es

  pub read_lines-file_of :
      (es : List Event) → All IsEvent es → read_lines (file_of es) ≡ lines_of es
  unfolding file_of read_lines
  read_lines-file_of [] h = refl
  read_lines-file_of (e ∷ es) (h, hs) =
      let l = w.serde.print_event-IsLine e h in
      read_lines-append (line_of e) (file_of es) (IsEnded-newline (w.serde.print_event e))
      ∙ rw (read_lines-line _ l, read_lines-file_of es hs) refl

  pub items-entry :
      (i : ℕ) (e : Event) (raws : List Bytes)
      → IsEvent e
      → items w i (line_of e ∷ raws) ≡ ok e ∷ items w (i + 1) raws
  unfolding items
  items-entry i e raws h =
      let l = w.serde.print_event-IsLine e h in
      rw (is_text-line _ l, is_blank-line _ l, trim_end-line _ l, w.serde.parse-print_event e h)
        refl

  items-lines_of : (i : ℕ) (es : List Event) → All IsEvent es → items w i (lines_of es) ≡ read_ok es
  unfolding items
  items-lines_of i [] h = refl
  items-lines_of i (e ∷ es) (h, hs) =
      items-entry i e (lines_of es) h ∙ ap (λ t. ok e ∷ t) (items-lines_of (i + 1) es hs)

  pub iter-file_of :
      (es : List Event) → All IsEvent es → iter w (some (file_of es)) ≡ ok (read_ok es)
  unfolding iter
  iter-file_of es h = rw (read_lines-file_of es h) (ap ok (items-lines_of 0 es h))

  collect-read_ok : (es : List Event) → collect (read_ok es) ≡ ok es
  unfolding collect
  collect-read_ok [] = refl
  collect-read_ok (e ∷ es) = rw (collect-read_ok es) refl

  -- A file of written entries, whose fields are in range, is dumped as those entries, in their order.
  pub dump-file_of : (es : List Event) → All IsEvent es → dump w (some (file_of es)) ≡ ok es
  unfolding dump
  dump-file_of es h = rw (iter-file_of es h) (collect-read_ok es)

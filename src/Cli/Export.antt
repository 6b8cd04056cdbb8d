-- ===== src/Cli/Export.antt =====
-- src/main.rs: `tail` and `export`, and the escapes of the CEF format. What is printed ahead of an
-- error is left out, and `tail --follow`, which does not end.
use sovereign_ledger.Base.{ℕ, ◌-◌, List, [], ◌∷◌, ◌++◌, ltb, ◌==◌, if◌then◌else◌}
use sovereign_ledger.Base.Bytes.{codes}
use sovereign_ledger.Crypto.{Bytes}
use sovereign_ledger.Crates.{Event}
use sovereign_ledger.Error.{Result, ok, err}
use sovereign_ledger.Files.{Io, pure, lift, ◌>>=◌}
use sovereign_ledger.Ledger.{iter}
use sovereign_ledger.Ledger.Read.{collect}
use sovereign_ledger.Text.{decimal}
use sovereign_ledger.Cli.{
  Cli, ExportFormat, export_jsonl, export_cef, Outside, Libraries, Output, events, exported,
  open_cli, peek,
}

-- `str::replace` of one ASCII character by a text.
unfoldable pub replace : ℕ → Bytes → Bytes → Bytes
replace from to [] = []
replace from to (b ∷ bs) =
    let rest = replace from to bs in if b == from then to ++ rest else b ∷ rest

unfoldable pub cef_name : Bytes → Bytes
cef_name event_type = replace 124 (codes "!") event_type

unfoldable pub cef_msg : Bytes → Bytes
cef_msg body = replace 61 (codes "\\=") (replace 92 (codes "\\\\") body)

abbrev pub cef_header : Bytes
cef_header = codes "CEF:0|SovereignLedger|sovereign_ledger|0.3.3|"

unfoldable pub cef_line : Event → Bytes
cef_line e =
    cef_header
    ++ (cef_name e.event_type
        ++ (codes "|"
            ++ (decimal e.seq
                ++ (codes "|5|rt="
                    ++ (decimal e.ts ++ (codes " msg=" ++ (cef_msg e.body ++ 10 ∷ [])))))))

unfoldable pub newer : ℕ → List Event → List Event
newer start [] = []
newer start (e ∷ es) = let rest = newer start es in if ltb start e.seq then e ∷ rest else rest

-- What the loop over the items sees, up to the first error.
abbrev all_events : Result (List (Result Event)) → Result (List Event)
all_events (err e) = err e
all_events (ok items) = collect items

module _ (b : Libraries) where
  unfoldable pub export_lines : ExportFormat → List Event → Bytes
  export_lines format [] = []
  export_lines format (e ∷ es) = line format ++ export_lines format es
    where
      line : ExportFormat → Bytes
      line export_jsonl = b.crates.serde.print_event e ++ 10 ∷ []
      line export_cef = cef_line e

  module _ (o : Outside) (cli : Cli) where
    unfoldable pub run_tail : ℕ → Io Output
    run_tail count = do
      ledger ← open_cli b o cli
      file ← peek cli.path
      all ← lift (all_events (iter b.crates file))
      pure (events (newer (ledger.seq - count) all))

    unfoldable pub run_export : ExportFormat → Io Output
    run_export format = do
      ledger ← open_cli b o cli
      file ← peek cli.path
      all ← lift (all_events (iter b.crates file))
      pure (exported (export_lines format all))

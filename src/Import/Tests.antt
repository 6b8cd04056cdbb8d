-- ===== src/Import/Tests.antt =====
-- A line of another format, and the theorems on imports at it.
use sovereign_ledger.Base.{arith, ◌≡◌, refl, true, false, inr, some, none, [], ◌∷◌, ◌++◌, length}
use sovereign_ledger.Base.Bytes.{codes}
use sovereign_ledger.Crypto.{Bytes}
use sovereign_ledger.Crates.{Crates}
use sovereign_ledger.Error.{Result, ok, err}
use sovereign_ledger.Event.{zero_hash, entry_key, key_new}
use sovereign_ledger.Event.Message.{zero_hash-IsDigest}
use sovereign_ledger.Import.{
  Values, all_hexdigit, skip_white, after_prefix, field_at, reverse_onto, before_comma, strip_here,
  strip_from, strip_hash_field, parse_value,
}
use sovereign_ledger.Import.Added.{Wanted, IsImported, full_lines, jsonl_wanted}
use sovereign_ledger.Import.Run.{
  ImportReport, import_jsonl, jsonl_lines, import_journald, journald_lines, import_badapple,
}
use sovereign_ledger.Import.Loops.{IsJournal}
use sovereign_ledger.Import.Sourced.{import_jsonl-IsImported, import_journald-IsImported}
use sovereign_ledger.Import.Strip.{IsStripped, strip_hash_field-IsStripped}
use sovereign_ledger.Ledger.{File, Ledger, start, handle, seed_keys}
use sovereign_ledger.Ledger.Write.{healthy, append, next_entry, write_line}
use sovereign_ledger.Text.{
  is_text, run, utf8_step, utf8_lead, is_blank, white_step, white_lead, read_lines, strip_newline,
}
use sovereign_ledger.Toy.World.{toy, hex_from}

-- Every text is an object without fields.
abbrev empty_values : Values
empty_values = record {
  Value = Unit;
  parse = λ bs. inr tt;
  get_str = λ k v. none;
  has = λ k v. false;
  get_text = λ k v. none;
  is_object = λ bs. true;
}

abbrev sixteen : Bytes
sixteen = codes "0123456789abcdef"

abbrev digits64 : Bytes
digits64 = sixteen ++ (sixteen ++ (sixteen ++ sixteen))

abbrev line : Bytes
line = codes "{\"a\":1, \"hash\" : \"" ++ (digits64 ++ codes "\"}")

stripped : strip_hash_field empty_values line ≡ some (codes "{\"a\":1}", digits64)
unfolding strip_hash_field strip_from strip_here before_comma reverse_onto field_at after_prefix
    skip_white all_hexdigit
stripped = refl

strip_hash_field-IsStripped_example : IsStripped line (codes "{\"a\":1}") digits64
strip_hash_field-IsStripped_example =
    strip_hash_field-IsStripped empty_values line (codes "{\"a\":1}") digits64 stripped

-- Every digest is zero, and written with the digit 0; every value has the fields of the second schema.
abbrev flat : Crates
flat = record toy {
  hex = hex_from 48 (omega arith) (omega arith);
  sha = record { digest = λ m. zero_hash; digest-IsDigest = λ m. zero_hash-IsDigest };
}

abbrev any_values : Values
any_values = record empty_values { has = λ k v. true }

abbrev zeros16 : Bytes
zeros16 = codes "0000000000000000"

abbrev source_line : Bytes
source_line =
    codes "{\"a\":1,\"hash\":\"" ++ (zeros16 ++ (zeros16 ++ (zeros16 ++ (zeros16 ++ codes "\"}"))))

abbrev source : Bytes
source = source_line ++ 10 ∷ []

abbrev fresh : Ledger
fresh = handle flat (seed_keys flat [] (codes "seed" ∷ [])) start

abbrev Ran : Type 0
Ran = Result ImportReport × Ledger × File

abbrev report_of : Result ImportReport → ImportReport
report_of (ok report) = report
report_of (err e) = record { entries = 0; source_tip = []; source_merkle_root = none }

abbrev jsonl_run : Ran
jsonl_run = import_jsonl flat (λ n. 5) (λ n. healthy) source fresh none

abbrev journald_run : Ran
journald_run = import_journald flat (λ n. 5) (λ n. healthy) any_values source fresh none

abbrev badapple_run : Ran
badapple_run = import_badapple flat (λ n. 5) (λ n. healthy) any_values [] source fresh none

jsonl_returns : jsonl_run ≡ (ok (report_of jsonl_run.0), jsonl_run.1, jsonl_run.2)
unfolding import_jsonl jsonl_lines read_lines is_text run utf8_step utf8_lead strip_newline is_blank
    white_step white_lead append next_entry write_line entry_key seed_keys key_new
jsonl_returns = refl

journald_returns : journald_run ≡ (ok (report_of journald_run.0), journald_run.1, journald_run.2)
unfolding import_journald journald_lines read_lines is_text run utf8_step utf8_lead strip_newline
    is_blank white_step white_lead append next_entry write_line entry_key seed_keys key_new
    parse_value
journald_returns = refl

import_jsonl-IsImported_example :
    IsImported flat 0 none jsonl_run.2 (jsonl_wanted (full_lines (read_lines source)))
    × ((report_of jsonl_run.0).entries ≡ length (full_lines (read_lines source)))
    × ((report_of jsonl_run.0).source_tip ≡ flat.hex.encode jsonl_run.1.last_hash)
import_jsonl-IsImported_example =
    import_jsonl-IsImported flat any_values (λ n. 5) source fresh jsonl_run.1 none jsonl_run.2
      (report_of jsonl_run.0) jsonl_returns

import_journald-IsImported_example :
    (wanted : Wanted) × IsJournal flat any_values (full_lines (read_lines source)) wanted
    × IsImported flat 0 none journald_run.2 wanted
    × ((report_of journald_run.0).entries ≡ length wanted)
    × ((report_of journald_run.0).source_tip ≡ flat.hex.encode journald_run.1.last_hash)
import_journald-IsImported_example =
    import_journald-IsImported flat any_values (λ n. 5) source fresh journald_run.1 none
      journald_run.2 (report_of journald_run.0) journald_returns

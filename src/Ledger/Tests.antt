-- ===== src/Ledger/Tests.antt =====
-- A ledger with one key and a few entries, over the stand-ins: runs, and the theorems at it.
use sovereign_ledger.Base.{ℕ, ◌≡◌, ◌↔◌, ◌+◌, refl, true, false, none, List, [], ◌∷◌, arith}
use sovereign_ledger.Base.Bytes.{codes, bytes_eq}
use sovereign_ledger.Crypto.{Bytes}
use sovereign_ledger.Error.{Result, ok}
use sovereign_ledger.Event.{seal_event, entry_key}
use sovereign_ledger.Event.Message.{zero_hash-IsDigest}
use sovereign_ledger.Ledger.{File, Ledger, start, handle, seed_keys, scan_file, open_with_seeds}
use sovereign_ledger.Ledger.Write.{healthy, write_line, next_entry, append}
use sovereign_ledger.Ledger.Coherent.{IsCoherent}
use sovereign_ledger.Ledger.Append.{takes, append-IsCoherent, open_with_seeds-append}
use sovereign_ledger.Text.{is_text, run, utf8_step, utf8_lead}
use sovereign_ledger.Ledger.Write.{mark_compromised}
use sovereign_ledger.Ledger.After.{IsAfter}
use sovereign_ledger.Ledger.Steps.{
  Steps, done, then_step, marks_compromised, appends, Steps-IsAfter,
}
use sovereign_ledger.Ledger.{items}
use sovereign_ledger.Ledger.Ready.{IsReady, append-IsReady}
use sovereign_ledger.Ledger.Read.{chain_start, verify_items, verify}
use sovereign_ledger.Ledger.Sound.{IsVerified, append-verify}
use sovereign_ledger.Text.{read_lines}
use sovereign_ledger.Toy.World.{toy}

abbrev pub seeds : List Bytes
seeds = codes "seed" ∷ []

abbrev pub fresh : Ledger
fresh = handle toy (seed_keys toy [] seeds) start

fresh_opens : open_with_seeds toy [] seeds none ≡ ok fresh
unfolding open_with_seeds scan_file
fresh_opens = refl

pub fresh-IsCoherent : IsCoherent toy fresh none
unfolding scan_file
fresh-IsCoherent = record {
  scan = start;
  reads = refl;
  sound = refl;
  last_hash = refl;
  seq = refl;
  epoch = omega arith;
  seals_seen = refl;
  sealed_through = refl;
  legacy_segment0 = refl;
  revealed_epochs = refl;
  digest = zero_hash-IsDigest;
  ended = tt;
}

abbrev pub a : Bytes
a = codes "a"

pub a-is_text : is_text a ≡ true
unfolding is_text run utf8_step utf8_lead
a-is_text = refl

pub a_plain : bytes_eq a seal_event ≡ false
unfolding bytes_eq
a_plain = refl

append-IsCoherent_example :
    IsCoherent toy (append toy 5 healthy a a fresh none).1 (append toy 5 healthy a a fresh none).2
append-IsCoherent_example =
    append-IsCoherent toy 5 a a fresh none (omega arith) a-is_text a-is_text (omega arith) a_plain
      fresh-IsCoherent healthy takes

abbrev pub after : Result ℕ × Ledger × File
after = append toy 5 healthy a a fresh none

after_returns : after.0 ≡ ok 1
unfolding append next_entry write_line entry_key seed_keys
after_returns = refl

pub after_is : append toy 5 healthy a a fresh none ≡ (ok 1, after.1, after.2)
unfolding append next_entry write_line entry_key seed_keys
after_is = refl

open_with_seeds-append_example :
    open_with_seeds toy [] seeds after.2
    ≡ ok (record after.1 { read_only = false; compromised = false; durable = false })
open_with_seeds-append_example =
    open_with_seeds-append toy 5 a a fresh none (omega arith) a-is_text a-is_text (omega arith)
      a_plain fresh-IsCoherent [] (codes "seed") [] 1 after.1 after.2 refl after_is

frozen_run :
    Steps toy fresh none
      (append toy 5 healthy a a (mark_compromised fresh) none).1
      (append toy 5 healthy a a (mark_compromised fresh) none).2
frozen_run =
    then_step (then_step (done fresh none) (marks_compromised fresh none))
      (appends 5 healthy a a (mark_compromised fresh) none)

Steps-IsAfter_example :
    IsAfter toy fresh none
      (append toy 5 healthy a a (mark_compromised fresh) none).1
      (append toy 5 healthy a a (mark_compromised fresh) none).2
Steps-IsAfter_example = Steps-IsAfter toy frozen_run

fresh-IsVerified : IsVerified toy fresh none
unfolding items read_lines verify_items
fresh-IsVerified = record {
  chain = chain_start;
  passes = refl;
  tip = record { last_hash = refl; seals_seen = refl; digest = zero_hash-IsDigest };
  count = refl;
  ended = tt;
}

append-verify_example : IsVerified toy after.1 after.2 × (verify toy after.1 after.2 ≡ ok tt)
append-verify_example =
    append-verify toy 5 a a fresh none (omega arith) a-is_text a-is_text (omega arith) a_plain
      fresh-IsVerified healthy takes

append-IsReady_example : (after.0 ≡ ok 1) ↔ (IsReady toy fresh × (1 ≡ fresh.seq + 1))
append-IsReady_example = append-IsReady toy 5 a a fresh none 1

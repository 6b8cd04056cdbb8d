-- ===== src/Event/Tests.antt =====
-- The message of an entry, and the theorem on it, at a concrete entry.
use sovereign_ledger.Base.{◌≡◌, refl, [], ◌++◌, arith}
use sovereign_ledger.Base.Bytes.{codes, le_bytes, length-le_bytes}
use sovereign_ledger.Crypto.{hash_size}
use sovereign_ledger.Event.{message, zero_hash}
use sovereign_ledger.Event.Message.{Fields, InBounds, message-injective}

abbrev some_fields : Fields
some_fields = record {
  prev_hash = zero_hash;
  seq = 1;
  ts = 2;
  event_type = codes "a";
  body = codes "bc";
}

some_fields-InBounds : InBounds some_fields
some_fields-InBounds = record {
  prev_hash = length-le_bytes hash_size 0;
  seq = omega arith;
  ts = omega arith;
  event_type = omega arith;
  body = omega arith;
}

-- The length of a text stands in front of it.
laid_out :
    message [] 1 2 (codes "a") (codes "bc")
    ≡ codes "SL2"
      ++ le_bytes 8 1
      ++ le_bytes 8 2
      ++ le_bytes 4 1
      ++ codes "a"
      ++ le_bytes 8 2
      ++ codes "bc"
unfolding message le_bytes
laid_out = refl

message-injective_example : some_fields ≡ some_fields
message-injective_example =
    message-injective some_fields some_fields some_fields-InBounds some_fields-InBounds refl

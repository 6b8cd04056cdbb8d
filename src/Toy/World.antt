-- ===== src/Toy/World.antt =====
-- The stand-ins together.
use sovereign_ledger.Base.{
  ℕ, ◌<◌, ◌≡◌, refl, subst, Bool, true, false, ◌&&◌, Bool-cases, inl, inr, Option, none, some,
  some-injective, [], ◌∷◌, ◌++◌, ◌+◌, ◌-◌, ◌*◌, ◌/◌, ◌%◌, ltb, ltb→lt, lt→ltb, if◌then◌else◌, arith,
}
use sovereign_ledger.Crypto.{Bytes, IsBytes}
use sovereign_ledger.Base.Bytes.{le_bytes, length-le_bytes, le_bytes-IsBytes}
use sovereign_ledger.Crates.{Hmac, Hex, Serde, Crates}
use sovereign_ledger.Toy.{mix, toy_sha}
use sovereign_ledger.Toy.Unary.{IsPlain, is_text-plain}
use sovereign_ledger.Toy.Serde.{
  event_text, parse_event, parse-event_text, event_text-IsLine, print_seal, parse_seal,
  parse-print_seal, print_seal-is_text,
}

abbrev pub toy_hmac : Hmac
toy_hmac = record {
  mac = λ key m. le_bytes 32 (mix (key ++ m) % 97);
  mac-IsDigest = λ key m. record {
    size = length-le_bytes 32 (mix (key ++ m) % 97);
    bytes = le_bytes-IsBytes 32 (mix (key ++ m) % 97);
  };
}

abbrev pub all_small : Bytes → Bool
all_small [] = true
all_small (b ∷ bs) = ltb b 256 && all_small bs

pub all_small-IsBytes : (bs : Bytes) → all_small bs ≡ true → IsBytes bs
all_small-IsBytes [] h = tt
all_small-IsBytes (b ∷ bs) h = elim (Bool-cases (ltb b 256)) [
  | inl e ↦ (ltb→lt b 256 e, all_small-IsBytes bs (rw e at h))
  | inr e ↦ absurd (apart (rw e at h))
]
  where
    apart : false ≡ true → ⊥
    apart h = ground arith

pub IsBytes-all_small : (bs : Bytes) → IsBytes bs → all_small bs ≡ true
IsBytes-all_small [] h = refl
IsBytes-all_small (b ∷ bs) (h, hs) = rw (lt→ltb b 256 h, IsBytes-all_small bs hs) refl

abbrev pub checked_bytes : Bytes → Option Bytes
checked_bytes bs = if all_small bs then some bs else none

pub checked_bytes-IsBytes : (xs bs : Bytes) → checked_bytes xs ≡ some bs → IsBytes bs
checked_bytes-IsBytes xs bs h = elim (Bool-cases (all_small xs)) [
  | inl e ↦ subst IsBytes (some-injective xs bs (rw e at h)) (all_small-IsBytes xs e)
  | inr e ↦ absurd (apart bs (rw e at h))
]
  where
    apart : (bs : Bytes) → none ≡ some bs → ⊥
    apart bs h = ground arith

-- Two characters to a byte, from a first one on.
abbrev pub put_from : ℕ → Bytes → Bytes
put_from base [] = []
put_from base (b ∷ bs) = (base + b / 16 % 16) ∷ (base + b % 16) ∷ put_from base bs

abbrev pub get_from : ℕ → Bytes → Bytes
get_from base [] = []
get_from base (x ∷ []) = []
get_from base (x ∷ y ∷ s) = ((x - base) * 16 + (y - base)) ∷ get_from base s

pub get-put_from : (base : ℕ) (bs : Bytes) → IsBytes bs → get_from base (put_from base bs) ≡ bs
get-put_from base [] h = refl
get-put_from base (b ∷ bs) (h, hs) =
    let q : (base + b / 16 % 16 - base) * 16 + (base + b % 16 - base) ≡ b = omega (arith, h) in
    rw (q, get-put_from base bs hs) refl

pub put_from-IsPlain : (base : ℕ) (bs : Bytes) → 10 < base → base < 100 → IsPlain (put_from base bs)
put_from-IsPlain base [] low high = tt
put_from-IsPlain base (b ∷ bs) low high = (
  ((λ q. omega arith), omega arith),
  (((λ q. omega arith), omega arith), put_from-IsPlain base bs low high),
)

abbrev pub hex_from : (base : ℕ) → 10 < base → base < 100 → Hex
hex_from base low high = record {
  encode = put_from base;
  decode = λ s. checked_bytes (get_from base s);
  decode-encode = λ bs h. rw (get-put_from base bs h, IsBytes-all_small bs h) refl;
  decode-IsBytes = λ s bs h. checked_bytes-IsBytes (get_from base s) bs h;
  encode-is_text = λ bs. is_text-plain (put_from base bs) (put_from-IsPlain base bs low high);
}

abbrev pub put_hex : Bytes → Bytes
put_hex = put_from 16

abbrev pub toy_hex : Hex
toy_hex = hex_from 16 (omega arith) (omega arith)

abbrev pub toy_serde : Serde
toy_serde = record {
  print_event = λ e. event_text e (125 ∷ []);
  parse_event = parse_event;
  parse-print_event = λ e h. parse-event_text e (125 ∷ []);
  print_event-IsLine = λ e h. event_text-IsLine e;
  print_seal = print_seal;
  parse_seal = parse_seal;
  parse-print_seal = λ r h. parse-print_seal r;
  print_seal-is_text = λ r h. print_seal-is_text r;
}

abbrev pub toy : Crates
toy = record { sha = toy_sha; hmac = toy_hmac; hex = toy_hex; serde = toy_serde }

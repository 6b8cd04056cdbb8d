-- ===== src/Toy/Serde.antt =====
-- A stand-in for serde_json: every field in unary, one behind the other, and a brace.
use Prim.Native.String.{String}
use sovereign_ledger.Base.{
  ℕ, zero, suc, ◌≡◌, refl, sym, ◌∙◌, ap, ◌⊎◌, inr, true, List, [], ◌∷◌, ◌++◌, arith, length,
}
use sovereign_ledger.Crypto.{Bytes}
use sovereign_ledger.Crates.{Event, SealRecord}
use sovereign_ledger.Text.{is_text}
use sovereign_ledger.Text.Lines.{IsLine}
use sovereign_ledger.Toy.Unary.{
  number, text, read_number, read_text, read_number-zero, read_text-text, IsPlain, number-IsPlain,
  text-IsPlain, is_text-plain, one_line-plain, number-append, text-append,
}

unfoldable pub event_text : Event → Bytes → Bytes
event_text e rest = number e.v (
    number e.seq (
      number e.ts
        (text e.event_type (text e.body (number e.epoch (text e.prev_hash (text e.hash rest)))))))

unfoldable pub parse_event : Bytes → String ⊎ Event
parse_event bs =
    let (v, bs) = read_number 0 bs in
    let (seq, bs) = read_number 0 bs in
    let (ts, bs) = read_number 0 bs in
    let (event_type, bs) = read_text 0 bs in
    let (body, bs) = read_text 0 bs in
    let (epoch, bs) = read_number 0 bs in
    let (prev_hash, bs) = read_text 0 bs in
    let (hash, bs) = read_text 0 bs in
    inr (record {
      v = v;
      seq = seq;
      ts = ts;
      event_type = event_type;
      body = body;
      epoch = epoch;
      prev_hash = prev_hash;
      hash = hash;
    })

pub parse-event_text : (e : Event) (rest : Bytes) → parse_event (event_text e rest) ≡ inr e
unfolding parse_event event_text
parse-event_text e rest =
    rw
      (
        read_number-zero e.v _,
        read_number-zero e.seq _,
        read_number-zero e.ts _,
        read_text-text e.event_type _,
        read_text-text e.body _,
        read_number-zero e.epoch _,
        read_text-text e.prev_hash _,
        read_text-text e.hash _,
      )
      refl

event_text-IsPlain : (e : Event) (rest : Bytes) → IsPlain rest → IsPlain (event_text e rest)
unfolding event_text
event_text-IsPlain e rest h = number-IsPlain e.v _ (
    number-IsPlain e.seq _ (
      number-IsPlain e.ts _ (
        text-IsPlain e.event_type _ (
          text-IsPlain e.body _
            (number-IsPlain e.epoch _ (text-IsPlain e.prev_hash _ (text-IsPlain e.hash _ h)))))))

event_text-append : (e : Event) (ys : Bytes) → event_text e ys ≡ event_text e [] ++ ys
unfolding event_text
event_text-append e ys = sym (
    sym (number-append e.v _ ys)
    ∙ ap (number e.v) (
        sym (number-append e.seq _ ys)
        ∙ ap (number e.seq) (
            sym (number-append e.ts _ ys)
            ∙ ap (number e.ts) (
                sym (text-append e.event_type _ ys)
                ∙ ap (text e.event_type) (
                    sym (text-append e.body _ ys)
                    ∙ ap (text e.body) (
                        sym (number-append e.epoch _ ys)
                        ∙ ap (number e.epoch) (
                            sym (text-append e.prev_hash _ ys)
                            ∙ ap (text e.prev_hash) (sym (text-append e.hash [] ys)))))))))

pub event_text-IsLine : (e : Event) → IsLine (event_text e (125 ∷ []))
event_text-IsLine e =
    let plain = event_text-IsPlain e (125 ∷ []) ((omega arith, omega arith), tt) in
    record {
      body = event_text e [];
      ends = event_text-append e (125 ∷ []);
      one_line = one_line-plain _ plain;
      text = is_text-plain _ plain;
    }

unfoldable pub pairs_text : List (ℕ × Bytes) → Bytes → Bytes
pairs_text [] rest = rest
pairs_text ((e, k) ∷ ps) rest = number e (text k (pairs_text ps rest))

abbrev cons_pair : ℕ → Bytes → List (ℕ × Bytes) × Bytes → List (ℕ × Bytes) × Bytes
cons_pair e k (ps, rest) = ((e, k) ∷ ps, rest)

unfoldable pub read_pairs : ℕ → Bytes → List (ℕ × Bytes) × Bytes
read_pairs zero bs = ([], bs)
read_pairs (suc n) bs =
    let (e, bs) = read_number 0 bs in
    let (k, bs) = read_text 0 bs in cons_pair e k (read_pairs n bs)

read_pairs-text :
    (ps : List (ℕ × Bytes)) (rest : Bytes)
    → read_pairs (length ps) (pairs_text ps rest) ≡ (ps, rest)
unfolding pairs_text read_pairs
read_pairs-text [] rest = refl
read_pairs-text ((e, k) ∷ ps) rest =
    rw (read_number-zero e _, read_text-text k _, read_pairs-text ps rest) refl

pairs_text-IsPlain :
    (ps : List (ℕ × Bytes)) (rest : Bytes) → IsPlain rest → IsPlain (pairs_text ps rest)
unfolding pairs_text
pairs_text-IsPlain [] rest h = h
pairs_text-IsPlain ((e, k) ∷ ps) rest h =
    number-IsPlain e _ (text-IsPlain k _ (pairs_text-IsPlain ps rest h))

unfoldable pub print_seal : SealRecord → Bytes
print_seal r = number r.segment (
    number r.start_seq (
      number r.end_seq (
        text r.tip_hash (
          text r.merkle_root (
            number (length r.revealed) (
              pairs_text r.revealed (
                text r.prev_seal (
                  text r.scheme
                    (text r.public_key (text r.signature (text r.payload (125 ∷ []))))))))))))

unfoldable pub parse_seal : Bytes → String ⊎ SealRecord
parse_seal bs =
    let (segment, bs) = read_number 0 bs in
    let (start_seq, bs) = read_number 0 bs in
    let (end_seq, bs) = read_number 0 bs in
    let (tip_hash, bs) = read_text 0 bs in
    let (merkle_root, bs) = read_text 0 bs in
    let (count, bs) = read_number 0 bs in
    let (revealed, bs) = read_pairs count bs in
    let (prev_seal, bs) = read_text 0 bs in
    let (scheme, bs) = read_text 0 bs in
    let (public_key, bs) = read_text 0 bs in
    let (signature, bs) = read_text 0 bs in
    let (payload, bs) = read_text 0 bs in
    inr (record {
      segment = segment;
      start_seq = start_seq;
      end_seq = end_seq;
      tip_hash = tip_hash;
      merkle_root = merkle_root;
      revealed = revealed;
      prev_seal = prev_seal;
      scheme = scheme;
      public_key = public_key;
      signature = signature;
      payload = payload;
    })

pub parse-print_seal : (r : SealRecord) → parse_seal (print_seal r) ≡ inr r
unfolding parse_seal print_seal
parse-print_seal r =
    rw
      (
        read_number-zero r.segment _,
        read_number-zero r.start_seq _,
        read_number-zero r.end_seq _,
        read_text-text r.tip_hash _,
        read_text-text r.merkle_root _,
        read_number-zero (length r.revealed) _,
        read_pairs-text r.revealed _,
        read_text-text r.prev_seal _,
        read_text-text r.scheme _,
        read_text-text r.public_key _,
        read_text-text r.signature _,
        read_text-text r.payload _,
      )
      refl

pub print_seal-is_text : (r : SealRecord) → is_text (print_seal r) ≡ true
unfolding print_seal
print_seal-is_text r = is_text-plain _ (
    number-IsPlain r.segment _ (
      number-IsPlain r.start_seq _ (
        number-IsPlain r.end_seq _ (
          text-IsPlain r.tip_hash _ (
            text-IsPlain r.merkle_root _ (
              number-IsPlain (length r.revealed) _ (
                pairs_text-IsPlain r.revealed _ (
                  text-IsPlain r.prev_seal _ (
                    text-IsPlain r.scheme _ (
                      text-IsPlain r.public_key _ (
                        text-IsPlain r.signature _
                          (text-IsPlain r.payload _ ((omega arith, omega arith), tt)))))))))))))

-- ===== src/Import/Strip.antt =====
-- `strip_hash_field` of src/import.rs takes one field out and keeps every other byte.
use sovereign_ledger.Base.{
  suc, ◌≡◌, refl, sym, ◌∙◌, ap, Bool, true, false, Bool-cases, inl, inr, Option, none, some,
  some-injective, ◌&&◌, length-take, length-drop, subst, Option-cases, [], ◌∷◌, ◌++◌, append_assoc,
  arith, ◌==◌, if◌then◌else◌, length, take, drop, take-append-drop,
}
use sovereign_ledger.Base.Bytes.{codes}
use sovereign_ledger.Crypto.{Bytes}
use sovereign_ledger.Import.{
  Values, is_ascii_whitespace, all_hexdigit, skip_white, after_prefix, ◌>>?◌, field_at,
  reverse_onto, before_comma, strip_here, strip_from, strip_hash_field,
}

after_prefix-append : (p bs rest : Bytes) → after_prefix p bs ≡ some rest → bs ≡ p ++ rest
unfolding after_prefix
after_prefix-append [] bs rest h = some-injective bs rest h
after_prefix-append (p ∷ ps) [] rest h = ground arith
after_prefix-append (p ∷ ps) (b ∷ bs) rest h = elim (Bool-cases (p == b)) [
  | inl e ↦
      let q : p ≡ b = ground arith in
      let r = after_prefix-append ps bs rest (rw e at h) in cc (q, r)
  | inr e ↦ absurd (ground arith)
]

abbrev pub white : Bytes → Bool
white [] = true
white (b ∷ bs) = is_ascii_whitespace b && white bs

skip_white-append : (bs : Bytes) → (gap : Bytes) × (white gap ≡ true) × (bs ≡ gap ++ skip_white bs)
unfolding skip_white
skip_white-append [] = ([], refl, refl)
skip_white-append (b ∷ bs) = elim (Bool-cases (is_ascii_whitespace b)) [
  | inl e ↦ let (gap, q, r) = skip_white-append bs in (b ∷ gap, rw e q, rw e (ap (λ t. b ∷ t) r))
  | inr e ↦ ([], refl, rw e refl)
]

chosen :
    {A B : Type 0} (o : Option A) (f : A → Option B) (b : B)
    → (o >>? f) ≡ some b
    → (a : A) × (o ≡ some a) × (f a ≡ some b)
chosen none f b h = ground arith
chosen (some a) f b h = (a, refl, h)

if_some :
    {A : Type 0} (t : Bool) (a b : A) → (if t then some a else none) ≡ some b → (t ≡ true) × (a ≡ b)
if_some true a b h = (refl, some-injective a b h)
if_some false a b h = ground arith

-- The field, as it stands in the line: 64 hexadecimal digits behind the name.
pub record IsField (bs hash post : Bytes) : Type 0 where
  pub gap : Bytes
  pub other_gap : Bytes
  pub spelled :
      bs
      ≡ codes "\"hash\""
        ++ (gap ++ (codes ":" ++ (other_gap ++ (codes "\"" ++ (hash ++ (codes "\"" ++ post))))))
  pub gap_white : white gap ≡ true
  pub other_gap_white : white other_gap ≡ true
  pub size : length hash ≡ 64
  pub hex : all_hexdigit hash ≡ true

value_parts :
    (value post : Bytes)
    → after_prefix (codes "\"") (drop 64 value) ≡ some post
    → (value ≡ take 64 value ++ (codes "\"" ++ post)) × (length (take 64 value) ≡ 64)
value_parts value post h =
    let q = after_prefix-append (codes "\"") (drop 64 value) post h in
    let l : length (drop 64 value) ≡ suc (length post) = ap length q in
    (
      sym (take-append-drop 64 value) ∙ ap (λ t. take 64 value ++ t) q,
      omega (arith, l, length-drop 64 value, length-take 64 value),
    )

field_at-IsField : (bs hash post : Bytes) → field_at bs ≡ some (hash, post) → IsField bs hash post
unfolding field_at
field_at-IsField bs hash post h =
    let (r1, e1, h) = chosen (after_prefix (codes "\"hash\"") bs) _ (hash, post) h in
    let (r2, e2, h) = chosen (after_prefix (codes ":") (skip_white r1)) _ (hash, post) h in
    let (value, e3, h) = chosen (after_prefix (codes "\"") (skip_white r2)) _ (hash, post) h in
    let (end, e4, h) = chosen (after_prefix (codes "\"") (drop 64 value)) _ (hash, post) h in
    let (hex, same) = if_some (all_hexdigit (take 64 value)) (take 64 value, end) (hash, post) h in
    let (gap, w1, q1) = skip_white-append r1 in
    let (other_gap, w2, q2) = skip_white-append r2 in
    let (split, size) = value_parts value end e4 in
    subst (λ (t : Bytes × Bytes). IsField bs t.0 t.1) same
      (record {
        gap = gap;
        other_gap = other_gap;
        spelled =
            after_prefix-append (codes "\"hash\"") bs r1 e1
            ∙ ap (λ t. codes "\"hash\"" ++ t)
                (q1
                  ∙ ap (λ t. gap ++ t)
                      (after_prefix-append (codes ":") (skip_white r1) r2 e2
                        ∙ ap (λ t. codes ":" ++ t)
                            (q2
                              ∙ ap (λ t. other_gap ++ t)
                                  (after_prefix-append (codes "\"") (skip_white r2) value e3
                                    ∙ ap (λ t. codes "\"" ++ t) split))));
        gap_white = w1;
        other_gap_white = w2;
        size = size;
        hex = hex;
      })

reverse_onto-append :
    (xs ys out : Bytes) → reverse_onto (xs ++ ys) out ≡ reverse_onto ys (reverse_onto xs out)
unfolding reverse_onto
reverse_onto-append [] ys out = refl
reverse_onto-append (x ∷ xs) ys out = reverse_onto-append xs ys (x ∷ out)

reverse_onto-nil : (xs out : Bytes) → reverse_onto xs out ≡ reverse_onto xs [] ++ out
unfolding reverse_onto
reverse_onto-nil [] out = refl
reverse_onto-nil (x ∷ xs) out =
    reverse_onto-nil xs (x ∷ out)
    ∙ sym (append_assoc (reverse_onto xs []) (x ∷ []) out)
    ∙ ap (λ t. t ++ out) (sym (reverse_onto-nil xs (x ∷ [])))

white-reverse_onto :
    (xs out : Bytes) → white xs ≡ true → white out ≡ true → white (reverse_onto xs out) ≡ true
unfolding reverse_onto
white-reverse_onto [] out h k = k
white-reverse_onto (x ∷ xs) out h k = white-reverse_onto xs (x ∷ out) (ground arith) (ground arith)

-- What the line is, and what is left of it: the comma, the field and the white space around the field
-- are gone, and every other byte stays.
pub record IsStripped (line body hash : Bytes) : Type 0 where
  pub pre : Bytes
  pub gap : Bytes
  pub field : Bytes
  pub post : Bytes
  pub gap_white : white gap ≡ true
  pub is_field : IsField field hash post
  pub line_parts : line ≡ pre ++ (codes "," ++ (gap ++ field))
  pub body_parts : body ≡ pre ++ post

module _ (j : Values) where
  strip_here-IsStripped :
      (prefix rest body hash : Bytes)
      → strip_here j prefix rest ≡ some (body, hash)
      → IsStripped (reverse_onto prefix rest) body hash
  unfolding strip_here before_comma reverse_onto
  strip_here-IsStripped prefix rest body hash h =
      let (found, e1, h) = chosen (field_at rest) _ (body, hash) h in
      let (kept, e2, h) = chosen (after_prefix (codes ",") (skip_white prefix)) _ (body, hash) h in
      let (object, same) =
        if_some (j.is_object (reverse_onto kept found.1)) (reverse_onto kept found.1, found.0)
          (body, hash) h in
      let (gap, w, q) = skip_white-append prefix in
      let comma = after_prefix-append (codes ",") (skip_white prefix) kept e2 in
      subst (λ (t : Bytes × Bytes). IsStripped (reverse_onto prefix rest) t.0 t.1) same
        (record {
          pre = reverse_onto kept [];
          gap = reverse_onto gap [];
          field = rest;
          post = found.1;
          gap_white = white-reverse_onto gap [] w refl;
          is_field = field_at-IsField rest found.0 found.1 e1;
          line_parts =
              ap (λ t. reverse_onto t rest) (q ∙ ap (λ t. gap ++ t) comma)
              ∙ reverse_onto-append gap (codes "," ++ kept) rest
              ∙ ap (λ t. reverse_onto (codes "," ++ kept) t) (reverse_onto-nil gap rest)
              ∙ comma_first kept (reverse_onto gap [] ++ rest);
          body_parts = reverse_onto-nil kept found.1;
        })
    where
      comma_first :
          (kept out : Bytes)
          → reverse_onto (codes "," ++ kept) out ≡ reverse_onto kept [] ++ (codes "," ++ out)
      comma_first kept out = reverse_onto-nil kept (44 ∷ out)

  strip_from-IsStripped :
      (prefix rest body hash : Bytes)
      → strip_from j prefix rest ≡ some (body, hash)
      → IsStripped (reverse_onto prefix rest) body hash
  unfolding strip_from reverse_onto
  strip_from-IsStripped prefix [] body hash h = ground arith
  strip_from-IsStripped prefix (b ∷ bs) body hash h =
      elim (Option-cases (strip_here j prefix (b ∷ bs))) [
        | inl n ↦ strip_from-IsStripped (b ∷ prefix) bs body hash (rw n at h)
        | inr (x, e) ↦
            strip_here-IsStripped prefix (b ∷ bs) body hash
              (e ∙ ap some (some-injective x (body, hash) (rw e at h)))
      ]

  -- What `strip_hash_field` returns: the line without one field of the form `,"hash":"…"` with 64
  -- hexadecimal digits, every other byte kept, and those digits.
  pub strip_hash_field-IsStripped :
      (line body hash : Bytes)
      → strip_hash_field j line ≡ some (body, hash)
      → IsStripped line body hash
  unfolding strip_hash_field reverse_onto
  strip_hash_field-IsStripped line body hash h = strip_from-IsStripped [] line body hash h

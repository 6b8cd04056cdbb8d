-- ===== src/Cli/Cef/Back.antt =====
-- What `export` of src/main.rs writes as CEF is read back.
use sovereign_ledger.Base.{
  ℕ, ◌+◌, ◌<◌, ◌≢◌, ◌≡◌, refl, some, List, [], ◌∷◌, ◌++◌, All, All-append, append_assoc, arith,
}
use sovereign_ledger.Base.Bytes.{codes}
use sovereign_ledger.Crypto.{Bytes}
use sovereign_ledger.Crates.{Event}
use sovereign_ledger.Text.{decimal}
use sovereign_ledger.Cli.{Libraries, export_cef}
use sovereign_ledger.Cli.Export.{cef_header, cef_name, cef_msg, cef_line, export_lines}
use sovereign_ledger.Cli.Cef.{read_record, read_records, read_export, lines, recorded, all_recorded}
use sovereign_ledger.Cli.Cef.Parts.{
  Lacks, replace-Lacks, kept, replaced, decimal-Lacks, literal-Lacks, until-append, behind-append,
  lines-append, read_msg-cef_msg, cef_msg-Lacks,
}

-- An entry whose type and body hold no newline.
abbrev pub OneLine : Event → Type 0
OneLine e = Lacks 10 e.event_type × Lacks 10 e.body

-- The line of an entry, up to its newline.
abbrev written : Event → Bytes
written e =
    cef_header
    ++ (cef_name e.event_type
        ++ (124
            ∷ (decimal e.seq
                ++ (124
                    ∷ (codes "5|rt="
                        ++ (decimal e.ts ++ (32 ∷ (codes "msg=" ++ cef_msg e.body))))))))

not_newline : (d : ℕ) → d < 10 → d + 48 ≢ 10
not_newline d h q = omega arith

written-Lacks : (e : Event) → OneLine e → Lacks 10 (written e)
unfolding cef_name
written-Lacks e (named, h) =
    let bar : Lacks 10 (codes "!") = literal-Lacks (codes "!") refl in
    join cef_header _ (literal-Lacks cef_header refl) (
      join (cef_name e.event_type) _
        (replace-Lacks 10 124 (codes "!") e.event_type (kept 10 124 _ named) bar)
        (
          λ q. omega arith,
          join (decimal e.seq) _ (decimal-Lacks 10 e.seq not_newline) (
            λ q. omega arith,
            join (codes "5|rt=") _ (literal-Lacks (codes "5|rt=") refl) (
                join (decimal e.ts) _ (decimal-Lacks 10 e.ts not_newline) (
                  λ q. omega arith,
                  join (codes "msg=") _ (literal-Lacks (codes "msg=") refl)
                      (cef_msg-Lacks e.body h),
                )),
          ),
        ))
  where
    join : (xs ys : Bytes) → Lacks 10 xs → Lacks 10 ys → Lacks 10 (xs ++ ys)
    join = All-append (λ b. b ≢ 10)

cef_line-written : (e : Event) (rest : Bytes) → cef_line e ++ rest ≡ written e ++ 10 ∷ rest
unfolding cef_line
cef_line-written e rest = simp (append_assoc)

read_record-written : (e : Event) → read_record (written e) ≡ some (recorded e)
unfolding read_record cef_name
read_record-written e =
    rw
      (
        behind-append cef_header _,
        until-append 124 (cef_name e.event_type) _ (
            replace-Lacks 124 124 (codes "!") e.event_type (replaced 124 _) (λ q. omega arith, tt)),
        until-append 124 (decimal e.seq) _ (decimal-Lacks 124 e.seq (λ d h q. omega arith)),
        behind-append (codes "5|rt=") _,
        until-append 32 (decimal e.ts) _ (decimal-Lacks 32 e.ts (λ d h q. omega arith)),
        behind-append (codes "msg=") _,
        read_msg-cef_msg e.body,
      )
      refl

module _ (b : Libraries) where
  -- A reader of the export gets back, for every entry in order, its type with `!` for `|`, its number,
  -- its time and its body, whatever backslashes and equals signs the body holds, when no type and no body
  -- holds a newline.
  pub read_export-export_lines :
      (es : List Event)
      → All OneLine es
      → read_export (export_lines b export_cef es) ≡ some (all_recorded es)
  unfolding read_export read_records lines export_lines
  read_export-export_lines [] h = refl
  read_export-export_lines (e ∷ es) (h, hs) =
      let rest = export_lines b export_cef es in
      rw
        (
          cef_line-written e rest,
          lines-append (written e) rest (written-Lacks e h),
          read_record-written e,
          read_export-export_lines es hs,
        )
        refl

-- ===== src/Spec/Edit/Appended.antt =====
-- internal/rpm/spec/edit.go: AppendLinesToSection on a whole spec.
use azldev.Prelude.{
  ℕ, suc, ◌+◌, ◌*◌, List, Bool, true, false, Option, some, none, Error, ◌≡◌, refl, arith, wrap,
}
use azldev.Prelude.{inl, inr, ◌⊎◌, length, Bool-cases, subst, sym, ap, if◌then◌else◌}
use azldev.Text.{Text}
use azldev.Spec.Visit.{Context, insert_lines_at, insert_lines_before, returned}
use azldev.Spec.Visit.Moves.{Inserts, Stays, context_of}
use azldev.Spec.Visit.Ends.{visit-Returns}
use azldev.Spec.Edit.{
  Edited, edited, section_not_found, visit_fuel, if_updated, in_section, append_at_end,
  append_visitor, append_lines_to_section,
}
use azldev.Spec.Edit.Calls.{insert_lines_before-Inserts, length-insert_lines_at}
use azldev.Spec.Edit.Outcomes.{Inserter, Keeps, at_section_end-Moves}
use azldev.Spec.Edit.Outcomes.Subsequence.{
  Subsequence, Subsequence-refl, Subsequence-insert, Subsequence-inserted,
}

-- How an edit ends: with an error on the spec that it was given, or with lines of a kind.
abbrev pub Outcome : (List Text → Type 0) → List Text → Edited → Type 0
Outcome Kind spec out =
    ((e : Error) × (out ≡ edited (some e) spec))
    ⊎ ((spec' : List Text) × (out ≡ edited none spec') × Kind spec')

-- Lines among which those of the spec and the inserted ones stand in their order, with as many more as
-- there are in one or more copies of the latter.
abbrev pub Appended : List Text → List Text → List Text → Type 0
Appended spec inserted lines =
    Subsequence spec lines
    × Subsequence inserted lines
    × (m : ℕ) × (length lines ≡ length spec + suc m * length inserted)

-- The variable of an edit that sets `updated` when it changes the lines.
abbrev pub Updating : (List Text → Type 0) → List Text → Option Error → List Text → Bool → Type 0
Updating Kind spec failed lines false = (failed ≡ none) × (lines ≡ spec)
Updating Kind spec failed lines true = (failed ≡ none) × Kind lines

pub if_updated-Outcome :
    (Kind : List Text → Type 0) (spec : List Text) (e : Error) (failed : Option Error)
    (ctx : Context) (updated : Bool)
    → Updating Kind spec failed ctx.lines updated
    → Outcome Kind spec (if_updated e (returned failed ctx updated))
unfolding if_updated
if_updated-Outcome Kind spec e failed ctx false (ok, same) = inl (e, ap (edited (some e)) same)
if_updated-Outcome Kind spec e failed ctx true (ok, kind) =
    inr (ctx.lines, ap (λ f. edited f ctx.lines) ok, kind)

module _ (section_name package_name : Text) (inserted spec : List Text) where
  abbrev pub Copies : Option Error → List Text → Bool → Type 0
  Copies = Updating (Appended spec inserted) spec

  pub inserted-Appended :
      (lines : List Text) (n : ℕ) (updated : Bool)
      → Copies none lines updated
      → Copies none (insert_lines_at lines inserted n) true
  inserted-Appended lines n false (ok, same) = (
    refl,
    (
      Subsequence-insert spec lines inserted n
          (subst (Subsequence spec) (sym same) (Subsequence-refl spec)),
      Subsequence-inserted lines inserted n,
      0,
      omega (arith, length-insert_lines_at lines inserted n, ap length same),
    ),
  )
  inserted-Appended lines n true (ok, (kept, stands, m, e)) = (
    refl,
    (
      Subsequence-insert spec lines inserted n kept,
      Subsequence-inserted lines inserted n,
      suc m,
      omega (arith, length-insert_lines_at lines inserted n, e),
    ),
  )

  abbrev choice : Context → Bool → Bool → Option Error × Context × Bool
  choice ctx updated here =
      if here then (none, insert_lines_before inserted ctx, true) else (none, ctx, updated)

  append_at_end-Inserter :
      Inserter (length inserted) Copies (append_at_end section_name package_name inserted)
  unfolding append_at_end insert_lines_before
  append_at_end-Inserter = record {
    inserts = λ ctx updated.
        elim (Bool-cases (in_section section_name package_name ctx.current_section)) [
          | inl e ↦
              subst
                (λ b.
                  Stays ctx (context_of (choice ctx updated b))
                  ⊎ Inserts (length inserted) ctx (context_of (choice ctx updated b)))
                (sym e)
                (inr (insert_lines_before-Inserts (length inserted) inserted ctx (omega arith)))
          | inr e ↦
              subst
                (λ b.
                  Stays ctx (context_of (choice ctx updated b))
                  ⊎ Inserts (length inserted) ctx (context_of (choice ctx updated b)))
                (sym e) (inl (refl, refl, refl, refl))
        ];
    keeps_end = λ ctx updated holds.
        elim (Bool-cases (in_section section_name package_name ctx.current_section)) [
          | inl e ↦
              subst (λ b. Keeps (length inserted) Copies ctx (choice ctx updated b)) (sym e)
                (inserted-Appended ctx.lines ctx.current_line_num updated holds)
          | inr e ↦
              subst (λ b. Keeps (length inserted) Copies ctx (choice ctx updated b)) (sym e) holds
        ];
  }

  -- AppendLinesToSection ends for every spec: with an error and the spec as it was, or without one, and
  -- then the lines of the spec and the lines to append stand in the result, in their order, and it is
  -- longer by one or more times the number of the latter.
  pub append_lines_to_section-Outcome :
      Outcome
        (Appended spec inserted)
        spec
        (append_lines_to_section section_name package_name inserted spec)
  unfolding append_lines_to_section append_visitor visit_fuel
  append_lines_to_section-Outcome =
      let not_found = wrap "section %#q (package=%#q) not found:\n%w" section_not_found in
      let (failed, ctx, updated, e, holds) =
        visit-Returns (length inserted) Copies (append_visitor section_name package_name inserted)
          (at_section_end-Moves (length inserted) Copies
            (append_at_end section_name package_name inserted) append_at_end-Inserter)
          (visit_fuel (length spec) (length inserted)) spec false (omega arith) (refl, refl) in
      subst (λ out. Outcome (Appended spec inserted) spec (if_updated not_found out)) (sym e)
        (if_updated-Outcome (Appended spec inserted) spec not_found failed ctx updated holds)

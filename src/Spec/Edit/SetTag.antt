-- ===== src/Spec/Edit/SetTag.antt =====
-- internal/rpm/spec/edit.go: SetTag, which updates a tag or adds it.
use azldev.Prelude.{List, [], ◌∷◌, some, none, ◌≡◌, refl, if◌then◌else◌, subst, sym, inl, inr, ◌⊎◌}
use azldev.Prelude.{Bool, true, false, Error, wrap}
use azldev.Spec.Visit.Walk.{Walked}
use azldev.Spec.Edit.{no_such_tag}
use azldev.Text.{Text, ◌==◌, codes}
use azldev.Spec.Edit.{Edited, edited, unfinished}
use azldev.Spec.Edit.Tags.{set_tag, add_tag, tag_text}
use azldev.Spec.Edit.Appended.{Outcome, Appended, append_lines_to_section-Outcome}
use azldev.Spec.Edit.Rewritten.{Rewritten, update_existing_tag-Outcome}

module _ (package_name tag value : Text) (spec : List Text) where
  -- The lines after a tag was set: its text stands at some lines instead, or was added.
  abbrev pub Set : List Text → Type 0
  Set spec' =
      Rewritten (λ line. line ≡ tag_text tag value) spec spec'
      ⊎ Appended spec (tag_text tag value ∷ []) spec'

  abbrev then_added : Edited → Edited
  then_added out = elim out [
    | unfinished ↦ unfinished
    | edited none lines ↦ edited none lines
    | edited (some e) lines ↦ add_tag package_name tag value lines
  ]

  added-Outcome : Outcome Set spec (add_tag package_name tag value spec)
  unfolding add_tag
  added-Outcome =
      elim (append_lines_to_section-Outcome (if package_name == [] then [] else codes "%package")
        package_name (tag_text tag value ∷ []) spec) [
          | inl failed ↦ inl failed
          | inr (spec', e, appended) ↦ inr (spec', e, inr appended)
        ]

  -- SetTag ends for every spec: with an error and the spec as it was, or without one, and then either
  -- each line is the one that was there or the text of the tag with its value, or that text was added
  -- with all lines of the spec kept in their order.
  pub set_tag-Outcome : Outcome Set spec (set_tag package_name tag value spec)
  unfolding set_tag
  set_tag-Outcome = elim (update_existing_tag-Outcome package_name tag value spec) [
    | inl (failed, e) ↦ subst (λ out. Outcome Set spec (then_added out)) (sym e) added-Outcome
    | inr (spec', e, rewritten) ↦
        subst (λ out. Outcome Set spec (then_added out)) (sym e) (inr (spec', refl, inl rewritten))
  ]

module _ (package_name tag value : Text) (spec : List Text) where
  -- The lines of the pass if it changed a line, or else the addition of the tag.
  abbrev pub set_of : Walked Bool → Edited
  set_of (failed, lines, true) = edited none lines
  set_of (failed, lines, false) = add_tag package_name tag value spec

  abbrev not_found : Error
  not_found = wrap "tag %#q not found in spec:\n%w" no_such_tag

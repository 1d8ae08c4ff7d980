-- ===== src/Spec/Edit/Prepended/Inserting.antt =====
-- internal/rpm/spec/edit.go: the visitor of PrependLinesToSection at a header of the section.
use azldev.Prelude.{List, [], Bool, true, false, ◌&&◌, Option, none, Error}
use azldev.Prelude.{◌≡◌, refl, arith, leb, subst, sym, ap}
use azldev.Text.{Text, ◌==◌, eq_iff, eq_refl}
use azldev.Spec.Lines.{get_package_name_for_section}
use azldev.Spec.Parsed.{section_start_line, parse_spec_line, state_after}
use azldev.Spec.Tree.Build.{line_at}
use azldev.Spec.Visit.{
  Context, parse_current, end_section, start_section, insert_lines_before, visit_if_due,
  visit_parsed, visit_line, insert_lines_at, insert_lines_after,
}
use azldev.Spec.Edit.Prepended.Headers.{Heads}
use azldev.Spec.Edit.{in_section, prepend_visitor}
use azldev.Spec.Visit.Quiet.{visit_if_due-quiet}
use azldev.Spec.Edit.Prepended.Calls.{Follows, visitor, choice, then_started}

module _ (section_name package_name : Text) (inserted : List Text) where
  -- A call that inserts.
  abbrev pub FollowsFrom : Context → Option Error × Context × Bool → Type 0
  FollowsFrom ctx (failed, ctx', s') = (failed ≡ none) × Follows inserted ctx ctx'

  start-Follows :
      (text : Text) (ctx : Context) (s : Bool)
      → (section_name == []) ≡ false
      → leb ctx.next_line_to_visit ctx.current_line_num ≡ true
      → in_section section_name package_name ctx.parse_state ≡ true
      → FollowsFrom ctx
          (visit_if_due (visitor section_name package_name inserted) (start_section text ctx) s)
  unfolding visit_if_due start_section prepend_visitor insert_lines_after
  start-Follows text ctx s named due here =
      let ctx1 = start_section text ctx in
      let parsed = ctx.parse_state in
      let elsewhere : ((parsed.sect_name == []) && (parsed.package_name == [])) ≡ false =
        ground (arith, eq_iff parsed.sect_name section_name, named, here) in
      subst
        (λ d. FollowsFrom ctx (
          choice section_name package_name inserted (insert_lines_before inserted ctx1) ctx1 s d
            (in_section section_name package_name parsed)
            ((parsed.sect_name == []) && (parsed.package_name == []))))
        (sym due)
        (subst
          (λ h. FollowsFrom ctx (
            choice section_name package_name inserted (insert_lines_before inserted ctx1) ctx1 s
              true h ((parsed.sect_name == []) && (parsed.package_name == []))))
          (sym here)
          (subst
            (λ p. FollowsFrom ctx (
              choice section_name package_name inserted (insert_lines_before inserted ctx1) ctx1 s
                true true p))
            (sym elsewhere)
            (
              refl,
              (refl, omega arith, refl, ap (insert_lines_at ctx.lines inserted) (omega arith)),
            )))

  pub visit_line-Follows :
      (ctx : Context) (s : Bool)
      → (section_name == []) ≡ false
      → leb ctx.next_line_to_visit ctx.current_line_num ≡ true
      → Heads section_name package_name (line_at ctx.lines ctx.current_line_num)
      → FollowsFrom ctx (visit_line (visitor section_name package_name inserted) ctx s)
  unfolding visit_line parse_current parse_spec_line visit_parsed end_section prepend_visitor
      state_after
  visit_line-Follows ctx s named due heads =
      let text = line_at ctx.lines ctx.current_line_num in
      let state = ctx.parse_state in
      let header = section_start_line heads.kind section_name heads.tokens in
      let ctx1 = record ctx {
        parse_state_before = state;
        parse_state = state_after header state;
      } in
      let here : in_section section_name package_name ctx1.parse_state ≡ true = ground (
        arith,
        eq_refl section_name,
        eq_iff (get_package_name_for_section heads.kind heads.tokens) package_name,
        heads.of_package,
      ) in
      subst
        (λ parsed. FollowsFrom ctx (
          visit_parsed (visitor section_name package_name inserted) text parsed
            (record ctx { parse_state_before = state; parse_state = state_after parsed state }) s))
        (sym (heads.starts state))
        (subst (λ out. FollowsFrom ctx (then_started section_name package_name inserted text out))
          (sym (
            visit_if_due-quiet (visitor section_name package_name inserted) (end_section ctx1) s
              refl))
          (start-Follows text (end_section ctx1) s named due here))

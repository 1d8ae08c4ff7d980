-- ===== src/Spec/Edit/Outcomes.antt =====
-- internal/rpm/spec/edit.go: visitors of one kind of target, and the lines that an edit leaves.
pub mod Subsequence
use azldev.Prelude.{
  ℕ, zero, suc, ◌+◌, ◌≤◌, List, Option, some, none, Error, ◌≡◌, arith, inl, inr, ◌⊎◌,
}
use azldev.Text.{Text}
use azldev.Spec.Parsed.{ParsedLine, section_start_line, tag_line, raw_line}
use azldev.Spec.Visit.{
  Target, spec_start, section_start, section_end, spec_end, section_line, Context, Visitor,
}
use azldev.Spec.Visit.Moves.{
  Inserts, Removes, Stays, MayMove, Ready, CalledReady, Moves, failed_of, context_of, variables_of,
}
use azldev.Spec.Edit.{at_section_end, at_section_line}
use azldev.Spec.Edit.Calls.{stays-MayMove}

module _ {S : Type 0} (k : ℕ) (Holds : Option Error → List Text → S → Type 0) where
  -- Of a call: the property holds after it.
  abbrev pub Keeps : Context → Option Error × Context × S → Type 0
  Keeps ctx (failed, ctx', s') = Holds failed ctx'.lines s'

  -- A visitor at the end of a section that inserts at most k lines.
  pub record Inserter (body : Visitor S) : Type 0 where
    pub inserts :
        (ctx : Context) (s : S)
        → Stays ctx (context_of (body ctx s)) ⊎ Inserts k ctx (context_of (body ctx s))
    pub keeps_end : (ctx : Context) (s : S) → Holds none ctx.lines s → Keeps ctx (body ctx s)

  -- A visitor at a line that replaces or removes it.
  pub record Changer (body : Text → ParsedLine → Visitor S) : Type 0 where
    pub change :
        (text : Text) (parsed : ParsedLine) (ctx : Context) (s : S)
        → Ready ctx
        → Stays ctx (context_of (body text parsed ctx s))
          ⊎ Inserts k ctx (context_of (body text parsed ctx s))
          ⊎ Removes ctx (context_of (body text parsed ctx s))
    pub keeps_line :
        (text : Text) (parsed : ParsedLine) (ctx : Context) (s : S)
        → Ready ctx
        → Holds none ctx.lines s
        → Keeps ctx (body text parsed ctx s)

  module _ (body : Visitor S) (inserter : Inserter body) where
    at_section_end-MayMove :
        (target : Target) (ctx : Context) (s : S)
        → MayMove k target ctx (context_of (at_section_end target body ctx s))
    unfolding at_section_end
    at_section_end-MayMove section_end ctx s = λ ready. inserter.inserts ctx s
    at_section_end-MayMove section_start ctx s = stays-MayMove k section_start ctx
    at_section_end-MayMove spec_start ctx s = stays-MayMove k spec_start ctx
    at_section_end-MayMove spec_end ctx s = stays-MayMove k spec_end ctx
    at_section_end-MayMove (section_line text parsed) ctx s =
        stays-MayMove k (section_line text parsed) ctx

    at_section_end-Keeps :
        (target : Target) (ctx : Context) (s : S)
        → CalledReady target ctx
        → Holds none ctx.lines s
        → Keeps ctx (at_section_end target body ctx s)
    unfolding at_section_end
    at_section_end-Keeps section_end ctx s ready holds = inserter.keeps_end ctx s holds
    at_section_end-Keeps section_start ctx s ready holds = holds
    at_section_end-Keeps spec_start ctx s ready holds = holds
    at_section_end-Keeps spec_end ctx s ready holds = holds
    at_section_end-Keeps (section_line text parsed) ctx s ready holds = holds

    pub at_section_end-Moves : Moves k Holds (λ ctx s. at_section_end ctx.target body ctx s)
    at_section_end-Moves = record {
      may_move = λ ctx s. at_section_end-MayMove ctx.target ctx s;
      keeps = λ ctx s ready holds. at_section_end-Keeps ctx.target ctx s ready holds;
    }

  module _ (body : Text → ParsedLine → Visitor S) (changer : Changer body) where
    at_section_line-MayMove :
        (target : Target) (ctx : Context) (s : S)
        → MayMove k target ctx (context_of (at_section_line target body ctx s))
    unfolding at_section_line
    at_section_line-MayMove section_end ctx s = stays-MayMove k section_end ctx
    at_section_line-MayMove section_start ctx s = stays-MayMove k section_start ctx
    at_section_line-MayMove spec_start ctx s = stays-MayMove k spec_start ctx
    at_section_line-MayMove spec_end ctx s = stays-MayMove k spec_end ctx
    at_section_line-MayMove (section_line text parsed) ctx s =
        λ ready. changer.change text parsed ctx s ready

    at_section_line-Keeps :
        (target : Target) (ctx : Context) (s : S)
        → CalledReady target ctx
        → Holds none ctx.lines s
        → Keeps ctx (at_section_line target body ctx s)
    unfolding at_section_line
    at_section_line-Keeps section_end ctx s ready holds = holds
    at_section_line-Keeps section_start ctx s ready holds = holds
    at_section_line-Keeps spec_start ctx s ready holds = holds
    at_section_line-Keeps spec_end ctx s ready holds = holds
    at_section_line-Keeps (section_line text parsed) ctx s ready holds =
        changer.keeps_line text parsed ctx s ready holds

    pub at_section_line-Moves : Moves k Holds (λ ctx s. at_section_line ctx.target body ctx s)
    at_section_line-Moves = record {
      may_move = λ ctx s. at_section_line-MayMove ctx.target ctx s;
      keeps = λ ctx s ready holds. at_section_line-Keeps ctx.target ctx s ready holds;
    }

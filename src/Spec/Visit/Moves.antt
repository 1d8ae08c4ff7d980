-- ===== src/Spec/Visit/Moves.antt =====
-- internal/rpm/spec/spec.go: what a visitor may do to the context at the line that it is called on.
use azldev.Prelude.{ℕ, suc, ◌+◌, ◌≤◌, ◌<◌, List, Option, none, Error, ◌≡◌, arith}
use azldev.Prelude.{length, ◌⊎◌, ap, ◌∙◌}
use azldev.Text.{Text}
use azldev.Spec.Visit.{
  Target, spec_start, section_start, section_end, spec_end, section_line, Context, Visitor,
}

-- The numbers of a context that the loop goes by: at most k lines were inserted before the current
-- one, which is parsed again, or it was replaced.
abbrev pub Inserts : ℕ → Context → Context → Type 0
Inserts k ctx ctx' =
    (ctx'.current_line_num ≡ ctx.current_line_num)
    × (ctx'.next_line_to_parse ≡ ctx.current_line_num)
    × ((j : ℕ) × (j ≤ k)
        × (ctx'.next_line_to_visit ≡ ctx.current_line_num + j + 1)
        × (length ctx'.lines ≡ length ctx.lines + j))

-- The current line was removed.
abbrev pub Removes : Context → Context → Type 0
Removes ctx ctx' =
    (ctx'.current_line_num ≡ ctx.current_line_num)
    × (ctx'.next_line_to_parse ≡ ctx.current_line_num)
    × (ctx'.next_line_to_visit ≡ ctx.current_line_num)
    × (suc (length ctx'.lines) ≡ length ctx.lines)

abbrev pub Stays : Context → Context → Type 0
Stays ctx ctx' =
    (ctx'.current_line_num ≡ ctx.current_line_num)
    × (ctx'.next_line_to_parse ≡ ctx.next_line_to_parse)
    × (ctx'.next_line_to_visit ≡ ctx.next_line_to_visit)
    × (ctx'.lines ≡ ctx.lines)

abbrev pub Ready : Context → Type 0
Ready ctx = ctx.current_line_num < length ctx.lines

-- What a call may do, by its target: lines are removed at a line only.
abbrev pub MayMove : ℕ → Target → Context → Context → Type 0
MayMove k (section_line text parsed) ctx ctx' =
    Ready ctx → Stays ctx ctx' ⊎ Inserts k ctx ctx' ⊎ Removes ctx ctx'
MayMove k section_end ctx ctx' = Ready ctx → Stays ctx ctx' ⊎ Inserts k ctx ctx'
MayMove k section_start ctx ctx' = Stays ctx ctx'
MayMove k spec_start ctx ctx' = Stays ctx ctx'
MayMove k spec_end ctx ctx' = Stays ctx ctx'

abbrev pub failed_of : {S : Type 0} → Option Error × Context × S → Option Error
failed_of (failed, ctx, s) = failed

abbrev pub context_of : {S : Type 0} → Option Error × Context × S → Context
context_of (failed, ctx, s) = ctx

abbrev pub variables_of : {S : Type 0} → Option Error × Context × S → S
variables_of (failed, ctx, s) = s

-- A call at a line is made in a ready context.
abbrev pub CalledReady : Target → Context → Type 0
CalledReady (section_line text parsed) ctx = Ready ctx
CalledReady section_end ctx = Unit
CalledReady section_start ctx = Unit
CalledReady spec_start ctx = Unit
CalledReady spec_end ctx = Unit

pub Ready-CalledReady : (target : Target) (ctx : Context) → Ready ctx → CalledReady target ctx
Ready-CalledReady (section_line text parsed) ctx ready = ready
Ready-CalledReady section_end ctx ready = tt
Ready-CalledReady section_start ctx ready = tt
Ready-CalledReady spec_start ctx ready = tt
Ready-CalledReady spec_end ctx ready = tt

-- What a visitor keeps: a bound on its moves, and a property of the lines and of its variables.
pub record Moves {S : Type 0} (k : ℕ) (Holds : Option Error → List Text → S → Type 0)
    (visitor : Visitor S) : Type 0 where
  pub may_move : (ctx : Context) (s : S) → MayMove k ctx.target ctx (context_of (visitor ctx s))
  pub keeps :
      (ctx : Context) (s : S)
      → CalledReady ctx.target ctx
      → Holds none ctx.lines s
      → Holds
          (failed_of (visitor ctx s))
          (context_of (visitor ctx s)).lines
          (variables_of (visitor ctx s))

-- What a round of the loop does.
abbrev pub Changes : ℕ → Context → Context → Type 0
Changes k ctx ctx' =
    Stays ctx ctx'
    ⊎ ((ctx.next_line_to_visit ≤ ctx.current_line_num) × (Inserts k ctx ctx' ⊎ Removes ctx ctx'))

pub Stays-trans : (ctx ctx1 ctx2 : Context) → Stays ctx ctx1 → Stays ctx1 ctx2 → Stays ctx ctx2
Stays-trans ctx ctx1 ctx2 (c, p, v, l) (c', p', v', l') = (c' ∙ c, p' ∙ p, v' ∙ v, l' ∙ l)

pub Inserts-Stays :
    (k : ℕ) (ctx ctx1 ctx2 : Context) → Inserts k ctx ctx1 → Stays ctx1 ctx2 → Inserts k ctx ctx2
Inserts-Stays k ctx ctx1 ctx2 (c, p, (j, le, v, l)) (c', p', v', l') =
    (c' ∙ c, p' ∙ p, (j, le, v' ∙ v, ap length l' ∙ l))

pub Inserts-Ready : (k : ℕ) (ctx ctx1 : Context) → Ready ctx → Inserts k ctx ctx1 → Ready ctx1
Inserts-Ready k ctx ctx1 ready (c, p, (j, le, v, l)) = omega (arith, ready, c, l)

pub Stays-Ready : (ctx ctx1 : Context) → Ready ctx → Stays ctx ctx1 → Ready ctx1
Stays-Ready ctx ctx1 ready (c, p, v, l) = omega (arith, ready, c, ap length l)

-- ===== src/Spec/Visit/Rounds.antt =====
-- internal/rpm/spec/spec.go: the rounds that are left when a visitor changes the spec at the line
-- that it is called on.
use azldev.Prelude.{ℕ, zero, suc, ◌+◌, ◌*◌, ◌≤◌, ◌<◌, ◌≡◌, arith}
use azldev.Prelude.{leb, length, Bool-cases, inl, inr, ap}
use azldev.Spec.Visit.{Context, advance}
use azldev.Spec.Visit.Moves.{Stays, Changes, Ready}

-- A round may start: at most r lines are left to visit after d rounds that only parse again.
abbrev pub Left : Context → ℕ → ℕ → Type 0
Left ctx r d =
    (ctx.next_line_to_parse ≡ suc ctx.current_line_num)
    × (ctx.current_line_num ≤ ctx.next_line_to_visit)
    × (ctx.next_line_to_visit ≤ ctx.current_line_num + d)
    × (length ctx.lines ≤ ctx.next_line_to_visit + r)

-- Rounds that are enough.
abbrev pub rounds : ℕ → ℕ → ℕ → ℕ
rounds k r d = r * (k + 3) + d

pub record Advanced (k r d : ℕ) (ctx : Context) : Type 0 where
  pub r' : ℕ
  pub d' : ℕ
  pub left : Left (advance ctx) r' d'
  pub fewer : suc (rounds k r' d') ≤ rounds k r d

due-Advanced :
    (k r d : ℕ) (ctx ctx' : Context)
    → Ready ctx
    → Left ctx r d
    → Stays ctx ctx'
    → ctx.next_line_to_visit ≤ ctx.current_line_num
    → Advanced k r d ctx'
unfolding advance
due-Advanced k zero d ctx ctx' ready (p, le, near, left) stays due = ground arith
due-Advanced k (suc r) d ctx ctx' ready (p, le, near, left) (c', p', v', l') due = record {
  r' = r;
  d' = 0;
  left = ground (arith, ap length l');
  fewer = omega arith;
}

late-Advanced :
    (k r d : ℕ) (ctx ctx' : Context)
    → Left ctx r d
    → Stays ctx ctx'
    → ctx.current_line_num < ctx.next_line_to_visit
    → Advanced k r d ctx'
unfolding advance
late-Advanced k r zero ctx ctx' (p, le, near, left) stays late = ground arith
late-Advanced k r (suc d) ctx ctx' (p, le, near, left) (c', p', v', l') late = record {
  r' = r;
  d' = d;
  left = ground (arith, ap length l');
  fewer = omega arith;
}

pub round-Advanced :
    (k r d : ℕ) (ctx ctx' : Context)
    → Ready ctx
    → Left ctx r d
    → Changes k ctx ctx'
    → Advanced k r d ctx'
unfolding advance
round-Advanced k r d ctx ctx' ready left (inl stays) =
    elim (Bool-cases (leb ctx.next_line_to_visit ctx.current_line_num)) [
      | inl e ↦ due-Advanced k r d ctx ctx' ready left stays (ground arith)
      | inr e ↦ late-Advanced k r d ctx ctx' left stays (ground arith)
    ]
round-Advanced k zero d ctx ctx' ready (p, le, near, left) (inr (due, change)) = ground arith
round-Advanced k (suc r) d ctx ctx' ready (p, le, near, left)
      (inr (due, inl (c', p', (j, small, v', l')))) =
    record { r' = r; d' = suc j; left = ground arith; fewer = omega (arith, small) }
round-Advanced k (suc r) d ctx ctx' ready (p, le, near, left) (inr (due, inr (c', p', v', l'))) =
    record { r' = r; d' = 0; left = ground (arith, p', v', c', l'); fewer = omega arith }

-- ===== src/Spec/Edit/Prepended/Rounds.antt =====
-- internal/rpm/spec/spec.go: the rounds that are left in a visit that inserts lines after headers. The
-- last of these lines is visited too.
use azldev.Prelude.{ℕ, zero, suc, ◌+◌, ◌*◌, ◌≤◌, ◌<◌, List, [], ◌∷◌, ◌++◌, Bool, true, false}
use azldev.Prelude.{◌≡◌, refl, arith, leb, length, Bool-cases, inl, inr, subst, sym, ap, ◌∙◌}
use azldev.Prelude.{length-append}
use azldev.Text.{Text}
use azldev.Spec.Parsed.{SectionTarget}
use azldev.Spec.Tree.Build.{line_at}
use azldev.Spec.Visit.{Context, advance, insert_lines_at}
use azldev.Spec.Visit.Moves.{Stays, Ready}
use azldev.Spec.Edit.Calls.{length-insert_lines_at}
use azldev.Spec.Edit.Prepended.Headers.{starts_section}
use azldev.Spec.Edit.Prepended.Calls.{Follows}

line_at-append_last :
    (before rest : List Text) (last : Text)
    → line_at ((before ++ (last ∷ [])) ++ rest) (length before) ≡ last
unfolding line_at
line_at-append_last [] rest last = refl
line_at-append_last (x ∷ before) rest last = line_at-append_last before rest last

pub line_at-insert_last :
    (lines before : List Text) (last : Text) (n m : ℕ)
    → n ≤ length lines
    → m ≡ n + length before
    → line_at (insert_lines_at lines (before ++ (last ∷ [])) n) m ≡ last
unfolding line_at insert_lines_at
line_at-insert_last lines before last zero m le e =
    ap (line_at ((before ++ (last ∷ [])) ++ lines)) (omega arith)
    ∙ line_at-append_last before lines last
line_at-insert_last [] before last (suc n) m le e = absurd (ground arith)
line_at-insert_last (x ∷ lines) before last (suc n) zero le e = absurd (ground arith)
line_at-insert_last (x ∷ lines) before last (suc n) (suc m) le e =
    line_at-insert_last lines before last n m (omega (arith, le)) (omega (arith, e))

module _ (before : List Text) (last : Text) where
  abbrev pub inserted : List Text
  inserted = before ++ (last ∷ [])

  -- A round may start: after d rounds that only parse, r lines are left to visit, in the second case
  -- after the last line of an insertion.
  abbrev pub Left : Context → ℕ → ℕ → Bool → Type 0
  Left ctx r d false =
      (ctx.next_line_to_parse ≡ suc ctx.current_line_num)
      × (ctx.current_line_num ≤ ctx.next_line_to_visit)
      × (ctx.next_line_to_visit ≤ ctx.current_line_num + d)
      × (length ctx.lines ≤ ctx.next_line_to_visit + r)
  Left ctx r d true =
      (ctx.next_line_to_parse ≡ suc ctx.current_line_num)
      × (ctx.current_line_num ≤ ctx.next_line_to_visit)
      × (ctx.next_line_to_visit ≤ ctx.current_line_num + d)
      × (length ctx.lines ≤ ctx.next_line_to_visit + suc r)
      × (line_at ctx.lines ctx.next_line_to_visit ≡ last)

  -- Rounds that are enough.
  abbrev pub rounds : ℕ → ℕ → Bool → ℕ
  rounds r d false = r * (length before + 3) + d
  rounds r d true = r * (length before + 3) + d + 1

  pub record Advanced (r d : ℕ) (pending : Bool) (ctx : Context) : Type 0 where
    pub r' : ℕ
    pub d' : ℕ
    pub pending' : Bool
    pub left : Left (advance ctx) r' d' pending'
    pub fewer : suc (rounds r' d' pending') ≤ rounds r d pending

  due-Advanced :
      (r d : ℕ) (pending : Bool) (ctx ctx' : Context)
      → Ready ctx
      → Left ctx r d pending
      → Stays ctx ctx'
      → ctx.next_line_to_visit ≤ ctx.current_line_num
      → Advanced r d pending ctx'
  unfolding advance
  due-Advanced zero d false ctx ctx' ready left stays due = absurd (ground arith)
  due-Advanced (suc r) d false ctx ctx' ready (p, le, near, left) (c', p', v', l') due = record {
    r' = r;
    d' = 0;
    pending' = false;
    left = ground (arith, ap length l');
    fewer = omega arith;
  }
  due-Advanced r d true ctx ctx' ready (p, le, near, left, at_last) (c', p', v', l') due = record {
    r' = r;
    d' = 0;
    pending' = false;
    left = ground (arith, ap length l');
    fewer = omega arith;
  }

  late-Advanced :
      (r d : ℕ) (pending : Bool) (ctx ctx' : Context)
      → Left ctx r d pending
      → Stays ctx ctx'
      → ctx.current_line_num < ctx.next_line_to_visit
      → Advanced r d pending ctx'
  unfolding advance
  late-Advanced r zero false ctx ctx' (p, le, near, left) stays late = absurd (ground arith)
  late-Advanced r zero true ctx ctx' (p, le, near, left, at_last) stays late = absurd (ground arith)
  late-Advanced r (suc d) false ctx ctx' (p, le, near, left) (c', p', v', l') late = record {
    r' = r;
    d' = d;
    pending' = false;
    left = ground (arith, ap length l');
    fewer = omega arith;
  }
  late-Advanced r (suc d) true ctx ctx' (p, le, near, left, at_last) (c', p', v', l') late =
      let same : (advance ctx').next_line_to_visit ≡ ctx.next_line_to_visit = ground arith in
      record {
        r' = r;
        d' = d;
        pending' = true;
        left = (
          ground arith,
          ground arith,
          ground arith,
          ground (arith, ap length l'),
          ap (line_at ctx'.lines) same
              ∙ (ap (λ ls. line_at ls ctx.next_line_to_visit) l' ∙ at_last),
        );
        fewer = omega arith;
      }

  pub Stays-Advanced :
      (r d : ℕ) (pending : Bool) (ctx ctx' : Context)
      → Ready ctx
      → Left ctx r d pending
      → Stays ctx ctx'
      → Advanced r d pending ctx'
  Stays-Advanced r d pending ctx ctx' ready left stays =
      elim (Bool-cases (leb ctx.next_line_to_visit ctx.current_line_num)) [
        | inl e ↦ due-Advanced r d pending ctx ctx' ready left stays (ground arith)
        | inr e ↦ late-Advanced r d pending ctx ctx' left stays (ground arith)
      ]

  module _ (harmless : (state : SectionTarget) → starts_section last state ≡ false) where
    -- An insertion is made at a line that starts a section, and not at the last inserted line.
    pub Follows-Advanced :
        (r d : ℕ) (pending : Bool) (ctx ctx' : Context)
        → Ready ctx
        → Left ctx r d pending
        → starts_section (line_at ctx.lines ctx.current_line_num) ctx.parse_state ≡ true
        → ctx.next_line_to_visit ≤ ctx.current_line_num
        → Follows inserted ctx ctx'
        → Advanced r d pending ctx'
    unfolding advance
    Follows-Advanced r d true ctx ctx' ready (p, le, near, left, at_last) header due follows =
        let here : ctx.current_line_num ≡ ctx.next_line_to_visit = omega arith in
        let is_last : line_at ctx.lines ctx.current_line_num ≡ last =
          ap (line_at ctx.lines) here ∙ at_last in
        absurd (
          ground (
            arith,
            subst (λ t. starts_section t ctx.parse_state ≡ true) is_last header,
            harmless ctx.parse_state,
          ))
    Follows-Advanced zero d false ctx ctx' ready left header due follows = absurd (ground arith)
    Follows-Advanced (suc r) d false ctx ctx' ready (p, le, near, left) header due
          (c', p', v', l') =
        let size : length inserted ≡ length before + 1 =
          omega (arith, length-append before (last ∷ [])) in
        let place : (advance ctx').next_line_to_visit ≡ suc ctx.current_line_num + length before =
          ground arith in
        record {
          r' = r;
          d' = length before;
          pending' = true;
          left = (
            ground arith,
            ground arith,
            ground arith,
            ground (
              arith,
              ap length l',
              length-insert_lines_at ctx.lines inserted (suc ctx.current_line_num),
            ),
            subst (λ ls. line_at ls (advance ctx').next_line_to_visit ≡ last) (sym l')
                (line_at-insert_last ctx.lines before last (suc ctx.current_line_num)
                  (advance ctx').next_line_to_visit (omega (arith, ready)) place),
          );
          fewer = omega arith;
        }

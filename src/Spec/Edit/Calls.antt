-- ===== src/Spec/Edit/Calls.antt =====
-- internal/rpm/spec/edit.go: what the edits of the current line do to the context of a visit.
use azldev.Prelude.{ℕ, zero, suc, ◌+◌, ◌≤◌, ◌<◌, List, [], ◌∷◌, ◌≡◌, refl, arith}
use azldev.Prelude.{length, inl, length-append}
use azldev.Text.{Text}
use azldev.Spec.Visit.{
  Target, spec_start, section_start, section_end, spec_end, section_line, Context, insert_lines_at,
  remove_lines, remove_line, replace_line, insert_lines_before, remove_current, replace_current,
}
use azldev.Spec.Visit.Moves.{Inserts, Removes, MayMove, Ready}

pub length-insert_lines_at :
    (lines inserted : List Text) (n : ℕ)
    → length (insert_lines_at lines inserted n) ≡ length lines + length inserted
unfolding insert_lines_at
length-insert_lines_at lines inserted zero = omega (arith, length-append inserted lines)
length-insert_lines_at [] inserted (suc n) = omega (arith, length-append inserted [])
length-insert_lines_at (x ∷ lines) inserted (suc n) =
    omega (arith, length-insert_lines_at lines inserted n)

pub length-replace_line :
    (lines : List Text) (n : ℕ) (replacement : Text)
    → n < length lines
    → length (replace_line lines n replacement) ≡ length lines
unfolding replace_line
length-replace_line [] n replacement ready = ground arith
length-replace_line (x ∷ lines) zero replacement ready = refl
length-replace_line (x ∷ lines) (suc n) replacement ready =
    omega (arith, length-replace_line lines n replacement (omega (arith, ready)))

pub length-remove_line :
    (lines : List Text) (n : ℕ)
    → n < length lines
    → suc (length (remove_line lines n)) ≡ length lines
unfolding remove_line remove_lines
length-remove_line [] n ready = ground arith
length-remove_line (x ∷ lines) zero ready = refl
length-remove_line (x ∷ lines) (suc n) ready =
    omega (arith, length-remove_line lines n (omega (arith, ready)))

pub stays-MayMove : (k : ℕ) (target : Target) (ctx : Context) → MayMove k target ctx ctx
stays-MayMove k (section_line text parsed) ctx = λ ready. inl (refl, refl, refl, refl)
stays-MayMove k section_end ctx = λ ready. inl (refl, refl, refl, refl)
stays-MayMove k section_start ctx = (refl, refl, refl, refl)
stays-MayMove k spec_start ctx = (refl, refl, refl, refl)
stays-MayMove k spec_end ctx = (refl, refl, refl, refl)

pub insert_lines_before-Inserts :
    (k : ℕ) (inserted : List Text) (ctx : Context)
    → length inserted ≤ k
    → Inserts k ctx (insert_lines_before inserted ctx)
unfolding insert_lines_before
insert_lines_before-Inserts k inserted ctx le = (
  refl,
  refl,
  (
    length inserted,
    le,
    omega arith,
    length-insert_lines_at ctx.lines inserted ctx.current_line_num,
  ),
)

pub replace_current-Inserts :
    (k : ℕ) (replacement : Text) (ctx : Context)
    → Ready ctx
    → Inserts k ctx (replace_current replacement ctx)
unfolding replace_current
replace_current-Inserts k replacement ctx ready = (
  refl,
  refl,
  (
    0,
    omega arith,
    omega arith,
    omega (arith, length-replace_line ctx.lines ctx.current_line_num replacement ready),
  ),
)

pub remove_current-Removes : (ctx : Context) → Ready ctx → Removes ctx (remove_current ctx)
unfolding remove_current
remove_current-Removes ctx ready =
    (refl, refl, refl, length-remove_line ctx.lines ctx.current_line_num ready)

-- ===== src/Spec/Balance/Depth.antt =====
-- internal/rpm/spec/edit.go: collectConditionalPairs by the depth of conditionals, and the lines
-- between two places where the same conditionals are open.
use azldev.Prelude.{ℕ, zero, suc, ◌≤◌, List, [], ◌∷◌, ◌++◌, true, ◌≡◌, refl, arith}
use azldev.Prelude.{ok, Option, some, none, length, is_ok}
use azldev.Text.{Text}
use azldev.Spec.Lines.{opens, closes, same, conditional_depth_change}
use azldev.Spec.Tree.Pairs.{ConditionalPair, pair_by_if}
use azldev.Spec.Tree.Nesting.{Invariant, is_open_at}
use azldev.Spec.Balance.{collect_from}
use azldev.Spec.Balance.Straddle.{AllFound}

-- The depth after some lines; `none` if an %endif has no %if.
unfoldable pub depth_after : List Text → ℕ → Option ℕ
depth_after [] depth = some depth
depth_after (text ∷ texts) depth = elim (conditional_depth_change text) [
  | opens ↦ depth_after texts (suc depth)
  | same ↦ depth_after texts depth
  | closes ↦ elim depth [ zero ↦ none | suc depth' ↦ depth_after texts depth' ]
]

abbrev pub then_depth : Option ℕ → List Text → Option ℕ
then_depth none texts = none
then_depth (some depth) texts = depth_after texts depth

pub depth_after-append :
    (xs ys : List Text) (depth : ℕ)
    → depth_after (xs ++ ys) depth ≡ then_depth (depth_after xs depth) ys
unfolding depth_after
depth_after-append [] ys depth = refl
depth_after-append (x ∷ xs) ys zero =
    ground (arith, depth_after-append xs ys 0, depth_after-append xs ys 1)
depth_after-append (x ∷ xs) ys (suc depth) = ground (
  arith,
  depth_after-append xs ys (suc (suc depth)),
  depth_after-append xs ys (suc depth),
  depth_after-append xs ys depth,
)

-- The pairs are collected exactly when every conditional is opened and closed.
pub collect_from-is_ok :
    (texts : List Text) (n : ℕ) (stack : List ℕ) (pairs : List ConditionalPair)
    → depth_after texts (length stack) ≡ some 0
    → is_ok (collect_from texts n stack pairs) ≡ true
unfolding depth_after collect_from
collect_from-is_ok [] n [] pairs h = refl
collect_from-is_ok [] n (a ∷ stack) pairs h = ground arith
collect_from-is_ok (text ∷ texts) n [] pairs h = ground (
  arith,
  collect_from-is_ok texts (suc n) (n ∷ []) pairs,
  collect_from-is_ok texts (suc n) [] pairs,
)
collect_from-is_ok (text ∷ texts) n (a ∷ stack) pairs h = ground (
  arith,
  collect_from-is_ok texts (suc n) (n ∷ a ∷ stack) pairs,
  collect_from-is_ok texts (suc n) (a ∷ stack) pairs,
  collect_from-is_ok texts (suc n) stack (pairs ++ (record { if_line = a; endif_line = n } ∷ [])),
)

pub collect_from-depth_after :
    (texts : List Text) (n : ℕ) (stack : List ℕ) (pairs found : List ConditionalPair)
    → collect_from texts n stack pairs ≡ ok found
    → depth_after texts (length stack) ≡ some 0
unfolding depth_after collect_from
collect_from-depth_after [] n [] pairs found h = refl
collect_from-depth_after [] n (a ∷ stack) pairs found h = ground arith
collect_from-depth_after (text ∷ texts) n [] pairs found h = ground (
  arith,
  collect_from-depth_after texts (suc n) (n ∷ []) pairs found,
  collect_from-depth_after texts (suc n) [] pairs found,
)
collect_from-depth_after (text ∷ texts) n (a ∷ stack) pairs found h = ground (
  arith,
  collect_from-depth_after texts (suc n) (n ∷ a ∷ stack) pairs found,
  collect_from-depth_after texts (suc n) (a ∷ stack) pairs found,
  collect_from-depth_after texts (suc n) stack
      (pairs ++ (record { if_line = a; endif_line = n } ∷ [])) found,
)

-- What a collection gives: pairs that are nested, each found by its %if line; the ones that it starts
-- with; and a pair for each conditional that is open, which ends further on.
pub record Collects (n : ℕ) (stack : List ℕ) (pairs found : List ConditionalPair) : Type 0 where
  pub nested : (len : ℕ) × Invariant len [] found
  pub all_found : AllFound found found
  pub kept : (i k : ℕ) → pair_by_if pairs i ≡ some k → pair_by_if found i ≡ some k
  pub closed :
      (a : ℕ) → is_open_at stack a ≡ true → (k : ℕ) × (pair_by_if found a ≡ some k) × (n ≤ k)

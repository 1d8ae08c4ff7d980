-- ===== src/Spec/Tree/Ranges.antt =====
-- internal/rpm/spec/tree.go: ranges of lines, how findTreeSectionEnd and parseMacroDefBlock cut them,
-- and the lines that serializeTree writes only if they are not empty.
use azldev.Prelude.{ℕ, suc, zero, ◌+◌, ◌-◌, ◌≤◌, ◌<◌, List, [], ◌∷◌, ◌++◌, true, ◌≡◌, refl, arith}
use azldev.Prelude.{Option, some, none, ok, inl, inr, length, drop, ltb}
use azldev.Prelude.{Option-cases, Result-cases, Bool-cases, ap}
use azldev.Text.{Text, fields, trim_space}
use azldev.Spec.Lines.{closes, conditional_depth_change}
use azldev.Spec.Lines.{is_conditional_branch_directive, is_section_header_line}
use azldev.Spec.Macro.{MacroState, macro_body_state_after, new_macro}
use azldev.Spec.Tree.Shape.{Block, macro_def, line_of}
use azldev.Spec.Tree.Pairs.{
  ConditionalPair, scan_line, pair_by_if, is_header, headers_from, find_section_header_lines,
  has_section_header_in_range,
}
use azldev.Spec.Tree.Build.{
  line_at, macro_lines_from, parse_macro_def_block, section_end_from, find_tree_section_end,
}
use azldev.Spec.Tree.Nesting.{Invariant}
use azldev.Spec.Tree.Collected.{drop-cons, pair-cases}

-- n lines from a line number on.
unfoldable pub lines_from : List Text → ℕ → ℕ → List Text
lines_from raw zero a = []
lines_from raw (suc n) a = line_at raw a ∷ lines_from raw n (suc a)

-- The lines in [a, b).
unfoldable pub between : List Text → ℕ → ℕ → List Text
between raw a b = lines_from raw (b - a) a

lines_from-suc :
    (raw : List Text) (k n a : ℕ)
    → k ≡ suc n
    → lines_from raw k a ≡ line_at raw a ∷ lines_from raw n (suc a)
unfolding lines_from
lines_from-suc raw k n a e = ap (λ k. lines_from raw k a) e

lines_from-append :
    (raw : List Text) (m n a : ℕ)
    → lines_from raw m a ++ lines_from raw n (a + m) ≡ lines_from raw (m + n) a
unfolding lines_from
lines_from-append raw zero n a = ground arith
lines_from-append raw (suc m) n a = ground (
  arith,
  lines_from-append raw m n (suc a),
  lines_from-suc raw (suc m + n) (m + n) a (omega arith),
)

pub between-append :
    (raw : List Text) (a b c : ℕ)
    → a ≤ b
    → b ≤ c
    → between raw a b ++ between raw b c ≡ between raw a c
unfolding between
between-append raw a b c h h' = ground (arith, lines_from-append raw (b - a) (c - b) a)

pub between-cons :
    (raw : List Text) (a b : ℕ) → a < b → between raw a b ≡ line_at raw a ∷ between raw (suc a) b
unfolding between lines_from
between-cons raw a b h = lines_from-suc raw (b - a) (b - suc a) a (omega arith)

pub between-same : (raw : List Text) (a : ℕ) → between raw a a ≡ []
unfolding between lines_from
between-same raw a = ground arith

lines_from-drop :
    (raw lines : List Text) (a : ℕ) → drop a raw ≡ lines → lines_from raw (length lines) a ≡ lines
unfolding lines_from
lines_from-drop raw [] a h = refl
lines_from-drop raw (line ∷ lines) a h =
    let (below, here, next) = drop-cons raw a line lines h in
    ground (arith, lines_from-drop raw lines (suc a) next)

pub between-all : (raw : List Text) → between raw 0 (length raw) ≡ raw
unfolding between
between-all raw = ground (arith, lines_from-drop raw raw 0 refl)

-- The lines that a macro definition takes.
macro_lines_from-eq_ok :
    (raw : List Text) (rounds a : ℕ) (state : MacroState) (lines : List Text) (next : ℕ)
    → macro_lines_from raw rounds a state ≡ ok (lines, next)
    → (a < next) × (next ≤ a + rounds) × (lines ≡ between raw a next)
unfolding macro_lines_from
macro_lines_from-eq_ok raw zero a state lines next h = ground arith
macro_lines_from-eq_ok raw (suc rounds) a state lines next h =
    let (state', continues, e) = pair-cases (macro_body_state_after (line_at raw a) state) in
    elim (Bool-cases continues) [
      | inl more ↦ elim (Result-cases (macro_lines_from raw rounds (suc a) state')) [
        | inl ((lines', next'), f) ↦
            let (low, high, g) = macro_lines_from-eq_ok raw rounds (suc a) state' lines' next' f in
            ground (arith, between-cons raw a next, low, high, g)
        | inr (_, f) ↦ ground arith
      ]
      | inr stop ↦ ground (arith, between-cons raw a next, between-same raw next)
    ]

pub parse_macro_def_block-eq_ok :
    (raw : List Text) (start end : ℕ) (name : Text) (block : Block) (next : ℕ)
    → start < end
    → parse_macro_def_block raw start end name ≡ ok (block, next)
    → (start < next)
      × (next ≤ end)
      × (block ≡ macro_def (line_at raw start) name (between raw start next))
unfolding parse_macro_def_block
parse_macro_def_block-eq_ok raw start end name block next inside h =
    let (state, continues, e) = pair-cases (macro_body_state_after (line_at raw start) new_macro) in
    elim (Bool-cases continues) [
      | inl more ↦ elim (Result-cases (macro_lines_from raw (end - suc start) (suc start) state)) [
        | inl ((lines, next'), f) ↦
            let (low, high, g) =
              macro_lines_from-eq_ok raw (end - suc start) (suc start) state lines next' f in
            ground (arith, between-cons raw start next, low, high, g)
        | inr (_, f) ↦ ground arith
      ]
      | inr stop ↦ ground (arith, between-cons raw start next, between-same raw next)
    ]

-- Lines that are not empty.
pub line_of-header : (line : Text) → is_section_header_line line ≡ true → line_of line ≡ line ∷ []
unfolding is_section_header_line fields trim_space
line_of-header [] h = ground arith
line_of-header (c ∷ line) h = refl

pub line_of-branch :
    (line : Text) → is_conditional_branch_directive line ≡ true → line_of line ≡ line ∷ []
unfolding is_conditional_branch_directive fields trim_space
line_of-branch [] h = ground arith
line_of-branch (c ∷ line) h = refl

pub line_of-closes :
    (line : Text) → conditional_depth_change line ≡ closes → line_of line ≡ line ∷ []
unfolding conditional_depth_change fields trim_space
line_of-closes [] h = ground arith
line_of-closes (c ∷ line) h = refl

headers_from-header :
    (raw lines : List Text) (n : ℕ) (body : Option MacroState) (i : ℕ)
    → drop n raw ≡ lines
    → is_header (headers_from lines n body) i ≡ true
    → is_section_header_line (line_at raw i) ≡ true
unfolding headers_from
headers_from-header raw [] n body i at_n h = ground arith
headers_from-header raw (line ∷ lines) n body i at_n h =
    let (below, here, next) = drop-cons raw n line lines at_n in
    ground (arith, headers_from-header raw lines (suc n) (scan_line body line).0 i next)

pub find_section_header_lines-header :
    (raw : List Text) (i : ℕ)
    → is_header (find_section_header_lines raw) i ≡ true
    → is_section_header_line (line_at raw i) ≡ true
unfolding find_section_header_lines
find_section_header_lines-header raw i h = headers_from-header raw raw 0 none i refl h

-- No conditional of a range goes on beyond it.
abbrev pub Whole : List ConditionalPair → ℕ → ℕ → Type 0
Whole pairs a b = (i k : ℕ) → a ≤ i → i < b → pair_by_if pairs i ≡ some k → k < b

section_end_from-Whole :
    (len : ℕ) (pairs : List ConditionalPair) (headers : List ℕ)
    → Invariant len [] pairs
    → (rounds a end s : ℕ) → a ≤ end
    → Whole pairs a end
    → section_end_from pairs headers rounds a end ≡ s
    → (a ≤ s) × (s ≤ end) × Whole pairs a s
unfolding section_end_from
section_end_from-Whole len pairs headers inv zero a end s inside whole h =
    (omega (arith, h), omega (arith, h), λ i k low high e. ground (arith, whole i k))
section_end_from-Whole len pairs headers inv (suc rounds) a end s inside whole h =
    let stop : a ≡ s → (a ≤ s) × (s ≤ end) × Whole pairs a s =
      λ e. (omega (arith, e), omega (arith, e, inside), λ i k low high f. ground arith) in
    elim (Bool-cases (ltb a end)) [
      | inr past ↦ (ground arith, ground arith, λ i k low high e. ground (arith, whole i k))
      | inl more ↦ elim (Bool-cases (is_header headers a)) [
        | inl header ↦ stop (ground arith)
        | inr plain ↦ elim (Option-cases (pair_by_if pairs a)) [
          | inl unpaired ↦
              let (low, high, rest) =
                section_end_from-Whole len pairs headers inv rounds (suc a) end s (ground arith)
                  (λ i k low high e. ground (arith, whole i k)) (ground arith) in
              (omega (arith, low), high, λ i k low' high' e. ground (arith, rest i k))
          | inr (b, paired) ↦ elim (Bool-cases (has_section_header_in_range (suc a) b headers)) [
            | inl header ↦ stop (ground arith)
            | inr plain' ↦
                let (order, bound) = inv.paired_below a b paired in
                let (low, high, rest) =
                  section_end_from-Whole len pairs headers inv rounds (suc b) end s
                    (ground (arith, whole a b)) (λ i k low high e. ground (arith, whole i k))
                    (ground arith) in
                (
                  omega (arith, low, order),
                  high,
                  λ i k low' high' e. ground (arith, rest i k, inv.nested a b i k),
                )
          ]
        ]
      ]
    ]

pub find_tree_section_end-Whole :
    (len : ℕ) (pairs : List ConditionalPair) (headers : List ℕ)
    → Invariant len [] pairs
    → (a end : ℕ) → a ≤ end
    → Whole pairs a end
    → (a ≤ find_tree_section_end pairs headers a end)
      × (find_tree_section_end pairs headers a end ≤ end)
      × Whole pairs a (find_tree_section_end pairs headers a end)
unfolding find_tree_section_end
find_tree_section_end-Whole len pairs headers inv a end inside whole =
    section_end_from-Whole len pairs headers inv (end - a) a end
      (section_end_from pairs headers (end - a) a end) inside whole refl

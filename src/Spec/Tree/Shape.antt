-- ===== src/Spec/Tree/Shape.antt =====
-- The type `block` of tree.go. Its kinds are the constructors, with the fields that each kind uses;
-- a list of blocks is a type of its own beside it.
use azldev.Prelude.{List, [], ◌∷◌, ◌++◌, Bool, true, false, ◌||◌, if◌then◌else◌}
use azldev.Text.{Text}

mutual
  pub data Block : Type 0 where
    -- rootBlock: the children
    root : Blocks → Block
    -- sectionBlock: header, name, package, children
    section : Text → Text → Text → Blocks → Block
    -- conditionalBlock: header, children, else directive, else branch, endif line
    conditional : Text → Blocks → Text → Blocks → Text → Block
    -- textBlock: the lines
    text : List Text → Block
    -- macroDefBlock: header, name, lines
    macro_def : Text → Text → List Text → Block

  pub data Blocks : Type 0 where
    nil : Blocks
    cons : Block → Blocks → Blocks

-- a line that is written only if it is not empty
abbrev pub line_of : Text → List Text
line_of [] = []
line_of (c ∷ line) = (c ∷ line) ∷ []

-- serializeTree
unfoldable mutual
  pub serialize_tree : Block → List Text
  serialize_tree (root children) = serialize_all children
  serialize_tree (section header name pkg children) = line_of header ++ serialize_all children
  serialize_tree (conditional header children else_directive else_blocks endif) =
      header
      ∷ (serialize_all children
          ++ (line_of else_directive ++ (serialize_all else_blocks ++ line_of endif)))
  serialize_tree (text lines) = lines
  serialize_tree (macro_def header name lines) = lines

  pub serialize_all : Blocks → List Text
  serialize_all nil = []
  serialize_all (cons block blocks) = serialize_tree block ++ serialize_all blocks

-- containsSectionBlocks, with its two loops
unfoldable mutual
  pub contains_section_blocks : Block → Bool
  contains_section_blocks (root children) = any_section children
  contains_section_blocks (section header name pkg children) = any_section children
  contains_section_blocks (conditional header children else_directive else_blocks endif) =
      any_section children || any_section else_blocks
  contains_section_blocks (text lines) = false
  contains_section_blocks (macro_def header name lines) = false

  -- The loop over the children: a section, or a conditional that contains one.
  pub any_section : Blocks → Bool
  any_section nil = false
  any_section (cons block blocks) = is_section_or_wrapper block || any_section blocks

  pub is_section_or_wrapper : Block → Bool
  is_section_or_wrapper (root children) = false
  is_section_or_wrapper (section header name pkg children) = true
  is_section_or_wrapper (conditional header children else_directive else_blocks endif) =
      any_section children || any_section else_blocks
  is_section_or_wrapper (text lines) = false
  is_section_or_wrapper (macro_def header name lines) = false

-- The children before the first section or section-wrapping conditional, and the others.
unfoldable pub split_preamble : Blocks → Blocks × Blocks
split_preamble nil = (nil, nil)
split_preamble (cons block blocks) =
    let (before, after) = split_preamble blocks in
    if is_section_or_wrapper block then (nil, cons block blocks) else (cons block before, after)

-- wrapPreamble, on the children of the root
unfoldable pub wrap_preamble : Blocks → Blocks
unfolding split_preamble
wrap_preamble children =
    let (before, after) = split_preamble children in cons (section [] [] [] before) after

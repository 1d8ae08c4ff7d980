-- ===== src/Spec/Tree.antt =====
-- internal/rpm/spec/tree.go: the structural tree of a spec file, its parser and its serializer.
pub mod Shape
pub mod Pairs
pub mod Build
pub mod Nesting
pub mod Runs
pub mod Collected
pub mod Bodies
pub mod Branches
pub mod Ranges
pub mod Kept
pub mod Cases
pub mod RoundTrip
pub mod Fuel
pub mod InTime
use azldev.Prelude.{ℕ, ◌+◌, ◌*◌, List, [], Result, ok, context, ◌>>=◌, length, true}
use azldev.Text.{Text}
use azldev.Spec.Tree.Shape.{Block, root, wrap_preamble}
use azldev.Spec.Tree.Pairs.{collect_tree_conditional_pairs, find_section_header_lines}
use azldev.Spec.Tree.Build.{build_block_children}

-- parseTree
unfoldable pub parse_tree : List Text → Result Block
parse_tree raw_lines = do
  pairs ← context "parsing conditional structure:\n%w" (collect_tree_conditional_pairs raw_lines)
  let section_headers = find_section_header_lines raw_lines
  let fuel = 2 * length raw_lines + 1
  children ←
      context "building spec tree:\n%w"
        (build_block_children raw_lines pairs section_headers fuel true 0 (length raw_lines) [])
  ok (root (wrap_preamble children))

-- ===== src/Spec/Lines.antt =====
-- How one line of a spec file is read: the section table of internal/rpm/spec/spec.go, the
-- directives of edit.go, and the line tests of tree.go.
use azldev.Prelude.{List, [], ◌∷◌, Bool, false, ◌&&◌, ◌||◌, not, Option, some, none, String}
use azldev.Prelude.{if◌then◌else◌, any}
use azldev.Text.{Text, ◌==◌, codes, fields, trim_space, to_lower, has_prefix}
use azldev.Text.Dict.{Dict, lookup, is_some}

-- SectionType
pub data SectionType : Type 0 where
  package_section script_section raw_section changelog_section files_section : SectionType
  source_file_list_section : SectionType

-- sectionTypesByName
unfoldable pub section_types_by_name : Dict SectionType
section_types_by_name =
    (codes "%package", package_section)
    ∷ (codes "%prep", script_section)
    ∷ (codes "%conf", script_section)
    ∷ (codes "%build", script_section)
    ∷ (codes "%install", script_section)
    ∷ (codes "%check", script_section)
    ∷ (codes "%clean", script_section)
    ∷ (codes "%generate_buildrequires", script_section)
    ∷ (codes "%pre", script_section)
    ∷ (codes "%post", script_section)
    ∷ (codes "%preun", script_section)
    ∷ (codes "%postun", script_section)
    ∷ (codes "%pretrans", script_section)
    ∷ (codes "%posttrans", script_section)
    ∷ (codes "%preuntrans", script_section)
    ∷ (codes "%postuntrans", script_section)
    ∷ (codes "%verify", script_section)
    ∷ (codes "%triggerin", script_section)
    ∷ (codes "%triggerun", script_section)
    ∷ (codes "%triggerprein", script_section)
    ∷ (codes "%triggerpostun", script_section)
    ∷ (codes "%filetriggerin", script_section)
    ∷ (codes "%filetriggerun", script_section)
    ∷ (codes "%filetriggerpostun", script_section)
    ∷ (codes "%transfiletriggerin", script_section)
    ∷ (codes "%transfiletriggerun", script_section)
    ∷ (codes "%transfiletriggerpostun", script_section)
    ∷ (codes "%description", raw_section)
    ∷ (codes "%files", files_section)
    ∷ (codes "%changelog", changelog_section)
    ∷ (codes "%patchlist", source_file_list_section)
    ∷ (codes "%sourcelist", source_file_list_section)
    ∷ []

-- What a line does to the depth of conditionals: +1, -1 or 0.
pub data DepthChange : Type 0 where
  opens closes same : DepthChange

abbrev one_of : List String → Text → Bool
one_of names word = any (λ name. word == codes name) names

depth_change_of : Text → DepthChange
depth_change_of word =
    if word == codes "%endif"
    then closes
    else if one_of ("%if" ∷ "%ifarch" ∷ "%ifnarch" ∷ "%ifos" ∷ "%ifnos" ∷ []) word
    then opens
    else same

-- conditionalDepthChange
unfoldable pub conditional_depth_change : Text → DepthChange
unfolding depth_change_of
conditional_depth_change raw_line =
    let trimmed = trim_space raw_line in
    if has_prefix trimmed (codes "#")
    then same
    else elim (fields trimmed) [ [] ↦ same | token ∷ tokens ↦ depth_change_of (to_lower token) ]

branch_directives : List String
branch_directives = "%else" ∷ "%elif" ∷ "%elifarch" ∷ "%elifnarch" ∷ "%elifos" ∷ "%elifnos" ∷ []

-- isConditionalBranchDirective
unfoldable pub is_conditional_branch_directive : Text → Bool
unfolding branch_directives
is_conditional_branch_directive raw_line =
    let trimmed = trim_space raw_line in
    if has_prefix trimmed (codes "#") then false else elim (fields trimmed) [
      | [] ↦ false
      | token ∷ tokens ↦ one_of branch_directives (to_lower token)
    ]

-- isElifDirective
unfoldable pub is_elif_directive : Text → Bool
is_elif_directive raw_line = elim (fields (trim_space raw_line)) [
  | [] ↦ false
  | token ∷ tokens ↦
      not (to_lower token == codes "%else") && is_conditional_branch_directive raw_line
]

-- isSectionHeaderLine
unfoldable pub is_section_header_line : Text → Bool
is_section_header_line raw_line = elim (fields (trim_space raw_line)) [
  | [] ↦ false
  | token ∷ tokens ↦ is_some (lookup (to_lower token) section_types_by_name)
]

-- name[:strings.IndexByte(name, '(')], or the name if there is none
before_paren : Text → Text
before_paren [] = []
before_paren (c ∷ name) =
    let rest = c ∷ before_paren name in if has_prefix (c ∷ name) (codes "(") then [] else rest

-- isMacroDefLine
unfoldable pub is_macro_def_line : Text → Option Text
unfolding before_paren
is_macro_def_line raw_line = elim (fields (trim_space raw_line)) [
  | [] ↦ none
  | token ∷ [] ↦ none
  | token ∷ name ∷ tokens ↦
      if to_lower token == codes "%define" || to_lower token == codes "%global"
      then some (before_paren name)
      else none
]

-- The loop of GetPackageNameFromSectionHeader over the tokens that are left, with fullName and
-- nameSuffix.
package_name_loop : List Text → Text → Text → Text × Text
package_name_loop [] full_name name_suffix = (full_name, name_suffix)
package_name_loop (token ∷ []) full_name name_suffix =
    if has_prefix token (codes "-") || not (name_suffix == [])
    then (full_name, name_suffix)
    else (full_name, token)
package_name_loop (token ∷ argument ∷ tokens) full_name name_suffix =
    let absolute = package_name_loop tokens argument name_suffix in
    let skip_two = package_name_loop tokens full_name name_suffix in
    let skip_one = package_name_loop (argument ∷ tokens) full_name name_suffix in
    let named = package_name_loop (argument ∷ tokens) full_name token in
    if token == codes "--"
    then (full_name, name_suffix)
    else if token == codes "-n"
    then absolute
    else if one_of ("-f" ∷ "-p" ∷ "-l" ∷ "-P" ∷ []) token
    then skip_two
    else if has_prefix token (codes "-")
    then skip_one
    else if name_suffix == []
    then named
    else skip_one

-- GetPackageNameFromSectionHeader
unfoldable pub get_package_name_from_section_header : List Text → Text
unfolding package_name_loop
get_package_name_from_section_header [] = []
get_package_name_from_section_header (keyword ∷ tokens) =
    let (full_name, name_suffix) = package_name_loop tokens [] [] in
    if not (full_name == []) then full_name else name_suffix

-- getPackageNameForSection
unfoldable pub get_package_name_for_section : SectionType → List Text → Text
get_package_name_for_section source_file_list_section tokens = []
get_package_name_for_section changelog_section tokens = []
get_package_name_for_section _ tokens = get_package_name_from_section_header tokens

-- getSectionNameAndPackageFromHeader
unfoldable pub get_section_name_and_package_from_header : Text → Text × Text
get_section_name_and_package_from_header raw_line = elim (fields (trim_space raw_line)) [
  | [] ↦ ([], [])
  | token ∷ tokens ↦ elim (lookup (to_lower token) section_types_by_name) [
    | none ↦ (token, [])
    | some kind ↦ (token, get_package_name_for_section kind (token ∷ tokens))
  ]
]

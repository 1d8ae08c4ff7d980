-- ===== src/UpstreamCommit.antt =====
-- internal/upstreamcommit/store.go: generated TOML files that pin the upstream commits of
-- components. The TOML codec is the package go-toml, a parameter with the law that is used.
pub mod Laws
mod Tests
use azldev.Prelude.{
  ℕ, ◌+◌, List, [], ◌∷◌, ◌++◌, Bool, true, false, ◌&&◌, ◌||◌, not, Option, some, none,
}
use azldev.Prelude.{
  Result, ok, err, new, wrap, join, context, Error, ◌>>=◌, ◌>>◌, if◌then◌else◌, ◌≡◌,
}
use azldev.Text.{Text, ◌==◌, codes, has_prefix, has_suffix, trim_suffix}
use azldev.Text.Order.{sort}
use azldev.Text.Dict.{Dict, lookup}
use azldev.FilePath
use azldev.FilePath.{validate_filename}
use azldev.FileSystem.{FileSystem, DirEntry}
use azldev.Lockfile.Orphans.{ComponentConfig}

-- fileExtension
abbrev pub file_extension : Text
file_extension = codes ".toml"

-- generatedFileHeader
abbrev pub generated_file_header : Text
generated_file_header =
    codes
      "# This file was generated by 'azldev component refresh-upstream-commit'\n# Do not edit this file, changes will be lost\n# For more details see 'azldev component refresh-upstream-commit --help'\n"

-- SpecSourceTypeUpstream
abbrev pub source_type_upstream : Text
source_type_upstream = codes "upstream"

-- toml.Marshal of a `generatedConfig` that holds one component with its commit, and toml.Unmarshal
-- into the components of a `projectconfig.ConfigFile`.
pub record ConfigToml : Type 0 where
  pub marshal : Text → Text → Result Text
  pub unmarshal : Text → Result (Dict ComponentConfig)

-- Store, at one state of the file system
pub record Store (F : FileSystem) : Type 0 where
  pub fs : F.State
  pub store_dir : Text

-- The three results of Get.
pub record Found : Type 0 where
  pub commit : Text
  pub present : Bool
  pub error : Option Error

abbrev failed : Bool → Error → Found
failed present e = record { commit = []; present = present; error = some e }

-- The tests of the loop of FindOrphans.
unfoldable pub is_generated : DirEntry → Bool
is_generated entry = not (
    entry.is_dir || has_prefix entry.name (codes ".") || not (has_suffix entry.name file_extension))

abbrev is_upstream : Option ComponentConfig → Bool
is_upstream none = false
is_upstream (some component) = component.source_type == source_type_upstream

unfoldable pub orphans_in : List DirEntry → Dict ComponentConfig → List Text
orphans_in [] components = []
orphans_in (entry ∷ entries) components =
    let rest = orphans_in entries components in
    let name = trim_suffix entry.name file_extension in
    if is_generated entry && not (is_upstream (lookup name components)) then name ∷ rest else rest

module _ (F : FileSystem) (toml : ConfigToml) where
  -- Store.Path
  unfoldable pub path : Store F → Text → Result Text
  path s name = do
    context "validating component name %#q for upstream commit TOML path:\n%w"
        (validate_filename name)
    ok (FilePath.join s.store_dir (name ++ file_extension))

  -- The part of Get after the file was found: read, parse, and take the component.
  unfoldable pub read_commit : Store F → Text → Text → Result Text
  read_commit s name p = do
    data' ← context "reading upstream commit TOML %#q:\n%w" (F.read_file s.fs p)
    components ← context "parsing upstream commit TOML %#q:\n%w" (toml.unmarshal data')
    elim (lookup name components) [
      | none ↦ err (new "upstream commit TOML %#q does not define component %#q")
      | some component ↦ ok component.upstream_commit
    ]

  -- Store.Get
  unfoldable pub get : Store F → Text → Found
  get s name = elim (path s name) [
    | err e ↦ failed false e
    | ok p ↦ elim (F.exists s.fs p) [
      | err e ↦ failed false (wrap "checking upstream commit TOML %#q:\n%w" e)
      | ok false ↦ record { commit = []; present = false; error = none }
      | ok true ↦ elim (read_commit s name p) [
        | err e ↦ failed true e
        | ok commit ↦ record { commit = commit; present = true; error = none }
      ]
    ]
  ]

  -- Store.Exists
  unfoldable pub exists : Store F → Text → Result Bool
  exists s name = do
    p ← path s name
    context "checking upstream commit TOML %#q:\n%w" (F.exists s.fs p)

  -- Store.Remove
  unfoldable pub remove : Store F → Text → Result Bool × Store F
  remove s name = elim (path s name) [
    | err e ↦ (err e, s)
    | ok p ↦ elim (exists s name) [
      | err e ↦ (err e, s)
      | ok false ↦ (ok false, s)
      | ok true ↦
          let (removed, fs') = F.remove s.fs p in
          elim removed [
            | err e ↦ (err (wrap "removing upstream commit TOML %#q:\n%w" e), record s { fs = fs' })
            | ok _ ↦ (ok true, record s { fs = fs' })
          ]
    ]
  ]

  -- The two writes of Save: the directory, and the file.
  unfoldable pub write_file : Store F → Text → Text → Result (Unit {0}) × Store F
  write_file s p data' =
      let (made, fs') = F.mkdir_all s.fs s.store_dir in
      elim made [
        | err e ↦
            (err (wrap "creating upstream commit TOML directory %#q:\n%w" e), record s { fs = fs' })
        | ok _ ↦
            let (written, fs'') = F.write_file fs' p data' in
            (context "writing upstream commit TOML %#q:\n%w" written, record s { fs = fs'' })
      ]

  -- Store.Save
  unfoldable pub save : Store F → Text → Text → Result (Unit {0}) × Store F
  save s name upstream_commit = elim (path s name) [
    | err e ↦ (err e, s)
    | ok p ↦ elim (toml.marshal name upstream_commit) [
      | err e ↦ (err (wrap "serializing upstream commit TOML %#q:\n%w" e), s)
      | ok data' ↦ write_file s p (generated_file_header ++ data')
    ]
  ]

  -- Store.FindOrphans
  unfoldable pub find_orphans : Store F → Dict ComponentConfig → Result (List Text)
  find_orphans s components = elim (F.read_dir s.fs s.store_dir) [
    | err e ↦ elim (F.dir_exists s.fs s.store_dir) [
      | err exists_err ↦ err (wrap "checking upstream commit TOML directory %#q:\n%w" exists_err)
      | ok false ↦ ok []
      | ok true ↦ err (wrap "reading upstream commit TOML directory %#q:\n%w" e)
    ]
    | ok entries ↦ ok (sort (orphans_in entries components))
  ]

  -- The loop of PruneOrphans: the files removed, the errors in reverse order, and the store.
  unfoldable pub remove_all : Store F → List Text → ℕ → List Error → ℕ × List Error × Store F
  remove_all s [] pruned errs = (pruned, errs, s)
  remove_all s (name ∷ names) pruned errs = elim (path s name) [
    | err e ↦ remove_all s names pruned (e ∷ errs)
    | ok p ↦
        let (removed, fs') = F.remove s.fs p in
        let s' : Store F = record s { fs = fs' } in
        elim removed [
          | err e ↦
              remove_all s' names pruned
                (wrap "removing upstream commit TOML for %#q:\n%w" e ∷ errs)
          | ok _ ↦ remove_all s' names (pruned + 1) errs
        ]
  ]

  join_errors : List Error → Option Error
  join_errors [] = none
  join_errors (e ∷ errs) = elim (join_errors errs) [ none ↦ some e | some e' ↦ some (join e' e) ]

  -- Store.PruneOrphans
  unfoldable pub prune_orphans : Store F → Dict ComponentConfig → (ℕ × Option Error) × Store F
  unfolding join_errors
  prune_orphans s components = elim (find_orphans s components) [
    | err e ↦ ((0, some e), s)
    | ok orphans ↦
        let (pruned, errs, s') = remove_all s orphans 0 [] in ((pruned, join_errors errs), s')
  ]

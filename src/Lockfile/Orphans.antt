-- ===== src/Lockfile/Orphans.antt =====
-- FindOrphanLockFiles and validateConsistency of internal/lockfile/lockfile.go. Of a component's
-- configuration they read the source type and the pinned commit.
use azldev.Prelude.{List, ◌∷◌, [], Bool, true, false, ◌&&◌, ◌||◌, not, Result, ok, err, new, wrap}
use azldev.Prelude.{Error, Option, some, none, is_ok, if◌then◌else◌}
use azldev.Text.{Text, ◌==◌, codes, has_prefix, has_suffix, trim_suffix}
use azldev.Text.Order.{sort}
use azldev.Text.Dict.{Dict, lookup, is_some}
use azldev.FileSystem.{FileSystem, DirEntry}
use azldev.Lockfile.Codec.{Toml, lock_file_extension}
use azldev.Lockfile.{validate_upstream_commit}

-- projectconfig.SpecSource, as far as the lock files depend on it
pub record ComponentConfig : Type 0 where
  pub source_type : Text
  pub upstream_commit : Text

-- SpecSourceTypeLocal
abbrev pub source_type_local : Text
source_type_local = codes "local"

-- The test of the loop over the directory's entries.
unfoldable pub is_lock_entry : DirEntry → Bool
is_lock_entry entry =
    not entry.is_dir
    && not (not (has_suffix entry.name lock_file_extension) || has_prefix entry.name (codes "."))

unfoldable pub component_of : DirEntry → Text
component_of entry = trim_suffix entry.name lock_file_extension

-- The loop over the directory's entries.
unfoldable pub orphans_in : List DirEntry → Dict ComponentConfig → List Text
orphans_in [] components = []
orphans_in (entry ∷ entries) components =
    let rest = orphans_in entries components in
    if is_lock_entry entry && not (is_some (lookup (component_of entry) components))
    then component_of entry ∷ rest
    else rest

module _ (F : FileSystem) where
  -- FindOrphanLockFiles
  unfoldable pub find_orphan_lock_files : F.State → Text → Dict ComponentConfig → Result (List Text)
  find_orphan_lock_files fs lock_dir components = elim (F.read_dir fs lock_dir) [
    | err read_err ↦ elim (F.dir_exists fs lock_dir) [
      | err exists_err ↦ err (wrap "checking locks directory %#q:\n%w" exists_err)
      | ok exists ↦
          if not exists then ok [] else err (wrap "reading locks directory %#q:\n%w" read_err)
    ]
    | ok entries ↦ ok (sort (orphans_in entries components))
  ]

-- The three results of validateConsistency.
pub record Consistency : Type 0 where
  pub missing_or_stale : List Text
  pub orphans : List Text
  pub error : Option Error

unfoldable pub is_empty : List Text → Bool
is_empty [] = true
is_empty (name ∷ names) = false

-- What follows the two searches: sort, and report an error if anything was found.
unfoldable pub report : List Text → List Text → Consistency
report missing_or_stale orphans =
    if not (is_empty missing_or_stale) || not (is_empty orphans)
    then record {
      missing_or_stale = sort missing_or_stale;
      orphans = sort orphans;
      error = some (new "lock file consistency check failed: %d missing/stale, %d orphans");
    }
    else record { missing_or_stale = []; orphans = []; error = none }

module _ (F : FileSystem) (toml : Toml) where
  -- The first loop: the components whose lock file is missing or stale.
  unfoldable pub missing_or_stale_in : F.State → Text → Dict ComponentConfig → List Text
  missing_or_stale_in fs lock_dir [] = []
  missing_or_stale_in fs lock_dir ((name, comp) ∷ components) =
      let rest = missing_or_stale_in fs lock_dir components in
      if comp.source_type == source_type_local
        || is_ok (validate_upstream_commit F toml fs lock_dir name comp.upstream_commit)
      then rest
      else name ∷ rest

  -- validateConsistency
  unfoldable pub validate_consistency : F.State → Text → Dict ComponentConfig → Bool → Consistency
  validate_consistency fs lock_dir components false =
      report (missing_or_stale_in fs lock_dir components) []
  validate_consistency fs lock_dir components true =
      elim (find_orphan_lock_files F fs lock_dir components) [
        | err e ↦ record {
          missing_or_stale = missing_or_stale_in fs lock_dir components;
          orphans = [];
          error = some (wrap "checking for orphan lock files:\n%w" e);
        }
        | ok orphans ↦ report (missing_or_stale_in fs lock_dir components) orphans
      ]

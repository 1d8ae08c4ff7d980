-- ===== src/Lockfile/Consistency.antt =====
-- internal/lockfile/lockfile.go: what the checks of lock files report.
pub mod Order
use mathlib.Core.List.{Perm, Permᴰ}
use azldev.Prelude.{
  List, ◌∷◌, [], Bool, true, false, ◌≡◌, refl, ◌≢◌, ◌↔◌, ◌⊎◌, inl, inr, not, Result, ok, err, arith,
}
use azldev.Prelude.{
  Option, some, none, if◌then◌else◌, ◌&&◌, ◌||◌, any, all, Result-cases, is_ok, Bool-cases,
}
use azldev.Text.{Text, ◌==◌, eq_iff, eq_refl}
use azldev.Text.Order.{contains, sort, contains-sort, sort-perm}
use azldev.Text.Dict.{Dict, lookup, is_some}
use azldev.FileSystem.{FileSystem, DirEntry}
use azldev.Lockfile.Codec.{ComponentLock, Toml}
use azldev.Lockfile.{lock_path, load, exists, validate_upstream_commit}
use azldev.Lockfile.Orphans.{
  ComponentConfig, source_type_local, is_lock_entry, component_of, orphans_in,
  find_orphan_lock_files, report, missing_or_stale_in, validate_consistency,
}

contains-orphans_in :
    (entries : List DirEntry) (components : Dict ComponentConfig) (name : Text)
    → contains (orphans_in entries components) name ≡ (
        any (λ e. is_lock_entry e && component_of e == name) entries
        && not (is_some (lookup name components)))
unfolding orphans_in contains
contains-orphans_in [] components name = refl
contains-orphans_in (entry ∷ entries) components name =
    ground (arith, contains-orphans_in entries components name, eq_iff (component_of entry) name)

-- The orphans are exactly the names of the lock files that are no component's.
contains-find_orphan_lock_files :
    (F : FileSystem) (fs : F.State) (lock_dir : Text) (components : Dict ComponentConfig)
    (entries : List DirEntry) (orphans : List Text)
    → F.read_dir fs lock_dir ≡ ok entries
    → find_orphan_lock_files F fs lock_dir components ≡ ok orphans
    → (name : Text)
    → contains orphans name ≡ (
        any (λ e. is_lock_entry e && component_of e == name) entries
        && not (is_some (lookup name components)))
unfolding find_orphan_lock_files
contains-find_orphan_lock_files F fs lock_dir components entries orphans read found name = ground (
  arith,
  contains-sort (orphans_in entries components) name,
  contains-orphans_in entries components name,
)

-- The lock file of the component is there, and agrees with the commit that the configuration pins.
pub record IsLocked (F : FileSystem) (toml : Toml) (fs : F.State) (lock_dir name pin commit : Text)
    : Type 0 where
  pub path : Text
  pub lock : ComponentLock
  pub at_path : lock_path lock_dir name ≡ ok path
  pub present : F.exists fs path ≡ ok true
  pub loads : load F toml fs path ≡ ok lock
  pub holds : lock.upstream_commit ≡ commit
  pub filled : commit ≢ []
  pub pinned : (pin ≡ []) ⊎ (pin ≡ commit)

module _ (F : FileSystem) (toml : Toml) (fs : F.State) (lock_dir name pin commit : Text) where
  IsLocked-validate :
      validate_upstream_commit F toml fs lock_dir name pin ≡ ok commit
      → IsLocked F toml fs lock_dir name pin commit
  unfolding validate_upstream_commit exists
  IsLocked-validate h = elim (Result-cases (lock_path lock_dir name)) [
    | inr (_, e) ↦ absurd (ground arith)
    | inl (path, e) ↦ elim (Result-cases (load F toml fs path)) [
      | inr (_, e') ↦ absurd (ground arith)
      | inl (lock, e') ↦ record {
        path = path;
        lock = lock;
        at_path = e;
        present = ground arith;
        loads = e';
        holds = ground arith;
        filled = ground (arith, eq_iff commit []);
        pinned = ground (arith, eq_iff pin [], eq_iff lock.upstream_commit pin);
      }
    ]
  ]

  -- ValidateUpstreamCommit returns a commit exactly if the lock file exists and loads, holds that
  -- commit, the commit is not empty, and the configuration pins nothing or that commit.
  pub validate_upstream_commit_iff :
      (validate_upstream_commit F toml fs lock_dir name pin ≡ ok commit)
      ↔ IsLocked F toml fs lock_dir name pin commit
  unfolding validate_upstream_commit exists
  validate_upstream_commit_iff = (
    IsLocked-validate,
    λ r. ground (
      arith,
      eq_iff commit [],
      eq_iff pin [],
      eq_iff r.lock.upstream_commit pin,
      r.at_path,
      r.present,
      r.loads,
      r.holds,
      r.filled,
      r.pinned,
    ),
  )

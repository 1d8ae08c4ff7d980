-- ===== src/Lockfile/Store.antt =====
-- internal/lockfile/store.go: the cached store, with its methods as state passing. The cache is a
-- `sync.Map` of `*ComponentLock` only, so the "unexpected type" branch of Get cannot be taken and
-- is not modelled; the pointers are to copies, so values stand for them. Calls are sequential.
pub mod Effects
pub mod Coherence
pub mod Prune
pub mod Trace
use azldev.Prelude.{
  List, ◌∷◌, [], Bool, true, false, not, Result, ok, err, new, wrap, join, context,
}
use azldev.Prelude.{◌>>=◌, ◌>>◌, Error, Option, some, none, if◌then◌else◌, ℕ, ◌+◌}
use azldev.Text.{Text}
use azldev.Text.Dict.{Dict, lookup, put, delete, is_some}
use azldev.FileSystem.{FileSystem}
use azldev.Lockfile.Codec.{ComponentLock, Toml, new_lock}
use azldev.Lockfile
use azldev.Lockfile.{lock_path}
use azldev.Lockfile.Orphans.{
  ComponentConfig, Consistency, find_orphan_lock_files, validate_consistency,
}

pub record Store (F : FileSystem) : Type 0 where
  pub fs : F.State
  pub lock_dir : Text
  pub cache : Dict ComponentLock

-- NewStore
unfoldable pub new_store : (F : FileSystem) → F.State → Text → Store F
new_store F fs lock_dir = record { fs = fs; lock_dir = lock_dir; cache = [] }

module _ (F : FileSystem) (toml : Toml) where
  -- The part of Get after a miss in the cache.
  unfoldable pub load_lock : Store F → Text → Result ComponentLock
  load_lock s name = do
    path ← context "getting lock path for component %#q:\n%w" (lock_path s.lock_dir name)
    Lockfile.load F toml s.fs path

  -- Store.Get
  unfoldable pub get : Store F → Text → Result ComponentLock × Store F
  get s name = elim (lookup name s.cache) [
    | some lock ↦ (ok lock, s)
    | none ↦ elim (load_lock s name) [
      | err e ↦ (err e, s)
      | ok lock ↦ (ok lock, record s { cache = put name lock s.cache })
    ]
  ]

  -- Store.Exists
  unfoldable pub exists : Store F → Text → Result Bool
  exists s name = elim (lookup name s.cache) [
    | some lock ↦ ok true
    | none ↦ do
      path ← context "getting lock path for component %#q:\n%w" (lock_path s.lock_dir name)
      Lockfile.exists F toml s.fs path
  ]

  -- Store.GetOrNew
  unfoldable pub get_or_new : Store F → Text → Result ComponentLock × Store F
  get_or_new s name =
      let (got, s') = get s name in
      elim got [
        | ok lock ↦ (ok lock, s')
        | err e ↦ elim (exists s' name) [
          | err exists_err ↦ (err (wrap "checking lock for %#q:\n%w" exists_err), s')
          | ok present ↦ (
            if present then err (wrap "loading existing lock for %#q:\n%w" e) else ok new_lock,
            s',
          )
        ]
      ]

  -- Store.Save; a nil lock is `none`.
  unfoldable pub save : Store F → Text → Option ComponentLock → Result (Unit {0}) × Store F
  save s name none = (err (new "cannot save nil lock for component %#q"), s)
  save s name (some lock) = elim (lock_path s.lock_dir name) [
    | err e ↦ (err (wrap "getting lock path for component %#q:\n%w" e), s)
    | ok path ↦
        let (saved, fs') = Lockfile.save F toml s.fs lock path in
        elim saved [
          | err e ↦ (err e, record s { fs = fs' })
          | ok _ ↦ (ok tt, record s { fs = fs'; cache = put name lock s.cache })
        ]
  ]

  -- Store.Remove
  unfoldable pub remove : Store F → Text → Result (Unit {0}) × Store F
  remove s name = elim (lock_path s.lock_dir name) [
    | err e ↦ (err (wrap "getting lock path for component %#q:\n%w" e), s)
    | ok path ↦
        let (removed, fs') = Lockfile.remove F toml s.fs path in
        elim removed [
          | err e ↦ (err e, record s { fs = fs' })
          | ok _ ↦ (ok tt, record s { fs = fs'; cache = delete name s.cache })
        ]
  ]

  -- Store.ValidateConsistency
  unfoldable pub validate : Store F → Dict ComponentConfig → Bool → Consistency
  validate s components check_orphans =
      validate_consistency F toml s.fs s.lock_dir components check_orphans

  -- The loop of PruneOrphans: the files removed, the errors in reverse order, and the store.
  unfoldable pub remove_all : Store F → List Text → ℕ → List Error → ℕ × List Error × Store F
  remove_all s [] pruned errs = (pruned, errs, s)
  remove_all s (name ∷ names) pruned errs =
      let (removed, s') = remove s name in
      elim removed [
        | err e ↦ remove_all s' names pruned (wrap "removing lock for %#q:\n%w" e ∷ errs)
        | ok _ ↦ remove_all s' names (pruned + 1) errs
      ]

  -- errors.Join over a list that is not empty
  unfoldable pub join_errors : Error → List Error → Error
  join_errors e [] = e
  join_errors e (e' ∷ errs) = join_errors (join e' e) errs

  -- The end of PruneOrphans: what was removed, and the error.
  unfoldable pub prune_result : ℕ → List Error → ℕ × Option Error
  unfolding join_errors
  prune_result pruned [] = (pruned, none)
  prune_result pruned (e ∷ errs) =
      (pruned, some (wrap "failed to remove %d orphan lock file(s):\n  %w" (join_errors e errs)))

  -- Store.PruneOrphans
  unfoldable pub prune_orphans : Store F → Dict ComponentConfig → (ℕ × Option Error) × Store F
  prune_orphans s components = elim (find_orphan_lock_files F s.fs s.lock_dir components) [
    | err e ↦ ((0, some (wrap "finding orphan lock files:\n%w" e)), s)
    | ok orphans ↦
        let (pruned, errs, s') = remove_all s orphans 0 [] in (prune_result pruned errs, s')
  ]

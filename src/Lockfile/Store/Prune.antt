-- ===== src/Lockfile/Store/Prune.antt =====
-- internal/lockfile/store.go: PruneOrphans and what it counts.
use azldev.Prelude.{List, ◌∷◌, [], false, ◌≡◌, refl, ok, Error, arith, ℕ, ◌+◌, wrap, ◌≤◌, ◌<◌, ◌≢◌}
use azldev.Prelude.{none, if◌then◌else◌, Result-cases, inl, inr, length}
use azldev.Text.{Text, ◌==◌, eq_iff}
use azldev.Text.Order.{contains}
use azldev.Text.Dict.{Dict, lookup-delete}
use azldev.FileSystem.{FileSystem, IsLawful}
use azldev.Lockfile.Codec.{Toml}
use azldev.Lockfile
use azldev.Lockfile.{lock_path}
use azldev.Lockfile.Paths.{lock_path_ne}
use azldev.Lockfile.Orphans.{ComponentConfig, find_orphan_lock_files}
use azldev.Lockfile.Store.{Store, exists, remove, remove_all, prune_orphans, prune_result}
use azldev.Lockfile.Store.Effects

module _ (F : FileSystem) (toml : Toml) where
  -- Each name counts once, as removed or as an error.
  remove_all_count :
      (s : Store F) (names : List Text) (pruned : ℕ) (errs : List Error)
      → (remove_all F toml s names pruned errs).0 + length (remove_all F toml s names pruned errs).1
        ≡ pruned + length errs + length names
  unfolding remove_all
  remove_all_count s [] pruned errs = omega arith
  remove_all_count s (name ∷ names) pruned errs = elim (Result-cases (remove F toml s name).0) [
    | inl (_, e) ↦ ground (arith, remove_all_count (remove F toml s name).1 names (pruned + 1) errs)
    | inr (error, e) ↦ ground (
      arith,
      remove_all_count (remove F toml s name).1 names pruned
          (wrap "removing lock for %#q:\n%w" error ∷ errs),
    )
  ]

  -- Errors are only added.
  remove_all-errs :
      (s : Store F) (names : List Text) (pruned : ℕ) (errs : List Error)
      → length errs ≤ length (remove_all F toml s names pruned errs).1
  unfolding remove_all
  remove_all-errs s [] pruned errs = omega arith
  remove_all-errs s (name ∷ names) pruned errs = elim (Result-cases (remove F toml s name).0) [
    | inl (_, e) ↦ ground (arith, remove_all-errs (remove F toml s name).1 names (pruned + 1) errs)
    | inr (error, e) ↦ ground (
      arith,
      remove_all-errs (remove F toml s name).1 names pruned
          (wrap "removing lock for %#q:\n%w" error ∷ errs),
    )
  ]

module _ (F : FileSystem) (toml : Toml) (lawful : IsLawful F) where
  exists-remove_ne :
      (s : Store F) (name other : Text)
      → (name == other) ≡ false
      → exists F toml (remove F toml s name).1 other ≡ exists F toml s other
  unfolding remove exists Lockfile.remove Lockfile.exists
  exists-remove_ne s name other differ = elim (Result-cases (lock_path s.lock_dir name)) [
    | inl (path, e) ↦ elim (Result-cases (lock_path s.lock_dir other)) [
      | inl (path', e') ↦ ground (
        arith,
        lock_path_ne s.lock_dir name other path path',
        lawful.exists-remove_ne s.fs path path',
        lookup-delete name other s.cache,
      )
      | inr (_, e') ↦ ground (arith, lookup-delete name other s.cache)
    ]
    | inr (_, e) ↦ ground arith
  ]

  exists-remove_all :
      (s : Store F) (names : List Text) (pruned : ℕ) (other : Text)
      → (remove_all F toml s names pruned []).1 ≡ []
      → exists F toml (remove_all F toml s names pruned []).2 other
        ≡ (if contains names other then ok false else exists F toml s other)
  unfolding remove_all contains
  exists-remove_all s [] pruned other clean = refl
  exists-remove_all s (name ∷ names) pruned other clean =
      elim (Result-cases (remove F toml s name).0) [
        | inl (_, e) ↦ ground (
          arith,
          exists-remove_all (remove F toml s name).1 names (pruned + 1) other,
          Effects.exists-remove F toml lawful s name,
          exists-remove_ne s name other,
          eq_iff name other,
        )
        | inr (error, e) ↦ ground (
          arith,
          remove_all-errs F toml (remove F toml s name).1 names pruned
              (wrap "removing lock for %#q:\n%w" error ∷ []),
        )
      ]

  -- When PruneOrphans reports no error, it has removed as many lock files as there were orphans;
  -- no orphan has a lock file any more, and every other component has one if it had one before.
  pub prune_orphans-success :
      (s : Store F) (components : Dict ComponentConfig) (orphans : List Text)
      → find_orphan_lock_files F s.fs s.lock_dir components ≡ ok orphans
      → (prune_orphans F toml s components).0.1 ≡ none
      → ((prune_orphans F toml s components).0.0 ≡ length orphans)
        × ((other : Text)
            → exists F toml (prune_orphans F toml s components).1 other
              ≡ (if contains orphans other then ok false else exists F toml s other))
  unfolding prune_orphans prune_result
  prune_orphans-success s components orphans found clean = (
    ground (arith, remove_all_count F toml s orphans 0 []),
    λ other. ground (arith, exists-remove_all s orphans 0 other),
  )

  -- PruneOrphans accounts for every orphan: what it did not remove shows as an error.
  pub prune_orphans-failure :
      (s : Store F) (components : Dict ComponentConfig) (orphans : List Text)
      → find_orphan_lock_files F s.fs s.lock_dir components ≡ ok orphans
      → (prune_orphans F toml s components).0.0 < length orphans
      → (prune_orphans F toml s components).0.1 ≢ none
  unfolding prune_orphans prune_result
  prune_orphans-failure s components orphans found fewer =
      ground (arith, remove_all_count F toml s orphans 0 [])

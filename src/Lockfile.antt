-- ===== src/Lockfile.antt =====
-- internal/lockfile/lockfile.go: per-component lock files. The TOML codec is the package go-toml,
-- a parameter with the laws that are used.
pub mod Codec
pub mod Paths
pub mod Orphans
pub mod Consistency
pub mod Store
mod Tests
use azldev.Prelude.{
  ◌∷◌, [], ◌++◌, Bool, true, false, ◌&&◌, not, Result, ok, err, wrap, context, reject_if,
}
use azldev.Prelude.{◌>>=◌, ◌>>◌, ℤ, pos, is_pos, ℕ, if◌then◌else◌}
use azldev.Text.{Text, ◌==◌, codes}
use azldev.FilePath.{join, validate_filename}
use azldev.FilePath.Clean.{dir}
use azldev.FileSystem.{FileSystem}
use azldev.Lockfile.Codec.{ComponentLock, Toml, current_version, lock_file_extension}

-- LockPath
unfoldable pub lock_path : Text → Text → Result Text
lock_path lock_dir component_name = do
  context "validating component name %#q for lock file path:\n%w" (validate_filename component_name)
  ok (join lock_dir (component_name ++ lock_file_extension))

module _ (F : FileSystem) (toml : Toml) where
  -- Parse
  unfoldable pub parse : Text → Result ComponentLock
  parse data' = do
    lock ← context "parsing lock file:\n%w" (toml.unmarshal data')
    reject_if (not (is_pos lock.version current_version))
        "unsupported lock file version %d (expected %d)"
    ok lock

  -- Load
  unfoldable pub load : F.State → Text → Result ComponentLock
  load fs path = do
    data' ← context "reading lock file %#q:\n%w" (F.read_file fs path)
    context "loading lock file %#q:\n%w" (parse data')

  -- ComponentLock.Save
  unfoldable pub save : F.State → ComponentLock → Text → Result (Unit {0}) × F.State
  save fs lock path =
      let (made, fs') = F.mkdir_all fs (dir path) in
      elim made [
        | err e ↦ (err (wrap "creating lock directory %#q:\n%w" e), fs')
        | ok _ ↦ elim (toml.marshal lock) [
          | err e ↦ (err (wrap "marshaling lock file:\n%w" e), fs')
          | ok data' ↦
              let (written, fs'') = F.write_file fs' path data' in
              (context "writing lock file %#q:\n%w" written, fs'')
        ]
      ]

  -- Exists
  unfoldable pub exists : F.State → Text → Result Bool
  exists fs path = context "checking lock file %#q:\n%w" (F.exists fs path)

  -- Remove
  unfoldable pub remove : F.State → Text → Result (Unit {0}) × F.State
  remove fs path =
      let (removed, fs') = F.remove fs path in (context "removing lock file %#q:\n%w" removed, fs')

  -- ValidateUpstreamCommit
  unfoldable pub validate_upstream_commit : F.State → Text → Text → Text → Result Text
  validate_upstream_commit fs lock_dir component_name config_upstream_commit = do
    path ← context "getting lock path for %#q:\n%w" (lock_path lock_dir component_name)
    present ← context "checking lock for %#q:\n%w" (exists fs path)
    reject_if (not present)
        "no lock file for upstream component %#q; run 'azldev component update %s' to create one"
    lock ← context "loading lock for %#q:\n%w" (load fs path)
    reject_if (lock.upstream_commit == [])
        "lock file for %#q has no upstream-commit; run 'azldev component update %s' to populate"
    reject_if
        (not (config_upstream_commit == []) && not (lock.upstream_commit == config_upstream_commit))
        "lock is stale for %#q: config pins %#q but lock has %#q"
    ok lock.upstream_commit

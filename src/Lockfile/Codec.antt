-- ===== src/Lockfile/Codec.antt =====
-- The data of internal/lockfile/lockfile.go, and the TOML codec that it calls.
use azldev.Prelude.{Result, ok, ℤ, pos, ℕ, ◌≡◌}
use azldev.Text.{Text, codes}

-- lockFileExtension
abbrev pub lock_file_extension : Text
lock_file_extension = codes ".lock"

-- currentVersion
abbrev pub current_version : ℕ
current_version = 1

pub record ComponentLock : Type 0 where
  pub version : ℤ
  pub import_commit : Text
  pub upstream_commit : Text
  pub manual_bump : ℤ
  pub input_fingerprint : Text
  pub resolution_input_hash : Text

-- New
unfoldable pub new_lock : ComponentLock
new_lock = record {
  version = pos current_version;
  import_commit = codes "";
  upstream_commit = codes "";
  manual_bump = pos 0;
  input_fingerprint = codes "";
  resolution_input_hash = codes "";
}

-- toml.Marshal and toml.Unmarshal at `ComponentLock`
pub record Toml : Type 0 where
  pub marshal : ComponentLock → Result Text
  pub unmarshal : Text → Result ComponentLock

-- What was written can be read back.
pub record IsCodec (toml : Toml) : Type 0 where
  pub unmarshal-marshal :
      (lock : ComponentLock) (data' : Text)
      → toml.marshal lock ≡ ok data'
      → toml.unmarshal data' ≡ ok lock

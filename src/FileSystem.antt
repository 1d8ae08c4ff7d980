-- ===== src/FileSystem.antt =====
-- The file system behind `opctx.FS` (internal/global/opctx/interfaces.go), as the stores use it
-- through internal/utils/fileutils/file.go. Its implementation is the package afero, so it is a
-- parameter: the operations, and in `IsLawful` what their documentation promises.
pub mod Memory
use azldev.Prelude.{List, Bool, true, false, Result, ok, Option, some, none, ◌≡◌, if◌then◌else◌}
use azldev.Text.{Text, ◌==◌}

-- What ReadDir tells of an entry.
pub record DirEntry : Type 0 where
  pub name : Text
  pub is_dir : Bool

-- A write returns the state that it leaves, also when it fails.
pub record FileSystem : Type 1 where
  pub State : Type 0
  pub read_file : State → Text → Result Text
  pub exists : State → Text → Result Bool
  pub dir_exists : State → Text → Result Bool
  pub read_dir : State → Text → Result (List DirEntry)
  pub write_file : State → Text → Text → Result (Unit {0}) × State
  pub mkdir_all : State → Text → Result (Unit {0}) × State
  pub remove : State → Text → Result (Unit {0}) × State

-- Files at other paths are left alone; a successful write can be read back; making a directory
-- touches no file; what was removed is gone. `exists` is answered from the same state.
pub record IsLawful (F : FileSystem) : Type 0 where
  pub read-write :
      (s : F.State) (p data' : Text)
      → (F.write_file s p data').0 ≡ ok tt
      → F.read_file (F.write_file s p data').1 p ≡ ok data'
  pub read-write_ne :
      (s : F.State) (p q data' : Text)
      → (p == q) ≡ false
      → F.read_file (F.write_file s p data').1 q ≡ F.read_file s q
  pub read-mkdir_all :
      (s : F.State) (dir q : Text) → F.read_file (F.mkdir_all s dir).1 q ≡ F.read_file s q
  pub exists-remove :
      (s : F.State) (p : Text) → (F.remove s p).0 ≡ ok tt → F.exists (F.remove s p).1 p ≡ ok false
  pub exists-remove_ne :
      (s : F.State) (p q : Text) → (p == q) ≡ false → F.exists (F.remove s p).1 q ≡ F.exists s q
  pub read-remove_ne :
      (s : F.State) (p q : Text)
      → (p == q) ≡ false
      → F.read_file (F.remove s p).1 q ≡ F.read_file s q
  pub exists-read :
      (s : F.State) (p data' : Text) → F.read_file s p ≡ ok data' → F.exists s p ≡ ok true

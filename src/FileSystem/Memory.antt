-- ===== src/FileSystem/Memory.antt =====
-- A file system in memory with one directory. It shows that the assumptions of `IsLawful` can be
-- met, and the tests run on it.
use azldev.Prelude.{true, false, Result, ok, err, new, refl, Option, some, none}
use azldev.Prelude.{arith, map}
use azldev.Text.{Text, eq_refl}
use azldev.Text.Dict.{Dict, lookup, put, delete, is_some, lookup-put, lookup-delete}
use azldev.FilePath.Clean.{after_last_slash}
use azldev.FileSystem.{FileSystem, IsLawful, DirEntry}

abbrev pub found : Option Text → Result Text
found none = err (new "file does not exist")
found (some data') = ok data'

abbrev pub remove_file : Dict Text → Text → Option Text → Result (Unit {0}) × Dict Text
remove_file files p none = (err (new "file does not exist"), files)
remove_file files p (some data') = (ok tt, delete p files)

abbrev pub entry_of : Text × Text → DirEntry
entry_of (p, data') = record { name = after_last_slash p; is_dir = false }

abbrev pub memory : FileSystem
memory = record {
  State = Dict Text;
  read_file = λ files p. found (lookup p files);
  exists = λ files p. ok (is_some (lookup p files));
  dir_exists = λ files dir. ok true;
  read_dir = λ files dir. ok (map entry_of files);
  write_file = λ files p data'. (ok tt, put p data' files);
  mkdir_all = λ files dir. (ok tt, files);
  remove = λ files p. remove_file files p (lookup p files);
}

pub memory-IsLawful : IsLawful memory
memory-IsLawful = record {
  read-write = λ s p d h. rw (lookup-put, eq_refl);
  read-write_ne = λ s p q d h. rw (lookup-put, h);
  read-mkdir_all = λ s dir q. refl;
  exists-remove = λ s p h. ground (arith, lookup-delete p p s, eq_refl p);
  exists-remove_ne = λ s p q h. ground (arith, lookup-delete p q s);
  read-remove_ne = λ s p q h. ground (arith, lookup-delete p q s);
  exists-read = λ s p d h. ground arith;
}

-- ===== src/Lockfile/Paths.antt =====
-- internal/lockfile/lockfile.go: the paths of the lock files of different components.
use mathlib.Core.Bool.{false≢true}
use azldev.Prelude.{◌++◌, ◌≡◌, refl, ◌∙◌, sym, true, false, arith, ok, Bool-cases, inl, inr}
use azldev.Text.{Text, ◌==◌, codes, eq_iff, eq_refl}
use azldev.FilePath.{join}
use azldev.FilePath.Valid.{is_filename, validate_filename-is_filename}
use azldev.FilePath.Extension.{join_extension_injective}
use azldev.Lockfile.{lock_path}
use azldev.Lockfile.Codec.{lock_file_extension}

-- The path of a component's lock file is its name with the extension, in the directory.
lock_path-eq_ok :
    (lock_dir n p : Text)
    → lock_path lock_dir n ≡ ok p
    → (is_filename n ≡ true) × (p ≡ join lock_dir (n ++ lock_file_extension))
unfolding lock_path
lock_path-eq_ok lock_dir n p h = ground (arith, validate_filename-is_filename n)

-- Two components that have the same lock file path are the same component.
pub lock_path-injective :
    (lock_dir n m p : Text) → lock_path lock_dir n ≡ ok p → lock_path lock_dir m ≡ ok p → n ≡ m
lock_path-injective lock_dir n m p hn hm =
    let (valid, e) = lock_path-eq_ok lock_dir n p hn in
    let (valid', e') = lock_path-eq_ok lock_dir m p hm in
    join_extension_injective b'.' b'l' b'o' (codes "ck") refl lock_dir n m valid valid' (sym e ∙ e')

pub lock_path_ne :
    (lock_dir n m p q : Text)
    → lock_path lock_dir n ≡ ok p
    → lock_path lock_dir m ≡ ok q
    → (n == m) ≡ false
    → (p == q) ≡ false
lock_path_ne lock_dir n m p q hn hm differ = elim (Bool-cases (p == q)) [
  | inl same ↦ absurd (
      false≢true (
        cc
          (differ, eq_refl n, lock_path-injective lock_dir n m p hn (rw ((eq_iff p q).0 same) hm))))
  | inr e ↦ e
]

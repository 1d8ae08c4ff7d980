-- ===== src/FilePath.antt =====
-- What the program uses of the package `path/filepath` (on Unix), and `ValidateFilename` and
-- `ValidateRelPath` of internal/utils/fileutils/file.go.
pub mod Clean
pub mod Names
pub mod Valid
pub mod Relative
mod Tests
pub mod Extension
use azldev.Prelude.{
  ℕ, ◌∷◌, [], ◌++◌, Bool, true, false, ◌||◌, not, ltb, ◌=?◌, any, arith, ◌≡◌, refl,
}
use azldev.Prelude.{if◌then◌else◌, Result, ok, reject_if, context, List, ◌>>=◌, ◌>>◌, String}
use azldev.Text.{Text, ◌==◌, codes, is_space, contains_rune, split, has_prefix}
use azldev.FilePath.Clean.{is_abs, clean, base}

-- filepath.Join(dir, name): empty elements are left out.
unfoldable pub join : Text → Text → Text
join [] [] = []
join [] (c ∷ name) = clean (c ∷ name)
join (d ∷ dir) name = clean (d ∷ (dir ++ (b'/' ∷ name)))

-- ValidateFilename
unfoldable pub validate_filename : Text → Result (Unit {0})
validate_filename filename = do
  reject_if (filename == []) "filename cannot be empty"
  reject_if (filename == codes "." || filename == codes "..")
      "filename %#q is not a valid file name"
  reject_if (is_abs filename) "filename %#q cannot be an absolute path"
  reject_if (not (clean filename == filename)) "filename %#q contains path traversal elements"
  reject_if (not (base filename == filename))
      "filename %#q must be a simple filename without directory components"
  reject_if (any is_space filename) "filename %#q must not contain whitespace"
  reject_if (contains_rune filename 0) "filename %#q must not contain null bytes"
  reject_if (contains_rune filename b'\\') "filename %#q must not contain backslashes"
  reject_if (any (λ r. ltb 127 r) filename) "filename %#q must contain only ASCII characters"
  ok tt

-- The loop of ValidateRelPath over the segments.
unfoldable pub validate_segments : List Text → Result (Unit {0})
unfolding validate_filename
validate_segments [] = ok tt
validate_segments (segment ∷ segments) = do
  context "path %#q has invalid segment:\n%w" (validate_filename segment)
  validate_segments segments

-- ValidateRelPath
unfoldable pub validate_rel_path : Text → Result (Unit {0})
unfolding validate_segments
validate_rel_path path = do
  reject_if (path == []) "path cannot be empty"
  reject_if (is_abs path || has_prefix path (codes "/")) "path %#q must be relative"
  reject_if (contains_rune path b'\\') "path %#q must not contain backslashes"
  reject_if (not (clean path == path)) "path %#q must be in canonical form"
  validate_segments (split path b'/')

-- ===== src/Archive.antt =====
-- internal/utils/archive/archive.go: the compression that an archive's name stands for.
use azldev.Prelude.{Bool, ◌||◌, if◌then◌else◌, Result, ok, err, new, is_ok}
use azldev.Text.{Text, codes, to_lower, has_suffix}

pub data Compression : Type 0 where
  uncompressed gzip xz zstd : Compression

-- DetectCompression
unfoldable pub detect_compression : Text → Result Compression
detect_compression filename =
    let lower = to_lower filename in
    if has_suffix lower (codes ".tar.gz") || has_suffix lower (codes ".tgz")
    then ok gzip
    else if has_suffix lower (codes ".tar.xz") || has_suffix lower (codes ".txz")
    then ok xz
    else if has_suffix lower (codes ".tar.zst") || has_suffix lower (codes ".tzst")
    then ok zstd
    else if has_suffix lower (codes ".tar")
    then ok uncompressed
    else err (new "unsupported archive format %#q")

-- IsArchiveName
unfoldable pub is_archive_name : Text → Bool
unfolding detect_compression
is_archive_name filename = is_ok (detect_compression filename)

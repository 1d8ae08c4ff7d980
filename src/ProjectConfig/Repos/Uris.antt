-- ===== src/ProjectConfig/Repos/Uris.antt =====
-- internal/projectconfig/resources.go: the forms of URIs and of keys.
use azldev.Prelude.{ℕ, ◌+◌, ◌∷◌, [], Bool, true, false, ◌||◌, ◌&&◌, not, ◌=?◌, leb}
use azldev.Prelude.{if◌then◌else◌, Result, ok, err, new, context, reject_if, ◌>>=◌, ◌>>◌}
use azldev.Text.{Text, ◌==◌, codes, to_lower}
use azldev.FilePath.{join}
use azldev.FilePath.Clean.{is_abs, clean}

-- What the program reads of a parsed `url.URL`.
pub record Url : Type 0 where
  pub scheme : Text
  pub opaque : Text
  pub host : Text
  pub path : Text
  pub raw_query : Text
  pub fragment : Text

-- What the program uses of `net/url`: `url.Parse`, and the text of a URL with the scheme "file" and a
-- path.
pub record UrlPackage : Type 0 where
  pub parse : Text → Result Url
  pub file_url : Text → Text

abbrev pub is_letter : ℕ → Bool
is_letter c = leb b'a' c && leb c b'z' || leb b'A' c && leb c b'Z'

abbrev pub is_digit : ℕ → Bool
is_digit c = leb b'0' c && leb c b'9'

abbrev pub scheme_http : Text
scheme_http = codes "http"

abbrev pub scheme_https : Text
scheme_https = codes "https"

abbrev pub scheme_file : Text
scheme_file = codes "file"

-- validateNoUnsafeChars
unfoldable pub validate_no_unsafe_chars : Text → Result (Unit {0})
validate_no_unsafe_chars [] = ok tt
validate_no_unsafe_chars (char ∷ value) =
    let rest = validate_no_unsafe_chars value in
    if char =? 13 || char =? 10
    then err (new "%s %#q `%s` must be a single line (no embedded CR/LF at byte %d)")
    else if char =? 0
    then err (new "%s %#q `%s` must not contain NUL bytes (at byte %d)")
    else if char =? 0x2028 || char =? 0x2029
    then err (new "%s %#q `%s` must not contain Unicode line separators (at byte %d)")
    else rest

-- The loop of hasURIScheme after the first character.
unfoldable pub scheme_goes_on : Text → Bool
scheme_goes_on [] = false
scheme_goes_on (char ∷ s) =
    let rest = scheme_goes_on s in
    if is_letter char || is_digit char || char =? b'+' || char =? b'-' || char =? b'.'
    then rest
    else char =? b':'

-- hasURIScheme
unfoldable pub has_uri_scheme : Text → Bool
unfolding scheme_goes_on
has_uri_scheme [] = false
has_uri_scheme (char ∷ s) = if not (is_letter char) then false else scheme_goes_on s

-- A text in the form in which `strings.EqualFold` compares it with "file", whose letters have one other
-- case each.
unfoldable pub fold : Text → Text
fold [] = []
fold (char ∷ s) = (if leb b'A' char && leb char b'Z' then char + 32 else char) ∷ fold s

module _ (U : UrlPackage) where
  -- validateRemoteURI
  unfoldable pub validate_remote_uri : Text → Result (Unit {0})
  unfolding validate_no_unsafe_chars
  validate_remote_uri raw = do
    validate_no_unsafe_chars raw
    parsed ← context "%s %#q `%s` is not a valid URI:\n%w" (U.parse raw)
    reject_if (to_lower parsed.scheme == [])
        "%s %#q `%s` is missing a scheme (expected an http or https URL)"
    reject_if
        (not (to_lower parsed.scheme == scheme_http || to_lower parsed.scheme == scheme_https))
        "%s %#q `%s` uses unsupported scheme %q; only http and https are accepted"
    reject_if (not (parsed.opaque == []))
        "%s %#q `%s` must use the `scheme://host/path` form (got opaque URI %q)"
    reject_if (parsed.host == []) "%s %#q `%s` must include a host (got %q)"

  -- The last switch of validateGPGKey, by whether the scheme is "file".
  unfoldable pub validate_key_place : Bool → Url → Result (Unit {0})
  validate_key_place false parsed =
      reject_if (parsed.host == []) "%s %#q `gpg-key` must include a host (got %q)"
  validate_key_place true parsed = do
    reject_if (not (parsed.host == []))
        "%s %#q `gpg-key` must be of the form `file:///absolute/path` (got host %q in %q)"
    reject_if (not (is_abs parsed.path))
        "%s %#q `gpg-key` must be an absolute `file://` path (got %q)"

  -- validateGPGKey, for a value with a scheme
  unfoldable pub validate_key_uri : Text → Result (Unit {0})
  unfolding validate_key_place
  validate_key_uri raw = do
    parsed ← context "%s %#q `gpg-key` is not a valid URI:\n%w" (U.parse raw)
    reject_if
        (not (
          to_lower parsed.scheme == scheme_http
          || to_lower parsed.scheme == scheme_https
          || to_lower parsed.scheme == scheme_file))
        "%s %#q `gpg-key` uses unsupported scheme %q; expected http, https, or file"
    reject_if (not (parsed.opaque == []))
        "%s %#q `gpg-key` must use the `scheme://...` form (got opaque URI %q)"
    validate_key_place (to_lower parsed.scheme == scheme_file) parsed

  -- validateGPGKey
  unfoldable pub validate_gpg_key : Text → Result (Unit {0})
  unfolding validate_no_unsafe_chars has_uri_scheme validate_key_uri
  validate_gpg_key raw = do
    validate_no_unsafe_chars raw
    if not (has_uri_scheme raw) then ok tt else validate_key_uri raw

  -- The end of RpmRepoResource.IsLocalGPGKey
  unfoldable pub has_file_scheme : Result Url → Bool
  unfolding fold
  has_file_scheme (ok parsed) = fold parsed.scheme == scheme_file
  has_file_scheme (err e) = false

  -- RpmRepoResource.IsLocalGPGKey, of the key
  unfoldable pub is_local_gpg_key : Text → Bool
  unfolding has_uri_scheme has_file_scheme
  is_local_gpg_key gpg_key =
      if gpg_key == []
      then false
      else if not (has_uri_scheme gpg_key)
      then true
      else has_file_scheme (U.parse gpg_key)

  -- absolutizeKeyPath
  unfoldable pub absolutize_key_path : Text → Text → Text
  unfolding has_uri_scheme
  absolutize_key_path key reference_dir =
      if has_uri_scheme key
      then key
      else U.file_url (clean (if not (is_abs key) then join reference_dir key else key))

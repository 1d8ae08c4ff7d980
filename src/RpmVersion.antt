-- ===== src/RpmVersion.antt =====
-- internal/rpm/version.go: the validation of RPM version strings. A `Version` holds the validated text
-- here; what the package go-rpm-version makes of it is no part of the model.
pub mod Parts
mod Tests
use azldev.Prelude.{
  ℕ, ◌+◌, ◌*◌, ◌-◌, ◌^◌, List, [], ◌∷◌, ◌++◌, Bool, true, false, ◌&&◌, ◌||◌, not, Option, some,
  none,
}
use azldev.Prelude.{
  Result, ok, err, new, context, reject_if, ◌>>=◌, ◌>>◌, if◌then◌else◌, leb, ltb, any, ◌=?◌, ℤ, pos,
  negsuc,
}
use azldev.Text.{Text, ◌==◌, codes, contains_rune, split}

-- The value of decimal digits, after the value of the digits before.
unfoldable pub digits_value : Text → ℕ → Option ℕ
digits_value [] value = some value
digits_value (c ∷ text) value =
    let rest = digits_value text (10 * value + (c - b'0')) in
    if leb b'0' c && leb c b'9' then rest else none

-- strconv.ParseInt for an unsigned decimal text that is not empty
abbrev unsigned : Text → Option ℕ
unsigned [] = none
unsigned (c ∷ text) = digits_value (c ∷ text) 0

abbrev negated : ℕ → ℤ
negated n = if n =? 0 then pos 0 else negsuc (n - 1)

abbrev in_range : Option ℕ → ℕ → (ℕ → ℤ) → Option ℤ
in_range none limit sign = none
in_range (some n) limit sign = if leb n limit then some (sign n) else none

-- strconv.Atoi with its optional sign, for an int of 64 bits; `none` is an error.
unfoldable pub atoi : Text → Option ℤ
unfolding digits_value
atoi [] = none
atoi (c ∷ text) =
    if c =? b'-'
    then in_range (unsigned text) (2 ^ 63) negated
    else if c =? b'+'
    then in_range (unsigned text) (2 ^ 63 - 1) pos
    else in_range (unsigned (c ∷ text)) (2 ^ 63 - 1) pos

abbrev is_not_negative : Option ℤ → Bool
is_not_negative none = false
is_not_negative (some (pos n)) = true
is_not_negative (some (negsuc n)) = false

-- The test of verifyEpochString: Atoi succeeds, with no negative number.
unfoldable pub is_epoch : Text → Bool
unfolding atoi
is_epoch epoch = is_not_negative (atoi epoch)

-- verifyEpochString
unfoldable pub verify_epoch_string : Text → Result (Unit {0})
verify_epoch_string epoch = do
  reject_if (epoch == []) "RPM epoch in version %#q is empty despite a colon being present"
  reject_if (not (is_epoch epoch)) "RPM epoch %#q in version %#q is not a valid positive integer"
  ok tt

-- verifyReleaseString
unfoldable pub verify_release_string : Text → Result (Unit {0})
verify_release_string release =
    reject_if (release == []) "RPM release string in version %#q is empty after the hyphen"

-- verifyVersionString
unfoldable pub verify_version_string : Text → Result (Unit {0})
verify_version_string version =
    reject_if (version == []) "RPM version string in version %#q is empty before the hyphen"

-- The part of verifyFullVersionString on the hyphens.
unfoldable pub verify_hyphen_split : List Text → Result (Unit {0})
verify_hyphen_split [] = ok tt
verify_hyphen_split (version ∷ []) = verify_version_string version
verify_hyphen_split (version ∷ release ∷ []) = do
  verify_version_string version
  verify_release_string release
verify_hyphen_split (a ∷ b ∷ c ∷ parts) = err (new "RPM version %#q has more than one hyphen")

-- The part on the colons.
unfoldable pub verify_colon_split : Text → List Text → Result (Unit {0})
verify_colon_split full [] = ok tt
verify_colon_split full (version ∷ []) = verify_hyphen_split (split full b'-')
verify_colon_split full (epoch ∷ version ∷ []) = do
  verify_epoch_string epoch
  verify_hyphen_split (split version b'-')
verify_colon_split full (a ∷ b ∷ c ∷ parts) = err (new "RPM version %#q has more than one colon")

-- invalidChars
unfoldable pub has_invalid_char : Text → Bool
has_invalid_char full = any (λ c. contains_rune full c) (codes " /\\!@")

-- verifyFullVersionString
unfoldable pub verify_full_version_string : Text → Result (Unit {0})
verify_full_version_string full = do
  reject_if (full == []) "RPM version string is empty"
  reject_if (has_invalid_char full) "RPM version %#q contains invalid character '%s'"
  verify_colon_split full (split full b':')

-- NewVersion
unfoldable pub new_version : Text → Result Text
new_version full = do
  context "invalid RPM version format:\n%w" (verify_full_version_string full)
  ok full

-- The text that NewVersionFromEVR validates.
unfoldable pub evr_text : Text → Text → Text → Text
evr_text epoch version release =
    let text = version ++ (b'-' ∷ release) in
    if not (epoch == []) then epoch ++ (b':' ∷ text) else text

-- NewVersionFromEVR
unfoldable pub new_version_from_evr : Text → Text → Text → Result Text
new_version_from_evr epoch version release = new_version (evr_text epoch version release)

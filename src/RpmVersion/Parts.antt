-- ===== src/RpmVersion/Parts.antt =====
-- internal/rpm/version.go: which epochs, versions and releases make a version.
use azldev.Prelude.{ℕ, [], ◌∷◌, ◌++◌, false, ◌&&◌, ◌||◌, not, ◌≡◌, refl, arith, any-append, is_ok}
use azldev.Prelude.{◌=?◌}
use azldev.Text.{Text, ◌==◌, contains_rune, split}
use azldev.RpmVersion.{
  is_epoch, verify_epoch_string, verify_release_string, verify_version_string, verify_hyphen_split,
  verify_colon_split, has_invalid_char, verify_full_version_string, new_version, evr_text,
  new_version_from_evr,
}

split-none : (part : Text) (sep : ℕ) → contains_rune part sep ≡ false → split part sep ≡ part ∷ []
unfolding split
split-none [] sep h = refl
split-none (c ∷ part) sep h = ground (arith, split-none part sep)

split-append :
    (part rest : Text) (sep : ℕ)
    → contains_rune part sep ≡ false
    → split (part ++ (sep ∷ rest)) sep ≡ part ∷ split rest sep
unfolding split
split-append [] rest sep h = ground arith
split-append (c ∷ part) rest sep h = ground (arith, split-append part rest sep)

contains_rune-append :
    (a b : Text) (c : ℕ) → contains_rune (a ++ b) c ≡ (contains_rune a c || contains_rune b c)
contains_rune-append a b c = any-append (λ d. d =? c) a b

has_invalid_char-append :
    (a b : Text) → has_invalid_char (a ++ b) ≡ (has_invalid_char a || has_invalid_char b)
unfolding has_invalid_char
has_invalid_char-append a b = ground (
  arith,
  contains_rune-append a b b' ',
  contains_rune-append a b b'/',
  contains_rune-append a b b'\\',
  contains_rune-append a b b'!',
  contains_rune-append a b b'@',
)

has_invalid_char-cons_hyphen :
    (text : Text) → has_invalid_char (b'-' ∷ text) ≡ has_invalid_char text
unfolding has_invalid_char
has_invalid_char-cons_hyphen text = ground arith

has_invalid_char-cons_colon : (text : Text) → has_invalid_char (b':' ∷ text) ≡ has_invalid_char text
unfolding has_invalid_char
has_invalid_char-cons_colon text = ground arith

is_ok-verify_hyphen_split :
    (version release : Text)
    → contains_rune version b'-' ≡ false
    → contains_rune release b'-' ≡ false
    → is_ok (verify_hyphen_split (split (version ++ (b'-' ∷ release)) b'-'))
      ≡ (not (version == []) && not (release == []))
unfolding verify_hyphen_split verify_version_string verify_release_string
is_ok-verify_hyphen_split version release hv hr =
    ground (arith, split-append version release b'-' hv, split-none release b'-' hr)

has_invalid_char-evr_text :
    (epoch version release : Text)
    → has_invalid_char (evr_text epoch version release)
      ≡ (has_invalid_char epoch || (has_invalid_char version || has_invalid_char release))
unfolding evr_text has_invalid_char ◌==◌
has_invalid_char-evr_text [] version release =
    ground (
      arith,
      has_invalid_char-append version (b'-' ∷ release),
      has_invalid_char-cons_hyphen release,
    )
has_invalid_char-evr_text (c ∷ epoch) version release = ground (
  arith,
  has_invalid_char-append version (b'-' ∷ release),
  has_invalid_char-cons_hyphen release,
  has_invalid_char-append (c ∷ epoch) (b':' ∷ (version ++ (b'-' ∷ release))),
  has_invalid_char-cons_colon (version ++ (b'-' ∷ release)),
)

append_ne : (a b : Text) (c : ℕ) → ((a ++ (c ∷ b)) == []) ≡ false
unfolding ◌==◌
append_ne [] b c = refl
append_ne (d ∷ a) b c = refl

-- The text after the epoch has no colon.
split_version_release :
    (version release : Text)
    → contains_rune version b':' ≡ false
    → contains_rune release b':' ≡ false
    → split (version ++ (b'-' ∷ release)) b':' ≡ (version ++ (b'-' ∷ release)) ∷ []
split_version_release version release hv hr =
    split-none (version ++ (b'-' ∷ release)) b':'
      (ground (arith, contains_rune-append version (b'-' ∷ release) b':'))

-- NewVersionFromEVR accepts an epoch, a version and a release that hold no separator exactly when no
-- part has an invalid character, version and release are not empty, and the epoch is empty or a
-- number that is not negative.
pub is_ok-new_version_from_evr :
    (epoch version release : Text)
    → contains_rune epoch b':' ≡ false
    → contains_rune version b':' ≡ false
    → contains_rune release b':' ≡ false
    → contains_rune version b'-' ≡ false
    → contains_rune release b'-' ≡ false
    → is_ok (new_version_from_evr epoch version release) ≡ (
        not (has_invalid_char epoch || (has_invalid_char version || has_invalid_char release))
        && ((epoch == [] || is_epoch epoch) && (not (version == []) && not (release == []))))
unfolding new_version_from_evr new_version verify_full_version_string verify_colon_split
    verify_epoch_string evr_text ◌==◌
is_ok-new_version_from_evr [] version release he hv hr hv' hr' = ground (
  arith,
  append_ne version release b'-',
  has_invalid_char-evr_text [] version release,
  split_version_release version release hv hr,
  is_ok-verify_hyphen_split version release hv' hr',
)
is_ok-new_version_from_evr (c ∷ epoch) version release he hv hr hv' hr' = ground (
  arith,
  has_invalid_char-evr_text (c ∷ epoch) version release,
  split-append (c ∷ epoch) (version ++ (b'-' ∷ release)) b':' he,
  split_version_release version release hv hr,
  is_ok-verify_hyphen_split version release hv' hr',
)

-- ===== src/FilePath/Valid.antt =====
-- Which names `ValidateFilename` accepts.
use mathlib.Core.List.{reverse-reverse}
use azldev.Prelude.{ℕ, ◌∷◌, [], Bool, true, false, ◌||◌, ◌&&◌, not, ◌=?◌, ltb, arith}
use azldev.Prelude.{◌≡◌, refl, ◌≢◌, reverse, any, all, any-reverse, Bool-cases}
use azldev.Prelude.{inl, inr, is_ok, ◌∙◌}
use azldev.Text.{Text, ◌==◌, codes, split, is_space, eq_iff, eq_refl}
use azldev.FilePath.{validate_filename}
use azldev.FilePath.Clean.{
  is_abs, clean, base, kept_elements, after_last_slash, trim_right_slashes, trim_left_slashes,
  render,
}

abbrev pub has_slash : Text → Bool
has_slash n = any (λ d. d =? b'/') n

-- A rune that a file name may hold.
abbrev pub allowed : ℕ → Bool
allowed r = not (r =? b'/' || is_space r || r =? 0 || r =? b'\\' || ltb 127 r)

-- The names that the doc comments of `ValidateFilename` describe.
abbrev pub is_filename : Text → Bool
is_filename n = not (n == []) && not (n == codes "." || n == codes "..") && all allowed n

pub split-no_slash : (n : Text) → has_slash n ≡ false → split n b'/' ≡ n ∷ []
unfolding split
split-no_slash [] h = refl
split-no_slash (c ∷ n) h = ground (arith, split-no_slash n)

abbrev pub is_plain : Text → Bool
is_plain n = not (n == [] || n == codes "." || n == codes "..")

is_abs-no_slash : (n : Text) → has_slash n ≡ false → is_abs n ≡ false
unfolding is_abs
is_abs-no_slash [] h = refl
is_abs-no_slash (c ∷ n) h = ground arith

kept_elements-plain : (n : Text) → is_plain n ≡ true → kept_elements false [] (n ∷ []) ≡ n ∷ []
unfolding kept_elements
kept_elements-plain n p = ground arith

pub clean-plain : (n : Text) → has_slash n ≡ false → is_plain n ≡ true → clean n ≡ n
unfolding clean render
clean-plain [] h p = cc (eq_refl [])
clean-plain (c ∷ n) h p =
    rw (is_abs-no_slash (c ∷ n) h, split-no_slash (c ∷ n) h, kept_elements-plain (c ∷ n) p) refl

has_slash-after_last_slash : (n : Text) → has_slash (after_last_slash n) ≡ false
unfolding after_last_slash
has_slash-after_last_slash [] = refl
has_slash-after_last_slash (c ∷ n) = ground (arith, has_slash-after_last_slash n)

pub after_last_slash-no_slash : (n : Text) → has_slash n ≡ false → after_last_slash n ≡ n
unfolding after_last_slash
after_last_slash-no_slash [] h = refl
after_last_slash-no_slash (c ∷ n) h = ground arith

trim_left_slashes-no_slash : (n : Text) → has_slash n ≡ false → trim_left_slashes n ≡ n
unfolding trim_left_slashes
trim_left_slashes-no_slash [] h = refl
trim_left_slashes-no_slash (c ∷ n) h = ground arith

trim_right_slashes-no_slash : (n : Text) → has_slash n ≡ false → trim_right_slashes n ≡ n
unfolding trim_right_slashes
trim_right_slashes-no_slash n h =
    rw (trim_left_slashes-no_slash (reverse n) (any-reverse (λ d. d =? b'/') n ∙ h))
      (reverse-reverse n)

pub base-plain : (n : Text) → has_slash n ≡ false → n ≢ [] → base n ≡ n
unfolding base
base-plain [] h p = absurd (p refl)
base-plain (c ∷ n) h p =
    rw (trim_right_slashes-no_slash (c ∷ n) h, after_last_slash-no_slash (c ∷ n) h)
      (ground (arith, eq_iff (c ∷ n) []))

-- The last element of a relative path holds no slash.
has_slash-base : (n : Text) → is_abs n ≡ false → has_slash n ≡ true → (base n == n) ≡ false
unfolding base is_abs
has_slash-base [] a h = ground arith
has_slash-base (c ∷ n) a h = ground (
  arith,
  has_slash-after_last_slash (trim_right_slashes (c ∷ n)),
  eq_iff (codes "/") (c ∷ n),
  eq_iff (after_last_slash (trim_right_slashes (c ∷ n))) (c ∷ n),
)

pub all-allowed :
    (n : Text)
    → all allowed n
      ≡ not (
          has_slash n
          || any is_space n
          || any (λ d. d =? 0) n
          || any (λ d. d =? b'\\') n
          || any (λ r. ltb 127 r) n)
all-allowed [] = refl
all-allowed (c ∷ n) = ground (arith, all-allowed n)

-- `ValidateFilename` accepts exactly the names that are not empty, not `.` or `..`, and whose runes
-- are all ASCII and neither a slash, a backslash, white space nor NUL.
pub validate_filename-is_filename : (n : Text) → is_ok (validate_filename n) ≡ is_filename n
unfolding validate_filename
validate_filename-is_filename n = elim (Bool-cases (is_plain n)) [
  | inr odd ↦ ground arith
  | inl plain ↦ elim (Bool-cases (has_slash n)) [
    | inl slash ↦ rw all-allowed (ground (arith, has_slash-base n))
    | inr no_slash ↦
        rw (all-allowed, is_abs-no_slash n no_slash, clean-plain n no_slash plain)
          (ground (arith, eq_refl n, eq_iff n [], base-plain n no_slash))
  ]
]

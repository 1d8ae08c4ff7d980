-- ===== src/ProjectConfig/Repos/Keys.antt =====
-- internal/projectconfig/resources.go: texts with a URI scheme, and keys made absolute.
use azldev.Prelude.{ℕ, ◌∷◌, [], ◌++◌, Bool, true, ◌||◌, not, ◌=?◌, =?_iff, all}
use azldev.Prelude.{if◌then◌else◌, ◌≡◌, ◌↔◌, refl, ap, arith, Bool-cases, inl, inr, subst, sym}
use azldev.Text.{Text, codes}
use azldev.FilePath.{join}
use azldev.FilePath.Clean.{is_abs, clean}
use azldev.ProjectConfig.Repos.Uris.{
  UrlPackage, is_letter, is_digit, scheme_goes_on, has_uri_scheme, absolutize_key_path,
}

-- A rune of a scheme after the first.
abbrev pub is_scheme_rune : ℕ → Bool
is_scheme_rune c = is_letter c || is_digit c || c =? b'+' || c =? b'-' || c =? b'.'

-- A scheme, and what follows its colon.
pub record HasScheme (s : Text) : Type 0 where
  pub first : ℕ
  pub scheme : Text
  pub rest : Text
  pub parts : s ≡ first ∷ (scheme ++ (b':' ∷ rest))
  pub first_letter : is_letter first ≡ true
  pub scheme_runes : all is_scheme_rune scheme ≡ true

abbrev RestOfScheme : Text → Type 0
RestOfScheme s =
    (scheme : Text) × (rest : Text) × (s ≡ scheme ++ (b':' ∷ rest))
    × (all is_scheme_rune scheme ≡ true)

scheme_goes_on-RestOfScheme : (s : Text) → scheme_goes_on s ≡ true → RestOfScheme s
unfolding scheme_goes_on
scheme_goes_on-RestOfScheme [] h = cc
scheme_goes_on-RestOfScheme (c ∷ s) h = elim (Bool-cases (is_scheme_rune c)) [
  | inl rune ↦
      let (scheme, rest, parts, runes) = scheme_goes_on-RestOfScheme s (ground arith) in
      (c ∷ scheme, rest, ap (λ t. c ∷ t) parts, ground arith)
  | inr other ↦ ([], s, ground (arith, =?_iff c b':'), refl)
]

scheme_goes_on-append :
    (scheme rest : Text)
    → all is_scheme_rune scheme ≡ true
    → scheme_goes_on (scheme ++ (b':' ∷ rest)) ≡ true
unfolding scheme_goes_on
scheme_goes_on-append [] rest h = refl
scheme_goes_on-append (c ∷ scheme) rest h = ground (arith, scheme_goes_on-append scheme rest)

has_uri_scheme-append :
    (first : ℕ) (scheme rest : Text)
    → is_letter first ≡ true
    → all is_scheme_rune scheme ≡ true
    → has_uri_scheme (first ∷ (scheme ++ (b':' ∷ rest))) ≡ true
unfolding has_uri_scheme
has_uri_scheme-append first scheme rest l h = ground (arith, scheme_goes_on-append scheme rest h)

has_uri_scheme-HasScheme : (s : Text) → has_uri_scheme s ≡ true → HasScheme s
unfolding has_uri_scheme
has_uri_scheme-HasScheme [] h = cc
has_uri_scheme-HasScheme (c ∷ s) h =
    let (scheme, rest, parts, runes) = scheme_goes_on-RestOfScheme s (ground arith) in
    record {
      first = c;
      scheme = scheme;
      rest = rest;
      parts = ap (λ t. c ∷ t) parts;
      first_letter = ground arith;
      scheme_runes = runes;
    }

-- hasURIScheme accepts exactly the texts that begin with a letter, then letters, digits, '+', '-' and
-- '.', and then a colon.
has_uri_scheme_iff : (s : Text) → (has_uri_scheme s ≡ true) ↔ HasScheme s
has_uri_scheme_iff s = (
  has_uri_scheme-HasScheme s,
  λ h.
      subst (λ t. has_uri_scheme t ≡ true) (sym h.parts)
        (has_uri_scheme-append h.first h.scheme h.rest h.first_letter h.scheme_runes),
)

-- The text of a file URL begins with its scheme.
pub record IsFilePrefixed (U : UrlPackage) : Type 0 where
  pub rest : Text → Text
  pub prefixed : (path : Text) → U.file_url path ≡ codes "file:" ++ rest path

module _ (U : UrlPackage) (P : IsFilePrefixed U) where
  has_uri_scheme-file_url : (path : Text) → has_uri_scheme (U.file_url path) ≡ true
  has_uri_scheme-file_url path =
      subst (λ t. has_uri_scheme t ≡ true) (sym (P.prefixed path))
        (has_uri_scheme-append b'f' (codes "ile") (P.rest path) refl refl)

  has_uri_scheme-absolutize_key_path :
      (key dir : Text) → has_uri_scheme (absolutize_key_path U key dir) ≡ true
  unfolding absolutize_key_path
  has_uri_scheme-absolutize_key_path key dir = elim (Bool-cases (has_uri_scheme key)) [
    | inl scheme ↦ ground arith
    | inr bare ↦
        ground
          (arith, has_uri_scheme-file_url (clean (if not (is_abs key) then join dir key else key)))
  ]

  -- A key that was made absolute has a scheme, so that making it absolute again, in any directory,
  -- leaves it as it is.
  absolutize_key_path-twice :
      (key dir dir' : Text)
      → (has_uri_scheme (absolutize_key_path U key dir) ≡ true)
        × (absolutize_key_path U (absolutize_key_path U key dir) dir'
            ≡ absolutize_key_path U key dir)
  unfolding absolutize_key_path
  absolutize_key_path-twice key dir dir' = (
    has_uri_scheme-absolutize_key_path key dir,
    rw (has_uri_scheme-absolutize_key_path key dir) refl,
  )

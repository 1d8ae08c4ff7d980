-- ===== src/Text/Cut.antt =====
-- Prefixes, suffixes and separators.
use azldev.Text.Equality.{Text, ◌==◌, eq_iff, eq_refl}
use azldev.Prelude.{
  ℕ, ◌≡◌, refl, ap, List, [], ◌∷◌, ◌++◌, Bool, true, false, ◌&&◌, arith, ◌=?◌, any,
}
use azldev.Prelude.{Option, none, some, if◌then◌else◌, length, length-append, inl, inr, Bool-cases}

-- strings.HasPrefix(s, prefix)
unfoldable pub has_prefix : Text → Text → Bool
has_prefix s [] = true
has_prefix [] (d ∷ prefix) = false
has_prefix (c ∷ s) (d ∷ prefix) = c =? d && has_prefix s prefix

abbrev pub prepend : ℕ → Option Text → Option Text
prepend c none = none
prepend c (some s) = some (c ∷ s)

-- strings.CutSuffix(s, suffix), for a suffix that is not empty
unfoldable pub cut_suffix : Text → Text → Option Text
unfolding ◌==◌
cut_suffix [] suffix = if [] == suffix then some [] else none
cut_suffix (c ∷ s) suffix = if (c ∷ s) == suffix then some [] else prepend c (cut_suffix s suffix)

abbrev is_some : Option Text → Bool
is_some none = false
is_some (some s) = true

-- strings.HasSuffix(s, suffix)
unfoldable pub has_suffix : Text → Text → Bool
unfolding cut_suffix
has_suffix s suffix = is_some (cut_suffix s suffix)

abbrev or_self : Text → Option Text → Text
or_self s none = s
or_self s (some r) = r

-- strings.TrimSuffix(s, suffix)
unfoldable pub trim_suffix : Text → Text → Text
unfolding cut_suffix
trim_suffix s suffix = or_self s (cut_suffix s suffix)

-- strings.ContainsRune(s, c)
abbrev pub contains_rune : Text → ℕ → Bool
contains_rune s c = any (λ d. d =? c) s

abbrev pub add_to_head : ℕ → List Text → List Text
add_to_head c [] = (c ∷ []) ∷ []
add_to_head c (part ∷ parts) = (c ∷ part) ∷ parts

-- strings.Split(s, sep), for a separator of one rune
unfoldable pub split : Text → ℕ → List Text
split [] sep = [] ∷ []
split (c ∷ s) sep = let rest = split s sep in if c =? sep then [] ∷ rest else add_to_head c rest

-- strings.Join(parts, sep)
unfoldable pub join_with : List Text → ℕ → Text
join_with [] sep = []
join_with (part ∷ []) sep = part
join_with (part ∷ part' ∷ parts) sep = part ++ (sep ∷ join_with (part' ∷ parts) sep)

longer-ne : (c : ℕ) (x s : Text) → ((c ∷ (x ++ s)) == s) ≡ false
longer-ne c x s = elim (Bool-cases ((c ∷ (x ++ s)) == s)) [
  | inl same ↦ absurd (omega (arith, ap length ((eq_iff _ _).0 same), length-append x s))
  | inr differ ↦ differ
]

-- What is cut off comes back.
pub cut_suffix-append : (x suffix : Text) → cut_suffix (x ++ suffix) suffix ≡ some x
unfolding cut_suffix
cut_suffix-append [] [] = refl
cut_suffix-append [] (d ∷ suffix) = rw (eq_refl (d ∷ suffix))
cut_suffix-append (c ∷ x) suffix = rw (longer-ne c x suffix, cut_suffix-append x suffix)

pub append-cut_suffix :
    (s suffix : Text) (x : Text) → cut_suffix s suffix ≡ some x → s ≡ x ++ suffix
unfolding cut_suffix
append-cut_suffix [] suffix x h = ground (arith, eq_iff [] suffix)
append-cut_suffix (c ∷ s) suffix [] h = ground (arith, eq_iff (c ∷ s) suffix)
append-cut_suffix (c ∷ s) suffix (d ∷ x) h =
    ground (arith, eq_iff (c ∷ s) suffix, append-cut_suffix s suffix x)

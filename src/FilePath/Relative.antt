-- ===== src/FilePath/Relative.antt =====
-- Which relative paths `ValidateRelPath` accepts.
use azldev.Prelude.{ℕ, ◌∷◌, [], ◌++◌, List, Bool, true, false, ◌||◌, ◌=?◌, arith}
use azldev.Prelude.{
  ◌≡◌, refl, any, all, is_nil, Bool-cases, inl, inr, is_ok, ◌∙◌, ap, sym, append_assoc,
}
use azldev.Text.{
  Text, ◌==◌, codes, split, eq_refl, contains_rune, has_prefix, join_with, add_to_head,
}
use azldev.FilePath.{validate_segments, validate_rel_path}
use azldev.FilePath.Clean.{is_abs, clean, kept_elements, add_element, render, or_dot}
use azldev.FilePath.Valid.{is_filename, is_plain, all-allowed, validate_filename-is_filename}

-- The parts of a path, in the order in which `clean` keeps them.
abbrev reverse_onto : List Text → List Text → List Text
reverse_onto [] kept = kept
reverse_onto (part ∷ parts) kept = reverse_onto parts (part ∷ kept)

kept_elements-all_plain :
    (kept parts : List Text)
    → all is_plain parts ≡ true
    → kept_elements false kept parts ≡ reverse_onto parts kept
unfolding kept_elements add_element
kept_elements-all_plain kept [] plain = refl
kept_elements-all_plain [] (part ∷ parts) plain =
    ground (arith, kept_elements-all_plain (part ∷ []) parts)
kept_elements-all_plain (last ∷ kept) (part ∷ parts) plain =
    ground (arith, kept_elements-all_plain (part ∷ last ∷ kept) parts)

render-reverse_onto :
    (part : Text) (parts : List Text) (last : Text) (kept : List Text)
    → render (reverse_onto (part ∷ parts) (last ∷ kept))
      ≡ render (last ∷ kept) ++ (b'/' ∷ join_with (part ∷ parts) b'/')
unfolding render join_with
render-reverse_onto part [] last kept = refl
render-reverse_onto part (part' ∷ parts) last kept =
    render-reverse_onto part' parts part (last ∷ kept)
    ∙ append_assoc (render (last ∷ kept)) (b'/' ∷ part) (b'/' ∷ join_with (part' ∷ parts) b'/')

-- The parts of a text that begins with c.
abbrev parts_after : ℕ → List Text → Bool → List Text
parts_after c rest true = [] ∷ rest
parts_after c rest false = add_to_head c rest

is_nil-parts_after :
    (c : ℕ) (rest : List Text) (here : Bool) → is_nil (parts_after c rest here) ≡ false
is_nil-parts_after c rest true = refl
is_nil-parts_after c [] false = refl
is_nil-parts_after c (part ∷ rest) false = refl

split-parts_after :
    (c : ℕ) (path : Text) (sep : ℕ)
    → split (c ∷ path) sep ≡ parts_after c (split path sep) (c =? sep)
unfolding split
split-parts_after c path sep = elim (Bool-cases (c =? sep)) [
  | inl e ↦ ground arith
  | inr e ↦ ground arith
]

is_nil-split : (path : Text) (sep : ℕ) → is_nil (split path sep) ≡ false
unfolding split
is_nil-split [] sep = refl
is_nil-split (c ∷ path) sep =
    ap is_nil (split-parts_after c path sep) ∙ is_nil-parts_after c (split path sep) (c =? sep)

join_with-parts_after :
    (c sep : ℕ) (rest : List Text) (here : Bool)
    → is_nil rest ≡ false
    → (here ≡ true → c ≡ sep)
    → join_with (parts_after c rest here) sep ≡ c ∷ join_with rest sep
unfolding join_with
join_with-parts_after c sep [] here full is = absurd (ground arith)
join_with-parts_after c sep (part ∷ rest) true full is =
    ap (λ d. d ∷ join_with (part ∷ rest) sep) (sym (is refl))
join_with-parts_after c sep (part ∷ []) false full is = refl
join_with-parts_after c sep (part ∷ part' ∷ parts) false full is = refl

join_with-split : (path : Text) (sep : ℕ) → join_with (split path sep) sep ≡ path
unfolding join_with split
join_with-split [] sep = refl
join_with-split (c ∷ path) sep =
    ap (λ parts. join_with parts sep) (split-parts_after c path sep)
    ∙ (join_with-parts_after c sep (split path sep) (c =? sep) (is_nil-split path sep)
          (λ e. ground arith)
        ∙ ap (λ rest. c ∷ rest) (join_with-split path sep))

render-kept_elements :
    (parts : List Text)
    → is_nil parts ≡ false
    → all is_plain parts ≡ true
    → render (kept_elements false [] parts) ≡ join_with parts b'/'
unfolding render join_with
render-kept_elements [] full plain = absurd (ground arith)
render-kept_elements (part ∷ []) full plain =
    ap render (kept_elements-all_plain [] (part ∷ []) plain)
render-kept_elements (part ∷ part' ∷ parts) full plain =
    ap render (kept_elements-all_plain [] (part ∷ part' ∷ parts) plain)
    ∙ render-reverse_onto part' parts part []

clean-relative :
    (path : Text)
    → is_abs path ≡ false
    → (path == []) ≡ false
    → all is_plain (split path b'/') ≡ true
    → clean path ≡ path
unfolding clean or_dot
clean-relative [] relative given plain = absurd (ground (arith, eq_refl []))
clean-relative (c ∷ path) relative given plain =
    rw
      (
        relative,
        render-kept_elements (split (c ∷ path) b'/') (is_nil-split (c ∷ path) b'/') plain,
        join_with-split (c ∷ path) b'/',
      )
      refl

-- Whether a part holds the rune d.
abbrev has : ℕ → Text → Bool
has d part = contains_rune part d

any-parts_after :
    (c sep d : ℕ) (rest : List Text) (here : Bool)
    → (d =? sep) ≡ false
    → is_nil rest ≡ false
    → (here ≡ true → c ≡ sep)
    → any (has d) (parts_after c rest here) ≡ ((c =? d) || any (has d) rest)
any-parts_after c sep d [] here apart full is = absurd (ground arith)
any-parts_after c sep d (part ∷ rest) true apart full is = ground (arith, is refl)
any-parts_after c sep d (part ∷ rest) false apart full is = ground arith

any-split :
    (path : Text) (sep d : ℕ)
    → (d =? sep) ≡ false
    → any (has d) (split path sep) ≡ contains_rune path d
unfolding split
any-split [] sep d apart = refl
any-split (c ∷ path) sep d apart =
    ap (any (has d)) (split-parts_after c path sep)
    ∙ (any-parts_after c sep d (split path sep) (c =? sep) apart (is_nil-split path sep)
          (λ e. ground arith)
        ∙ ap (λ b. (c =? d) || b) (any-split path sep d apart))

is_filename-backslash : (part : Text) → is_filename part ≡ true → contains_rune part b'\\' ≡ false
is_filename-backslash part h = ground (arith, all-allowed part)

any-backslash : (parts : List Text) → all is_filename parts ≡ true → any (has b'\\') parts ≡ false
any-backslash [] h = refl
any-backslash (part ∷ parts) h = ground (arith, is_filename-backslash part, any-backslash parts)

all-is_plain : (parts : List Text) → all is_filename parts ≡ true → all is_plain parts ≡ true
all-is_plain [] h = refl
all-is_plain (part ∷ parts) h = ground (arith, all-is_plain parts)

is_ok-validate_segments :
    (segments : List Text) → is_ok (validate_segments segments) ≡ all is_filename segments
unfolding validate_segments
is_ok-validate_segments [] = refl
is_ok-validate_segments (segment ∷ segments) =
    ground (arith, validate_filename-is_filename segment, is_ok-validate_segments segments)

-- A path of which every segment is a file name is neither empty nor absolute.
abbrev IsRelative : Text → Type 0
IsRelative path =
    ((path == []) ≡ false) × (is_abs path ≡ false) × (has_prefix path (codes "/") ≡ false)

head-IsRelative :
    (c : ℕ) (path : Text) (here : Bool)
    → here ≡ (c =? b'/')
    → all is_filename (parts_after c (split path b'/') here) ≡ true
    → IsRelative (c ∷ path)
unfolding is_abs has_prefix ◌==◌
head-IsRelative c path true e h = absurd (ground arith)
head-IsRelative c path false e h = (refl, sym e, ground arith)

segments-IsRelative : (path : Text) → all is_filename (split path b'/') ≡ true → IsRelative path
unfolding split
segments-IsRelative [] h = absurd (ground (arith, eq_refl []))
segments-IsRelative (c ∷ path) h =
    head-IsRelative c path (c =? b'/') refl
      (ap (all is_filename) (sym (split-parts_after c path b'/')) ∙ h)

-- ValidateRelPath accepts exactly the paths whose segments between the slashes are all names that
-- ValidateFilename accepts.
pub is_ok-validate_rel_path :
    (path : Text) → is_ok (validate_rel_path path) ≡ all is_filename (split path b'/')
unfolding validate_rel_path
is_ok-validate_rel_path path = elim (Bool-cases (all is_filename (split path b'/'))) [
  | inr bad ↦ ground (arith, is_ok-validate_segments (split path b'/'))
  | inl good ↦
      let (given, relative, unprefixed) = segments-IsRelative path good in
      let plain = all-is_plain (split path b'/') good in
      rw (clean-relative path relative given plain) (
        ground (
          arith,
          is_ok-validate_segments (split path b'/'),
          eq_refl path,
          any-split path b'/' b'\\' refl,
          any-backslash (split path b'/'),
        ))
]

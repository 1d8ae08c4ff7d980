-- ===== src/FilePath/Names.antt =====
-- A plain name joined to a directory can be read back from the path.
use azldev.Prelude.{ℕ, ◌∷◌, [], ◌++◌, List, Bool, true, false, ◌=?◌, arith}
use azldev.Prelude.{◌≡◌, refl, Bool-cases, inl, inr, any-append, ◌⊎◌}
use azldev.Text.{Text, split, add_to_head, eq_refl}
use azldev.FilePath.{join}
use azldev.FilePath.Clean.{
  is_abs, clean, kept_elements, add_element, render, after_last_slash, or_dot,
}
use azldev.FilePath.Valid.{
  has_slash, is_plain, clean-plain, split-no_slash, after_last_slash-no_slash,
}

split-cons :
    (s : Text) (sep : ℕ) → (part : Text) × (parts : List Text) × (split s sep ≡ part ∷ parts)
unfolding split
split-cons [] sep = ([], [], refl)
split-cons (c ∷ s) sep =
    let (part, parts, e) = split-cons s sep in
    elim (Bool-cases (c =? sep)) [
      | inl same ↦ ([], split s sep, rw same)
      | inr differ ↦ (c ∷ part, parts, rw (differ, e))
    ]

add_to_head-append :
    (c : ℕ) (s : Text) (sep : ℕ) (ys : List Text)
    → add_to_head c (split s sep ++ ys) ≡ add_to_head c (split s sep) ++ ys
add_to_head-append c s sep ys = let (part, parts, e) = split-cons s sep in rw e

split-append : (s t : Text) (sep : ℕ) → split (s ++ (sep ∷ t)) sep ≡ split s sep ++ split t sep
unfolding split
split-append [] t sep = ground arith
split-append (c ∷ s) t sep =
    ground (arith, split-append s t sep, add_to_head-append c s sep (split t sep))

kept_elements-append :
    (rooted : Bool) (kept xs ys : List Text)
    → kept_elements rooted kept (xs ++ ys) ≡ kept_elements rooted (kept_elements rooted kept xs) ys
unfolding kept_elements
kept_elements-append rooted kept [] ys = refl
kept_elements-append rooted kept (x ∷ xs) ys =
    kept_elements-append rooted (add_element rooted kept x) xs ys

kept_elements-plain :
    (rooted : Bool) (kept : List Text) (n : Text)
    → is_plain n ≡ true
    → kept_elements rooted kept (n ∷ []) ≡ n ∷ kept
unfolding kept_elements
kept_elements-plain rooted [] n p = ground arith
kept_elements-plain rooted (last ∷ kept) n p = ground arith

-- After the last slash stands what follows any slash that no other follows.
after_last_slash-append :
    (s n : Text) → has_slash n ≡ false → after_last_slash (s ++ (b'/' ∷ n)) ≡ n
unfolding after_last_slash
after_last_slash-append [] n h = ground arith
after_last_slash-append (c ∷ s) n h =
    ground (arith, any-append (λ d. d =? b'/') s (b'/' ∷ n), after_last_slash-append s n h)

render-cons :
    (n : Text) (kept : List Text)
    → (render (n ∷ kept) ≡ n) ⊎ ((s : Text) × (render (n ∷ kept) ≡ s ++ (b'/' ∷ n)))
unfolding render
render-cons n [] = inl refl
render-cons n (last ∷ kept) = inr (render (last ∷ kept), refl)

after_last_slash-cons-render :
    (n : Text) (kept : List Text)
    → has_slash n ≡ false
    → after_last_slash (b'/' ∷ render (n ∷ kept)) ≡ n
after_last_slash-cons-render n kept h = elim (render-cons n kept) [
  | inl e ↦ rw e (after_last_slash-append [] n h)
  | inr (s, e) ↦ rw e (after_last_slash-append (b'/' ∷ s) n h)
]

or_dot-plain : (n : Text) → is_plain n ≡ true → or_dot n ≡ n
unfolding or_dot
or_dot-plain [] p = cc (eq_refl [])
or_dot-plain (c ∷ n) p = refl

or_dot-append : (s : Text) (c : ℕ) (t : Text) → or_dot (s ++ (c ∷ t)) ≡ s ++ (c ∷ t)
unfolding or_dot
or_dot-append [] c t = refl
or_dot-append (d ∷ s) c t = refl

after_last_slash-or_dot-render :
    (n : Text) (kept : List Text)
    → has_slash n ≡ false
    → is_plain n ≡ true
    → after_last_slash (or_dot (render (n ∷ kept))) ≡ n
after_last_slash-or_dot-render n kept h p = elim (render-cons n kept) [
  | inl e ↦ rw (e, or_dot-plain n p) (after_last_slash-no_slash n h)
  | inr (s, e) ↦ rw (e, or_dot-append s b'/' n) (after_last_slash-append s n h)
]

-- Joining keeps the name as the last element.
kept_elements-join :
    (rooted : Bool) (dir n : Text)
    → has_slash n ≡ false
    → is_plain n ≡ true
    → kept_elements rooted [] (split (dir ++ (b'/' ∷ n)) b'/')
      ≡ n ∷ kept_elements rooted [] (split dir b'/')
kept_elements-join rooted dir n h p =
    rw (split-append, split-no_slash n h, kept_elements-append) (kept_elements-plain rooted _ n p)

-- The last element of a joined path is the name that was joined.
pub after_last_slash-join :
    (dir n : Text) → has_slash n ≡ false → is_plain n ≡ true → after_last_slash (join dir n) ≡ n
unfolding join
after_last_slash-join [] [] h p = cc (eq_refl [])
after_last_slash-join [] (c ∷ n) h p =
    rw (clean-plain (c ∷ n) h p) (after_last_slash-no_slash (c ∷ n) h)
after_last_slash-join (d ∷ dir) n h p = elim (Bool-cases (is_abs (d ∷ dir))) [
  | inl rooted ↦
      unfold clean is_abs in
      rw (rooted, kept_elements-join true (d ∷ dir) n h p) (after_last_slash-cons-render n _ h)
  | inr relative ↦
      unfold clean is_abs in
      rw (relative, kept_elements-join false (d ∷ dir) n h p)
        (after_last_slash-or_dot-render n _ h p)
]

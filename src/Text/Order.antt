-- ===== src/Text/Order.antt =====
-- sort.Strings. The order of Go's strings, by bytes of UTF-8, is the order by code points.
use mathlib.Core.List.{Perm, Permᴰ}
use mathlib.Core.Logic.{∥∥₁_elim}
use azldev.Text.Equality.{Text, ◌==◌, eq_iff}
use azldev.Prelude.{◌≡◌, refl, ◌∙◌, List, [], ◌∷◌, Bool, true, false}
use azldev.Prelude.{all, Bool-cases, inl, inr, sym}
use azldev.Prelude.{length, suc, ◌&&◌, ◌||◌, arith, ltb, ◌=?◌, if◌then◌else◌}

-- s <= t
unfoldable pub text_le : Text → Text → Bool
text_le [] t = true
text_le (c ∷ s) [] = false
text_le (c ∷ s) (d ∷ t) = ltb c d || c =? d && text_le s t

text_le_total : (s t : Text) → text_le s t ≡ false → text_le t s ≡ true
unfolding text_le
text_le_total [] t h = ground arith
text_le_total (c ∷ s) [] h = refl
text_le_total (c ∷ s) (d ∷ t) h = ground (arith, text_le_total s t)

text_le_antisymm : (s t : Text) → text_le s t ≡ true → text_le t s ≡ true → s ≡ t
unfolding text_le
text_le_antisymm [] [] h k = refl
text_le_antisymm [] (d ∷ t) h k = ground arith
text_le_antisymm (c ∷ s) [] h k = ground arith
text_le_antisymm (c ∷ s) (d ∷ t) h k = ground (arith, text_le_antisymm s t)

text_le_trans : (s t u : Text) → text_le s t ≡ true → text_le t u ≡ true → text_le s u ≡ true
unfolding text_le
text_le_trans [] t u h k = refl
text_le_trans (c ∷ s) [] u h k = ground arith
text_le_trans (c ∷ s) (d ∷ t) [] h k = ground arith
text_le_trans (c ∷ s) (d ∷ t) (e ∷ u) h k = ground (arith, text_le_trans s t u)

unfoldable pub insert : Text → List Text → List Text
insert s [] = s ∷ []
insert s (t ∷ ts) = if text_le s t then s ∷ t ∷ ts else t ∷ insert s ts

-- sort.Strings
unfoldable pub sort : List Text → List Text
unfolding insert text_le
sort [] = []
sort (s ∷ ss) = insert s (sort ss)

pub insert_comm : (s t : Text) (us : List Text) → insert s (insert t us) ≡ insert t (insert s us)
unfolding insert
insert_comm s t [] = ground (arith, text_le_total s t, text_le_total t s, text_le_antisymm s t)
insert_comm s t (u ∷ us) = ground (
  arith,
  text_le_total s t,
  text_le_total t s,
  text_le_antisymm s t,
  text_le_trans s t u,
  text_le_trans t s u,
  insert_comm s t us,
)

sort_permᴰ : {xs ys : List Text} → Permᴰ xs ys → sort xs ≡ sort ys
unfolding sort
sort_permᴰ Permᴰ.nil = refl
sort_permᴰ (Permᴰ.cons {a} e p) = rw (e, sort_permᴰ p)
sort_permᴰ (Permᴰ.swap {a} {b} {l} e e') = insert_comm a b (sort l) ∙ cc (e, e')
sort_permᴰ (Permᴰ.trans p q) = sort_permᴰ p ∙ sort_permᴰ q

-- The order of the items does not matter to `sort`.
pub sort-perm : {xs ys : List Text} → Perm xs ys → sort xs ≡ sort ys
sort-perm {xs} {ys} p = ∥∥₁_elim p (Texts-set (sort xs) (sort ys)) sort_permᴰ
  where
    Texts-set : IsSet (List Text)
    Texts-set = hlevel

-- the test `slices.Contains(ts, s)`
unfoldable pub contains : List Text → Text → Bool
contains [] s = false
contains (t ∷ ts) s = t == s || contains ts s

contains-insert :
    (t : Text) (ts : List Text) (s : Text) → contains (insert t ts) s ≡ (t == s || contains ts s)
unfolding insert contains
contains-insert t [] s = refl
contains-insert t (u ∷ ts) s = ground (arith, contains-insert t ts s)

-- Sorting keeps the items.
pub contains-sort : (ts : List Text) (s : Text) → contains (sort ts) s ≡ contains ts s
unfolding sort contains
contains-sort [] s = refl
contains-sort (t ∷ ts) s = rw (contains-insert, contains-sort ts s)

length-insert : (t : Text) (ts : List Text) → length (insert t ts) ≡ suc (length ts)
unfolding insert
length-insert t [] = refl
length-insert t (u ∷ ts) = ground (arith, length-insert t ts)

pub length-sort : (ts : List Text) → length (sort ts) ≡ length ts
unfolding sort
length-sort [] = refl
length-sort (t ∷ ts) = omega (arith, length-insert t (sort ts), length-sort ts)

-- A test that holds of each member.
all_of_members :
    (p : Text → Bool) (ts : List Text)
    → ((s : Text) → contains ts s ≡ true → p s ≡ true)
    → all p ts ≡ true
unfolding contains
all_of_members p [] h = refl
all_of_members p (t ∷ ts) h = ground (
  arith,
  h t,
  eq_iff t t,
  all_of_members p ts (λ (s : Text) (m : contains ts s ≡ true). h s (ground arith)),
)

pub member_of_all :
    (p : Text → Bool) (ts : List Text) (s : Text)
    → all p ts ≡ true
    → contains ts s ≡ true
    → p s ≡ true
unfolding contains
member_of_all p [] s h m = cc
member_of_all p (t ∷ ts) s h m = ground (arith, eq_iff t s, member_of_all p ts s)

-- Lists with the same members pass the same tests.
pub all-same_members :
    (p : Text → Bool) (xs ys : List Text)
    → ((s : Text) → contains xs s ≡ contains ys s)
    → all p xs ≡ all p ys
all-same_members p xs ys same = elim (Bool-cases (all p xs)) [
  | inl a ↦ ground (
    arith,
    all_of_members p ys
        (λ (s : Text) (m : contains ys s ≡ true). member_of_all p xs s a (same s ∙ m)),
  )
  | inr a ↦ elim (Bool-cases (all p ys)) [
    | inl b ↦ ground (
      arith,
      all_of_members p xs
          (λ (s : Text) (m : contains xs s ≡ true). member_of_all p ys s b (sym (same s) ∙ m)),
    )
    | inr b ↦ ground arith
  ]
]

-- ===== src/Text/Search.antt =====
-- strings.Index.
use azldev.Text.Equality.{Text}
use azldev.Text.Cut.{has_prefix}
use azldev.Prelude.{
  zero, ℕ, ◌+◌, suc, ◌≡◌, refl, [], ◌∷◌, ◌++◌, Bool, true, false, ◌&&◌, ◌||◌, arith,
}
use azldev.Prelude.{
  Option, none, some, if◌then◌else◌, length, drop, Option-cases, inl, inr, Bool-cases, ap, subst,
  sym,
}

abbrev pub next_index : Option ℕ → Option ℕ
next_index none = none
next_index (some i) = some (suc i)

-- strings.Index(s, part), counted in code points; `none` is -1
unfoldable pub index : Text → Text → Option ℕ
unfolding has_prefix
index [] part = if has_prefix [] part then some 0 else none
index (c ∷ s) part =
    let later = index s part in if has_prefix (c ∷ s) part then some 0 else next_index later

pub has_prefix-eq_true :
    (s part : Text) → has_prefix s part ≡ true → s ≡ part ++ drop (length part) s
unfolding has_prefix
has_prefix-eq_true s [] h = refl
has_prefix-eq_true [] (d ∷ part) h = cc
has_prefix-eq_true (c ∷ s) (d ∷ part) h = ground (arith, has_prefix-eq_true s part)

pub has_prefix-append : (part s : Text) → has_prefix (part ++ s) part ≡ true
unfolding has_prefix
has_prefix-append [] s = refl
has_prefix-append (c ∷ part) s = ground (arith, has_prefix-append part s)

pub drop-nil : (n : ℕ) → drop {A = ℕ} n [] ≡ []
drop-nil zero = refl
drop-nil (suc n) = refl

-- A search that goes on behind each place where the part is found, up to one whose rest passes the
-- test, finds a place if there is one.
module _ (test : Text → Bool) (part : Text) where
  abbrev pub fits : Text → Bool
  fits s = has_prefix s part && test (drop (length part) s)

  abbrev pub fits_somewhere : Text → Bool
  fits_somewhere [] = fits []
  fits_somewhere (c ∷ s) = fits (c ∷ s) || fits_somewhere s

  pub index-eq_none : (s : Text) → index s part ≡ none → fits_somewhere s ≡ false
  unfolding index
  index-eq_none [] h = ground arith
  index-eq_none (c ∷ s) h = ground (arith, index-eq_none s)

  abbrev found_at : Text → ℕ → Bool
  found_at s i = test (drop (i + length part) s) || fits_somewhere (drop (suc i) s)

  found_at-zero :
      (s : Text) → found_at s 0 ≡ (test (drop (length part) s) || fits_somewhere (drop 1 s))
  found_at-zero s = ap (λ n. test (drop n s) || fits_somewhere (drop 1 s)) (omega arith)

  found_at-suc : (c : ℕ) (s : Text) (i : ℕ) → found_at (c ∷ s) (suc i) ≡ found_at s i
  found_at-suc c s i =
      let e : suc i + length part ≡ suc (i + length part) = omega arith in
      ap (λ n. test (drop n (c ∷ s)) || fits_somewhere (drop (suc i) s)) e

  -- What the search has passed over when it finds a place.
  pub index-eq_some :
      (s : Text) (i : ℕ)
      → index s part ≡ some i
      → fits_somewhere s ≡ (test (drop (i + length part) s) || fits_somewhere (drop (suc i) s))
  unfolding index
  index-eq_some [] i h = ground (arith, drop-nil (i + length part), drop-nil (length part))
  index-eq_some (c ∷ s) i h = elim (Bool-cases (has_prefix (c ∷ s) part)) [
    | inl here ↦
        let z : i ≡ 0 = ground arith in
        subst (λ i. fits_somewhere (c ∷ s) ≡ found_at (c ∷ s) i) (sym z)
          (ground (arith, found_at-zero (c ∷ s)))
    | inr later ↦ elim (Option-cases (index s part)) [
      | inl e ↦ absurd (ground arith)
      | inr (j, e) ↦
          let z : i ≡ suc j = ground arith in
          subst (λ i. fits_somewhere (c ∷ s) ≡ found_at (c ∷ s) i) (sym z)
            (ground (arith, found_at-suc c s j, index-eq_some s j e))
    ]
  ]

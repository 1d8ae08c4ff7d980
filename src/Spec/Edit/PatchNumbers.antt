-- ===== src/Spec/Edit/PatchNumbers.antt =====
-- internal/rpm/spec/edit.go: GetHighestPatchTagNumber, by the names of the tags of a spec.
use azldev.Prelude.{
  ℕ, zero, suc, ◌+◌, ◌-◌, ◌^◌, List, [], ◌∷◌, Bool, true, false, ◌&&◌, Option, some, none,
}
use azldev.Prelude.{
  ◌≡◌, ◌≢◌, refl, arith, if◌then◌else◌, ltb, ◌=?◌, ℤ, pos, negsuc, ◌⊎◌, inl, inr, Bool-cases,
  Option-cases, subst, sym, ap, ◌∙◌,
}
use azldev.Text.{Text, codes}
use azldev.Spec.Edit.Patches.{
  PatchScan, parse_patch_tag_number, is_above, scan_patch, unnumbered, highest_of, next_patch,
}

-- n + 1
abbrev pub successor : ℤ → ℤ
successor (pos n) = pos (suc n)
successor (negsuc zero) = pos 0
successor (negsuc (suc n)) = negsuc n

-- A tag with this patch number stands among the tags.
abbrev pub HasNumber : List Text → ℤ → Type 0
HasNumber [] number = ⊥
HasNumber (tag ∷ tags) number = (parse_patch_tag_number tag ≡ some number) ⊎ HasNumber tags number

-- No tag has a patch number above this one.
abbrev pub NoneAbove : List Text → ℤ → Type 0
NoneAbove [] highest = Unit
NoneAbove (tag ∷ tags) highest =
    ((n : ℤ) → parse_patch_tag_number tag ≡ some n → is_above n highest ≡ false)
    × NoneAbove tags highest

is_above_trans : (a b c : ℤ) → is_above a b ≡ false → is_above c b ≡ true → is_above a c ≡ false
is_above_trans (pos a) (pos b) (pos c) h h' = ground arith
is_above_trans (pos a) (pos b) (negsuc c) h h' = ground arith
is_above_trans (pos a) (negsuc b) (pos c) h h' = ground arith
is_above_trans (pos a) (negsuc b) (negsuc c) h h' = ground arith
is_above_trans (negsuc a) (pos b) (pos c) h h' = ground arith
is_above_trans (negsuc a) (pos b) (negsuc c) h h' = ground arith
is_above_trans (negsuc a) (negsuc b) (pos c) h h' = ground arith
is_above_trans (negsuc a) (negsuc b) (negsuc c) h h' = ground arith

is_above_irrefl : (a : ℤ) → is_above a a ≡ false
is_above_irrefl (pos a) = ground arith
is_above_irrefl (negsuc a) = ground arith

module _ (equal_fold : Text → Text → Bool)
    (folds : (tag : Text)
      → equal_fold tag (codes "patch") ≡ true
      → parse_patch_tag_number tag ≡ none) where
  -- The number of patch tags without a number.
  abbrev pub unnumbered_count : List Text → ℕ
  unnumbered_count [] = 0
  unnumbered_count (tag ∷ tags) =
      let rest = unnumbered_count tags in if equal_fold tag (codes "patch") then suc rest else rest

  -- The scan over the tags, the last one first.
  abbrev pub scan_all : List Text → PatchScan
  scan_all [] = (negsuc 0, 0)
  scan_all (tag ∷ tags) = scan_patch equal_fold tag (scan_all tags)

  -- What the variables of the scan are.
  abbrev Scanned : List Text → PatchScan → Type 0
  Scanned tags (highest, count) =
      NoneAbove tags highest
      × ((highest ≡ negsuc 0) ⊎ HasNumber tags highest)
      × (count ≡ unnumbered_count tags)

  NoneAbove-raise :
      (tags : List Text) (highest n : ℤ)
      → is_above n highest ≡ true
      → NoneAbove tags highest
      → NoneAbove tags n
  NoneAbove-raise [] highest n above h = tt
  NoneAbove-raise (tag ∷ tags) highest n above (here, rest) = (
    λ m e. is_above_trans m highest n (here m e) above,
    NoneAbove-raise tags highest n above rest,
  )

  unnumbered-Scanned :
      (tag : Text) (tags : List Text) (highest : ℤ) (count : ℕ)
      → ((n : ℤ) → parse_patch_tag_number tag ≡ some n → is_above n highest ≡ false)
      → Scanned tags (highest, count)
      → Scanned (tag ∷ tags) (unnumbered equal_fold tag (highest, count))
  unfolding unnumbered
  unnumbered-Scanned tag tags highest count here (below, attained, counted) =
      let attained' : (highest ≡ negsuc 0) ⊎ HasNumber (tag ∷ tags) highest = elim attained [
        | inl e ↦ inl e
        | inr has ↦ inr (inr has)
      ] in
      elim (Bool-cases (equal_fold tag (codes "patch"))) [
        | inl e ↦
            subst (λ b. Scanned (tag ∷ tags) (if b then (highest, count + 1) else (highest, count)))
              (sym e) ((here, below), attained', ground arith)
        | inr e ↦
            subst (λ b. Scanned (tag ∷ tags) (if b then (highest, count + 1) else (highest, count)))
              (sym e) ((here, below), attained', ground arith)
      ]

  abbrev by_number : Text → ℤ → ℕ → Option ℤ → PatchScan
  by_number tag highest count number = elim number [
    | none ↦ unnumbered equal_fold tag (highest, count)
    | some n ↦ if is_above n highest then (n, count) else unnumbered equal_fold tag (highest, count)
  ]

  numbered-count :
      (tag : Text) (tags : List Text) (count : ℕ) (number : ℤ)
      → parse_patch_tag_number tag ≡ some number
      → count ≡ unnumbered_count tags
      → count ≡ unnumbered_count (tag ∷ tags)
  numbered-count tag tags count number e counted =
      elim (Bool-cases (equal_fold tag (codes "patch"))) [
        | inl unnumbered_tag ↦ absurd (ground (arith, e, folds tag unnumbered_tag))
        | inr apart ↦ ground arith
      ]

  same_number : (a b : ℤ) → some a ≡ some b → a ≡ b
  same_number a b e = ground (arith, e)

  scan_patch-Scanned :
      (tag : Text) (tags : List Text) (scan : PatchScan)
      → Scanned tags scan
      → Scanned (tag ∷ tags) (scan_patch equal_fold tag scan)
  unfolding scan_patch
  scan_patch-Scanned tag tags (highest, count) (below, attained, counted) =
      elim (Option-cases (parse_patch_tag_number tag)) [
        | inl e ↦
            subst (λ number. Scanned (tag ∷ tags) (by_number tag highest count number)) (sym e)
              (unnumbered-Scanned tag tags highest count (λ n e'. absurd (ground (arith, e, e')))
                (below, attained, counted))
        | inr (number, e) ↦
            subst (λ number'. Scanned (tag ∷ tags) (by_number tag highest count number')) (sym e)
              (elim (Bool-cases (is_above number highest)) [
                | inl above ↦
                    subst
                      (λ b.
                        Scanned (tag ∷ tags) (
                          if b
                          then (number, count)
                          else unnumbered equal_fold tag (highest, count)))
                      (sym above)
                      (
                        (
                          (λ n e'.
                              subst (λ m. is_above m number ≡ false)
                                (same_number number n (sym e ∙ e')) (is_above_irrefl number)),
                          NoneAbove-raise tags highest number above below,
                        ),
                        inr (inl e),
                        numbered-count tag tags count number e counted,
                      )
                | inr not_above ↦
                    subst
                      (λ b.
                        Scanned (tag ∷ tags) (
                          if b
                          then (number, count)
                          else unnumbered equal_fold tag (highest, count)))
                      (sym not_above)
                      (unnumbered-Scanned tag tags highest count
                        (λ n e'.
                          subst (λ m. is_above m highest ≡ false)
                            (same_number number n (sym e ∙ e')) not_above)
                        (below, attained, counted))
              ])
      ]

  scan_all-Scanned : (tags : List Text) → Scanned tags (scan_all tags)
  scan_all-Scanned [] = (tt, inl refl, refl)
  scan_all-Scanned (tag ∷ tags) =
      scan_patch-Scanned tag tags (scan_all tags) (scan_all-Scanned tags)

  -- The highest slot that patches take: those with a number, and those without one from 0 on.
  pub record IsHighest (tags : List Text) (highest : ℤ) : Type 0 where
    pub numbered : NoneAbove tags highest
    pub slots :
        (unnumbered_count tags ≡ 0) ⊎ (is_above (pos (unnumbered_count tags - 1)) highest ≡ false)
    pub taken :
        (highest ≡ negsuc 0) ⊎ HasNumber tags highest ⊎ (highest ≡ pos (unnumbered_count tags - 1))

  raised :
      (tags : List Text) (highest : ℤ) (count : ℕ)
      → count ≡ unnumbered_count tags
      → NoneAbove tags highest
      → (highest ≡ negsuc 0) ⊎ HasNumber tags highest
      → IsHighest tags
          (if ltb 0 count && is_above (pos (count - 1)) highest then pos (count - 1) else highest)
  raised tags highest zero counted below attained = record {
    numbered = below;
    slots = inl (sym counted);
    taken = elim attained [ inl e ↦ inl e | inr has ↦ inr (inl has) ];
  }
  raised tags highest (suc count) counted below attained =
      elim (Bool-cases (is_above (pos (suc count - 1)) highest)) [
        | inl above ↦
            subst (λ b. IsHighest tags (if b then pos (suc count - 1) else highest)) {x = true}
              {y = ltb 0 (suc count) && is_above (pos (suc count - 1)) highest} (ground arith)
              (record {
                numbered = NoneAbove-raise tags highest (pos (suc count - 1)) above below;
                slots = inr (
                    subst (λ c. is_above (pos (c - 1)) (pos (suc count - 1)) ≡ false) counted
                      (is_above_irrefl (pos (suc count - 1))));
                taken = inr (inr (ap (λ c. pos (c - 1)) counted));
              })
        | inr not_above ↦
            subst (λ b. IsHighest tags (if b then pos (suc count - 1) else highest)) {x = false}
              {y = ltb 0 (suc count) && is_above (pos (suc count - 1)) highest} (ground arith)
              (record {
                numbered = below;
                slots = inr (subst (λ c. is_above (pos (c - 1)) highest ≡ false) counted not_above);
                taken = elim attained [ inl e ↦ inl e | inr has ↦ inr (inl has) ];
              })
      ]

  pub highest_of-IsHighest :
      (tags : List Text) → IsHighest tags (highest_of equal_fold (scan_all tags))
  unfolding highest_of
  highest_of-IsHighest tags =
      let (highest, count) = scan_all tags in
      let (below, attained, counted) = scan_all-Scanned tags in
      subst
        (λ c.
          IsHighest tags
            (if ltb 0 c && is_above (pos (c - 1)) highest then pos (c - 1) else highest))
        (sym counted) (raised tags highest (unnumbered_count tags) refl below attained)

-- Below the highest int the next patch number is the successor.
pub next_patch-successor :
    (equal_fold : Text → Text → Bool) (n : ℤ)
    → n ≢ pos (2 ^ 63 - 1)
    → next_patch equal_fold n ≡ successor n
unfolding next_patch
next_patch-successor equal_fold (negsuc zero) below = refl
next_patch-successor equal_fold (negsuc (suc n)) below = refl
next_patch-successor equal_fold (pos n) below = elim (Bool-cases (suc n =? 2 ^ 63)) [
  | inl e ↦ absurd (below (ap pos (ground arith)))
  | inr e ↦ ground arith
]

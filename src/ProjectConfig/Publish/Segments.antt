-- ===== src/ProjectConfig/Publish/Segments.antt =====
-- internal/projectconfig/component.go: the names that IsDebugInfoPackage accepts.
use azldev.Prelude.{ℕ, zero, suc, ◌+◌, ◌<◌, [], ◌∷◌, ◌++◌, true}
use azldev.Prelude.{◌≡◌, ◌↔◌, ◌⊎◌, inl, inr, ◌∙◌, sym, length, drop, drop-length, arith}
use azldev.Prelude.{Option-cases, Bool-cases, subst, ap}
use azldev.Text.{Text, codes}
use azldev.Text.Search.{
  index, fits, fits_somewhere, index-eq_none, index-eq_some, has_prefix-eq_true, has_prefix-append,
  drop-nil,
}
use azldev.ProjectConfig.Publish.{
  ends_segment, contains_segment_from, contains_rpm_segment, is_debug_info_package,
}

-- The name has the segment, at its end or before a hyphen.
pub record HasSegment (name segment : Text) : Type 0 where
  pub before : Text
  pub after : Text
  pub parts : name ≡ before ++ (segment ++ after)
  pub ends : ends_segment after ≡ true

length-drop_lt : (i : ℕ) (c : ℕ) (s : Text) → length (drop i s) < length (c ∷ s)
length-drop_lt zero c s = omega arith
length-drop_lt (suc i) c [] = omega arith
length-drop_lt (suc i) c (d ∷ s) = omega (arith, length-drop_lt i d s)

-- The loop finds a segment if there is one, in as many rounds as the text has characters, and one.
contains_segment_from-fits :
    (fuel : ℕ) (rest segment : Text)
    → length rest < fuel
    → contains_segment_from fuel rest segment ≡ fits_somewhere ends_segment segment rest
unfolding contains_segment_from index
contains_segment_from-fits zero rest segment h = elim h [ ]
contains_segment_from-fits (suc fuel) [] segment h =
    ground (arith, drop-nil (length segment), drop-nil (0 + length segment))
contains_segment_from-fits (suc fuel) (c ∷ rest) segment h =
    elim (Option-cases (index (c ∷ rest) segment)) [
      | inl e ↦ ground (arith, index-eq_none ends_segment segment (c ∷ rest) e)
      | inr (i, e) ↦ elim (Bool-cases (ends_segment (drop (i + length segment) (c ∷ rest)))) [
        | inl b ↦ ground (arith, index-eq_some ends_segment segment (c ∷ rest) i e)
        | inr b ↦ ground (
          arith,
          index-eq_some ends_segment segment (c ∷ rest) i e,
          contains_segment_from-fits fuel (drop i rest) segment
              (omega (arith, length-drop_lt i c rest)),
        )
      ]
    ]

HasSegment-fits :
    (name segment : Text)
    → fits_somewhere ends_segment segment name ≡ true
    → HasSegment name segment
HasSegment-fits [] segment h = record {
  before = [];
  after = drop (length segment) [];
  parts = has_prefix-eq_true [] segment (ground arith);
  ends = ground arith;
}
HasSegment-fits (c ∷ name) segment h = elim (Bool-cases (fits ends_segment segment (c ∷ name))) [
  | inl here ↦ record {
    before = [];
    after = drop (length segment) (c ∷ name);
    parts = has_prefix-eq_true (c ∷ name) segment (ground arith);
    ends = ground arith;
  }
  | inr later ↦
      let found : HasSegment name segment = HasSegment-fits name segment (ground arith) in
      record {
        before = c ∷ found.before;
        after = found.after;
        parts = ap (λ s. c ∷ s) found.parts;
        ends = found.ends;
      }
]

fits_of_fits :
    (segment s : Text)
    → fits ends_segment segment s ≡ true
    → fits_somewhere ends_segment segment s ≡ true
fits_of_fits segment [] h = h
fits_of_fits segment (c ∷ s) h = ground arith

fits_somewhere-HasSegment :
    (segment before after : Text)
    → ends_segment after ≡ true
    → fits_somewhere ends_segment segment (before ++ (segment ++ after)) ≡ true
fits_somewhere-HasSegment segment [] after h =
    fits_of_fits segment (segment ++ after)
      (ground (arith, has_prefix-append segment after, drop-length segment after))
fits_somewhere-HasSegment segment (c ∷ before) after h =
    ground (arith, fits_somewhere-HasSegment segment before after h)

contains_rpm_segment_iff :
    (name segment : Text) → (contains_rpm_segment name segment ≡ true) ↔ HasSegment name segment
unfolding contains_rpm_segment
contains_rpm_segment_iff name segment = (
  λ h. HasSegment-fits name segment (sym found ∙ h),
  λ s.
      found
      ∙ subst (λ n. fits_somewhere ends_segment segment n ≡ true) (sym s.parts)
          (fits_somewhere-HasSegment segment s.before s.after s.ends),
)
  where
    found :
        contains_segment_from (suc (length name)) name segment
        ≡ fits_somewhere ends_segment segment name
    found = contains_segment_from-fits (suc (length name)) name segment (omega arith)

-- IsDebugInfoPackage accepts exactly the names that have "-debuginfo" or "-debugsource" at their end
-- or before a hyphen; the loop that looks for them ends.
pub is_debug_info_package_iff :
    (name : Text)
    → (is_debug_info_package name ≡ true)
      ↔ (HasSegment name (codes "-debuginfo") ⊎ HasSegment name (codes "-debugsource"))
unfolding is_debug_info_package
is_debug_info_package_iff name = (
  λ h. elim (Bool-cases (contains_rpm_segment name (codes "-debuginfo"))) [
    | inl b ↦ inl ((contains_rpm_segment_iff name (codes "-debuginfo")).0 b)
    | inr b ↦ inr ((contains_rpm_segment_iff name (codes "-debugsource")).0 (ground arith))
  ],
  λ s. elim s [
    | inl a ↦ ground (arith, (contains_rpm_segment_iff name (codes "-debuginfo")).1 a)
    | inr a ↦ ground (arith, (contains_rpm_segment_iff name (codes "-debugsource")).1 a)
  ],
)

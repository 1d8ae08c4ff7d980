-- ===== src/Spec/Balance/Straddle.antt =====
-- internal/rpm/spec/edit.go: the conditionals around a range that balanceRange returns.
use azldev.Prelude.{ℕ, ◌≤◌, List, [], ◌∷◌, ◌≡◌, refl}
use azldev.Prelude.{
  arith, if◌then◌else◌, ltb, ok, Bool-cases, Result-cases, inl, inr, ◌⊎◌, ap, subst, Option, some,
  none,
}
use azldev.Text.{Text}
use azldev.Spec.Tree.Pairs.{ConditionalPair, pair_by_if}
use azldev.Spec.Tree.Nesting.{Invariant}
use azldev.Spec.Balance.{SectionRange, inside, trim_loop, trimmed_range, balance_range}

-- A pair with these lines is in the list.
abbrev pub Has : List ConditionalPair → ℕ → ℕ → Type 0
Has [] i k = ⊥
Has (pair ∷ pairs) i k = ((pair.if_line ≡ i) × (pair.endif_line ≡ k)) ⊎ Has pairs i k

-- Each pair of the list is the one that its %if line is looked up by.
abbrev pub AllFound : List ConditionalPair → List ConditionalPair → Type 0
AllFound pairs found = (i k : ℕ) → Has pairs i k → pair_by_if found i ≡ some k

-- No conditional has one of its two lines in the range.
abbrev pub NoStraddle : List ConditionalPair → SectionRange → Type 0
NoStraddle found range = (i k : ℕ) → pair_by_if found i ≡ some k → inside range i ≡ inside range k

pub pair_by_if-Has :
    (pairs : List ConditionalPair) (i k : ℕ) → pair_by_if pairs i ≡ some k → Has pairs i k
unfolding pair_by_if
pair_by_if-Has [] i k h = ground arith
pair_by_if-Has (pair ∷ pairs) i k h = ground (arith, pair_by_if-Has pairs i k)

-- The line of a pair that is in the range, if the other one is not.
abbrev straddling : SectionRange → ℕ → ℕ → Option ℕ
straddling range i k =
    if inside range i
    then (if inside range k then none else some i)
    else if inside range k
    then some k
    else none

-- The result of the loop of balanceRange is a smallest such line, or where it started.
record Trimmed (range : SectionRange) (pairs : List ConditionalPair) (from t : ℕ) : Type 0 where
  below : t ≤ from
  past : (i k line : ℕ) → Has pairs i k → straddling range i k ≡ some line → t ≤ line
  origin : (t ≡ from) ⊎ ((i : ℕ) × (k : ℕ) × Has pairs i k × (straddling range i k ≡ some t))

trim_keep :
    (range : SectionRange) (pair : ConditionalPair) (pairs : List ConditionalPair) (from t : ℕ)
    → Trimmed range pairs from t
    → ((line : ℕ) → straddling range pair.if_line pair.endif_line ≡ some line → from ≤ line)
    → Trimmed range (pair ∷ pairs) from t
trim_keep range pair pairs from t rest far = record {
  below = rest.below;
  past = λ i k line has h. elim has [
    | inl (e, e') ↦ omega (arith, rest.below, far line (rw (e, e') h))
    | inr has' ↦ rest.past i k line has' h
  ];
  origin = elim rest.origin [ inl e ↦ inl e | inr (i, k, has, h) ↦ inr (i, k, inr has, h) ];
}

trim_move :
    (range : SectionRange) (pair : ConditionalPair) (pairs : List ConditionalPair)
    (from from' t : ℕ)
    → Trimmed range pairs from' t
    → straddling range pair.if_line pair.endif_line ≡ some from'
    → from' ≤ from
    → Trimmed range (pair ∷ pairs) from t
trim_move range pair pairs from from' t rest here le = record {
  below = omega (arith, rest.below);
  past = λ i k line has h. elim has [
    | inl (e, e') ↦ ground (
      arith,
      rest.below,
      ap (λ a. straddling range a k) e,
      ap (λ b. straddling range pair.if_line b) e',
    )
    | inr has' ↦ rest.past i k line has' h
  ];
  origin = elim rest.origin [
    | inl e ↦ inr (pair.if_line, pair.endif_line, inl (refl, refl), rw e here)
    | inr (i, k, has, h) ↦ inr (i, k, inr has, h)
  ];
}

trim_loop-eq_ok :
    (range : SectionRange) (raw : List Text) (pairs : List ConditionalPair) (from t : ℕ)
    → trim_loop range raw pairs from ≡ ok t
    → Trimmed range pairs from t
unfolding trim_loop
trim_loop-eq_ok range raw [] from t h = record {
  below = ground arith;
  past = λ i k line has e. elim has [ ];
  origin = inl (ground arith);
}
trim_loop-eq_ok range raw (pair ∷ pairs) from t h = elim (Bool-cases (inside range pair.if_line)) [
  | inl i_in ↦ elim (Bool-cases (inside range pair.endif_line)) [
    | inl k_in ↦
        trim_keep range pair pairs from t (trim_loop-eq_ok range raw pairs from t (ground arith))
          (λ line e. ground arith)
    | inr k_out ↦ elim (Bool-cases (ltb pair.if_line from)) [
      | inl lower ↦
          trim_move range pair pairs from pair.if_line t
            (trim_loop-eq_ok range raw pairs pair.if_line t (ground arith)) (ground arith)
            (ground arith)
      | inr higher ↦
          trim_keep range pair pairs from t (trim_loop-eq_ok range raw pairs from t (ground arith))
            (λ line e. ground arith)
    ]
  ]
  | inr i_out ↦ elim (Bool-cases (inside range pair.endif_line)) [
    | inr k_out ↦
        trim_keep range pair pairs from t (trim_loop-eq_ok range raw pairs from t (ground arith))
          (λ line e. ground arith)
    | inl k_in ↦ elim (Bool-cases (ltb pair.endif_line from)) [
      | inl lower ↦
          trim_move range pair pairs from pair.endif_line t
            (trim_loop-eq_ok range raw pairs pair.endif_line t (ground arith)) (ground arith)
            (ground arith)
      | inr higher ↦
          trim_keep range pair pairs from t (trim_loop-eq_ok range raw pairs from t (ground arith))
            (λ line e. ground arith)
    ]
  ]
]

-- Nested pairs do not straddle the trimmed range.
Trimmed-NoStraddle :
    (range : SectionRange) (len t : ℕ) (pairs : List ConditionalPair)
    → Invariant len [] pairs
    → AllFound pairs pairs
    → Trimmed range pairs range.end t
    → NoStraddle pairs (record { start = range.start; end = t })
Trimmed-NoStraddle range len t pairs inv found trimmed i k h =
    let has = pair_by_if-Has pairs i k h in
    elim trimmed.origin [
      | inl e ↦ ground (arith, trimmed.past i k i has, trimmed.past i k k has)
      | inr (i', k', has', e) ↦ ground (
        arith,
        trimmed.below,
        trimmed.past i k i has,
        trimmed.past i k k has,
        inv.paired_below i k,
        inv.paired_below i' k',
        found i' k' has',
        inv.nested i' k' i k,
        inv.nested i k i' k',
      )
    ]

Trimmed-start :
    (range : SectionRange) (t : ℕ) (pairs : List ConditionalPair)
    → Trimmed range pairs range.end t
    → range.start ≤ range.end
    → range.start ≤ t
Trimmed-start range t pairs trimmed le = elim trimmed.origin [
  | inl e ↦ omega arith
  | inr (i, k, has, e) ↦ ground arith
]

-- The range that balanceRange returns starts where the given one does, does not reach beyond its end,
-- and holds both lines of a conditional or none of them.
pub balance_range-NoStraddle :
    (range range' : SectionRange) (raw : List Text) (pairs : List ConditionalPair) (len : ℕ)
    → Invariant len [] pairs
    → AllFound pairs pairs
    → range.start ≤ range.end
    → balance_range range raw pairs ≡ ok range'
    → (range'.start ≡ range.start)
      × (range'.start ≤ range'.end)
      × (range'.end ≤ range.end)
      × NoStraddle pairs range'
unfolding balance_range trimmed_range
balance_range-NoStraddle range range' raw pairs len inv found le h =
    elim (Result-cases (trim_loop range raw pairs range.end)) [
      | inr (_, e) ↦ ground arith
      | inl (t, e) ↦
          let trimmed = trim_loop-eq_ok range raw pairs range.end t e in
          let same : record { start = range.start; end = t } ≡ range' = ground arith in
          (
            ground arith,
            ground (arith, Trimmed-start range t pairs trimmed le),
            ground (arith, trimmed.below),
            subst (NoStraddle pairs) same (Trimmed-NoStraddle range len t pairs inv found trimmed),
          )
    ]

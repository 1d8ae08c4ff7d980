-- ===== src/ParMap/Slots.antt =====
-- internal/utils/parmap/parmap.go: the change of one place of the results.
use azldev.Prelude.{
  ℕ, zero, suc, ◌+◌, ◌≤◌, ◌<◌, List, [], ◌∷◌, Option, some, ◌≡◌, refl, arith, Option-cases, inl,
  inr, length, subst, get_elem?, map, ap, Bool, true, false, Bool-cases,
}
use azldev.ParMap.{modify, total, one_if}

module _ {A : Type 0} where
  abbrev pub All : (A → Type 0) → List A → Type 0
  All P [] = Unit
  All P (x ∷ xs) = P x × All P xs

  -- One element was replaced by another one.
  pub record Changed (change : A → Option A) (i : ℕ) (xs ys : List A) : Type 1 where
    pub old : A
    pub new : A
    pub result : change old ≡ some new
    pub totals : (weight : A → ℕ) → total weight ys + weight old ≡ total weight xs + weight new
    pub old_one : (P : A → Type 0) → All P xs → P old
    pub all_new : (P : A → Type 0) → All P xs → P new → All P ys
    pub old_at : get_elem? xs i ≡ some old
    pub mapped : {B : Type 0} (f : A → B) → f new ≡ f old → map f ys ≡ map f xs
    pub lengths : length ys ≡ length xs

  pub modify-Changed :
      (i : ℕ) (change : A → Option A) (xs ys : List A)
      → modify i change xs ≡ some ys
      → Changed change i xs ys
  unfolding modify
  modify-Changed i change [] ys h = ground arith
  modify-Changed zero change (x ∷ xs) ys h = elim (Option-cases (change x)) [
    | inl e ↦ ground arith
    | inr (y, e) ↦
        let same : y ∷ xs ≡ ys = ground arith in
        subst (Changed change zero (x ∷ xs)) same (record {
          old = x;
          new = y;
          result = e;
          totals = λ weight. omega arith;
          old_one = λ P all. let (p, rest) = all in p;
          all_new = λ P all q. let (p, rest) = all in (q, rest);
          old_at = refl;
          mapped = λ f e'. ap (λ z. z ∷ map f xs) e';
          lengths = refl;
        })
  ]
  modify-Changed (suc i) change (x ∷ xs) ys h = elim (Option-cases (modify i change xs)) [
    | inl e ↦ ground arith
    | inr (rest, e) ↦
        let same : x ∷ rest ≡ ys = ground arith in
        let changed = modify-Changed i change xs rest e in
        subst (Changed change (suc i) (x ∷ xs)) same (record {
          old = changed.old;
          new = changed.new;
          result = changed.result;
          totals = λ weight. omega (arith, changed.totals weight);
          old_one = λ P all. let (p, all') = all in changed.old_one P all';
          all_new = λ P all q. let (p, all') = all in (p, changed.all_new P all' q);
          old_at = changed.old_at;
          mapped = λ f e'. ap (λ zs. f x ∷ zs) (changed.mapped f e');
          lengths = omega (arith, changed.lengths);
        })
  ]

  -- The elements from an index on, and only those, pass the test.
  abbrev pub Split : (A → Bool) → ℕ → List A → Type 0
  Split test zero xs = All (λ x. test x ≡ true) xs
  Split test (suc i) [] = ⊥
  Split test (suc i) (x ∷ xs) = (test x ≡ false) × Split test i xs

  module _ (test : A → Bool) (change : A → Option A) where
    pub Split-end : (xs : List A) → Split test (length xs) xs → total (λ x. one_if (test x)) xs ≡ 0
    Split-end [] split = refl
    Split-end (x ∷ xs) (fails, split) = ground (arith, fails, Split-end xs split)

    pub Split-le : (i : ℕ) (xs : List A) → Split test i xs → i ≤ length xs
    Split-le zero xs split = omega arith
    Split-le (suc i) [] split = elim split [ ]
    Split-le (suc i) (x ∷ xs) (fails, split) = omega (arith, Split-le i xs split)

    -- A change of an element that fails the test, before and after it.
    pub Split-keep :
        ((x y : A) → change x ≡ some y → (test x ≡ false) × (test y ≡ false))
        → (k i : ℕ) (xs ys : List A) → modify i change xs ≡ some ys
        → Split test k xs
        → Split test k ys
    unfolding modify
    Split-keep keeps k i [] ys h split = ground arith
    Split-keep keeps zero zero (x ∷ xs) ys h (passes, split) = elim (Option-cases (change x)) [
      | inl e ↦ ground arith
      | inr (y, e) ↦ let (a, b) = keeps x y e in ground arith
    ]
    Split-keep keeps (suc k) zero (x ∷ xs) ys h (fails, split) = elim (Option-cases (change x)) [
      | inl e ↦ ground arith
      | inr (y, e) ↦
          let same : y ∷ xs ≡ ys = ground arith in
          let (a, b) = keeps x y e in subst (Split test (suc k)) same (b, split)
    ]
    Split-keep keeps k (suc i) (x ∷ xs) ys h split = elim (Option-cases (modify i change xs)) [
      | inl e ↦ ground arith
      | inr (rest, e) ↦
          let same : x ∷ rest ≡ ys = ground arith in
          subst (Split test k) same
            (under k x xs rest split (λ k' split'. Split-keep keeps k' i xs rest e split'))
    ]
      where
        under :
            (k : ℕ) (x : A) (xs rest : List A)
            → Split test k (x ∷ xs)
            → ((k' : ℕ) → Split test k' xs → Split test k' rest)
            → Split test k (x ∷ rest)
        under zero x xs rest (passes, split) f = (passes, f zero split)
        under (suc k) x xs rest (fails, split) f = (fails, f k split)

    -- The first element that passes the test is changed to one that fails it.
    pub Split-next :
        ((x y : A) → change x ≡ some y → test y ≡ false)
        → (i : ℕ) (xs ys : List A) → modify i change xs ≡ some ys
        → Split test i xs
        → Split test (suc i) ys
    unfolding modify
    Split-next fails_after i [] ys h split = ground arith
    Split-next fails_after zero (x ∷ xs) ys h (passes, split) = elim (Option-cases (change x)) [
      | inl e ↦ ground arith
      | inr (y, e) ↦
          let same : y ∷ xs ≡ ys = ground arith in
          subst (Split test 1) same (fails_after x y e, split)
    ]
    Split-next fails_after (suc i) (x ∷ xs) ys h (fails, split) =
        elim (Option-cases (modify i change xs)) [
          | inl e ↦ ground arith
          | inr (rest, e) ↦
              let same : x ∷ rest ≡ ys = ground arith in
              subst (Split test (suc (suc i))) same
                (fails, Split-next fails_after i xs rest e split)
        ]

    -- That element can be changed.
    pub Split-modify :
        ((x : A) → test x ≡ true → (y : A) × (change x ≡ some y))
        → (i : ℕ) (xs : List A) → i < length xs
        → Split test i xs
        → (ys : List A) × (modify i change xs ≡ some ys)
    unfolding modify
    Split-modify changes i [] lt split = ground arith
    Split-modify changes zero (x ∷ xs) lt (passes, split) =
        let (y, e) = changes x passes in (y ∷ xs, ground arith)
    Split-modify changes (suc i) (x ∷ xs) lt (fails, split) =
        let (ys, e) = Split-modify changes i xs (omega (arith, lt)) split in (x ∷ ys, ground arith)

    -- Some element that passes the test can be changed.
    pub modify-some :
        ((x : A) → test x ≡ true → (y : A) × (change x ≡ some y))
        → (xs : List A) → 0 < total (λ x. one_if (test x)) xs
        → (i : ℕ) × (ys : List A) × (modify i change xs ≡ some ys)
    unfolding modify
    modify-some changes [] lt = ground arith
    modify-some changes (x ∷ xs) lt = elim (Bool-cases (test x)) [
      | inl passes ↦ let (y, e) = changes x passes in (0, y ∷ xs, ground arith)
      | inr fails ↦
          let (i, ys, e) = modify-some changes xs (ground arith) in (suc i, x ∷ ys, ground arith)
    ]

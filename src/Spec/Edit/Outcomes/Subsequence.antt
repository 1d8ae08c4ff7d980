-- ===== src/Spec/Edit/Outcomes/Subsequence.antt =====
-- internal/rpm/spec/spec.go: lines that are kept, in their order, when others are inserted or removed.
use azldev.Prelude.{ℕ, zero, suc, List, [], ◌∷◌, ◌++◌, ◌≡◌, refl, inl, inr, ◌⊎◌, ◌∙◌}
use azldev.Text.{Text}
use azldev.Spec.Visit.{insert_lines_at, remove_lines, remove_line}

-- The first lines are lines of the second list, in the same order.
abbrev pub Subsequence : List Text → List Text → Type 0
Subsequence [] ys = Unit
Subsequence (x ∷ xs) [] = ⊥
Subsequence (x ∷ xs) (y ∷ ys) = ((x ≡ y) × Subsequence xs ys) ⊎ Subsequence (x ∷ xs) ys

pub Subsequence-refl : (xs : List Text) → Subsequence xs xs
Subsequence-refl [] = tt
Subsequence-refl (x ∷ xs) = inl (refl, Subsequence-refl xs)

Subsequence-skip :
    (xs : List Text) (y : Text) (ys : List Text) → Subsequence xs ys → Subsequence xs (y ∷ ys)
Subsequence-skip [] y ys h = tt
Subsequence-skip (x ∷ xs) y ys h = inr h

Subsequence-append : (xs zs ys : List Text) → Subsequence xs ys → Subsequence xs (zs ++ ys)
Subsequence-append xs [] ys h = h
Subsequence-append xs (z ∷ zs) ys h =
    Subsequence-skip xs z (zs ++ ys) (Subsequence-append xs zs ys h)

pub Subsequence-insert :
    (xs ys inserted : List Text) (n : ℕ)
    → Subsequence xs ys
    → Subsequence xs (insert_lines_at ys inserted n)
unfolding insert_lines_at
Subsequence-insert xs ys inserted zero h = Subsequence-append xs inserted ys h
Subsequence-insert [] ys inserted (suc n) h = tt
Subsequence-insert (x ∷ xs) [] inserted (suc n) h = elim h [ ]
Subsequence-insert (x ∷ xs) (y ∷ ys) inserted (suc n) (inl (e, h)) =
    inl (e, Subsequence-insert xs ys inserted n h)
Subsequence-insert (x ∷ xs) (y ∷ ys) inserted (suc n) (inr h) =
    inr (Subsequence-insert (x ∷ xs) ys inserted n h)

Subsequence-prefix : (xs ys : List Text) → Subsequence xs (xs ++ ys)
Subsequence-prefix [] ys = tt
Subsequence-prefix (x ∷ xs) ys = inl (refl, Subsequence-prefix xs ys)

-- Lines that were inserted stand in the result.
pub Subsequence-inserted :
    (ys inserted : List Text) (n : ℕ) → Subsequence inserted (insert_lines_at ys inserted n)
unfolding insert_lines_at
Subsequence-inserted ys inserted zero = Subsequence-prefix inserted ys
Subsequence-inserted [] inserted (suc n) = Subsequence-prefix inserted []
Subsequence-inserted (y ∷ ys) inserted (suc n) =
    Subsequence-skip inserted y (insert_lines_at ys inserted n) (Subsequence-inserted ys inserted n)

Subsequence-tail : (x : Text) (xs ys : List Text) → Subsequence (x ∷ xs) ys → Subsequence xs ys
Subsequence-tail x xs [] h = elim h [ ]
Subsequence-tail x xs (y ∷ ys) (inl (e, h)) = Subsequence-skip xs y ys h
Subsequence-tail x xs (y ∷ ys) (inr h) = Subsequence-skip xs y ys (Subsequence-tail x xs ys h)

pub Subsequence-remove :
    (xs ys : List Text) (n : ℕ) → Subsequence xs ys → Subsequence (remove_line xs n) ys
unfolding remove_line remove_lines
Subsequence-remove [] ys zero h = tt
Subsequence-remove [] ys (suc n) h = tt
Subsequence-remove (x ∷ xs) ys zero h = Subsequence-tail x xs ys h
Subsequence-remove (x ∷ xs) [] (suc n) h = elim h [ ]
Subsequence-remove (x ∷ xs) (y ∷ ys) (suc n) (inl (e, h)) = inl (e, Subsequence-remove xs ys n h)
Subsequence-remove (x ∷ xs) (y ∷ ys) (suc n) (inr h) =
    inr (Subsequence-remove (x ∷ xs) ys (suc n) h)

pub Subsequence-trans :
    (xs ys zs : List Text) → Subsequence xs ys → Subsequence ys zs → Subsequence xs zs
Subsequence-trans [] ys zs h h' = tt
Subsequence-trans (x ∷ xs) [] zs h h' = elim h [ ]
Subsequence-trans (x ∷ xs) (y ∷ ys) [] h h' = elim h' [ ]
Subsequence-trans (x ∷ xs) (y ∷ ys) (z ∷ zs) h (inr h') =
    inr (Subsequence-trans (x ∷ xs) (y ∷ ys) zs h h')
Subsequence-trans (x ∷ xs) (y ∷ ys) (z ∷ zs) (inl (e, h)) (inl (e', h')) =
    inl (e ∙ e', Subsequence-trans xs ys zs h h')
Subsequence-trans (x ∷ xs) (y ∷ ys) (z ∷ zs) (inr h) (inl (e', h')) =
    inr (Subsequence-trans (x ∷ xs) ys zs h h')

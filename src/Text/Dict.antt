-- ===== src/Text/Dict.antt =====
-- A Go map with text keys, as an association list in some iteration order.
use azldev.Text.Equality.{Text, ◌==◌, eq_iff}
use azldev.Prelude.{
  ◌≡◌, refl, List, [], ◌∷◌, Bool, true, false, Option, none, some, arith, if◌then◌else◌,
}

abbrev pub Dict {ℓ} : Type ℓ → Type ℓ
Dict V = List (Text × V)

module _ {ℓ} {V : Type ℓ} where
  -- d[k]
  unfoldable pub lookup : Text → Dict V → Option V
  lookup k [] = none
  lookup k ((j, v) ∷ d) = if j == k then some v else lookup k d

  -- delete(d, k)
  unfoldable pub delete : Text → Dict V → Dict V
  delete k [] = []
  delete k ((j, v) ∷ d) = let rest = delete k d in if j == k then rest else (j, v) ∷ rest

  -- d[k] = v
  unfoldable pub put : Text → V → Dict V → Dict V
  put k v d = (k, v) ∷ delete k d

  abbrev pub is_some : Option V → Bool
  is_some none = false
  is_some (some v) = true

module _ {ℓ} {V : Type ℓ} where
  pub lookup-nil : (k : Text) → lookup {V = V} k [] ≡ none
  unfolding lookup
  lookup-nil k = refl

  pub lookup-cons :
      (k j : Text) (v : V) (d : Dict V)
      → lookup k ((j, v) ∷ d) ≡ (if j == k then some v else lookup k d)
  unfolding lookup
  lookup-cons k j v d = refl

  pub lookup-delete :
      (k j : Text) (d : Dict V) → lookup j (delete k d) ≡ (if k == j then none else lookup j d)
  unfolding lookup delete
  lookup-delete k j [] = ground arith
  lookup-delete k j ((i, v) ∷ d) =
      ground (arith, lookup-delete k j d, eq_iff i k, eq_iff i j, eq_iff k j)

  pub lookup-put :
      (k j : Text) (v : V) (d : Dict V)
      → lookup j (put k v d) ≡ (if k == j then some v else lookup j d)
  unfolding put
  lookup-put k j v d = ground (arith, lookup-cons j k v (delete k d), lookup-delete k j d)

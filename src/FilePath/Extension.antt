-- ===== src/FilePath/Extension.antt =====
-- Files that are named for a component, with an extension, in one directory.
use azldev.Prelude.{◌∷◌, [], ◌++◌, ◌≡◌, refl, ◌∙◌, true, false, arith, any-append, ◌=?◌, ℕ}
use azldev.Text.{Text, ◌==◌, cut_suffix-append}
use azldev.FilePath.{join}
use azldev.FilePath.Clean.{after_last_slash}
use azldev.FilePath.Valid.{is_filename, has_slash, is_plain, all-allowed}
use azldev.FilePath.Names.{after_last_slash-join}

no_slash_of_filename : (n : Text) → is_filename n ≡ true → has_slash n ≡ false
no_slash_of_filename n h = ground (arith, all-allowed n)

append_cons_ne : (n s : Text) (c d : ℕ) → ((n ++ (c ∷ d ∷ s)) == []) ≡ false
unfolding ◌==◌
append_cons_ne [] s c d = refl
append_cons_ne (e ∷ n) s c d = refl

-- The extension has three characters or more, and no slash.
module _ (a b c : ℕ) (s : Text) (no_slash : has_slash (a ∷ b ∷ c ∷ s) ≡ false) where
  is_plain-extension : (n : Text) → is_plain (n ++ (a ∷ b ∷ c ∷ s)) ≡ true
  unfolding ◌==◌
  is_plain-extension [] = ground arith
  is_plain-extension (x ∷ []) = ground arith
  is_plain-extension (x ∷ y ∷ n) = ground (arith, append_cons_ne n (c ∷ s) a b)

  after_last_slash-join_extension :
      (dir n : Text)
      → is_filename n ≡ true
      → after_last_slash (join dir (n ++ (a ∷ b ∷ c ∷ s))) ≡ n ++ (a ∷ b ∷ c ∷ s)
  after_last_slash-join_extension dir n valid =
      after_last_slash-join dir (n ++ (a ∷ b ∷ c ∷ s))
        (any-append (λ d. d =? b'/') n (a ∷ b ∷ c ∷ s) ∙ ground (arith, no_slash_of_filename n))
        (is_plain-extension n)

  -- The path determines the component.
  pub join_extension_injective :
      (dir n m : Text)
      → is_filename n ≡ true
      → is_filename m ≡ true
      → join dir (n ++ (a ∷ b ∷ c ∷ s)) ≡ join dir (m ++ (a ∷ b ∷ c ∷ s))
      → n ≡ m
  join_extension_injective dir n m hn hm e = cc (
    cut_suffix-append n (a ∷ b ∷ c ∷ s),
    cut_suffix-append m (a ∷ b ∷ c ∷ s),
    after_last_slash-join_extension dir n hn,
    after_last_slash-join_extension dir m hm,
  )

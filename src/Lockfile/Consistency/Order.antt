-- ===== src/Lockfile/Consistency/Order.antt =====
-- internal/lockfile/lockfile.go: the consistency check of a whole project, and the order in which Go
-- walks the map of components.
use mathlib.Core.List.{Perm, Permᴰ}
use mathlib.Core.Logic.{∥∥₁_elim}
use azldev.Prelude.{List, ◌∷◌, [], Bool, true, false, ◌≡◌, refl, ◌∙◌, ◌↔◌, inl, inr, ok, arith}
use azldev.Prelude.{none, ◌||◌, all, Result-cases, is_ok}
use azldev.Text.{Text, ◌==◌}
use azldev.Text.Order.{sort, insert, insert_comm}
use azldev.Text.Dict.{Dict, lookup, is_some}
use azldev.FileSystem.{FileSystem, DirEntry}
use azldev.Lockfile.Codec.{Toml}
use azldev.Lockfile.{validate_upstream_commit}
use azldev.Lockfile.Orphans.{
  ComponentConfig, source_type_local, orphans_in, find_orphan_lock_files, report, is_empty,
  missing_or_stale_in, validate_consistency,
}

is_empty-insert : (name : Text) (names : List Text) → is_empty (insert name names) ≡ false
unfolding is_empty insert
is_empty-insert name [] = refl
is_empty-insert name (name' ∷ names) = ground arith

is_empty-sort : (names : List Text) → is_empty (sort names) ≡ is_empty names
unfolding sort is_empty
is_empty-sort [] = refl
is_empty-sort (name ∷ names) = is_empty-insert name (sort names)

report-sort :
    (xs ys : List Text) (orphans : List Text)
    → sort xs ≡ sort ys
    → report xs orphans ≡ report ys orphans
unfolding report
report-sort xs ys orphans e = ground (arith, is_empty-sort xs, is_empty-sort ys)

orphans_in-same_keys :
    (entries : List DirEntry) (cs ds : Dict ComponentConfig)
    → ((name : Text) → is_some (lookup name cs) ≡ is_some (lookup name ds))
    → orphans_in entries cs ≡ orphans_in entries ds
unfolding orphans_in
orphans_in-same_keys [] cs ds same = refl
orphans_in-same_keys (entry ∷ entries) cs ds same =
    rw (same, orphans_in-same_keys entries cs ds same)

find_orphan_lock_files-same_keys :
    (F : FileSystem) (fs : F.State) (lock_dir : Text) (cs ds : Dict ComponentConfig)
    → ((name : Text) → is_some (lookup name cs) ≡ is_some (lookup name ds))
    → find_orphan_lock_files F fs lock_dir cs ≡ find_orphan_lock_files F fs lock_dir ds
unfolding find_orphan_lock_files
find_orphan_lock_files-same_keys F fs lock_dir cs ds same =
    elim (Result-cases (F.read_dir fs lock_dir)) [
      | inl (entries, e) ↦ ground (arith, orphans_in-same_keys entries cs ds same)
      | inr (_, e) ↦ ground arith
    ]

is_empty-eq_true : (names : List Text) → is_empty names ≡ true → names ≡ []
unfolding is_empty
is_empty-eq_true [] h = refl
is_empty-eq_true (name ∷ names) h = ground arith

module _ (F : FileSystem) (toml : Toml) (fs : F.State) (lock_dir : Text) where
  -- The test of the loop: nothing to report for this component.
  abbrev pub is_in_order : Text × ComponentConfig → Bool
  is_in_order (name, comp) =
      comp.source_type == source_type_local
      || is_ok (validate_upstream_commit F toml fs lock_dir name comp.upstream_commit)

  sort-missing_permᴰ :
      {cs ds : Dict ComponentConfig}
      → Permᴰ cs ds
      → sort (missing_or_stale_in F toml fs lock_dir cs)
        ≡ sort (missing_or_stale_in F toml fs lock_dir ds)
  unfolding missing_or_stale_in sort
  sort-missing_permᴰ Permᴰ.nil = refl
  sort-missing_permᴰ (Permᴰ.cons {a} e p) = rw (← e) (ground (arith, sort-missing_permᴰ p))
  sort-missing_permᴰ (Permᴰ.swap {a} {b} {l} e e') =
      rw (← e, ← e')
        (ground (arith, insert_comm a.0 b.0 (sort (missing_or_stale_in F toml fs lock_dir l))))
  sort-missing_permᴰ (Permᴰ.trans p q) = sort-missing_permᴰ p ∙ sort-missing_permᴰ q

  is_empty-missing :
      (cs : Dict ComponentConfig)
      → is_empty (missing_or_stale_in F toml fs lock_dir cs) ≡ all is_in_order cs
  unfolding missing_or_stale_in is_empty
  is_empty-missing [] = refl
  is_empty-missing ((name, comp) ∷ cs) = ground (arith, is_empty-missing cs)

  sort-missing_perm :
      {cs ds : Dict ComponentConfig}
      → Perm cs ds
      → sort (missing_or_stale_in F toml fs lock_dir cs)
        ≡ sort (missing_or_stale_in F toml fs lock_dir ds)
  sort-missing_perm p = ∥∥₁_elim p (Texts-set _ _) sort-missing_permᴰ
    where
      Texts-set : IsSet (List Text)
      Texts-set = hlevel

  -- The check reports no error exactly if every component that is not local validates and, where
  -- orphans are looked for, the search finds none.
  pub validate_consistency_iff :
      (cs : Dict ComponentConfig) (check_orphans : Bool)
      → ((validate_consistency F toml fs lock_dir cs check_orphans).error ≡ none) ↔ (
          (all is_in_order cs ≡ true)
          × (check_orphans ≡ true → find_orphan_lock_files F fs lock_dir cs ≡ ok []))
  unfolding validate_consistency report
  validate_consistency_iff cs false = (
    λ h. (ground (arith, is_empty-missing cs), λ e. cc),
    λ h. unfold is_empty in ground (arith, is_empty-missing cs, h.0),
  )
  validate_consistency_iff cs true = elim (Result-cases (find_orphan_lock_files F fs lock_dir cs)) [
    | inl (orphans, e) ↦ (
      λ h. (ground (arith, is_empty-missing cs), λ _. ground (arith, is_empty-eq_true orphans)),
      λ h. unfold is_empty in ground (arith, is_empty-missing cs, h.0, h.1 refl),
    )
    | inr (error, e) ↦ (λ h. absurd (ground arith), λ h. ground (arith, h.1 refl))
  ]

  -- Two walks over the same components give the same report, unless the search for orphans fails.
  pub validate_consistency-perm :
      (cs ds : Dict ComponentConfig) (check_orphans : Bool)
      → Perm cs ds
      → ((name : Text) → is_some (lookup name cs) ≡ is_some (lookup name ds))
      → is_ok (find_orphan_lock_files F fs lock_dir cs) ≡ true
      → validate_consistency F toml fs lock_dir cs check_orphans
        ≡ validate_consistency F toml fs lock_dir ds check_orphans
  unfolding validate_consistency
  validate_consistency-perm cs ds false p same found = report-sort _ _ [] (sort-missing_perm p)
  validate_consistency-perm cs ds true p same found =
      elim (Result-cases (find_orphan_lock_files F fs lock_dir cs)) [
        | inl (orphans, e) ↦ ground (
          arith,
          find_orphan_lock_files-same_keys F fs lock_dir cs ds same,
          report-sort (missing_or_stale_in F toml fs lock_dir cs)
              (missing_or_stale_in F toml fs lock_dir ds) orphans (sort-missing_perm p),
        )
        | inr (_, e) ↦ absurd (ground arith)
      ]

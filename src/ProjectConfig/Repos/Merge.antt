-- ===== src/ProjectConfig/Repos/Merge.antt =====
-- internal/projectconfig/resources.go: what a merge of resources holds.
use azldev.Prelude.{Bool, true, not, ◌&&◌, [], ◌∷◌, ◌≡◌, refl, Option, none, some, arith}
use azldev.Text.{Text, eq_iff}
use azldev.Text.Dict.{Dict, lookup, put, lookup-put, lookup-cons, lookup-nil, is_some}
use azldev.ProjectConfig.Repos.Sets.{ResourcesConfig, put_all, merge_updates_from}

-- The entry of the update, or else of what is updated.
abbrev pub or_else {ℓ} : {V : Type ℓ} → Option V → Option V → Option V
or_else none o = o
or_else (some v) o = some v

-- As in a map, no key comes twice.
abbrev pub has_distinct_keys {ℓ} : {V : Type ℓ} → Dict V → Bool
has_distinct_keys [] = true
has_distinct_keys ((name, value) ∷ d) = not (is_some (lookup name d)) && has_distinct_keys d

lookup-put_all {ℓ} :
    {V : Type ℓ} (name : Text) (d other : Dict V)
    → has_distinct_keys other ≡ true
    → lookup name (put_all d other) ≡ or_else (lookup name other) (lookup name d)
unfolding put_all
lookup-put_all {V} name d [] h = rw (lookup-nil {V = V} name) refl
lookup-put_all name d ((n, value) ∷ other) h = ground (
  arith,
  eq_iff n name,
  lookup-put_all name (put n value d) other,
  lookup-put n name value d,
  lookup-cons name n value other,
)

-- After a merge, each of the three maps holds for a name the entry of the update, if it has one, and
-- otherwise the entry of before.
lookup-merge_updates_from :
    (r other : ResourcesConfig) (name : Text)
    → has_distinct_keys other.rpm_repos ≡ true
    → has_distinct_keys other.rpm_repo_set_templates ≡ true
    → has_distinct_keys other.rpm_repo_sets ≡ true
    → (lookup name (merge_updates_from r (some other)).rpm_repos
        ≡ or_else (lookup name other.rpm_repos) (lookup name r.rpm_repos))
      × (lookup name (merge_updates_from r (some other)).rpm_repo_set_templates
          ≡ or_else
              (lookup name other.rpm_repo_set_templates)
              (lookup name r.rpm_repo_set_templates))
      × (lookup name (merge_updates_from r (some other)).rpm_repo_sets
          ≡ or_else (lookup name other.rpm_repo_sets) (lookup name r.rpm_repo_sets))
unfolding merge_updates_from
lookup-merge_updates_from r other name h h' h'' = (
  lookup-put_all name r.rpm_repos other.rpm_repos h,
  lookup-put_all name r.rpm_repo_set_templates other.rpm_repo_set_templates h',
  lookup-put_all name r.rpm_repo_sets other.rpm_repo_sets h'',
)

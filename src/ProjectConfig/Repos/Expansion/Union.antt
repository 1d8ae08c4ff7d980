-- ===== src/ProjectConfig/Repos/Expansion/Union.antt =====
-- internal/projectconfig/resources.go: what EffectiveRpmRepos holds.
use azldev.Prelude.{List, [], ◌∷◌, true, ◌≡◌, arith, ◌∙◌}
use azldev.Prelude.{some, ok, Result-cases, Option-cases, Bool-cases, ◌⊎◌, inl, inr, All}
use azldev.Text.{Text, ◌==◌, eq_iff, eq_refl}
use azldev.Text.Order.{contains, sort, contains-sort}
use azldev.Text.Dict.{Dict, lookup, put, lookup-put, lookup-cons, lookup-nil}
use azldev.ProjectConfig.Repos.{RpmRepoResource}
use azldev.ProjectConfig.Repos.Uris.{UrlPackage}
use azldev.ProjectConfig.Repos.Sets.{RpmRepoSet, ResourcesConfig, ExpandedRepo}
use azldev.ProjectConfig.Repos.Expansion.{
  keys, expand_rpm_repo_set, expand_found, add_entries, add_sets, effective_rpm_repos,
}

-- The repository is one of the entries.
abbrev pub HasEntry : Text → RpmRepoResource → List ExpandedRepo → Type 0
HasEntry name repo [] = ⊥
HasEntry name repo (entry ∷ entries) =
    (entry.name ≡ name) × (entry.repo ≡ repo) ⊎ HasEntry name repo entries

abbrev pub Holds : Dict RpmRepoResource → ExpandedRepo → Type 0
Holds repos entry = lookup entry.name repos ≡ some entry.repo

contains-keys {ℓ} :
    {V : Type ℓ} (name : Text) (value : V) (d : Dict V)
    → lookup name d ≡ some value
    → contains (keys d) name ≡ true
unfolding contains
contains-keys {V = V} name value [] h = absurd (ground (arith, lookup-nil {V = V} name))
contains-keys name value ((n, v) ∷ d) h =
    ground (arith, lookup-cons name n v d, contains-keys name value d)

module _ (U : UrlPackage) (quote : Text → Text) where
  add_entries-kept :
      (entries : List ExpandedRepo) (before after : Dict RpmRepoResource) (name : Text)
      (repo : RpmRepoResource)
      → add_entries U quote before entries ≡ ok after
      → lookup name before ≡ some repo
      → lookup name after ≡ some repo
  unfolding add_entries
  add_entries-kept [] before after name repo h l = ground arith
  add_entries-kept (e ∷ entries) before after name repo h l = ground (
    arith,
    eq_iff e.name name,
    lookup-put e.name name e.repo before,
    add_entries-kept entries (put e.name e.repo before) after name repo,
  )

  add_entries-Holds :
      (entries : List ExpandedRepo) (before after : Dict RpmRepoResource)
      → add_entries U quote before entries ≡ ok after
      → All (Holds after) entries
  unfolding add_entries
  add_entries-Holds [] before after h = tt
  add_entries-Holds (e ∷ entries) before after h = (
    add_entries-kept entries (put e.name e.repo before) after e.name e.repo (ground arith)
        (ground (arith, lookup-put e.name e.name e.repo before, eq_refl e.name)),
    add_entries-Holds entries (put e.name e.repo before) after (ground arith),
  )

  add_entries-HasEntry :
      (entries : List ExpandedRepo) (before after : Dict RpmRepoResource) (name : Text)
      (repo : RpmRepoResource)
      → add_entries U quote before entries ≡ ok after
      → lookup name after ≡ some repo
      → (lookup name before ≡ some repo) ⊎ HasEntry name repo entries
  unfolding add_entries
  add_entries-HasEntry [] before after name repo h l = inl (ground arith)
  add_entries-HasEntry (e ∷ entries) before after name repo h l =
      elim (add_entries-HasEntry entries (put e.name e.repo before) after name repo (ground arith)
        l) [
          | inr later ↦ inr (inr later)
          | inl put' ↦ elim (Bool-cases (e.name == name)) [
            | inl same ↦ inr (
                inl (
                  (eq_iff e.name name).0 same,
                  ground (arith, lookup-put e.name name e.repo before),
                ))
            | inr other ↦ inl (ground (arith, lookup-put e.name name e.repo before))
          ]
        ]

  -- The set of this name expands to these entries.
  pub record IsExpanded (r : ResourcesConfig) (set_name : Text) (entries : List ExpandedRepo)
      : Type 0 where
    pub set : RpmRepoSet
    pub defined : lookup set_name r.rpm_repo_sets ≡ some set
    pub expands : expand_rpm_repo_set U quote set r.rpm_repo_set_templates ≡ ok entries

  -- A repository is given by the project, or by one of its sets.
  abbrev pub IsGiven : ResourcesConfig → Text → RpmRepoResource → Type 0
  IsGiven r name repo =
      (lookup name r.rpm_repos ≡ some repo)
      ⊎ ((set_name : Text) × (entries : List ExpandedRepo) × IsExpanded r set_name entries
          × HasEntry name repo entries)

  add_sets-kept :
      (r : ResourcesConfig) (set_names : List Text) (before after : Dict RpmRepoResource)
      (name : Text) (repo : RpmRepoResource)
      → add_sets U quote r before set_names ≡ ok after
      → lookup name before ≡ some repo
      → lookup name after ≡ some repo
  unfolding add_sets
  add_sets-kept r [] before after name repo h l = ground arith
  add_sets-kept r (s ∷ set_names) before after name repo h l =
      elim (Result-cases
        (expand_found U quote (lookup s r.rpm_repo_sets) r.rpm_repo_set_templates)) [
          | inr (_, e) ↦ absurd (ground arith)
          | inl (entries, e) ↦ elim (Result-cases (add_entries U quote before entries)) [
            | inr (_, a) ↦ absurd (ground arith)
            | inl (next, a) ↦
                add_sets-kept r set_names next after name repo (ground arith)
                  (add_entries-kept entries before next name repo a l)
          ]
        ]

  All-Holds-kept :
      (r : ResourcesConfig) (set_names : List Text) (before after : Dict RpmRepoResource)
      (entries : List ExpandedRepo)
      → add_sets U quote r before set_names ≡ ok after
      → All (Holds before) entries
      → All (Holds after) entries
  All-Holds-kept r set_names before after [] h a = tt
  All-Holds-kept r set_names before after (e ∷ entries) h a = (
    add_sets-kept r set_names before after e.name e.repo h a.0,
    All-Holds-kept r set_names before after entries h a.1,
  )

  kept_entries :
      (r : ResourcesConfig) (set_names : List Text) (before next after : Dict RpmRepoResource)
      (entries : List ExpandedRepo)
      → add_entries U quote before entries ≡ ok next
      → add_sets U quote r next set_names ≡ ok after
      → All (Holds after) entries
  kept_entries r set_names before next after entries a h =
      All-Holds-kept r set_names next after entries h (add_entries-Holds entries before next a)

  add_sets-Holds :
      (r : ResourcesConfig) (set_names : List Text) (before after : Dict RpmRepoResource)
      (set_name : Text) (set : RpmRepoSet)
      → add_sets U quote r before set_names ≡ ok after
      → contains set_names set_name ≡ true
      → lookup set_name r.rpm_repo_sets ≡ some set
      → (entries : List ExpandedRepo) × IsExpanded r set_name entries × All (Holds after) entries
  unfolding add_sets contains
  add_sets-Holds r [] before after set_name set h c d = absurd (cc)
  add_sets-Holds r (s ∷ set_names) before after set_name set h c d =
      elim (Result-cases
        (expand_found U quote (lookup s r.rpm_repo_sets) r.rpm_repo_set_templates)) [
          | inr (_, e) ↦ absurd (ground arith)
          | inl (entries, e) ↦ elim (Result-cases (add_entries U quote before entries)) [
            | inr (_, a) ↦ absurd (ground arith)
            | inl (next, a) ↦ elim (Bool-cases (s == set_name)) [
              | inl same ↦
                  let d' : lookup s r.rpm_repo_sets ≡ some set =
                    ground (arith, eq_iff s set_name) in
                  (
                    entries,
                    record { set = set; defined = d; expands = ground arith },
                    kept_entries r set_names before next after entries a (ground arith),
                  )
              | inr other ↦
                  add_sets-Holds r set_names next after set_name set (ground arith) (ground arith) d
            ]
          ]
        ]

  -- What is found in the end was there before, or in the expansion of one of the sets.
  add_sets-IsGiven :
      (r : ResourcesConfig) (set_names : List Text) (before after : Dict RpmRepoResource)
      (name : Text) (repo : RpmRepoResource)
      → add_sets U quote r before set_names ≡ ok after
      → lookup name after ≡ some repo
      → (lookup name before ≡ some repo)
        ⊎ ((set_name : Text) × (entries : List ExpandedRepo) × IsExpanded r set_name entries
            × HasEntry name repo entries)
  unfolding add_sets
  add_sets-IsGiven r [] before after name repo h l = inl (ground arith)
  add_sets-IsGiven r (s ∷ set_names) before after name repo h l =
      elim (Option-cases (lookup s r.rpm_repo_sets)) [
        | inl none' ↦ absurd (ground arith)
        | inr (set, d) ↦
            elim (Result-cases (expand_rpm_repo_set U quote set r.rpm_repo_set_templates)) [
              | inr (_, e) ↦ absurd (ground arith)
              | inl (entries, e) ↦ elim (Result-cases (add_entries U quote before entries)) [
                | inr (_, a) ↦ absurd (ground arith)
                | inl (next, a) ↦
                    elim (add_sets-IsGiven r set_names next after name repo (ground arith) l) [
                      | inr later ↦ inr later
                      | inl in_next ↦
                          elim (add_entries-HasEntry entries before next name repo a in_next) [
                            | inl first ↦ inl first
                            | inr entry ↦
                                inr (
                                  s,
                                  entries,
                                  record { set = set; defined = d; expands = e },
                                  entry,
                                )
                          ]
                    ]
              ]
            ]
      ]

  -- The union of the project's own repositories and the expansions of all its sets: each of them is
  -- held under its name, and nothing else.
  pub record IsUnion (r : ResourcesConfig) (effective : Dict RpmRepoResource) : Type 0 where
    pub keeps_own :
        (name : Text) (repo : RpmRepoResource)
        → lookup name r.rpm_repos ≡ some repo
        → lookup name effective ≡ some repo
    pub holds_sets :
        (set_name : Text) (set : RpmRepoSet)
        → lookup set_name r.rpm_repo_sets ≡ some set
        → (entries : List ExpandedRepo) × IsExpanded r set_name entries
          × All (Holds effective) entries
    pub holds_only :
        (name : Text) (repo : RpmRepoResource)
        → lookup name effective ≡ some repo
        → IsGiven r name repo

  -- Where EffectiveRpmRepos succeeds, every repository of the project is found under its name, every
  -- set expands and each entry of its expansion is found under its name, and whatever is found is one
  -- of these.
  pub effective_rpm_repos-IsUnion :
      (r : ResourcesConfig) (effective : Dict RpmRepoResource)
      → effective_rpm_repos U quote (some r) ≡ ok effective
      → IsUnion r effective
  unfolding effective_rpm_repos
  effective_rpm_repos-IsUnion r effective h =
      let names : List Text = sort (keys r.rpm_repo_sets) in
      record {
        keeps_own = λ name repo l. add_sets-kept r names r.rpm_repos effective name repo h l;
        holds_sets = λ set_name set d.
            add_sets-Holds r names r.rpm_repos effective set_name set h
              (contains-sort (keys r.rpm_repo_sets) set_name
                ∙ contains-keys set_name set r.rpm_repo_sets d)
              d;
        holds_only = λ name repo l. add_sets-IsGiven r names r.rpm_repos effective name repo h l;
      }

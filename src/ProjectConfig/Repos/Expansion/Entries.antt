-- ===== src/ProjectConfig/Repos/Expansion/Entries.antt =====
-- internal/projectconfig/resources.go: the entries of a set that expands.
use azldev.Prelude.{List, [], ◌∷◌, ◌++◌, Bool, true, false, ◌||◌, is_nil, any, all, select}
use azldev.Prelude.{Option, none, some, ok, ◌≡◌, refl, arith}
use azldev.Prelude.{Result-cases, Option-cases, Bool-cases, inl, inr, subst, sym}
use azldev.Text.{Text, ◌==◌, codes, split}
use azldev.Text.Order.{contains}
use azldev.Text.Dict.{Dict, lookup}
use azldev.FilePath.Clean.{trim_right_slashes}
use azldev.ProjectConfig.Repos.{validate_rpm_repo_name}
use azldev.ProjectConfig.Repos.Uris.{UrlPackage}
use azldev.ProjectConfig.Repos.Sets.{
  SubrepoSpec, RpmRepoSetTemplate, RpmRepoSet, ExpandedRepo, subrepo_names, allow_names,
  build_subrepo_allowlist, is_allowed,
}
use azldev.ProjectConfig.Repos.Expansion.{
  validate_rpm_repo_set, expanded_repo, expand_subrepo, expand_subrepos, expand_template,
  expand_rpm_repo_set,
}

contains-allow_names :
    (known allowlist names allowed : List Text) (name : Text)
    → allow_names known allowlist names ≡ ok allowed
    → (contains allowed name ≡ (contains allowlist name || contains names name))
      × (all (λ n. contains known n) names ≡ true)
unfolding allow_names contains
contains-allow_names known allowlist [] allowed name h = (ground arith, refl)
contains-allow_names known allowlist (n ∷ names) allowed name h =
    ground (arith, contains-allow_names known (n ∷ allowlist) names allowed name)

all-nil {ℓ} : {A : Type ℓ} (p : A → Bool) (xs : List A) → is_nil xs ≡ true → all p xs ≡ true
all-nil p [] h = refl
all-nil p (x ∷ xs) h = cc

select-same_tests {ℓ} :
    {A : Type ℓ} (p q : A → Bool) (xs : List A) → ((x : A) → p x ≡ q x) → select p xs ≡ select q xs
select-same_tests p q [] same = refl
select-same_tests p q (x ∷ xs) same = ground (arith, same x, select-same_tests p q xs same)

-- The sub-repos of a template that a set takes: those that it lists, or all if it lists none.
abbrev pub is_listed : RpmRepoSet → SubrepoSpec → Bool
is_listed set sub = is_nil set.subrepos || contains set.subrepos sub.name

abbrev pub has_parent_segment : Text → Bool
has_parent_segment subpath = any (λ segment. segment == codes "..") (split subpath b'/')

module _ (U : UrlPackage) (quote : Text → Text) where
  -- The entry of a sub-repo: its name is valid, and its URI is below that of the set.
  pub record IsEntry (set : RpmRepoSet) (sub : SubrepoSpec) (entry : ExpandedRepo) : Type 0 where
    pub made :
        entry
        ≡ expanded_repo U quote set sub (trim_right_slashes set.base_uri ++ (b'/' ∷ sub.subpath))
    pub valid_name : validate_rpm_repo_name (set.name_prefix ++ sub.name) ≡ ok tt
    pub given_subpath : (sub.subpath == []) ≡ false
    pub no_parent : has_parent_segment sub.subpath ≡ false

  -- One entry for each sub-repo, in their order.
  abbrev pub AreEntries : RpmRepoSet → List SubrepoSpec → List ExpandedRepo → Type 0
  AreEntries set [] [] = Unit
  AreEntries set [] (entry ∷ entries) = ⊥
  AreEntries set (sub ∷ subs) [] = ⊥
  AreEntries set (sub ∷ subs) (entry ∷ entries) =
      IsEntry set sub entry × AreEntries set subs entries

  expand_subrepo-IsEntry :
      (set : RpmRepoSet) (sub : SubrepoSpec) (entry : ExpandedRepo)
      → expand_subrepo U quote set sub ≡ ok entry
      → IsEntry set sub entry
  unfolding expand_subrepo
  expand_subrepo-IsEntry set sub entry h = elim (Result-cases (U.parse set.base_uri)) [
    | inr (_, e) ↦ absurd (ground arith)
    | inl (url, e) ↦ elim (Result-cases (validate_rpm_repo_name (set.name_prefix ++ sub.name))) [
      | inr (_, v) ↦ absurd (ground arith)
      | inl (_, v) ↦ record {
        made = ground arith;
        valid_name = v;
        given_subpath = ground arith;
        no_parent = ground arith;
      }
    ]
  ]

  expand_subrepos-AreEntries :
      (set : RpmRepoSet) (allowlist : Option (List Text)) (subs : List SubrepoSpec)
      (entries : List ExpandedRepo)
      → expand_subrepos U quote set allowlist subs ≡ ok entries
      → AreEntries set (select (λ sub. is_allowed allowlist sub.name) subs) entries
  unfolding expand_subrepos
  expand_subrepos-AreEntries set allowlist [] [] h = tt
  expand_subrepos-AreEntries set allowlist [] (e ∷ es) h = absurd (cc)
  expand_subrepos-AreEntries set allowlist (sub ∷ subs) entries h =
      let later : List SubrepoSpec = select (λ sub. is_allowed allowlist sub.name) subs in
      let Wanted : Bool → Type 0 =
        λ (b : Bool). AreEntries set (elim b [ true ↦ sub ∷ later | false ↦ later ]) entries in
      elim (Bool-cases (is_allowed allowlist sub.name)) [
        | inr skipped ↦
            subst Wanted (sym skipped)
              (expand_subrepos-AreEntries set allowlist subs entries (ground arith))
        | inl taken ↦ elim (Result-cases (expand_subrepo U quote set sub)) [
          | inr (_, e) ↦ absurd (ground arith)
          | inl (entry, e) ↦ elim (Result-cases (expand_subrepos U quote set allowlist subs)) [
            | inr (_, r) ↦ absurd (ground arith)
            | inl (rest, r) ↦
                let same : entries ≡ entry ∷ rest = ground arith in
                subst Wanted (sym taken) (
                  subst (λ es. AreEntries set (sub ∷ later) es) (sym same)
                    (
                      expand_subrepo-IsEntry set sub entry e,
                      expand_subrepos-AreEntries set allowlist subs rest r,
                    ))
          ]
        ]
      ]

  -- What an expansion is: the set is valid, its template is defined, has every sub-repo that the set
  -- lists, and gives the entries.
  pub record IsExpansion (set : RpmRepoSet) (templates : Dict RpmRepoSetTemplate)
      (entries : List ExpandedRepo) : Type 0 where
    pub valid_set : validate_rpm_repo_set U quote set ≡ ok tt
    pub tmpl : RpmRepoSetTemplate
    pub defined : lookup set.template templates ≡ some tmpl
    pub all_known : all (λ n. contains (subrepo_names tmpl.subrepos) n) set.subrepos ≡ true
    pub are_entries : AreEntries set (select (λ sub. is_listed set sub) tmpl.subrepos) entries

  is_allowed-is_listed :
      (set : RpmRepoSet) (tmpl : RpmRepoSetTemplate) (allowlist : Option (List Text))
      → build_subrepo_allowlist set tmpl ≡ ok allowlist
      → ((sub : SubrepoSpec) → is_allowed allowlist sub.name ≡ is_listed set sub)
        × (all (λ n. contains (subrepo_names tmpl.subrepos) n) set.subrepos ≡ true)
  unfolding build_subrepo_allowlist contains
  is_allowed-is_listed set tmpl allowlist h =
      let known : List Text = subrepo_names tmpl.subrepos in
      let Listed : Option (List Text) → Type 0 = λ (o : Option (List Text)).
        ((sub : SubrepoSpec) → is_allowed o sub.name ≡ is_listed set sub)
        × (all (λ n. contains known n) set.subrepos ≡ true) in
      elim (Bool-cases (is_nil set.subrepos)) [
        | inl nil ↦
            let unset : allowlist ≡ none = ground arith in
            subst Listed (sym unset) ((λ sub. ground arith), all-nil _ set.subrepos nil)
        | inr some_listed ↦ elim (Result-cases (allow_names known [] set.subrepos)) [
          | inr (_, e) ↦ absurd (ground arith)
          | inl (allowed, e) ↦
              let same : allowlist ≡ some allowed = ground arith in
              subst Listed (sym same) (
                (λ sub.
                    ground
                      (arith, (contains-allow_names known [] set.subrepos allowed sub.name e).0)),
                (contains-allow_names known [] set.subrepos allowed [] e).1,
              )
        ]
      ]

  -- When expandRpmRepoSet succeeds, the set is valid and its template defined, every sub-repo that the
  -- set lists is one of the template, and there is one entry for each sub-repo that the set takes, in
  -- the order of the template: its name is the prefix and the sub-repo's name, and is valid, and its
  -- URI is that of the set, a slash and a path without a step to the parent.
  pub expand_rpm_repo_set-IsExpansion :
      (set : RpmRepoSet) (templates : Dict RpmRepoSetTemplate) (entries : List ExpandedRepo)
      → expand_rpm_repo_set U quote set templates ≡ ok entries
      → IsExpansion set templates entries
  unfolding expand_rpm_repo_set expand_template
  expand_rpm_repo_set-IsExpansion set templates entries h =
      elim (Result-cases (validate_rpm_repo_set U quote set)) [
        | inr (_, v) ↦ absurd (ground arith)
        | inl (_, v) ↦ elim (Option-cases (lookup set.template templates)) [
          | inl undefined ↦ absurd (ground arith)
          | inr (tmpl, d) ↦ elim (Result-cases (build_subrepo_allowlist set tmpl)) [
            | inr (_, b) ↦ absurd (ground arith)
            | inl (allowlist, b) ↦
                let (allowed, known) = is_allowed-is_listed set tmpl allowlist b in
                record {
                  valid_set = v;
                  tmpl = tmpl;
                  defined = d;
                  all_known = known;
                  are_entries =
                      subst (λ subs. AreEntries set subs entries)
                        (select-same_tests _ _ tmpl.subrepos allowed)
                        (expand_subrepos-AreEntries set allowlist tmpl.subrepos entries
                          (ground arith));
                }
          ]
        ]
      ]

-- ===== src/ProjectConfig/Project/Consistent.antt =====
-- internal/projectconfig/project.go: the inputs of the distro versions of a valid project.
use azldev.Prelude.{List, [], ◌∷◌, true, false, ◌≡◌, arith, All}
use azldev.Prelude.{
  some, ok, err, Result-cases, Option-cases, inl, inr, Bool-cases, subst, sym, Error,
}
use azldev.Text.{Text, ◌==◌}
use azldev.Text.Dict.{Dict, lookup, lookup-cons, lookup-nil}
use azldev.ProjectConfig.Repos.{RpmRepoResource}
use azldev.ProjectConfig.Repos.Uris.{UrlPackage, is_local_gpg_key}
use azldev.ProjectConfig.Repos.Sets.{ResourcesConfig}
use azldev.ProjectConfig.Repos.Expansion.{effective_rpm_repos}
use azldev.ProjectConfig.Repos.Expansion.Union.{IsGiven, IsUnion, effective_rpm_repos-IsUnion}
use azldev.ProjectConfig.Repos.Inputs.{effective_input_repos}
use azldev.ProjectConfig.Repos.Inputs.Produced.{is_distinct, effective_input_repos_iff}
use azldev.ProjectConfig.Project.{
  DistroVersion, Distro, check_build_repos, check_image_repos, check_versions,
  validate_distro_version_inputs, validate_resources,
}

module _ (U : UrlPackage) (quote : Text → Text) (resources : ResourcesConfig) where
  -- The name stands for a repository of the project or of one of its sets.
  pub record IsDefined (effective : Dict RpmRepoResource) (name : Text) : Type 0 where
    pub repo : RpmRepoResource
    pub found : lookup name effective ≡ some repo
    pub given : IsGiven U quote resources name repo

  -- And its key is not a local file.
  pub record IsBuildable (effective : Dict RpmRepoResource) (name : Text) : Type 0 where
    pub defined : IsDefined effective name
    pub remote_key : is_local_gpg_key U defined.repo.gpg_key ≡ false

  -- The inputs of a version that can be used.
  pub record IsUsable (effective : Dict RpmRepoResource) (version : DistroVersion) : Type 0 where
    pub rpm_names : List Text
    pub image_names : List Text
    pub rpm_inputs : effective_input_repos U quote version.rpm_build (some resources) ≡ ok rpm_names
    pub image_inputs :
        effective_input_repos U quote version.image_build (some resources) ≡ ok image_names
    pub rpm_distinct : is_distinct rpm_names ≡ true
    pub image_distinct : is_distinct image_names ≡ true
    pub rpm_buildable : All (IsBuildable effective) rpm_names
    pub image_defined : All (IsDefined effective) image_names

  module _ (effective : Dict RpmRepoResource) (union : IsUnion U quote resources effective) where
    check_build_repos-IsBuildable :
        (names : List Text)
        → check_build_repos U quote effective names ≡ ok tt
        → All (IsBuildable effective) names
    unfolding check_build_repos
    check_build_repos-IsBuildable [] h = tt
    check_build_repos-IsBuildable (name ∷ names) h = elim (Option-cases (lookup name effective)) [
      | inl undefined ↦ absurd (ground arith)
      | inr (repo, e) ↦ (
        record {
          defined = record { repo = repo; found = e; given = union.holds_only name repo e };
          remote_key = ground arith;
        },
        check_build_repos-IsBuildable names (ground arith),
      )
    ]

    check_image_repos-IsDefined :
        (names : List Text)
        → check_image_repos U quote effective names ≡ ok tt
        → All (IsDefined effective) names
    unfolding check_image_repos
    check_image_repos-IsDefined [] h = tt
    check_image_repos-IsDefined (name ∷ names) h = elim (Option-cases (lookup name effective)) [
      | inl undefined ↦ absurd (ground arith)
      | inr (repo, e) ↦ (
        record { repo = repo; found = e; given = union.holds_only name repo e },
        check_image_repos-IsDefined names (ground arith),
      )
    ]

    head-IsUsable :
        (version : DistroVersion) (rpm image : List Text)
        → effective_input_repos U quote version.rpm_build (some resources) ≡ ok rpm
        → effective_input_repos U quote version.image_build (some resources) ≡ ok image
        → check_build_repos U quote effective rpm ≡ ok tt
        → check_image_repos U quote effective image ≡ ok tt
        → IsUsable effective version
    head-IsUsable version rpm image r i b c = record {
      rpm_names = rpm;
      image_names = image;
      rpm_inputs = r;
      image_inputs = i;
      rpm_distinct =
          ((effective_input_repos_iff U quote (some resources) version.rpm_build rpm).0 r).1;
      image_distinct =
          ((effective_input_repos_iff U quote (some resources) version.image_build image).0 i).1;
      rpm_buildable = check_build_repos-IsBuildable rpm b;
      image_defined = check_image_repos-IsDefined image c;
    }

    -- The version that is looked up is usable, and the versions after it are checked too.
    check_versions-IsUsable :
        (versions : Dict DistroVersion) (name : Text) (version : DistroVersion)
        → check_versions U quote (some resources) effective versions ≡ ok tt
        → lookup name versions ≡ some version
        → IsUsable effective version
    unfolding check_versions
    check_versions-IsUsable [] name version h l =
        absurd (ground (arith, lookup-nil {V = DistroVersion} name))
    check_versions-IsUsable ((n, head) ∷ versions) name version h l =
        elim (Result-cases (effective_input_repos U quote head.rpm_build (some resources))) [
          | inr (_, r) ↦ absurd (ground arith)
          | inl (rpm, r) ↦ elim (Result-cases (check_build_repos U quote effective rpm)) [
            | inr (_, b) ↦ absurd (ground arith)
            | inl (_, b) ↦
                elim (Result-cases
                  (effective_input_repos U quote head.image_build (some resources))) [
                    | inr (_, i) ↦ absurd (ground arith)
                    | inl (image, i) ↦
                        elim (Result-cases (check_image_repos U quote effective image)) [
                          | inr (_, c) ↦ absurd (ground arith)
                          | inl (_, c) ↦ elim (Bool-cases (n == name)) [
                            | inr other ↦
                                check_versions-IsUsable versions name version (ground arith)
                                  (ground (arith, lookup-cons name n head versions))
                            | inl same ↦
                                let first : head ≡ version =
                                  ground (arith, lookup-cons name n head versions) in
                                subst (IsUsable effective) first
                                  (head-IsUsable head rpm image r i b c)
                          ]
                        ]
                  ]
          ]
        ]

    versions-IsUsable :
        (distros : Dict Distro) (distro_name : Text) (distro : Distro) (name : Text)
        (version : DistroVersion)
        → validate_distro_version_inputs U quote distros (some resources) effective ≡ ok tt
        → lookup distro_name distros ≡ some distro
        → lookup name distro.versions ≡ some version
        → IsUsable effective version
    unfolding validate_distro_version_inputs
    versions-IsUsable [] distro_name distro name version h d l =
        absurd (ground (arith, lookup-nil {V = Distro} distro_name))
    versions-IsUsable ((n, head) ∷ distros) distro_name distro name version h d l =
        elim (Bool-cases (n == distro_name)) [
          | inr other ↦
              versions-IsUsable distros distro_name distro name version (ground arith)
                (ground (arith, lookup-cons distro_name n head distros)) l
          | inl same ↦
              let first : head ≡ distro = ground (arith, lookup-cons distro_name n head distros) in
              check_versions-IsUsable head.versions name version (ground arith)
                (subst (λ (x : Distro). lookup name x.versions ≡ some version) (sym first) l)
        ]

  last_check :
      (distros : Dict Distro) (effective : Dict RpmRepoResource)
      → validate_resources U quote resources distros ≡ ok tt
      → effective_rpm_repos U quote (some resources) ≡ ok effective
      → validate_distro_version_inputs U quote distros (some resources) effective ≡ ok tt
  unfolding validate_resources
  last_check distros effective h e = ground arith

  all_failed :
      (distros : Dict Distro) {error : Error}
      → validate_resources U quote resources distros ≡ ok tt
      → effective_rpm_repos U quote (some resources) ≡ err error
      → ⊥
  unfolding validate_resources
  all_failed distros h e = ground arith

  -- What the checks of a project's resources promise of its distro versions.
  pub record IsConsistent (distros : Dict Distro) : Type 0 where
    pub effective : Dict RpmRepoResource
    pub expands : effective_rpm_repos U quote (some resources) ≡ ok effective
    pub usable :
        (distro_name : Text) (distro : Distro) (name : Text) (version : DistroVersion)
        → lookup distro_name distros ≡ some distro
        → lookup name distro.versions ≡ some version
        → IsUsable effective version

  -- In a project whose resources pass the checks, all sets expand, and for each version of each distro
  -- the inputs of rpm builds and of image builds give names of which none comes twice, each of which
  -- is defined by the project or by one of its sets, and those of rpm builds have no local key.
  pub validate_resources-IsConsistent :
      (distros : Dict Distro)
      → validate_resources U quote resources distros ≡ ok tt
      → IsConsistent distros
  unfolding validate_resources
  validate_resources-IsConsistent distros h =
      elim (Result-cases (effective_rpm_repos U quote (some resources))) [
        | inr (_, e) ↦ absurd (all_failed distros h e)
        | inl (effective, e) ↦
            let union : IsUnion U quote resources effective =
              effective_rpm_repos-IsUnion U quote resources effective e in
            record {
              effective = effective;
              expands = e;
              usable = λ distro_name distro name version d l.
                  versions-IsUsable effective union distros distro_name distro name version
                    (last_check distros effective h e) d l;
            }
      ]

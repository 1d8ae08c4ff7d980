-- ===== src/ProjectConfig/Publish/Channels.antt =====
-- internal/projectconfig/component.go and project.go: the order in which the channels of a package are
-- taken, and the groups that packages belong to.
use azldev.Prelude.{List, [], ◌∷◌, ◌++◌, Bool, true, false, ◌≡◌, refl, if◌then◌else◌, any}
use azldev.Prelude.{ap, sym, ◌∙◌, Option, none, some, ok, arith, Bool-cases, Result-cases, inl, inr}
use azldev.Text.{Text, ◌==◌, eq_iff}
use azldev.Text.Order.{contains}
use azldev.Text.Dict.{Dict, lookup, put, lookup-put, lookup-cons, lookup-nil}
use azldev.ProjectConfig.Publish.{
  PackageConfig, PackageGroupConfig, PublishInputs, apply_package, apply_package_groups, override,
  component_channel, package_publish_channel, is_debug_info_package, check_packages, check_groups,
  resolve_package_publish_channel, validate_package_group_membership,
}

abbrev pub first_given : List Text → Text
first_given [] = []
first_given (t ∷ ts) = if t == [] then first_given ts else t

module _ (group_name pkg : Text) where
  -- A package that was seen in another group is not in this one, and stays with that one.
  check_packages_other :
      (packages : List Text) (seen seen' : Dict Text) (first : Text)
      → (first == group_name) ≡ false
      → lookup pkg seen ≡ some first
      → check_packages group_name seen packages ≡ ok seen'
      → (contains packages pkg ≡ false) × (lookup pkg seen' ≡ some first)
  unfolding check_packages contains
  check_packages_other [] seen seen' first o l h = (refl, ground arith)
  check_packages_other (p ∷ packages) seen seen' first o l h = ground (
    arith,
    eq_iff p pkg,
    lookup-put p pkg group_name seen,
    check_packages_other packages (put p group_name seen) seen' first o,
  )

  check_packages_kept :
      (packages : List Text) (seen seen' : Dict Text)
      → lookup pkg seen ≡ some group_name
      → check_packages group_name seen packages ≡ ok seen'
      → lookup pkg seen' ≡ some group_name
  unfolding check_packages
  check_packages_kept [] seen seen' l h = ground arith
  check_packages_kept (p ∷ packages) seen seen' l h = ground (
    arith,
    lookup-put p pkg group_name seen,
    check_packages_kept packages (put p group_name seen) seen',
  )

  check_packages_seen :
      (packages : List Text) (seen seen' : Dict Text)
      → contains packages pkg ≡ true
      → check_packages group_name seen packages ≡ ok seen'
      → lookup pkg seen' ≡ some group_name
  unfolding check_packages contains
  check_packages_seen [] seen seen' c h = cc
  check_packages_seen (p ∷ packages) seen seen' c h = ground (
    arith,
    lookup-put p pkg group_name seen,
    check_packages_kept packages (put p group_name seen) seen',
    check_packages_seen packages (put p group_name seen) seen',
  )

-- A group of another name does not have the package.
check_groups_other :
    (groups : Dict PackageGroupConfig) (pkg : Text) (seen : Dict Text) (first name : Text)
    (group : PackageGroupConfig)
    → (first == name) ≡ false
    → lookup pkg seen ≡ some first
    → check_groups seen groups ≡ ok tt
    → lookup name groups ≡ some group
    → contains group.packages pkg ≡ false
unfolding check_groups
check_groups_other [] pkg seen first name group o l h g =
    ground (arith, lookup-nil {V = PackageGroupConfig} name)
check_groups_other ((n, head) ∷ groups) pkg seen first name group o l h g =
    elim (Result-cases (check_packages n seen head.packages)) [
      | inr (_, e) ↦ absurd (ground arith)
      | inl (seen', e) ↦ elim (Bool-cases (first == n)) [
        | inl same ↦ ground (
          arith,
          eq_iff first n,
          lookup-cons name n head groups,
          check_packages_kept n pkg head.packages seen seen',
          check_groups_other groups pkg seen' first name group,
        )
        | inr other ↦ ground (
          arith,
          lookup-cons name n head groups,
          check_packages_other n pkg head.packages seen seen' first,
          check_groups_other groups pkg seen' first name group,
        )
      ]
    ]

-- The group of the package that the loop finds is any that has it.
apply_package_groups_owner :
    (groups : Dict PackageGroupConfig) (pkg : Text) (is_debug_info : Bool) (channel : Text)
    (seen : Dict Text) (name : Text) (group : PackageGroupConfig)
    → check_groups seen groups ≡ ok tt
    → lookup name groups ≡ some group
    → contains group.packages pkg ≡ true
    → apply_package_groups groups pkg is_debug_info channel
      ≡ override channel
          (package_publish_channel group.default_package_config.publish is_debug_info)
unfolding apply_package_groups check_groups
apply_package_groups_owner [] pkg d channel seen name group h g c =
    ground (arith, lookup-nil {V = PackageGroupConfig} name)
apply_package_groups_owner ((n, head) ∷ groups) pkg d channel seen name group h g c =
    elim (Result-cases (check_packages n seen head.packages)) [
      | inr (_, e) ↦ absurd (ground arith)
      | inl (seen', e) ↦ elim (Bool-cases (n == name)) [
        | inl same ↦ ground (arith, lookup-cons name n head groups)
        | inr other ↦ ground (
          arith,
          lookup-cons name n head groups,
          check_packages_seen n pkg head.packages seen seen',
          check_groups_other groups pkg seen' n name group,
          apply_package_groups_owner groups pkg d channel seen' name group,
        )
      ]
    ]

apply_package_groups_none :
    (groups : Dict PackageGroupConfig) (pkg : Text) (is_debug_info : Bool) (channel : Text)
    → any (λ g. contains (g.1).packages pkg) groups ≡ false
    → apply_package_groups groups pkg is_debug_info channel ≡ channel
unfolding apply_package_groups
apply_package_groups_none [] pkg d channel h = refl
apply_package_groups_none ((n, head) ∷ groups) pkg d channel h =
    ground (arith, apply_package_groups_none groups pkg d channel)

-- The channel that a package is given by its own entry, and by its group.
abbrev pub own_channel : Option PackageConfig → Bool → List Text
own_channel none is_debug_info = []
own_channel (some config) is_debug_info = package_publish_channel config.publish is_debug_info ∷ []

-- The group is one that has the package, or there is none.
abbrev pub IsGroupOf : Dict PackageGroupConfig → Text → Option PackageGroupConfig → Type 0
IsGroupOf groups pkg none = any (λ g. contains (g.1).packages pkg) groups ≡ false
IsGroupOf groups pkg (some group) =
    (name : Text) × (lookup name groups ≡ some group) × (contains group.packages pkg ≡ true)

abbrev pub group_channel : Option PackageGroupConfig → Bool → List Text
group_channel none is_debug_info = []
group_channel (some group) is_debug_info =
    package_publish_channel group.default_package_config.publish is_debug_info ∷ []

first_given-cons : (t : Text) (ts : List Text) → first_given (t ∷ ts) ≡ override (first_given ts) t
first_given-cons t ts = ground arith

first_given-one : (t : Text) → first_given (t ∷ []) ≡ t
first_given-one t = ground (arith, eq_iff t [])

apply_package_groups-IsGroupOf :
    (groups : Dict PackageGroupConfig) (pkg : Text) (is_debug_info : Bool) (channels : List Text)
    (owner : Option PackageGroupConfig)
    → validate_package_group_membership groups ≡ ok tt
    → IsGroupOf groups pkg owner
    → apply_package_groups groups pkg is_debug_info (first_given channels)
      ≡ first_given (group_channel owner is_debug_info ++ channels)
unfolding validate_package_group_membership
apply_package_groups-IsGroupOf groups pkg d channels none h o =
    apply_package_groups_none groups pkg d (first_given channels) o
apply_package_groups-IsGroupOf groups pkg d channels (some group) h o =
    apply_package_groups_owner groups pkg d (first_given channels) [] o.0 group h o.1 o.2
    ∙ sym (first_given-cons _ channels)

apply_package-first_given :
    (own : Option PackageConfig) (is_debug_info : Bool) (channels : List Text)
    → apply_package own is_debug_info (first_given channels)
      ≡ first_given (own_channel own is_debug_info ++ channels)
apply_package-first_given none d channels = refl
apply_package-first_given (some config) d channels = sym (first_given-cons _ channels)

override-first_given : (x c : Text) → override x c ≡ first_given (c ∷ x ∷ [])
override-first_given x c = ground (arith, first_given-one x)

-- In a project whose package groups are valid, a package is published to the first channel that is
-- given by its own entry, by the group that has it (whatever order Go walks the groups in), by the
-- component, and by the project's default.
pub resolve_package_publish_channel-first_given :
    (pkg : Text) (inputs : PublishInputs) (owner : Option PackageGroupConfig)
    → validate_package_group_membership inputs.package_groups ≡ ok tt
    → IsGroupOf inputs.package_groups pkg owner
    → resolve_package_publish_channel pkg inputs ≡ (
        let d = is_debug_info_package pkg in
        first_given (
          own_channel (lookup pkg inputs.packages) d
          ++ (group_channel owner d
              ++ component_channel inputs.publish d
                ∷ package_publish_channel inputs.default_package_config.publish d
                ∷ [])))
unfolding resolve_package_publish_channel
resolve_package_publish_channel-first_given pkg inputs owner valid o =
    let d = is_debug_info_package pkg in
    ap
      (λ c.
        apply_package (lookup pkg inputs.packages) d
          (apply_package_groups inputs.package_groups pkg d c))
      (override-first_given _ _)
    ∙ ap (apply_package (lookup pkg inputs.packages) d)
        (apply_package_groups-IsGroupOf inputs.package_groups pkg d _ owner valid o)
    ∙ apply_package-first_given (lookup pkg inputs.packages) d _

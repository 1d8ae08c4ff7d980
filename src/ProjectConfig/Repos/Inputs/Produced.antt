-- ===== src/ProjectConfig/Repos/Inputs/Produced.antt =====
-- internal/projectconfig/resources.go: which names effectiveInputRepos gives.
use azldev.Prelude.{List, [], ◌∷◌, ◌++◌, Bool, true, ◌&&◌, not, if◌then◌else◌, map, ap, sym, ◌∙◌}
use azldev.Prelude.{Option, Result, ok, err, ◌>>◌, ◌≡◌, ◌↔◌, refl, arith}
use azldev.Prelude.{append-nil, append_assoc, Result-cases, Bool-cases, inl, inr, subst}
use azldev.Text.{Text, ◌==◌}
use azldev.Text.Order.{contains}
use azldev.ProjectConfig.Repos.Uris.{UrlPackage}
use azldev.ProjectConfig.Repos.Sets.{ResourcesConfig, ExpandedRepo}
use azldev.ProjectConfig.Repos.Inputs.{
  DistroVersionInput, Emitted, validate_distro_version_input, emit, emit_all, expand_input,
  emit_input, emit_inputs, effective_input_repos,
}

-- No name of the list is among those seen or comes twice.
abbrev pub is_fresh : List Text → List Text → Bool
is_fresh seen [] = true
is_fresh seen (name ∷ names) = not (contains seen name) && is_fresh (name ∷ seen) names

abbrev pub is_distinct : List Text → Bool
is_distinct names = is_fresh [] names

abbrev pub entry_names : List ExpandedRepo → List Text
entry_names entries = map (λ e. e.name) entries

abbrev pub names_of : Result (List ExpandedRepo) → Result (List Text)
names_of (ok entries) = ok (entry_names entries)
names_of (err e) = err e

abbrev pub join_names : Result (List Text) → Result (List Text) → Result (List Text)
join_names (ok xs) (ok ys) = ok (xs ++ ys)
join_names (ok xs) (err e) = err e
join_names (err e) rest = err e

-- What has been emitted after names that are all fresh.
abbrev emit_names : Emitted → List Text → Emitted
emit_names s [] = s
emit_names s (name ∷ names) =
    emit_names (record { out = s.out ++ name ∷ []; seen = name ∷ s.seen }) names

out-emit_names : (names : List Text) (s : Emitted) → (emit_names s names).out ≡ s.out ++ names
out-emit_names [] s = sym (append-nil s.out)
out-emit_names (name ∷ names) s = out-emit_names names _ ∙ append_assoc s.out (name ∷ []) names

emit_names-append :
    (xs ys : List Text) (s : Emitted) → emit_names s (xs ++ ys) ≡ emit_names (emit_names s xs) ys
emit_names-append [] ys s = refl
emit_names-append (x ∷ xs) ys s = emit_names-append xs ys _

is_fresh-append :
    (xs ys : List Text) (s : Emitted)
    → is_fresh s.seen (xs ++ ys) ≡ (is_fresh s.seen xs && is_fresh (emit_names s xs).seen ys)
is_fresh-append [] ys s = refl
is_fresh-append (x ∷ xs) ys s =
    ground (arith, is_fresh-append xs ys (record { out = s.out ++ x ∷ []; seen = x ∷ s.seen }))

abbrev start : Emitted
start = record { out = []; seen = [] }

-- A list of names was emitted from one state to another.
abbrev Emits : Emitted → List Text → Emitted → Type 0
Emits s names s' = (is_fresh s.seen names ≡ true) × (s' ≡ emit_names s names)

emit_all-Emits :
    (entries : List ExpandedRepo) (s s' : Emitted)
    → (emit_all s entries ≡ ok s') ↔ Emits s (entry_names entries) s'
unfolding emit_all
emit_all-Emits [] s s' = (λ h. ground arith, λ h. ground arith)
emit_all-Emits (e ∷ entries) s s' =
    let next : Emitted = record { out = s.out ++ e.name ∷ []; seen = e.name ∷ s.seen } in
    let (there, back) = emit_all-Emits entries next s' in
    elim (Bool-cases (contains s.seen e.name)) [
      | inl seen ↦ (λ h. absurd (ground arith), λ h. absurd (ground arith))
      | inr new' ↦ (λ h. ground (arith, there), λ h. ground (arith, back))
    ]

module _ (U : UrlPackage) (quote : Text → Text) (resources : Option ResourcesConfig) where
  -- The names that one input stands for: that of a repository, or those of a set.
  abbrev pub input_names : DistroVersionInput → Result (List Text)
  input_names entry =
      if entry.repo == []
      then names_of (expand_input U quote resources entry.set)
      else ok (entry.repo ∷ [])

  -- The names of all inputs, one after another; each input is of one kind.
  abbrev pub produced_names : List DistroVersionInput → Result (List Text)
  produced_names [] = ok []
  produced_names (entry ∷ inputs) =
      validate_distro_version_input entry >> join_names (input_names entry) (produced_names inputs)

  emit_input-Emits :
      (entry : DistroVersionInput) (s s' : Emitted)
      → validate_distro_version_input entry ≡ ok tt
      → (emit_input U quote resources s entry ≡ ok s')
        ↔ ((names : List Text) × (input_names entry ≡ ok names) × Emits s names s')
  unfolding emit_input validate_distro_version_input emit
  emit_input-Emits entry s s' v = elim (Bool-cases (entry.repo == [])) [
    | inr repo ↦ (
      λ h. (entry.repo ∷ [], ground arith, (ground arith, ground arith)),
      λ h.
          let same : h.0 ≡ entry.repo ∷ [] = ground arith in
          let m : Emits s (entry.repo ∷ []) s' = subst (λ x. Emits s x s') same h.2 in
          ground (arith, m.0, m.1),
    )
    | inl no_repo ↦ elim (Result-cases (expand_input U quote resources entry.set)) [
      | inl (entries, e) ↦
          let (there, back) = emit_all-Emits entries s s' in
          (
            λ h. (entry_names entries, ground arith, there (ground arith)),
            λ h.
                let same : h.0 ≡ entry_names entries = ground arith in
                let emitted : emit_all s entries ≡ ok s' =
                  back (subst (λ x. Emits s x s') same h.2) in
                ground arith,
          )
      | inr (_, e) ↦ (λ h. absurd (ground arith), λ h. absurd (ground (arith, h.1)))
    ]
  ]

  -- The names of the first entry, and those of the rest.
  first_then :
      (entry : DistroVersionInput) (inputs : List DistroVersionInput) (s s1 s' : Emitted)
      → validate_distro_version_input entry ≡ ok tt
      → ((xs : List Text) × (input_names entry ≡ ok xs) × Emits s xs s1)
      → ((ys : List Text) × (produced_names inputs ≡ ok ys) × Emits s1 ys s')
      → (names : List Text) × (produced_names (entry ∷ inputs) ≡ ok names) × Emits s names s'
  first_then entry inputs s s1 s' v (xs, p, m) (ys, q, n) =
      let n' : Emits (emit_names s xs) ys s' = subst (λ s1. Emits s1 ys s') m.1 n in
      (
        xs ++ ys,
        ground arith,
        (
          ground (arith, is_fresh-append xs ys s, m.0, n'.0),
          n'.1 ∙ sym (emit_names-append xs ys s),
        ),
      )

  split_names :
      (entry : DistroVersionInput) (inputs : List DistroVersionInput) (s s' : Emitted)
      → validate_distro_version_input entry ≡ ok tt
      → ((names : List Text) × (produced_names (entry ∷ inputs) ≡ ok names) × Emits s names s')
      → ((s1 : Emitted)
          → ((ys : List Text) × (produced_names inputs ≡ ok ys) × Emits s1 ys s')
          → emit_inputs U quote resources s1 inputs ≡ ok s')
      → emit_inputs U quote resources s (entry ∷ inputs) ≡ ok s'
  unfolding emit_inputs
  split_names entry inputs s s' v (names, p, m) rest = elim (Result-cases (input_names entry)) [
    | inr (_, e) ↦ absurd (ground arith)
    | inl (xs, e) ↦ elim (Result-cases (produced_names inputs)) [
      | inr (_, e') ↦ absurd (ground arith)
      | inl (ys, e') ↦
          let same : names ≡ xs ++ ys = ground arith in
          let m' : Emits s (xs ++ ys) s' = subst (λ x. Emits s x s') same m in
          let s1 = emit_names s xs in
          let emitted : emit_input U quote resources s entry ≡ ok s1 =
            (emit_input-Emits entry s s1 v).1
              (xs, e, (ground (arith, is_fresh-append xs ys s, m'.0), refl)) in
          let after : emit_inputs U quote resources s1 inputs ≡ ok s' = rest s1 (
            ys,
            e',
            (ground (arith, is_fresh-append xs ys s, m'.0), m'.1 ∙ emit_names-append xs ys s),
          ) in
          ground arith
    ]
  ]

  emit_inputs-Emits :
      (inputs : List DistroVersionInput) (s s' : Emitted)
      → (emit_inputs U quote resources s inputs ≡ ok s')
        ↔ ((names : List Text) × (produced_names inputs ≡ ok names) × Emits s names s')
  unfolding emit_inputs
  emit_inputs-Emits [] s s' = (
    λ h. ([], refl, (refl, ground arith)),
    λ h.
        let same : h.0 ≡ [] = ground arith in
        let m : Emits s [] s' = subst (λ x. Emits s x s') same h.2 in ground (arith, m.1),
  )
  emit_inputs-Emits (entry ∷ inputs) s s' =
      elim (Result-cases (validate_distro_version_input entry)) [
        | inr (_, v) ↦ (λ h. absurd (ground arith), λ h. absurd (ground (arith, h.1)))
        | inl (_, v) ↦ (
          λ h. elim (Result-cases (emit_input U quote resources s entry)) [
            | inr (_, e) ↦ absurd (ground arith)
            | inl (s1, e) ↦
                first_then entry inputs s s1 s' v ((emit_input-Emits entry s s1 v).0 e)
                  ((emit_inputs-Emits inputs s1 s').0 (ground arith))
          ],
          λ h. split_names entry inputs s s' v h (λ s1. (emit_inputs-Emits inputs s1 s').1),
        )
      ]

  -- effectiveInputRepos succeeds exactly if every entry is a repository or a defined set that expands,
  -- and no name comes twice; it then gives the names of all entries in their order.
  pub effective_input_repos_iff :
      (inputs : List DistroVersionInput) (out : List Text)
      → (effective_input_repos U quote inputs resources ≡ ok out)
        ↔ ((produced_names inputs ≡ ok out) × (is_distinct out ≡ true))
  unfolding effective_input_repos
  effective_input_repos_iff inputs out = (
    λ h. elim (Result-cases (emit_inputs U quote resources start inputs)) [
      | inr (_, e) ↦ absurd (ground arith)
      | inl (s, e) ↦
          let (names, p, m) = (emit_inputs-Emits inputs start s).0 e in
          let same : names ≡ out =
            ground (arith, ap (λ (x : Emitted). x.out) m.1, out-emit_names names start) in
          subst (λ x. (produced_names inputs ≡ ok x) × (is_distinct x ≡ true)) same (p, m.0)
    ],
    λ h. ground (
      arith,
      (emit_inputs-Emits inputs start (emit_names start out)).1 (out, h.0, (h.1, refl)),
      out-emit_names out start,
    ),
  )

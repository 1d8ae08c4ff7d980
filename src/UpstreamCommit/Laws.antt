-- ===== src/UpstreamCommit/Laws.antt =====
-- internal/upstreamcommit/store.go: the methods of the store of upstream commits.
use azldev.Prelude.{List, [], ◌∷◌, ◌++◌, true, false, ◌&&◌, not, some, none, ◌≡◌, refl, ◌∙◌, sym}
use azldev.Prelude.{ok, arith, any, Result-cases, inl, inr, Bool-cases}
use azldev.Text.{Text, ◌==◌, codes, eq_iff, trim_suffix}
use azldev.Text.Order.{contains, contains-sort}
use azldev.Text.Dict.{Dict, lookup}
use azldev.FilePath
use azldev.FilePath.Valid.{is_filename, validate_filename-is_filename}
use azldev.FilePath.Extension.{join_extension_injective}
use azldev.FileSystem.{FileSystem, IsLawful, DirEntry}
use azldev.Lockfile.Orphans.{ComponentConfig}
use azldev.UpstreamCommit.{
  Store, ConfigToml, file_extension, generated_file_header, path, read_commit, get, exists, remove,
  write_file, save, is_generated, is_upstream, orphans_in, find_orphans,
}

-- A configuration that was written is read back, with the header's comment lines before it.
pub record IsConfigCodec (toml : ConfigToml) : Type 0 where
  pub read_back :
      (name commit data' : Text)
      → toml.marshal name commit ≡ ok data'
      → (components : Dict ComponentConfig) × (component : ComponentConfig) × (toml.unmarshal
            (generated_file_header ++ data')
          ≡ ok components)
        × (lookup name components ≡ some component)
        × (component.upstream_commit ≡ commit)

module _ (F : FileSystem) (toml : ConfigToml) where
  path-eq_ok :
      (s : Store F) (n p : Text)
      → path F toml s n ≡ ok p
      → (is_filename n ≡ true) × (p ≡ FilePath.join s.store_dir (n ++ file_extension))
  unfolding path
  path-eq_ok s n p h = ground (arith, validate_filename-is_filename n)

  path-injective :
      (s : Store F) (n m p : Text) → path F toml s n ≡ ok p → path F toml s m ≡ ok p → n ≡ m
  path-injective s n m p hn hm =
      let (valid, e) = path-eq_ok s n p hn in
      let (valid', e') = path-eq_ok s m p hm in
      join_extension_injective b'.' b't' b'o' (codes "ml") refl s.store_dir n m valid valid'
        (sym e ∙ e')

  path_ne :
      (s : Store F) (n m p q : Text)
      → path F toml s n ≡ ok p
      → path F toml s m ≡ ok q
      → (n == m) ≡ false
      → (p == q) ≡ false
  path_ne s n m p q hn hm differ = elim (Bool-cases (p == q)) [
    | inl same ↦ ground (arith, eq_iff n m, path-injective s n m p hn (rw ((eq_iff p q).0 same) hm))
    | inr e ↦ e
  ]

module _ (F : FileSystem) (toml : ConfigToml) (lawful : IsLawful F)
    (codec : IsConfigCodec toml) where
  get-write_file :
      (s : Store F) (name commit p data' : Text)
      → path F toml s name ≡ ok p
      → toml.marshal name commit ≡ ok data'
      → (write_file F toml s p (generated_file_header ++ data')).0 ≡ ok tt
      → get F toml (write_file F toml s p (generated_file_header ++ data')).1 name
        ≡ record { commit = commit; present = true; error = none }
  unfolding write_file get read_commit path
  get-write_file s name commit p data' at_path marshalled written =
      let (components, component, parsed, listed, holds) =
        codec.read_back name commit data' marshalled in
      let fs' : F.State = (F.mkdir_all s.fs s.store_dir).1 in
      let content : Text = generated_file_header ++ data' in
      ground (
        arith,
        lawful.read-write fs' p content,
        lawful.exists-read (F.write_file fs' p content).1 p content,
        parsed,
        listed,
        holds,
      )

  -- After a successful Save, Get finds the saved commit.
  pub get-save_found :
      (s : Store F) (name commit : Text)
      → (save F toml s name commit).0 ≡ ok tt
      → get F toml (save F toml s name commit).1 name
        ≡ record { commit = commit; present = true; error = none }
  unfolding save
  get-save_found s name commit saved = elim (Result-cases (path F toml s name)) [
    | inl (p, e) ↦ elim (Result-cases (toml.marshal name commit)) [
      | inl (data', e') ↦ ground (arith, get-write_file s name commit p data')
      | inr (_, e') ↦ ground arith
    ]
    | inr (_, e) ↦ ground arith
  ]

  -- A Save, successful or not, changes what is read for no other component.
  read_commit-save_ne :
      (s : Store F) (name commit other q : Text)
      → path F toml s other ≡ ok q
      → (name == other) ≡ false
      → read_commit F toml (save F toml s name commit).1 other q ≡ read_commit F toml s other q
  unfolding save write_file read_commit
  read_commit-save_ne s name commit other q at_path differ =
      elim (Result-cases (path F toml s name)) [
        | inl (p, e) ↦ elim (Result-cases (toml.marshal name commit)) [
          | inl (data', e') ↦ ground (
            arith,
            path_ne F toml s name other p q,
            lawful.read-mkdir_all s.fs s.store_dir q,
            lawful.read-write_ne (F.mkdir_all s.fs s.store_dir).1 p q
                (generated_file_header ++ data'),
          )
          | inr (_, e') ↦ ground arith
        ]
        | inr (_, e) ↦ ground arith
      ]

  -- A Remove that reports a removal leaves no file, so that a second one has nothing to remove.
  remove_twice :
      (s : Store F) (name : Text)
      → (remove F toml s name).0 ≡ ok true
      → remove F toml (remove F toml s name).1 name ≡ (ok false, (remove F toml s name).1)
  unfolding remove exists path
  remove_twice s name removed = elim (Result-cases (path F toml s name)) [
    | inl (p, e) ↦ ground (arith, lawful.exists-remove s.fs p)
    | inr (_, e) ↦ ground arith
  ]

contains-orphans_in :
    (entries : List DirEntry) (components : Dict ComponentConfig) (name : Text)
    → contains (orphans_in entries components) name ≡ (
        any (λ e. is_generated e && trim_suffix e.name file_extension == name) entries
        && not (is_upstream (lookup name components)))
unfolding orphans_in contains
contains-orphans_in [] components name = refl
contains-orphans_in (entry ∷ entries) components name = ground (
  arith,
  contains-orphans_in entries components name,
  eq_iff (trim_suffix entry.name file_extension) name,
)

module _ (F : FileSystem) (toml : ConfigToml) where
  -- The orphans are exactly the generated files whose name is no upstream component.
  contains-find_orphans :
      (s : Store F) (components : Dict ComponentConfig) (entries : List DirEntry)
      (orphans : List Text)
      → F.read_dir s.fs s.store_dir ≡ ok entries
      → find_orphans F toml s components ≡ ok orphans
      → (name : Text)
      → contains orphans name ≡ (
          any (λ e. is_generated e && trim_suffix e.name file_extension == name) entries
          && not (is_upstream (lookup name components)))
  unfolding find_orphans
  contains-find_orphans s components entries orphans read found name = ground (
    arith,
    contains-sort (orphans_in entries components) name,
    contains-orphans_in entries components name,
  )

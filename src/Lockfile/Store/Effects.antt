-- ===== src/Lockfile/Store/Effects.antt =====
-- What the methods of the store change, in the cache and on disk.
use azldev.Prelude.{true, false, ◌≡◌, ok, arith}
use azldev.Prelude.{some, none, if◌then◌else◌, Result-cases, inl, inr, is_ok}
use azldev.Text.{Text, ◌==◌, eq_refl}
use azldev.Text.Dict.{lookup, lookup-put, lookup-delete}
use azldev.FileSystem.{FileSystem, IsLawful}
use azldev.FilePath.Clean.{dir}
use azldev.Lockfile.Codec.{ComponentLock, Toml, new_lock}
use azldev.Lockfile
use azldev.Lockfile.{lock_path}
use azldev.Lockfile.Paths.{lock_path_ne}
use azldev.Lockfile.Store.{Store, load_lock, get, exists, get_or_new, save, remove}

module _ (F : FileSystem) (toml : Toml) (lawful : IsLawful F) where
  -- Saving a lock file leaves those at other paths alone.
  pub load-save_ne :
      (fs : F.State) (lock : ComponentLock) (p q : Text)
      → (p == q) ≡ false
      → Lockfile.load F toml (Lockfile.save F toml fs lock p).1 q ≡ Lockfile.load F toml fs q
  unfolding Lockfile.save Lockfile.load
  load-save_ne fs lock p q differ = elim (Result-cases (toml.marshal lock)) [
    | inl (data', e) ↦ ground (
      arith,
      lawful.read-mkdir_all fs (dir p) q,
      lawful.read-write_ne (F.mkdir_all fs (dir p)).1 p q data',
    )
    | inr (_, e) ↦ ground (arith, lawful.read-mkdir_all fs (dir p) q)
  ]

  pub cache-save :
      (s : Store F) (name other : Text) (lock : ComponentLock)
      → (save F toml s name (some lock)).0 ≡ ok tt
      → lookup other (save F toml s name (some lock)).1.cache
        ≡ (if name == other then some lock else lookup other s.cache)
  unfolding save
  cache-save s name other lock saved = elim (Result-cases (lock_path s.lock_dir name)) [
    | inl (path, e) ↦ ground (arith, lookup-put name other lock s.cache)
    | inr (_, e) ↦ ground arith
  ]

  pub load_lock-save_ne :
      (s : Store F) (name other : Text) (lock : ComponentLock)
      → (name == other) ≡ false
      → load_lock F toml (save F toml s name (some lock)).1 other ≡ load_lock F toml s other
  unfolding save load_lock
  load_lock-save_ne s name other lock differ = elim (Result-cases (lock_path s.lock_dir name)) [
    | inl (path, e) ↦ elim (Result-cases (lock_path s.lock_dir other)) [
      | inl (path', e') ↦
          ground (
            arith,
            lock_path_ne s.lock_dir name other path path',
            load-save_ne s.fs lock path path',
          )
      | inr (_, e') ↦ ground arith
    ]
    | inr (_, e) ↦ ground arith
  ]

  -- After a successful Save, Get returns the saved lock, and what it returned before at any other
  -- component.
  pub get-save :
      (s : Store F) (name other : Text) (lock : ComponentLock)
      → (save F toml s name (some lock)).0 ≡ ok tt
      → (get F toml (save F toml s name (some lock)).1 other).0
        ≡ (if name == other then ok lock else (get F toml s other).0)
  unfolding get
  get-save s name other lock saved =
      ground (arith, cache-save s name other lock saved, load_lock-save_ne s name other lock)

  load_lock-absent :
      (s : Store F) (name : Text)
      → exists F toml s name ≡ ok false
      → (lookup name s.cache ≡ none) × (is_ok (load_lock F toml s name) ≡ false)
  unfolding exists load_lock Lockfile.exists Lockfile.load
  load_lock-absent s name absent = elim (Result-cases (lock_path s.lock_dir name)) [
    | inl (path, e) ↦ elim (Result-cases (F.read_file s.fs path)) [
      | inl (data', e') ↦ ground (arith, lawful.exists-read s.fs path data')
      | inr (_, e') ↦ ground arith
    ]
    | inr (_, e) ↦ ground arith
  ]

  -- GetOrNew makes a new lock for a component that has no lock file.
  get_or_new-absent :
      (s : Store F) (name : Text)
      → exists F toml s name ≡ ok false
      → get_or_new F toml s name ≡ (ok new_lock, s)
  unfolding get_or_new get
  get_or_new-absent s name absent = ground (arith, load_lock-absent s name absent)

  -- For a component that has a lock file, GetOrNew returns what Get returns, and no new lock.
  pub get_or_new-present :
      (s : Store F) (name : Text)
      → exists F toml (get F toml s name).1 name ≡ ok true
      → (is_ok (get_or_new F toml s name).0 ≡ is_ok (get F toml s name).0)
        × ((lock : ComponentLock)
            → (get_or_new F toml s name).0 ≡ ok lock
            → (get F toml s name).0 ≡ ok lock)
  unfolding get_or_new
  get_or_new-present s name present = (ground arith, λ lock h. ground arith)

  pub load_lock-remove_ne :
      (s : Store F) (name other : Text)
      → (name == other) ≡ false
      → load_lock F toml (remove F toml s name).1 other ≡ load_lock F toml s other
  unfolding remove load_lock Lockfile.remove Lockfile.load
  load_lock-remove_ne s name other differ = elim (Result-cases (lock_path s.lock_dir name)) [
    | inl (path, e) ↦ elim (Result-cases (lock_path s.lock_dir other)) [
      | inl (path', e') ↦ ground (
        arith,
        lock_path_ne s.lock_dir name other path path',
        lawful.read-remove_ne s.fs path path',
      )
      | inr (_, e') ↦ ground arith
    ]
    | inr (_, e) ↦ ground arith
  ]

  pub cache-remove :
      (s : Store F) (name other : Text)
      → (remove F toml s name).0 ≡ ok tt
      → lookup other (remove F toml s name).1.cache
        ≡ (if name == other then none else lookup other s.cache)
  unfolding remove
  cache-remove s name other removed = elim (Result-cases (lock_path s.lock_dir name)) [
    | inl (path, e) ↦ ground (arith, lookup-delete name other s.cache)
    | inr (_, e) ↦ ground arith
  ]

  -- After a successful Remove the component has no lock file, in the cache or on disk.
  pub exists-remove :
      (s : Store F) (name : Text)
      → (remove F toml s name).0 ≡ ok tt
      → exists F toml (remove F toml s name).1 name ≡ ok false
  unfolding remove exists Lockfile.remove Lockfile.exists
  exists-remove s name removed = elim (Result-cases (lock_path s.lock_dir name)) [
    | inl (path, e) ↦
        ground
          (arith, lookup-delete name name s.cache, eq_refl name, lawful.exists-remove s.fs path)
    | inr (_, e) ↦ ground arith
  ]

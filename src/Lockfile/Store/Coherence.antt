-- ===== src/Lockfile/Store/Coherence.antt =====
-- internal/lockfile/store.go: the cache beside the disk.
use azldev.Prelude.{true, ◌≡◌, ok, arith, is_pos}
use azldev.Prelude.{some, Option-cases, Result-cases, inl, inr}
use azldev.Text.{Text, eq_iff}
use azldev.Text.Dict.{lookup, lookup-put}
use azldev.FileSystem.{FileSystem, IsLawful}
use azldev.FilePath.Clean.{dir}
use azldev.Lockfile.Codec.{ComponentLock, Toml, IsCodec, current_version}
use azldev.Lockfile
use azldev.Lockfile.{lock_path}
use azldev.Lockfile.Store.Effects
use azldev.Lockfile.Store.{Store, load_lock, get, save, remove}

module _ (F : FileSystem) (toml : Toml) (lawful : IsLawful F) (codec : IsCodec toml) where
  -- A lock file that was saved in the current format is loaded as it was.
  load-save :
      (fs : F.State) (lock : ComponentLock) (path : Text)
      → is_pos lock.version current_version ≡ true
      → (Lockfile.save F toml fs lock path).0 ≡ ok tt
      → Lockfile.load F toml (Lockfile.save F toml fs lock path).1 path ≡ ok lock
  unfolding Lockfile.save Lockfile.load Lockfile.parse
  load-save fs lock path current saved = elim (Result-cases (toml.marshal lock)) [
    | inl (data', e) ↦ ground (
      arith,
      lawful.read-write (F.mkdir_all fs (dir path)).1 path data',
      codec.unmarshal-marshal lock data',
    )
    | inr (_, e) ↦ ground arith
  ]

  -- Every cached lock is what a load from disk would give.
  pub record IsCoherent (s : Store F) : Type 0 where
    pub agrees :
        (name : Text) (lock : ComponentLock)
        → lookup name s.cache ≡ some lock
        → load_lock F toml s name ≡ ok lock

  -- A cached name is in the cache; any other comes from the load.
  pub get-IsCoherent : (s : Store F) (name : Text) → IsCoherent s → IsCoherent (get F toml s name).1
  unfolding get load_lock
  get-IsCoherent s name c = record {
    agrees = λ n l h. elim (Result-cases (load_lock F toml s name)) [
      | inl (loaded, e) ↦
          ground (arith, c.agrees n l, lookup-put name n loaded s.cache, eq_iff name n)
      | inr (_, e) ↦ ground (arith, c.agrees n l)
    ];
  }

  -- What Get returns is what a load from disk gives.
  pub get-load_lock :
      (s : Store F) (name : Text) → IsCoherent s → (get F toml s name).0 ≡ load_lock F toml s name
  unfolding get
  get-load_lock s name c = elim (Option-cases (lookup name s.cache)) [
    | inl e ↦ ground arith
    | inr (lock, e) ↦ ground (arith, c.agrees name lock e)
  ]

  load_lock-save :
      (s : Store F) (name : Text) (lock : ComponentLock)
      → is_pos lock.version current_version ≡ true
      → (save F toml s name (some lock)).0 ≡ ok tt
      → load_lock F toml (save F toml s name (some lock)).1 name ≡ ok lock
  unfolding save load_lock
  load_lock-save s name lock current saved = elim (Result-cases (lock_path s.lock_dir name)) [
    | inl (path, e) ↦ ground (arith, load-save s.fs lock path)
    | inr (_, e) ↦ ground arith
  ]

  -- A successful Save of a lock in the current format keeps the cache coherent.
  pub save-IsCoherent :
      (s : Store F) (name : Text) (lock : ComponentLock)
      → is_pos lock.version current_version ≡ true
      → (save F toml s name (some lock)).0 ≡ ok tt
      → IsCoherent s
      → IsCoherent (save F toml s name (some lock)).1
  save-IsCoherent s name lock current saved c = record {
    agrees = λ n l h. ground (
      arith,
      c.agrees n l,
      load_lock-save s name lock current saved,
      Effects.load_lock-save_ne F toml lawful s name n lock,
      Effects.cache-save F toml lawful s name n lock saved,
      eq_iff name n,
    );
  }

  -- A successful Remove keeps the cache coherent.
  pub remove-IsCoherent :
      (s : Store F) (name : Text)
      → (remove F toml s name).0 ≡ ok tt
      → IsCoherent s
      → IsCoherent (remove F toml s name).1
  remove-IsCoherent s name removed c = record {
    agrees = λ n l h. ground (
      arith,
      c.agrees n l,
      Effects.load_lock-remove_ne F toml lawful s name n,
      Effects.cache-remove F toml lawful s name n removed,
    );
  }

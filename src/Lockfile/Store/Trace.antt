-- ===== src/Lockfile/Store/Trace.antt =====
-- internal/lockfile/store.go: a store that has only seen Get, and successful calls of Save and
-- Remove.
use azldev.Prelude.{true, ◌≡◌, ok, some, is_pos, arith}
use azldev.Text.{Text}
use azldev.Text.Dict.{lookup-nil}
use azldev.FileSystem.{FileSystem, IsLawful}
use azldev.Lockfile.Codec.{ComponentLock, Toml, IsCodec, current_version}
use azldev.Lockfile.Store.{Store, new_store, load_lock, get, save, remove}
use azldev.Lockfile.Store.Coherence.{
  IsCoherent, get-IsCoherent, save-IsCoherent, remove-IsCoherent, get-load_lock,
}

module _ (F : FileSystem) (toml : Toml) where
  -- One call. A failed write may leave a torn file behind, and ends the trace; so does a lock in
  -- another format than the current one, which Save does not refuse.
  pub data Step (s : Store F) : Store F → Type 0 where
    got : (name : Text) → Step s (get F toml s name).1
    saved :
        (name : Text) (lock : ComponentLock)
        → is_pos lock.version current_version ≡ true
        → (save F toml s name (some lock)).0 ≡ ok tt
        → Step s (save F toml s name (some lock)).1
    removed : (name : Text) → (remove F toml s name).0 ≡ ok tt → Step s (remove F toml s name).1

  pub data Reach (s : Store F) : Store F → Type 0 where
    here : Reach s s
    next : {t u : Store F} → Reach s t → Step t u → Reach s u

module _ (F : FileSystem) (toml : Toml) (lawful : IsLawful F) (codec : IsCodec toml) where
  new_store-IsCoherent :
      (fs : F.State) (lock_dir : Text) → IsCoherent F toml lawful codec (new_store F fs lock_dir)
  unfolding new_store
  new_store-IsCoherent fs lock_dir = record {
    agrees = λ n l h. ground (arith, lookup-nil {V = ComponentLock} n);
  }

  Step-IsCoherent :
      {s t : Store F}
      → Step F toml s t
      → IsCoherent F toml lawful codec s
      → IsCoherent F toml lawful codec t
  Step-IsCoherent {s} (Step.got name) c = get-IsCoherent F toml lawful codec s name c
  Step-IsCoherent {s} (Step.saved name lock current done) c =
      save-IsCoherent F toml lawful codec s name lock current done c
  Step-IsCoherent {s} (Step.removed name done) c =
      remove-IsCoherent F toml lawful codec s name done c

  Reach-IsCoherent :
      {s t : Store F}
      → IsCoherent F toml lawful codec s
      → Reach F toml s t
      → IsCoherent F toml lawful codec t
  Reach-IsCoherent c Reach.here = c
  Reach-IsCoherent c (Reach.next r st) = Step-IsCoherent st (Reach-IsCoherent c r)

  -- From a new store, after any Gets and any successful Saves (of locks in the current format) and
  -- Removes, Get returns what a load from disk without the cache would return.
  pub get-Reach :
      (fs : F.State) (lock_dir : Text) (s : Store F) (name : Text)
      → Reach F toml (new_store F fs lock_dir) s
      → (get F toml s name).0 ≡ load_lock F toml s name
  get-Reach fs lock_dir s name r =
      get-load_lock F toml lawful codec s name
        (Reach-IsCoherent (new_store-IsCoherent fs lock_dir) r)

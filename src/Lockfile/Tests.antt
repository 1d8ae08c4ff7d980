-- ===== src/Lockfile/Tests.antt =====
-- Runs of the lock file store in memory, and the theorems at concrete data.
use mathlib.Core.List.Perm
use azldev.Text.Dict.{is_some}
use azldev.Prelude.{Bool-cases, inl, inr, arith}
use azldev.Prelude.{
  take-length, drop-length, zero, suc, [], ◌∷◌, ◌++◌, true, false, Result, ok, err, new, ◌≡◌, refl,
}
use azldev.Prelude.{some, none, if◌then◌else◌, arith, ℤ, pos, negsuc, length, take, drop, ◌>>=◌}
use azldev.Prelude.{is_ok, ◌↔◌, all}
use azldev.Text.{
  Text, ◌==◌, codes, is_space, split, cut_suffix, has_prefix, has_suffix, trim_suffix,
}
use azldev.Text.Dict.{put, delete, lookup}
use azldev.FilePath.{join, validate_filename}
use azldev.FilePath.Clean.{
  is_abs, clean, base, kept_elements, add_element, render, after_last_slash,
}
use azldev.FilePath.Clean.{trim_right_slashes, trim_left_slashes, dir}
use azldev.FilePath.Valid.{validate_filename-is_filename}
use azldev.Lockfile
use azldev.Lockfile.{lock_path, validate_upstream_commit}
use azldev.Lockfile.Store.{
  Store, new_store, save, load_lock, get, exists, remove, remove_all, prune_orphans, prune_result,
}
use azldev.Lockfile.Store.Effects.{get-save}
use azldev.Lockfile.Store.Trace.{Reach, Step, get-Reach}
use azldev.Lockfile.Store.Prune.{prune_orphans-success}
use azldev.Lockfile.Paths.{lock_path-injective}
use azldev.Lockfile.Orphans.{
  ComponentConfig, is_lock_entry, component_of, orphans_in, find_orphan_lock_files,
  validate_consistency,
}
use azldev.Lockfile.Consistency.{IsLocked, validate_upstream_commit_iff}
use azldev.Lockfile.Consistency.Order.{
  is_in_order, validate_consistency_iff, validate_consistency-perm,
}
use azldev.Text.Order.{contains, sort, insert, text_le}
use azldev.Text.Dict.{Dict}
use azldev.FileSystem.Memory.{memory, memory-IsLawful}
use azldev.Lockfile.Codec.{ComponentLock, Toml, IsCodec}

-- A codec for the tests: a length before each text, and a sign before each number.
put_text : Text → Text → Text
put_text t rest = length t ∷ (t ++ rest)

put_int : ℤ → Text → Text
put_int (pos n) rest = 0 ∷ n ∷ rest
put_int (negsuc n) rest = 1 ∷ n ∷ rest

get_text : Text → Result (Text × Text)
get_text [] = err (new "truncated")
get_text (n ∷ rest) = ok (take n rest, drop n rest)

get_int : Text → Result (ℤ × Text)
get_int (zero ∷ n ∷ rest) = ok (pos n, rest)
get_int (suc _ ∷ n ∷ rest) = ok (negsuc n, rest)
get_int _ = err (new "truncated")

get_text-put_text : (t rest : Text) → get_text (put_text t rest) ≡ ok (t, rest)
unfolding get_text put_text
get_text-put_text t rest = rw (take-length, drop-length)

get_int-put_int : (i : ℤ) (rest : Text) → get_int (put_int i rest) ≡ ok (i, rest)
unfolding get_int put_int
get_int-put_int (pos n) rest = refl
get_int-put_int (negsuc n) rest = refl

encode : ComponentLock → Text
encode l = put_int l.version (
    put_text l.import_commit (
      put_text l.upstream_commit (
        put_int l.manual_bump
          (put_text l.input_fingerprint (put_text l.resolution_input_hash [])))))

decode : Text → Result ComponentLock
decode data' = do
  (v, r1) ← get_int data'
  (i, r2) ← get_text r1
  (u, r3) ← get_text r2
  (m, r4) ← get_int r3
  (f, r5) ← get_text r4
  (h, r6) ← get_text r5
  ok (record {
    version = v;
    import_commit = i;
    upstream_commit = u;
    manual_bump = m;
    input_fingerprint = f;
    resolution_input_hash = h;
  })

abbrev test_toml : Toml
test_toml = record { marshal = λ l. ok (encode l); unmarshal = decode }

decode-encode : (l : ComponentLock) → decode (encode l) ≡ ok l
unfolding encode decode
decode-encode l = simp (get_int-put_int, get_text-put_text)

test_toml-IsCodec : IsCodec test_toml
test_toml-IsCodec = record { unmarshal-marshal = λ l d h. ground (arith, decode-encode l) }

abbrev sample_lock : ComponentLock
sample_lock = record {
  version = pos 1;
  import_commit = codes "a1";
  upstream_commit = codes "b2";
  manual_bump = pos 0;
  input_fingerprint = codes "f";
  resolution_input_hash = codes "h";
}

abbrev curl : Text
curl = codes "curl"

abbrev bash : Text
bash = codes "bash"

abbrev locks : Text
locks = codes "locks"

-- A store over an empty directory, and the same after a Save.
start : Store memory
unfolding new_store
start = new_store memory [] locks

after_save : Store memory
unfolding save start Lockfile.save lock_path validate_filename ◌==◌ is_abs clean base is_space
    kept_elements add_element render after_last_slash trim_right_slashes trim_left_slashes split
    join encode put_int put_text put delete lookup dir
after_save = (save memory test_toml start curl (some sample_lock)).1

curl_path : lock_path locks curl ≡ ok (codes "locks/curl.lock")
unfolding after_save
curl_path = refl

curl_saved : (save memory test_toml start curl (some sample_lock)).0 ≡ ok tt
unfolding after_save
curl_saved = refl

validate_filename-is_filename_example : is_ok (validate_filename (codes "a\\b")) ≡ false
unfolding after_save
validate_filename-is_filename_example = validate_filename-is_filename (codes "a\\b")

lock_path-injective_example : curl ≡ curl
lock_path-injective_example =
    lock_path-injective locks curl curl (codes "locks/curl.lock") curl_path curl_path

get-save_example : (get memory test_toml after_save curl).0 ≡ ok sample_lock
unfolding after_save
get-save_example = get-save memory test_toml memory-IsLawful start curl curl sample_lock curl_saved

trace : Reach memory test_toml (new_store memory [] locks) after_save
unfolding after_save
trace = Reach.next Reach.here (Step.saved curl sample_lock refl curl_saved)

get-Reach_example :
    (get memory test_toml after_save curl).0 ≡ load_lock memory test_toml after_save curl
get-Reach_example =
    get-Reach memory test_toml memory-IsLawful test_toml-IsCodec [] locks after_save curl trace

abbrev config : Dict ComponentConfig
config = (bash, record { source_type = codes "local"; upstream_commit = [] }) ∷ []

orphans_of_config :
    find_orphan_lock_files memory after_save.fs after_save.lock_dir config ≡ ok (curl ∷ [])
unfolding after_save find_orphan_lock_files orphans_in is_lock_entry component_of sort insert
    text_le cut_suffix has_prefix has_suffix trim_suffix
orphans_of_config = refl

prune_orphans-success_example :
    ((prune_orphans memory test_toml after_save config).0.0 ≡ 1)
    × ((other : Text)
        → exists memory test_toml (prune_orphans memory test_toml after_save config).1 other ≡ (
            if contains (curl ∷ []) other
            then ok false
            else exists memory test_toml after_save other))
unfolding after_save prune_orphans prune_result remove_all remove Lockfile.remove
    find_orphan_lock_files orphans_in is_lock_entry component_of sort insert text_le cut_suffix
    has_prefix has_suffix trim_suffix
prune_orphans-success_example =
    prune_orphans-success memory test_toml memory-IsLawful after_save config (curl ∷ [])
      orphans_of_config refl

curl_validates :
    validate_upstream_commit memory test_toml after_save.fs locks curl [] ≡ ok (codes "b2")
unfolding after_save validate_upstream_commit Lockfile.exists Lockfile.load Lockfile.parse decode
    get_text get_int
curl_validates = refl

validate_upstream_commit_iff_example :
    (validate_upstream_commit memory test_toml after_save.fs locks curl [] ≡ ok (codes "b2"))
    ↔ IsLocked memory test_toml after_save.fs locks curl [] (codes "b2")
validate_upstream_commit_iff_example =
    validate_upstream_commit_iff memory test_toml after_save.fs locks curl [] (codes "b2")

validate_consistency_iff_example :
    ((validate_consistency memory test_toml after_save.fs locks config true).error ≡ none) ↔ (
      (all (is_in_order memory test_toml after_save.fs locks) config ≡ true)
      × (true ≡ true → find_orphan_lock_files memory after_save.fs locks config ≡ ok []))
validate_consistency_iff_example =
    validate_consistency_iff memory test_toml after_save.fs locks config true

abbrev two_components : Dict ComponentConfig
two_components =
    (bash, record { source_type = codes "local"; upstream_commit = [] })
    ∷ (curl, record { source_type = codes "upstream"; upstream_commit = [] })
    ∷ []

abbrev other_walk : Dict ComponentConfig
other_walk =
    (curl, record { source_type = codes "upstream"; upstream_commit = [] })
    ∷ (bash, record { source_type = codes "local"; upstream_commit = [] })
    ∷ []

same_keys : (name : Text) → is_some (lookup name two_components) ≡ is_some (lookup name other_walk)
unfolding lookup
same_keys name = elim (Bool-cases (bash == name)) [
  | inl e ↦ elim (Bool-cases (curl == name)) [ inl e' ↦ ground arith | inr e' ↦ ground arith ]
  | inr e ↦ elim (Bool-cases (curl == name)) [ inl e' ↦ ground arith | inr e' ↦ ground arith ]
]

validate_consistency-perm_example :
    validate_consistency memory test_toml after_save.fs locks two_components true
    ≡ validate_consistency memory test_toml after_save.fs locks other_walk true
unfolding after_save find_orphan_lock_files
validate_consistency-perm_example =
    validate_consistency-perm memory test_toml after_save.fs locks two_components other_walk true
      (Perm.swap _ _ []) same_keys refl

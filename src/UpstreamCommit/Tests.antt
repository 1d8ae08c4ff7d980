-- ===== src/UpstreamCommit/Tests.antt =====
-- Runs of the store of upstream commits in memory, and the theorems at concrete data.
use azldev.Prelude.{take-length, drop-length, [], ◌∷◌, ◌++◌, true, none, ◌≡◌, refl, ok, err, new}
use azldev.Prelude.{Result, length, take, drop, arith}
use azldev.Text.{Text, ◌==◌, eq_refl, codes, is_space, split}
use azldev.Text.Dict.{Dict, lookup, lookup-cons, put, delete}
use azldev.FilePath.{join, validate_filename}
use azldev.FilePath.Clean.{
  is_abs, clean, base, kept_elements, add_element, render, after_last_slash,
}
use azldev.FilePath.Clean.{trim_right_slashes, trim_left_slashes}
use azldev.FileSystem.Memory.{memory, memory-IsLawful}
use azldev.Lockfile.Orphans.{ComponentConfig}
use azldev.UpstreamCommit.{Store, ConfigToml, generated_file_header, path, get, write_file, save}
use azldev.UpstreamCommit.Laws.{IsConfigCodec, get-save_found}

-- A codec for the tests: the length of the name, the name and the commit, after the header.
decode : Text → Result (Dict ComponentConfig)
decode [] = err (new "truncated")
decode (n ∷ rest) =
    ok ((take n rest, record { source_type = []; upstream_commit = drop n rest }) ∷ [])

abbrev toml : ConfigToml
toml = record {
  marshal = λ name commit. ok (length name ∷ (name ++ commit));
  unmarshal = λ data'. decode (drop (length generated_file_header) data');
}

decode-marshal :
    (name commit : Text)
    → decode (length name ∷ (name ++ commit))
      ≡ ok ((name, record { source_type = []; upstream_commit = commit }) ∷ [])
unfolding decode
decode-marshal name commit = rw (take-length, drop-length)

toml-IsCodec : IsConfigCodec toml
toml-IsCodec = record {
  read_back = λ name commit data' h. (
    (name, record { source_type = []; upstream_commit = commit }) ∷ [],
    record { source_type = []; upstream_commit = commit },
    ground (arith, decode-marshal name commit),
    rw (lookup-cons, eq_refl),
    refl,
  );
}

abbrev curl : Text
curl = codes "curl"

abbrev bash : Text
bash = codes "bash"

start : Store memory
start = record { fs = []; store_dir = codes "base/upstream-commits" }

after_save : Store memory
unfolding save start path write_file validate_filename ◌==◌ is_abs clean base is_space kept_elements
    add_element render after_last_slash trim_right_slashes trim_left_slashes split join put delete
    lookup decode
after_save = (save memory toml start curl (codes "b2")).1

get-save_found_example :
    get memory toml after_save curl ≡ record { commit = codes "b2"; present = true; error = none }
unfolding after_save
get-save_found_example =
    get-save_found memory toml memory-IsLawful toml-IsCodec start curl (codes "b2") refl

abbrev config : Dict ComponentConfig
config = (curl, record { source_type = codes "local"; upstream_commit = [] }) ∷ []

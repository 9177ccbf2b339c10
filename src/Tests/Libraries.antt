-- ===== src/Tests/Libraries.antt =====
-- The search for the library on Linux.
use nwep_py.Prelude.{◌≡◌, refl, true, false, none, some, [], ◌∷◌}
use nwep_py.Text.{codes, same_text}
use nwep_py.Loader.{
  linux, FilePath, under, Environment, Files, opened, lib_names, load_library, first_in,
}
use nwep_py.Loader.Order.{override_wins}

-- Every path has a library, and no bare name is found.
abbrev everywhere : Files
everywhere = record { path_exists = λ p. true; opens_name = λ n. false; opens_path = λ p. true }

abbrev here : FilePath
here = codes "here" ∷ []

abbrev there : FilePath
there = codes "there" ∷ []

abbrev plain : Environment
plain = record {
  platform = linux;
  lib = [];
  lib_dir = some here;
  pkg_dir = [];
  repo_root = [];
  cwd = [];
  home = [];
  local_appdata = none;
  program_files = [];
  pkg_config = none;
}

abbrev packaged : Environment
packaged = record plain { pkg_config = some there }

override_wins_example :
    load_library everywhere plain ≡ opened everywhere (under here (codes "libnwep.so"))
unfolding first_in lib_names same_text
override_wins_example =
    override_wins everywhere plain here [] (codes "libnwep.so") (codes "libnwep_core.so" ∷ []) refl
      refl refl refl refl

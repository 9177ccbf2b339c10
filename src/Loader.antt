-- ===== src/Loader.antt =====
-- The search for the shared library in nwep/_sys.py. The platform, the environment, the directories
-- that Python and pkg-config report, and the file system are parameters.
pub mod Order
use nwep_py.Prelude.{
  Bool, true, false, ◌||◌, Option, none, some, List, [], ◌∷◌, ◌++◌, map, if◌then◌else◌,
}
use nwep_py.Errors.{Outcome, ok, raise, os_error}
use nwep_py.Text.{Text, codes, same_text}

-- `sys.platform`, as far as it is told apart.
pub data Platform : Type 0 where
  win32 darwin linux other : Platform

-- A path by its components; `/` adds one.
abbrev pub FilePath : Type 0
FilePath = List Text

abbrev pub under : FilePath → Text → FilePath
under dir name = dir ++ name ∷ []

-- `lib` is NWEP_LIB in lower case; an empty NWEP_LIB_DIR or LOCALAPPDATA counts as none.
pub record Environment : Type 0 where
  pub platform : Platform
  pub lib : Text
  pub lib_dir : Option FilePath
  pub pkg_dir : FilePath
  pub repo_root : FilePath
  pub cwd : FilePath
  pub home : FilePath
  pub local_appdata : Option FilePath
  pub program_files : FilePath
  pub pkg_config : Option FilePath

-- Whether a path exists, and whether `dlopen` takes a bare name or a path.
pub record Files : Type 0 where
  pub path_exists : FilePath → Bool
  pub opens_name : Text → Bool
  pub opens_path : FilePath → Bool

-- `f"{prefix}{base}{suffix}"`
abbrev file_name : Platform → Text → Text
file_name win32 base = base ++ codes ".dll"
file_name darwin base = codes "lib" ++ base ++ codes ".dylib"
file_name linux base = codes "lib" ++ base ++ codes ".so"
file_name other base = codes "lib" ++ base ++ codes ".so"

-- `_lib_names`
abbrev lib_bases : Bool → List Text
lib_bases true = codes "nwep_core" ∷ codes "nwep" ∷ []
lib_bases false = codes "nwep" ∷ codes "nwep_core" ∷ []

unfoldable pub lib_names : Platform → Bool → List Text
lib_names platform prefer_core = map (file_name platform) (lib_bases prefer_core)

-- `_installer_default_dirs`
abbrev lib_and_bin : FilePath → List FilePath
lib_and_bin prefix = under prefix (codes "lib") ∷ under prefix (codes "bin") ∷ []

abbrev user_dirs : Option FilePath → List FilePath
user_dirs none = []
user_dirs (some local) = lib_and_bin (under (under local (codes "Programs")) (codes "nwep"))

unfoldable pub installer_default_dirs : Environment → Platform → List FilePath
installer_default_dirs env win32 =
    user_dirs env.local_appdata ++ lib_and_bin (under env.program_files (codes "nwep"))
installer_default_dirs env linux =
    under (under env.home (codes ".local")) (codes "lib")
    ∷ (codes "/" ∷ codes "usr" ∷ codes "local" ∷ codes "lib" ∷ [])
    ∷ []
installer_default_dirs env _ = []

-- `_candidate_dirs`
abbrev override : Option FilePath → List FilePath
override none = []
override (some dir) = dir ∷ []

abbrev expand : List FilePath → List FilePath
expand [] = []
expand (base ∷ bases) = base ∷ lib_and_bin base ++ expand bases

unfoldable pub candidate_dirs : Environment → List FilePath
unfolding installer_default_dirs
candidate_dirs env =
    expand (
      override env.lib_dir
      ++ env.pkg_dir
        ∷ under env.pkg_dir (codes "_libs")
        ∷ under env.repo_root (codes "zig-out")
        ∷ under env.cwd (codes "zig-out")
        ∷ [])
    ++ installer_default_dirs env env.platform

-- `_pkgconfig_libdir`; `pkg_config` is what the program printed where it ran and printed something.
abbrev pub pkgconfig_libdir : Platform → Option FilePath → Option FilePath
pkgconfig_libdir linux found = found
pkgconfig_libdir _ found = none

-- What `dlopen` was given.
pub data Library : Type 0 where
  bare : Text → Library
  at : FilePath → Library

module _ (files : Files) where
  unfoldable pub first_bare : List Text → Option Text
  first_bare [] = none
  first_bare (name ∷ names) =
      let rest = first_bare names in if files.opens_name name then some name else rest

  -- The first name that exists in a directory.
  unfoldable pub first_in : FilePath → List Text → Option FilePath
  first_in dir [] = none
  first_in dir (name ∷ names) =
      let rest = first_in dir names in
      if files.path_exists (under dir name) then some (under dir name) else rest

  abbrev or_in : Option FilePath → Option FilePath → Option FilePath
  or_in (some p) rest = some p
  or_in none rest = rest

  unfoldable pub first_of : List FilePath → List Text → Option FilePath
  unfolding first_in
  first_of [] names = none
  first_of (dir ∷ dirs) names = let rest = first_of dirs names in or_in (first_in dir names) rest

  -- `ffi.dlopen(str(path))`, which may raise
  abbrev pub opened : FilePath → Outcome Library
  opened path = if files.opens_path path then ok (at path) else raise os_error

  abbrev search_dirs : Option FilePath → Outcome Library
  search_dirs none = raise os_error
  search_dirs (some path) = opened path

  abbrev search_pkgconfig : Option FilePath → Environment → List Text → Outcome Library
  search_pkgconfig none env names = search_dirs (first_of (candidate_dirs env) names)
  search_pkgconfig (some path) env names = opened path

  abbrev in_pkgconfig : Option FilePath → List Text → Option FilePath
  in_pkgconfig none names = none
  in_pkgconfig (some dir) names = first_in dir names

  abbrev bare_names : Option FilePath → List Text → Option Text
  bare_names none names = first_bare names
  bare_names (some dir) names = none

  abbrev search : Option Text → Environment → List Text → Outcome Library
  search (some name) env names = ok (bare name)
  search none env names =
      search_pkgconfig (in_pkgconfig (pkgconfig_libdir env.platform env.pkg_config) names) env names

  -- `_load_library`
  abbrev pub prefers_core : Text → Bool
  prefers_core lib =
      same_text lib (codes "core")
      || same_text lib (codes "core_only")
      || same_text lib (codes "nwep_core")

  unfoldable pub load_library : Environment → Outcome Library
  unfolding lib_names same_text
  load_library env =
      let names = lib_names env.platform (prefers_core env.lib) in
      search (bare_names env.lib_dir names) env names

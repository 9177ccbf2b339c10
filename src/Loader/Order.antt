-- ===== src/Loader/Order.antt =====
-- Where the library comes from.
use nwep_py.Prelude.{
  Bool, all, not, ◌++◌, ap, ◌∙◌, refl, true, Option, none, some, List, [], ◌∷◌, ◌≡◌, arith,
}
use nwep_py.Errors.{ok}
use nwep_py.Text.{Text}
use nwep_py.Loader.{
  linux, under, FilePath, Environment, Files, lib_names, prefers_core, candidate_dirs,
  pkgconfig_libdir, Library, bare, at, first_bare, first_in, first_of, opened, in_pkgconfig,
  load_library,
}

abbrev pub names_of : Files → Environment → List Text
names_of files env = lib_names env.platform (prefers_core files env.lib)

module _ (files : Files) where
  first_in_exists :
      (dir : FilePath) (names : List Text) (p : FilePath)
      → first_in files dir names ≡ some p
      → files.path_exists p ≡ true
  unfolding first_in
  first_in_exists dir [] p h = ground arith
  first_in_exists dir (name ∷ names) p h = ground (arith, first_in_exists dir names p)

  first_of_exists :
      (dirs : List FilePath) (names : List Text) (p : FilePath)
      → first_of files dirs names ≡ some p
      → files.path_exists p ≡ true
  unfolding first_of
  first_of_exists [] names p h = ground arith
  first_of_exists (dir ∷ dirs) names p h =
      ground (arith, first_in_exists dir names p, first_of_exists dirs names p)

  in_pkgconfig_exists :
      (dir : Option FilePath) (names : List Text) (p : FilePath)
      → in_pkgconfig files dir names ≡ some p
      → files.path_exists p ≡ true
  in_pkgconfig_exists none names p h = ground arith
  in_pkgconfig_exists (some dir) names p h = first_in_exists dir names p h

  first_bare_opens :
      (names : List Text) (n : Text) → first_bare files names ≡ some n → files.opens_name n ≡ true
  unfolding first_bare
  first_bare_opens [] n h = ground arith
  first_bare_opens (name ∷ names) n h = ground (arith, first_bare_opens names n)

  -- A path that exists and opens, or a bare name that opens, without an override.
  abbrev pub IsUsable : Environment → Library → Type 0
  IsUsable env (bare name) = (env.lib_dir ≡ none) × (files.opens_name name ≡ true)
  IsUsable env (at path) = (files.path_exists path ≡ true) × (files.opens_path path ≡ true)

  -- What is loaded could be opened; a path existed too, and a bare name is only taken when
  -- NWEP_LIB_DIR is not set.
  pub load_library-IsUsable :
      (env : Environment) (library : Library)
      → load_library files env ≡ ok library
      → IsUsable env library
  unfolding load_library
  load_library-IsUsable env (bare name) h =
      ground (arith, first_bare_opens (names_of files env) name)
  load_library-IsUsable env (at path) h = ground (
    arith,
    h,
    in_pkgconfig_exists (pkgconfig_libdir env.platform env.pkg_config) (names_of files env) path,
    first_of_exists (candidate_dirs env) (names_of files env) path,
  )

  -- None of the names exists in the directory.
  abbrev pub lacks : FilePath → List Text → Bool
  lacks dir names = all (λ name. not (files.path_exists (under dir name))) names

  abbrev pub lacks_at : Option FilePath → List Text → Bool
  lacks_at none names = true
  lacks_at (some dir) names = lacks dir names

  first_in-lacks :
      (dir : FilePath) (names : List Text)
      → lacks dir names ≡ true
      → first_in files dir names ≡ none
  unfolding first_in
  first_in-lacks dir [] l = refl
  first_in-lacks dir (name ∷ names) l = ground (arith, first_in-lacks dir names)

  in_pkgconfig-lacks :
      (dir : Option FilePath) (names : List Text)
      → lacks_at dir names ≡ true
      → in_pkgconfig files dir names ≡ none
  in_pkgconfig-lacks none names l = refl
  in_pkgconfig-lacks (some dir) names l = first_in-lacks dir names l

  first_in-append :
      (dir : FilePath) (before : List Text) (name : Text) (more : List Text)
      → lacks dir before ≡ true
      → files.path_exists (under dir name) ≡ true
      → first_in files dir (before ++ name ∷ more) ≡ some (under dir name)
  unfolding first_in
  first_in-append dir [] name more l x = ground arith
  first_in-append dir (b ∷ before) name more l x =
      ground (arith, first_in-append dir before name more)

  -- With NWEP_LIB_DIR set, and none of the names in the directory that pkg-config names, if it names
  -- one: the first of the names that exists in the directory set is what is opened, whatever stands
  -- elsewhere.
  pub override_wins :
      (env : Environment) (dir : FilePath) (before : List Text) (name : Text) (more : List Text)
      → env.lib_dir ≡ some dir
      → lacks_at (pkgconfig_libdir env.platform env.pkg_config) (names_of files env) ≡ true
      → names_of files env ≡ before ++ name ∷ more
      → lacks dir before ≡ true
      → files.path_exists (under dir name) ≡ true
      → load_library files env ≡ opened files (under dir name)
  unfolding load_library candidate_dirs first_of
  override_wins env dir before name more l p n b x =
      let q =
        in_pkgconfig-lacks (pkgconfig_libdir env.platform env.pkg_config) (names_of files env) p in
      let f : first_in files dir (names_of files env) ≡ some (under dir name) =
        ap (first_in files dir) n ∙ first_in-append dir before name more b x in
      ground arith

  -- On Linux, where pkg-config names a directory that has the library, that one is opened, also when
  -- NWEP_LIB_DIR is set to another directory that has it.
  pub pkg_config_first :
      (env : Environment) (dir found path : FilePath)
      → env.platform ≡ linux
      → env.lib_dir ≡ some dir
      → env.pkg_config ≡ some found
      → first_in files found (names_of files env) ≡ some path
      → load_library files env ≡ opened files path
  unfolding load_library
  pkg_config_first env dir found path o l p f = ground arith

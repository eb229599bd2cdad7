-- ===== src/Cmd/Destination.antt =====
-- cmd/gocharm/main.go: the directory that a charm is built into, its revision, and main1. What go
-- install and the import of the package do is a parameter; buildCharm is that of Build.
use gocharm.Base.{String, ℕ, ◌+◌, ◌==◌, List, [], ◌∷◌, Bool, false, not}
use gocharm.Base.{Option, none, some, ◌||◌, ◌&&◌, if◌then◌else◌, str_eq, Act, newf}
use gocharm.Base.{masked, noted, ok, err, panic, ◌>>=◌, ◌>>◌, pure, raise, wrap, ignore, for_each}
use gocharm.Base.Decimal.{show_int, parse_int}
use gocharm.Base.Int.{ℤ, pos, negsuc}
use gocharm.Base.Paths.{join_path}
use gocharm.Base.Texts.{has_prefix, has_suffix, trim_space}
use gocharm.Hook.Registry.{Unit₀}
use gocharm.Hook.State.{Files}

abbrev pub yaml_autogen_comment : String
yaml_autogen_comment = "# This file is automatically generated. Do not edit.\n"

abbrev pub allowed : List String
allowed =
    "assets" ∷ "bin" ∷ "compile" ∷ "config.yaml" ∷ "dependencies.tsv" ∷ "hooks" ∷ "metadata.yaml"
    ∷ "pkg" ∷ "README.md" ∷ "revision" ∷ "src" ∷ []

abbrev pub is_member : String → List String → Bool
is_member name [] = false
is_member name (x ∷ xs) = str_eq name x || is_member name xs

unfoldable pub is_allowed : String → Bool
is_allowed name = is_member name allowed

unfoldable pub is_hidden : String → Bool
is_hidden name = has_prefix "." name

-- The directories and files that the command works on, beside hook/state.go's reads and writes.
pub record Tree (W : Type 0) : Type 0 where
  -- the names in a directory; `none` where there is no such directory
  pub read_dir : String → Act W (Option (List String))
  -- whether a file can be opened and begins with a text
  pub begins_with : String → String → W → Bool
  pub remove_all : String → Act W Unit₀
  -- os.Stat, whether there is such a file
  pub stat : String → Act W Bool
  pub copy : String → String → Act W Unit₀
  pub temp_dir : Act W String

module _ {W : Type 0} (tree : Tree W) where
  unfoldable pub autogenerated : String → W → Bool
  autogenerated path w = tree.begins_with path yaml_autogen_comment w

  -- The loop over the names of the directory.
  unfoldable pub check_names : String → List String → Act W (List String)
  check_names dir [] w = (ok [], w)
  check_names dir (name ∷ names) w =
      let rest = check_names dir names w in
      let p = join_path (dir ∷ name ∷ []) in
      if is_hidden name
      then rest
      else if not (is_allowed name)
      then (err (newf "unexpected file %q found in %s" (name ∷ dir ∷ [])), w)
      else if has_suffix ".yaml" p && not (autogenerated p w)
      then (err (newf "non-autogenerated file %q" (p ∷ [])), w)
      else elim rest.0 [ ok ps ↦ (ok (p ∷ ps), rest.1) | _ ↦ rest ]

  unfoldable pub can_clean : String → Act W (List String)
  can_clean dir = do
    found ← wrap masked (tree.read_dir dir)
    elim found [ none ↦ pure [] | some names ↦ check_names dir names ]

  unfoldable pub clean_destination : String → Act W Unit₀
  clean_destination dir = do
    paths ← wrap masked (can_clean dir)
    for_each (λ p. wrap masked (tree.remove_all p)) paths

unfoldable pub revision_path : String → String
revision_path dir = join_path (dir ∷ "revision" ∷ [])

module _ {W : Type 0} (files : Files W) where
  -- `none` is -1, where there is no revision.
  abbrev revision_of : String → String → Option ℤ → Act W (Option ℕ)
  revision_of p content (some (pos n)) = pure (some n)
  revision_of p content _ = raise (newf "invalid number %q in %s" (content ∷ p ∷ []))

  unfoldable pub read_revision : String → Act W (Option ℕ)
  read_revision dir = do
    found ← wrap masked (files.read_file (revision_path dir))
    elim found [
      | none ↦ pure none
      | some content ↦ revision_of (revision_path dir) content (parse_int (trim_space content))
    ]

  unfoldable pub write_revision : String → ℤ → Act W Unit₀
  write_revision dir rev = files.write_file (revision_path dir) (show_int rev)

-- `rev++` on an int of 64 bits
abbrev pub incremented : ℕ → ℤ
incremented rev = if rev == 9223372036854775807 then negsuc 9223372036854775807 else pos (rev + 1)

-- build.Package, as far as the code uses it.
pub record Package : Type 0 where
  pub import_path : String
  pub dir : String

-- The process's directory, the Go tool, and buildCharm.
pub record Build (W : Type 0) : Type 0 where
  pub getwd : Act W String
  pub install : String → Act W Unit₀
  -- the package of a path, as seen from a directory
  pub import_pkg : String → String → Act W Package
  -- the package, the charm's directory and the temporary one
  pub build_charm : Package → String → String → Act W Unit₀

module _ {W : Type 0} (tree : Tree W) (files : Files W) (build : Build W)
    (base_of : String → String) (repo : String) (keep : Bool) (names : List String) where
  abbrev pub copy_name : String → String → String → Act W Unit₀
  copy_name from dest name = do
    there ← wrap masked (tree.stat (join_path (from ∷ name ∷ [])))
    if there
        then wrap (λ e. noted e "cannot copy to final destination" [])
            (tree.copy (join_path (from ∷ name ∷ [])) (join_path (dest ∷ name ∷ [])))
        else pure tt

  -- A revision that was found is written, one higher.
  abbrev pub next_revision : String → Option ℕ → Act W Unit₀
  next_revision dir none = pure tt
  next_revision dir (some rev) =
      wrap (λ e. noted e "cannot write revision file" [])
        (write_revision files dir (incremented rev))

  -- From the build to the last copy; `names` are those that are allowed, in the order in which Go
  -- goes through the map.
  unfoldable pub replace_charm : Package → String → String → Option ℕ → Act W Unit₀
  replace_charm pkg dest temp rev = do
    wrap masked (build.build_charm pkg (join_path (temp ∷ "charm" ∷ [])) temp)
    next_revision (join_path (temp ∷ "charm" ∷ [])) rev
    wrap masked (clean_destination tree dest)
    wrap masked (files.mkdir_all dest)
    for_each (copy_name (join_path (temp ∷ "charm" ∷ [])) dest) names

  -- The deferred removal of the temporary directory, whatever came of the build.
  abbrev pub finish : {A : Type 0} → String → Act W A → Act W A
  finish temp m w =
      let (r, w') = m w in
      if keep
      then (r, w')
      else (let (removed, w'') = ignore (tree.remove_all temp) w' in
          elim removed [ panic e ↦ (panic e, w'') | _ ↦ (r, w'') ])

  unfoldable pub main1 : String → Act W Unit₀
  main1 pkg_path = do
    cwd ← wrap (λ e. noted e "cannot get current directory" []) build.getwd
    wrap (λ e. noted e "cannot install %q" (pkg_path ∷ [])) (build.install pkg_path)
    pkg ← wrap (λ e. noted e "cannot import %q" (pkg_path ∷ [])) (build.import_pkg pkg_path cwd)
    wrap (λ e. noted e "cannot clean destination directory" [])
        (can_clean tree (join_path (repo ∷ base_of pkg.dir ∷ [])))
    rev ←
        wrap (λ e. noted e "cannot read revision" [])
          (read_revision files (join_path (repo ∷ base_of pkg.dir ∷ [])))
    temp ← wrap (λ e. noted e "cannot make temporary directory" []) tree.temp_dir
    finish temp (replace_charm pkg (join_path (repo ∷ base_of pkg.dir ∷ [])) temp rev)

-- ===== src/Cmd/Build.antt =====
-- cmd/gocharm/gocharm.go: the build of a charm's directory. What is only shown to the user is left out.
use Prim.Native.String.{◌++◌}
use Prim.Native.String as S
use gocharm.Base.{String, ℕ, zero, suc, ◌-◌, List, [], ◌∷◌, if◌then◌else◌, str_eq, leb}
use gocharm.Base.{Act, Result, newf, masked, noted, ok, err, panic, ◌>>=◌, ◌>>◌, pure, raise, wrap}
use gocharm.Base.{Bool, ◌&&◌, sentinel, for_each, ◌==◌, Option, none, some}
use gocharm.Base.Dict.{Dict}
use gocharm.Base.Paths.{join_path}
use gocharm.Cmd.Destination.{Package, main1, Tree, yaml_autogen_comment}
use gocharm.Cmd.Inspect.{Meta, CharmInfo, Programs, registered_charm_info}
use gocharm.Cmd.Setenv.{setenv}
use gocharm.Cmd.Templates.{hook_main_code, hook_stub}
use gocharm.Hook.Juju.{CharmOption}
use gocharm.Hook.Registry.{Unit₀}
use gocharm.Hook.State.{Files}
use Prim.Native.Char.{code}

pub record BuildCharmParams : Type 0 where
  pub pkg : Package
  pub charm_dir : String
  pub temp_dir : String

-- gopkg.in/yaml.v2 at the two types that are written.
pub record Yaml : Type 0 where
  pub meta : Meta → Result String
  pub config : Dict CharmOption → Result String

-- The process's own environment and directory, os.Stat, and charm.ReadCharmDir.
pub record System (W : Type 0) : Type 0 where
  pub environ : W → List String
  pub getwd : Act W String
  pub stat : String → Act W Unit₀
  pub read_charm_dir : String → Act W Unit₀

abbrev pub length : String → ℕ
length S.[] = 0
length (S.◌∷◌ c s) = suc (length s)

abbrev pub take : ℕ → String → String
take zero s = S.[]
take (suc n) S.[] = S.[]
take (suc n) (S.◌∷◌ c s) = S.◌∷◌ c (take n s)

-- localPath[0:len(localPath)-len(importPath[len(modulePath):])] of paths that are ASCII.
unfoldable pub get_local_path_to_go_module : String → String → String → Result String
get_local_path_to_go_module module_path import_path local_path =
    let rest = length import_path - length module_path in
    if str_eq module_path import_path
    then ok local_path
    else if leb (length module_path) (length import_path) && leb rest (length local_path)
    then ok (take (length local_path - rest) local_path)
    else panic (newf "slice bounds out of range" [])

-- strings.SplitN(s, "\n", 2)[0]
unfoldable pub first_line : String → String
first_line S.[] = S.[]
first_line (S.◌∷◌ c s) = let rest = first_line s in if code c == 10 then S.[] else S.◌∷◌ c rest

module _ {W : Type 0} (programs : Programs W) (files : Files W) (system : System W) (yaml : Yaml)
    (dir_of base_of : String → String) where
  abbrev or_panic : {A : Type 0} → Result A → Act W A
  or_panic (ok a) w = (ok a, w)
  or_panic (err e) w = (panic (newf "failed to get Go module name" []), w)
  or_panic (panic e) w = (panic e, w)

  unfoldable pub get_go_module_name_from_current_dir : Act W String
  unfolding first_line
  get_go_module_name_from_current_dir w =
      let (r, w') = programs.output "go" ("list" ∷ "-m" ∷ []) w in
      (do out ← or_panic r; pure (first_line out)) w'

  unfoldable pub compile : String → String → List String → Act W Unit₀
  compile go_file exe_file env =
      wrap (λ e. noted e "failed to build" [])
        (programs.run "" env "go" ("build" ∷ "-o" ∷ exe_file ∷ go_file ∷ []))

  abbrev with_env : List String → String → Act W (List String)
  with_env env entry w = (setenv env entry, w)

  abbrev pub build_env : Act W (List String)
  build_env = do
    env ← λ w. (ok (system.environ w), w)
    env₁ ← with_env env "CGOENABLED=false"
    env₂ ← with_env env₁ "GOARCH=amd64"
    with_env env₂ "GOOS=linux"

  unfoldable pub prepare_temp_source : String → String → String → String → Act W (List String)
  unfolding get_local_path_to_go_module
  prepare_temp_source go_file exe_file module_path import_path = do
    let go_dir = dir_of go_file
    wrap masked (files.mkdir_all go_dir)
    wrap masked (files.mkdir_all (dir_of exe_file))
    wrap masked (files.write_file go_file (hook_main_code import_path))
    env ← build_env
    wrap (λ e. noted e "failed to initialize Go modules" [])
        (programs.run go_dir env "go" ("mod" ∷ "init" ∷ "github.com/mever/gocharm/tmp-build" ∷ []))
    local_path ← wrap (λ e. noted e "can not get current directory" []) system.getwd
    local_module_path ← λ w. (get_local_path_to_go_module module_path import_path local_path, w)
    wrap (λ e. noted e "failed to replace package path with a local path" [])
        (programs.run go_dir env "go"
          ("mod" ∷ "edit" ∷ "-replace" ∷ (module_path ++ ("=" ++ local_module_path)) ∷ []))
    wrap (λ e. noted e "failed to tidy Go modules" [])
        (programs.run go_dir env "go" ("mod" ∷ "tidy" ∷ []))
    pure env

  -- writeYAML, of what yaml.Marshal has made of the value.
  unfoldable pub write_yaml : String → Result String → Act W Unit₀
  write_yaml file marshalled = do
    text ← wrap (λ e. noted e "cannot marshal YAML" []) (λ w. (marshalled, w))
    wrap masked (files.write_file file (yaml_autogen_comment ++ text))

  unfoldable pub write_meta : BuildCharmParams → Meta → Act W Unit₀
  unfolding write_yaml
  write_meta b meta =
      wrap (λ e. noted e "cannot write metadata.yaml" [])
        (write_yaml (join_path (b.charm_dir ∷ "metadata.yaml" ∷ []))
          (yaml.meta (record meta { name = base_of b.pkg.dir })))

  unfoldable pub write_config : BuildCharmParams → Dict CharmOption → Act W Unit₀
  unfolding write_yaml
  write_config b [] = pure tt
  write_config b (o ∷ os) =
      wrap (λ e. noted e "cannot write config.yaml" [])
        (write_yaml (join_path (b.charm_dir ∷ "config.yaml" ∷ [])) (yaml.config (o ∷ os)))

  abbrev write_hook : String → String → Act W Unit₀
  write_hook hook_dir hook_name =
      wrap masked (files.write_file (join_path (hook_dir ∷ hook_name ∷ [])) (hook_stub hook_name))

  abbrev must_exist : Option (List String) → Act W Unit₀
  must_exist none = raise (masked (sentinel "file does not exist"))
  must_exist (some names) = pure tt

  -- The names of the hooks that are there already are only counted for the user.
  unfoldable pub write_hooks : Tree W → BuildCharmParams → List String → Act W Unit₀
  write_hooks tree b hooks = do
    let hook_dir = join_path (b.charm_dir ∷ "hooks" ∷ [])
    wrap (λ e. noted e "failed to make hooks directory" []) (files.mkdir_all hook_dir)
    found ← wrap masked (tree.read_dir hook_dir)
    must_exist found
    for_each (write_hook hook_dir) hooks

  -- The parts of buildCharm: the program, and the files beside it.
  abbrev pub build_program : BuildCharmParams → String → String → Act W Unit₀
  build_program b module_path import_path = do
    let exe_file = join_path (b.charm_dir ∷ "bin" ∷ "runhook" ∷ [])
    let go_file = join_path (b.charm_dir ∷ "src" ∷ "runhook" ∷ "runhook.go" ∷ [])
    env ←
        wrap (λ e. noted e "cannot build hooks main package" [])
          (prepare_temp_source go_file exe_file module_path import_path)
    wrap (λ e. noted e "cannot build hooks main package" []) (compile go_file exe_file env)
    wrap (λ e. newf "runhook command not built" []) (system.stat exe_file)

  abbrev pub write_charm : Tree W → BuildCharmParams → CharmInfo → Act W Unit₀
  write_charm tree b info = do
    wrap (λ e. noted e "cannot write hooks to charm" []) (write_hooks tree b info.hooks)
    wrap (λ e. noted e "cannot write metadata.yaml" []) (write_meta b info.meta)
    wrap (λ e. noted e "cannot write config.yaml" []) (write_config b info.config)
    wrap (λ e. noted e "charm will not read correctly; we've broken it, sorry" [])
        (system.read_charm_dir b.charm_dir)

  unfoldable pub build_charm : Tree W → BuildCharmParams → Act W Unit₀
  unfolding get_go_module_name_from_current_dir prepare_temp_source compile write_hooks write_meta
      write_config
  build_charm tree b = do
    module_path ← get_go_module_name_from_current_dir
    let import_path = if str_eq b.pkg.import_path "." then module_path else b.pkg.import_path
    build_program b module_path import_path
    info ← wrap masked (registered_charm_info programs files import_path b.temp_dir)
    write_charm tree b info

  -- The command: main1 with this buildCharm. `names` are the allowed names in some order.
  unfoldable pub gocharm_main :
      Tree W
      → (String → String → Act W Package)
      → String
      → Bool
      → List String
      → String
      → Act W Unit₀
  unfolding build_charm
  gocharm_main tree import_pkg repo keep names pkg_path =
      main1 tree files
        (record {
          getwd = system.getwd;
          install = λ path. programs.run "" [] "go" ("install" ∷ path ∷ []);
          import_pkg = import_pkg;
          build_charm = λ pkg charm_dir temp_dir.
              build_charm tree (record { pkg = pkg; charm_dir = charm_dir; temp_dir = temp_dir });
        })
        base_of repo keep names pkg_path

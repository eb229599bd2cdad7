-- ===== src/Cmd/Tests.antt =====
-- Examples of the gocharm command: the destination directory, the inspection and the build.
mod Disks
use gocharm.Base.{String, ◌≡◌, refl, List, [], ◌∷◌, true, false, some, ok, err, Error, pure}
use gocharm.Base.{wrap, masked, for_each}
use Prim.Native.String.{◌++◌}
use gocharm.Base.{inl}
use gocharm.Base.Dict.{insert}
use gocharm.Charmbits.Tests.Processes.{juju}
use gocharm.Hook.Juju.{CharmRelation}
use gocharm.Hook.Registry.{View, new_registry, charm_info}
use gocharm.Hook.Registry.Declare.{registered_hooks, registered_config, registered_relations}
use gocharm.Hook.Registry.Declare.{registered_resources}
use gocharm.Cmd.Build.{get_local_path_to_go_module}
use gocharm.Cmd.LocalPath.{get_local_path_to_go_module-append}
use gocharm.Cmd.Inspect.{CharmInfo, inspect, file_relations, file_relation}
use gocharm.Cmd.Filed.{IsFiled, inspect-IsFiled}
use gocharm.Cmd.Destination.{Tree, clean_destination}
use gocharm.Cmd.Removed.{all_may, visible, clean_destination-visible}
use gocharm.Cmd.Setenv.{setenv, entry_of, key_prefix, replace_first, entry_of-setenv}
use gocharm.Base.{if◌then◌else◌}
use gocharm.Base.Texts.{has_prefix}

abbrev World : Type 0
World = List String

-- A destination with a hidden name and a file of the command, where what is removed is noted.
abbrev tree : Tree World
tree = record {
  read_dir = λ d. pure (some (".git" ∷ "bin" ∷ []));
  begins_with = λ p s w. false;
  remove_all = λ p w. (ok tt, p ∷ w);
  stat = λ p. pure false;
  copy = λ a b. pure tt;
  temp_dir = pure "/tmp";
}

clean_destination-visible_example :
    (all_may tree "d" [] (".git" ∷ "bin" ∷ []) ≡ true
      → clean_destination tree "d" []
        ≡ for_each
            (λ p. wrap masked (tree.remove_all p))
            (visible tree "d" (".git" ∷ "bin" ∷ []))
            [])
    × (all_may tree "d" [] (".git" ∷ "bin" ∷ []) ≡ false
        → (e : Error) × (clean_destination tree "d" [] ≡ (err e, [])))
clean_destination-visible_example =
    clean_destination-visible tree "d" (".git" ∷ "bin" ∷ []) [] [] refl

entry_of-setenv_example : entry_of "GOOS=" ("A=1" ∷ "GOOS=linux" ∷ []) ≡ (
    if has_prefix "GOOS=" "GOOS=linux"
    then some "GOOS=linux"
    else entry_of "GOOS=" ("A=1" ∷ "GOOS=x" ∷ []))
unfolding setenv key_prefix replace_first has_prefix
entry_of-setenv_example =
    entry_of-setenv ("A=1" ∷ "GOOS=x" ∷ []) ("A=1" ∷ "GOOS=linux" ∷ []) "GOOS=linux" "GOOS=" refl
      refl

get_local_path_to_go_module-append_example :
    get_local_path_to_go_module "a.b/c" ("a.b/c" ++ "/d") ("/home/c" ++ "/d") ≡ ok "/home/c"
get_local_path_to_go_module-append_example =
    get_local_path_to_go_module-append "a.b/c" "/d" "/home/c"

abbrev web : CharmRelation
web = record {
  name = "web";
  role = "provider";
  interface = "http";
  optional = false;
  limit = 0;
  scope = "global";
}

abbrev view : View World
view = record new_registry {
  shared = record (new_registry {W = World}).shared { relations = ("web", web) ∷ [] };
}

abbrev info : CharmInfo
info = record {
  hooks = [];
  config = [];
  meta = record {
    name = "";
    summary = "";
    description = "";
    provides = ("web", web) ∷ [];
    requires = [];
    resources = [];
  };
}

inspect-IsFiled_example : IsFiled juju "web" web info.meta
unfolding inspect file_relations file_relation charm_info registered_hooks registered_config
    registered_relations registered_resources insert
inspect-IsFiled_example = inspect-IsFiled juju view info "web" web (tt, tt) refl (inl refl)

-- ===== src/Hook/Tests/Environment.antt =====
-- Examples of a program's start from its arguments and its environment.
use gocharm.Base.{String, ◌≡◌, refl, List, [], ◌∷◌, true, false, none, some}
use Prim.Native.String.{◌++◌}
use gocharm.Base.{ok, pure, ◌≢◌}
use gocharm.Base.Texts.{has_suffix}
use gocharm.Hook.Context.{Context}
use gocharm.Hook.Juju.{relation_broken}
use gocharm.Base.Dict.{lookup}
use gocharm.Hook.Registry.{SharedRegistry}
use gocharm.Base.Int.{pos}
use gocharm.Base.Paths.{join_path}
use gocharm.Base.Texts.{has_prefix}
use gocharm.Hook.Context.{command_name, with_registry_name}
use gocharm.Hook.Environment.{
  check_vars, required_vars, fetch_relations, state_dir, new_context_from_environment, hook_context,
}
use gocharm.Hook.Environment.Required.{new_context-plain}
use gocharm.Hook.Main.Commands.{command_reached, run_program}
use gocharm.Hook.Query.{Json}
use gocharm.Hook.State.{Files, new_disk_state}
use gocharm.Hook.Tests.{World, juju, echo}
use gocharm.Hook.Tests.Main.{shared, counting, tools, ctxt, disk, empty}

abbrev getenv : String → String
getenv v = "x"

abbrev joined : Context
joined = hook_context getenv "dir" "db-relation-joined"

abbrev files : Files World
files = record { mkdir_all = λ d. pure tt; write_file = λ p c. pure tt; read_file = λ p. pure none }

abbrev json : Json
json = record {
  settings = λ s. ok [];
  ids = λ s. ok [];
  text = λ s. ok s;
  int = λ s. ok (pos 8080);
  bool = λ s. ok true;
}

abbrev start_args : List String
start_args = "a" ∷ []

command_reached_example :
    run_program juju getenv tools files json
      (shared [])
      disk
      "dir"
      (command_name (with_registry_name ctxt "root"))
      start_args
      empty
    ≡ echo start_args empty
unfolding lookup
command_reached_example =
    command_reached juju getenv tools files json (shared []) disk ctxt "dir" "root" start_args echo
      empty refl refl

new_context-plain_example :
    (◌≡◌ {A = List String} [] [])
    × (getenv "JUJU_MODEL_UUID" ≢ "")
    × (getenv "JUJU_UNIT_NAME" ≢ "")
    × (getenv "CHARM_DIR" ≢ "")
    × (getenv "JUJU_CONTEXT_ID" ≢ "")
    × (getenv "JUJU_RELATION" ≢ "" → getenv "JUJU_RELATION_ID" ≢ "")
    × (getenv "JUJU_RELATION" ≢ ""
        → has_suffix ("-" ++ juju.kind_text relation_broken) "db-relation-joined" ≡ false
        → getenv "JUJU_REMOTE_UNIT" ≢ "")
    × (record joined { relations = []; relation_ids = [] } ≡ record {
      registry_name = "";
      uuid = "x";
      unit = "x";
      charm_dir = "x";
      hook_state_dir = "dir";
      hook_name = "db-relation-joined";
      relations = [];
      relation_ids = [];
      relation_name = "x";
      relation_id = "x";
      remote_unit = "x";
      has_runner = true;
      run_command_name = "";
      run_command_args = [];
    })
unfolding required_vars new_context_from_environment check_vars fetch_relations state_dir has_prefix
    has_suffix
new_context-plain_example =
    new_context-plain juju getenv tools files json [] "dir" "db-relation-joined" [] empty empty
      joined (some (new_disk_state files (join_path ("dir" ∷ "x-unit-x" ∷ "" ∷ [])))) refl refl

-- The same hooks in the other order.
abbrev turned : SharedRegistry World
turned = record (shared []) { hooks = ("*", counting ∷ []) ∷ ("install", []) ∷ [] }

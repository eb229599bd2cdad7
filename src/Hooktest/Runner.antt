-- ===== src/Hooktest/Runner.antt =====
-- hook/hooktest/hooktest.go: Runner, which runs the hooks and the commands of a charm for its tests,
-- and stands for the hook tools.
pub mod Recorded
pub mod Relations
pub mod Agree
use gocharm.Base.{String, List, [], ◌∷◌, ◌++◌ as append, Bool, true, false, Option, none, some}
use gocharm.Base.{if◌then◌else◌, str_eq, not, ◌||◌, Act, Result, newf, ok, err, panic}
use gocharm.Base.{◌>>=◌, ◌>>◌, pure, raise, throw, outside}
use gocharm.Base.Dict.{Dict, lookup}
use gocharm.Base.Texts.{is_empty, has_prefix, trim_prefix}
use gocharm.Hook.Context.{Tools, Context}
use gocharm.Hook.Environment.{empty_context}
use gocharm.Hook.Juju.{Juju}
use gocharm.Hook.Main.{main, register_main_hooks}
use gocharm.Hook.Registry.{View, SharedRegistry, Command, Unit₀, new_registry}
use gocharm.Hook.State.{PersistentState}
use gocharm.Hooktest.MemState.{mem_state}

-- The fields that a test fills in. `V` is what values of the configuration are; the logger acts on
-- the rest of the world, `W`.
pub record Setup (V W : Type 0) : Type 0 where
  pub relations : Dict (Dict (Dict String))
  pub relation_ids : Dict (List String)
  pub config : Dict V
  pub public_address : String
  pub private_address : String
  pub hook_state_dir : String
  pub run_func : Option (String → List String → Act W String)
  pub logf : String → List String → W → W

-- encoding/json's Marshal of the configuration, and of one of its values, which may be missing.
pub record Marshal (V : Type 0) : Type 0 where
  pub all : Dict V → Result String
  pub one : Option V → Result String

-- The fields that change; `recorded` is Record.
pub record Runner : Type 0 where
  pub recorded : List (List String)
  pub closed : Bool

abbrev pub uuid : String
uuid = "373b309b-4a86-4f13-88e2-c213d97075b8"

-- What the hooks act on: the state in memory, which is used where the test gives no state, beside
-- the runner and the rest.
abbrev pub World : Type 0 → Type 0
World W = Dict String × (Runner × W)

-- The first relation, in the order of the loop over the map, that lists the id.
abbrev pub lists : String → List String → Bool
lists id [] = false
lists id (i ∷ ids) = str_eq i id || lists id ids

abbrev pub relation_name : String → Dict (List String) → String
relation_name id [] = ""
relation_name id ((name, ids) ∷ m) = if lists id ids then name else relation_name id m

module _ {V W : Type 0} (marshal : Marshal V) (setup : Setup V W) where
  abbrev pub log_call : List String → Act (Runner × W) String
  log_call (arg ∷ []) (r, w) = (ok "", (r, setup.logf "%s" (arg ∷ []) w))
  log_call _ s = throw (newf "expected exactly one argument to juju-log" []) s

  abbrev pub marshalled : Result String → Act (Runner × W) String
  marshalled (ok text) s = (ok text, s)
  marshalled (err e) s = (panic e, s)
  marshalled (panic e) s = (panic e, s)

  -- config-get --format json, with -- and a key or without them
  abbrev pub config_get : List String → Act (Runner × W) String
  config_get (_ ∷ _ ∷ _ ∷ key ∷ _) s = marshalled (marshal.one (lookup key setup.config)) s
  config_get _ s = marshalled (marshal.all setup.config) s

  abbrev pub unit_get : List String → Act (Runner × W) String
  unit_get (arg ∷ []) s =
      if str_eq arg "public-address"
      then (ok setup.public_address, s)
      else if str_eq arg "private-address"
      then (ok setup.private_address, s)
      else (panic (newf "unexpected argument to unit-get" []), s)
  unit_get _ s = throw (newf "expected exactly one argument to unit-get" []) s

  abbrev pub run_with :
      Option (String → List String → Act W String) → String → List String → Act (Runner × W) String
  run_with none cmd args s = (ok "", s)
  run_with (some f) cmd args s = outside (f cmd args) s

  abbrev pub record_call : String → List String → Act (Runner × W) String
  record_call cmd args (r, w) =
      run_with setup.run_func cmd args
        (record r { recorded = append r.recorded ((cmd ∷ args) ∷ []) }, w)

  unfoldable pub run : String → List String → Act (Runner × W) String
  run cmd args s =
      if str_eq cmd "juju-log"
      then log_call args s
      else if str_eq cmd "config-get"
      then config_get args s
      else if str_eq cmd "unit-get"
      then unit_get args s
      else record_call cmd args s

  unfoldable pub close : Act (Runner × W) Unit₀
  close (r, w) =
      if r.closed
      then (panic (newf "runner closed twice" []), (r, w))
      else (ok tt, (record r { closed = true }, w))

  -- The context of a hook that is no relation hook, and of one that is.
  abbrev pub plain_context : String → Context
  plain_context hook_name = record {
    registry_name = "";
    uuid = uuid;
    unit = "someunit/0";
    charm_dir = "/dev/null";
    hook_state_dir = setup.hook_state_dir;
    hook_name = hook_name;
    relations = setup.relations;
    relation_ids = setup.relation_ids;
    relation_name = "";
    relation_id = "";
    remote_unit = "";
    has_runner = true;
    run_command_name = "";
    run_command_args = [];
  }

  unfoldable pub hook_context : String → String → String → Result Context
  hook_context hook_name rel_id rel_unit =
      let name = relation_name rel_id setup.relation_ids in
      if is_empty rel_id
      then ok (plain_context hook_name)
      else if is_empty name
      then panic (newf "relation id not found" [])
      else ok (record (plain_context hook_name) {
        relation_id = rel_id;
        remote_unit = rel_unit;
        relation_name = name;
      })

  unfoldable pub tools : Tools (World W)
  unfolding run close
  tools = record { run = λ cmd args. outside (run cmd args); close = outside close }

  module _ (juju : Juju) (register_hooks : Act (View (World W)) Unit₀) where
    -- The registry with the charm's hooks and those of every charm.
    abbrev pub registered : Result Unit₀ × View (World W)
    registered = (register_hooks >> register_main_hooks juju) new_registry

    abbrev pub with_registry :
        {A : Type 0}
        → (SharedRegistry (World W) → Act (World W) A)
        → Result Unit₀ × View (World W)
        → Act (World W) A
    with_registry f (ok _, v) s = f v.shared s
    with_registry f (err e, v) s = (err e, s)
    with_registry f (panic e, v) s = (panic e, s)

    abbrev in_context :
        {A : Type 0} → (Context → Act (World W) A) → Result Context → Act (World W) A
    in_context f (ok ctxt) s = f ctxt s
    in_context f (err e) s = (err e, s)
    in_context f (panic e) s = (panic e, s)

    abbrev no_command : Option (Command (World W)) → Act (World W) Unit₀
    no_command none s = (ok tt, s)
    no_command (some c) s = (panic (newf "non-command hook returned Command" []), s)

    abbrev state_of : Option (PersistentState (World W)) → PersistentState (World W)
    state_of none = mem_state
    state_of (some state) = state

    unfoldable pub run_hook :
        Option (PersistentState (World W)) → String → String → String → Act (World W) Unit₀
    run_hook state hook_name rel_id rel_unit s =
        if is_empty setup.hook_state_dir
        then (panic (newf "empty hook state dir" []), s)
        else with_registry
            (λ r.
              in_context (λ ctxt. main tools r ctxt (state_of state) >>= no_command)
                (hook_context hook_name rel_id rel_unit))
            registered s

    -- A command has no persistent state; a call of one would go to a nil value.
    abbrev nil_state : PersistentState (World W)
    nil_state = record {
      save = λ name content. throw (newf "nil pointer dereference" []);
      load = λ name. throw (newf "nil pointer dereference" []);
    }

    abbrev pub command_context : String → List String → Context
    command_context name args = record empty_context {
      run_command_name = name;
      run_command_args = args;
    }

    unfoldable pub run_command : String → List String → Act (World W) (Option (Command (World W)))
    run_command cmd_name args s =
        if has_prefix "cmd-" cmd_name
        then with_registry
            (λ r. main tools r (command_context (trim_prefix "cmd-" cmd_name) args) nil_state)
            registered s
        else (panic (newf "command name %q does not have \"cmd-\" prefix" (cmd_name ∷ [])), s)

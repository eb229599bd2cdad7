-- ===== src/Hook/Environment.antt =====
-- hook/main.go, NewContextFromEnvironment: the context of a hook from the environment's variables
-- and the hook tools.
pub mod Required
use Prim.Native.String.{◌++◌}
use gocharm.Base.{true, false, String, Option, none, some, List, [], ◌∷◌, ◌++◌ as append}
use gocharm.Base.{Act, newf, noted, ◌>>=◌, ◌>>◌, pure, raise}
use gocharm.Base.{if◌then◌else◌, wrap, throw}
use gocharm.Base.Dict.{Dict, insert, keys}
use gocharm.Base.Paths.{join_path}
use gocharm.Base.Texts.{is_empty, join, has_prefix, has_suffix, trim_prefix}
use gocharm.Hook.Context.{Context, Tools}
use gocharm.Hook.Juju.{Juju, relation_broken, CharmRelation}
use gocharm.Hook.Query.{Json, get_all_relation_unit, relation_ids, relation_units}
use gocharm.Hook.State.{PersistentState, Files, new_disk_state}

abbrev pub env_uuid : String
env_uuid = "JUJU_MODEL_UUID"

abbrev pub env_unit_name : String
env_unit_name = "JUJU_UNIT_NAME"

abbrev pub env_charm_dir : String
env_charm_dir = "CHARM_DIR"

abbrev pub env_juju_context_id : String
env_juju_context_id = "JUJU_CONTEXT_ID"

abbrev pub env_relation_name : String
env_relation_name = "JUJU_RELATION"

abbrev pub env_relation_id : String
env_relation_id = "JUJU_RELATION_ID"

abbrev pub env_remote_unit : String
env_remote_unit = "JUJU_REMOTE_UNIT"

abbrev pub must_env_vars : List String
must_env_vars = env_uuid ∷ env_unit_name ∷ env_charm_dir ∷ env_juju_context_id ∷ []

abbrev pub relation_env_vars : List String
relation_env_vars = env_relation_name ∷ env_relation_id ∷ []

module _ {W : Type 0} (tools : Tools W) (json : Json) where
  -- The settings of the units of one relation id.
  pub fetch_units : Context → String → List String → Dict (Dict String) → Act W (Dict (Dict String))
  fetch_units ctxt id [] units = pure units
  fetch_units ctxt id (unit ∷ rest) units = do
    settings ←
        wrap (λ e. noted e "cannot get settings for relation %s, unit %s" (id ∷ unit ∷ []))
          (get_all_relation_unit tools json ctxt id unit)
    fetch_units ctxt id rest (insert unit settings units)

  unfoldable pub fetch_ids : Context → List String → Act W Context
  unfolding fetch_units
  fetch_ids ctxt [] = pure ctxt
  fetch_ids ctxt (id ∷ rest) = do
    unit_ids ←
        wrap (λ e. noted e "cannot get unit ids for relation id %q" (id ∷ []))
          (relation_units tools json ctxt id)
    units ← fetch_units ctxt id unit_ids []
    fetch_ids (record ctxt { relations = insert id units ctxt.relations }) rest

  unfoldable pub fetch_relations : Context → List String → Act W Context
  unfolding fetch_ids
  fetch_relations ctxt [] = pure ctxt
  fetch_relations ctxt (name ∷ names) = do
    ids ←
        wrap (λ e. noted e "cannot get relation ids for relation %q" (name ∷ []))
          (relation_ids tools json ctxt name)
    ctxt' ← fetch_ids (record ctxt { relation_ids = insert name ids ctxt.relation_ids }) ids
    fetch_relations ctxt' names

module _ (juju : Juju) (getenv : String → String) where
  -- The variables that must be set for a hook.
  unfoldable pub required_vars : String → List String
  required_vars hook_name =
      if is_empty (getenv env_relation_name)
      then must_env_vars
      else if has_suffix ("-" ++ juju.kind_text relation_broken) hook_name
      then append must_env_vars relation_env_vars
      else append must_env_vars (append relation_env_vars (env_remote_unit ∷ []))

module _ (getenv : String → String) where
  unfoldable pub check_vars : {W : Type 0} → List String → Act W (Unit {0})
  check_vars [] = pure tt
  check_vars (v ∷ vs) =
      if is_empty (getenv v)
      then raise (newf "required environment variable %q not set" (v ∷ []))
      else check_vars vs

abbrev pub empty_context : Context
empty_context = record {
  registry_name = "";
  uuid = "";
  unit = "";
  charm_dir = "";
  hook_state_dir = "";
  hook_name = "";
  relations = [];
  relation_ids = [];
  relation_name = "";
  relation_id = "";
  remote_unit = "";
  has_runner = false;
  run_command_name = "";
  run_command_args = [];
}

module _ (getenv : String → String) where
  abbrev pub hook_context : String → String → Context
  hook_context state_dir hook_name = record empty_context {
    uuid = getenv env_uuid;
    unit = getenv env_unit_name;
    charm_dir = getenv env_charm_dir;
    relation_name = getenv env_relation_name;
    relation_id = getenv env_relation_id;
    remote_unit = getenv env_remote_unit;
    hook_name = hook_name;
    has_runner = true;
    hook_state_dir = state_dir;
  }

-- ctxt.UnitTag and ctxt.StateDir
unfoldable pub state_dir : {W : Type 0} → Juju → Context → Act W String
state_dir juju ctxt =
    if is_empty ctxt.hook_state_dir then throw (newf "empty hook state directory" []) else do
      tag ← λ w. (juju.unit_tag ctxt.unit, w)
      pure (join_path (ctxt.hook_state_dir ∷ (ctxt.uuid ++ ("-" ++ tag)) ∷ ctxt.registry_name ∷ []))

module _ {W : Type 0} (juju : Juju) (getenv : String → String) (tools : Tools W) (files : Files W)
    (json : Json) where
  unfoldable pub new_context_from_environment :
      Dict CharmRelation
      → String
      → String
      → List String
      → Act W (Context × Option (PersistentState W))
  new_context_from_environment relations dir hook_name args =
      if is_empty hook_name
      then raise (newf "no hook name provided" [])
      else if has_prefix "cmd-" hook_name
      then pure (
        record empty_context {
          run_command_name = trim_prefix "cmd-" hook_name;
          run_command_args = args;
        },
        none,
      )
      else elim args [
        | a ∷ rest ↦ raise (
            newf "unexpected extra arguments running hook %q: %v"
              (hook_name ∷ ("[" ++ (join (a ∷ rest) " " ++ "]")) ∷ []))
        | [] ↦ do
          check_vars getenv (required_vars juju getenv hook_name)
          ctxt ← fetch_relations tools json (hook_context getenv dir hook_name) (keys relations)
          dir' ← state_dir juju ctxt
          pure (ctxt, some (new_disk_state files dir'))
      ]

-- ===== src/Hook/Context.antt =====
-- hook/hook.go: the context of a hook, and the hook tools that its methods run.
use Prim.Native.String.{◌++◌}
use gocharm.Base.{String, ℕ, Option, none, some, List, [], ◌∷◌, Bool, false, not, ◌||◌}
use gocharm.Base.{if◌then◌else◌, Act, Error, newf, sentinel, masked}
use gocharm.Base.{◌>>◌, pure, throw, wrap, str_eq}
use gocharm.Base.Dict.{Dict, lookup}
use gocharm.Base.Decimal.{itoa}
use gocharm.Base.Texts.{is_empty, sprintf}

-- ToolRunner: what runs a hook tool and returns its output.
pub record Tools (W : Type 0) : Type 0 where
  pub run : String → List String → Act W String
  pub close : Act W (Unit {0})

pub record Context : Type 0 where
  pub registry_name : String
  pub uuid : String
  pub unit : String
  pub charm_dir : String
  pub hook_state_dir : String
  pub hook_name : String
  -- by relation id, then by unit id, then by attribute
  pub relations : Dict (Dict (Dict String))
  pub relation_ids : Dict (List String)
  pub relation_name : String
  pub relation_id : String
  pub remote_unit : String
  -- whether the context has a runner of hook tools
  pub has_runner : Bool
  pub run_command_name : String
  pub run_command_args : List String

-- A key that a map of maps, or of slices, does not have reads as an empty one.
abbrev pub entries : {V : Type 0} → Option (List V) → List V
entries none = []
entries (some m) = m

abbrev pub err_unimplemented : Error
err_unimplemented = sentinel "unimplemented hook tool"

abbrev pub is_unimplemented_error : Error → Bool
is_unimplemented_error (sentinel s) = str_eq s "unimplemented hook tool"
is_unimplemented_error _ = false

unfoldable pub with_registry_name : Context → String → Context
with_registry_name ctxt name = record ctxt { registry_name = name }

unfoldable pub command_name : Context → String
command_name ctxt = "cmd-" ++ ctxt.registry_name

unfoldable pub is_relation_hook : Context → Bool
is_relation_hook ctxt = not (is_empty ctxt.relation_name)

unfoldable pub relation : {W : Type 0} → Context → Act W (Dict String)
relation ctxt =
    if is_empty ctxt.remote_unit || is_empty ctxt.relation_id
    then throw (newf "Relation called in non-relation hook %s" (ctxt.hook_name ∷ []))
    else pure (entries (lookup ctxt.remote_unit (entries (lookup ctxt.relation_id ctxt.relations))))

module _ {W : Type 0} (tools : Tools W) where
  -- The methods take the context last where no argument follows it in the source.
  unfoldable pub run_tool : Context → String → List String → Act W String
  run_tool ctxt cmd args =
      if ctxt.has_runner then tools.run cmd args else throw (newf "nil pointer dereference" [])

  unfoldable pub close : Context → Act W (Unit {0})
  close ctxt = if ctxt.has_runner then tools.close else pure tt

  unfoldable pub open_port : Context → String → ℕ → Act W (Unit {0})
  unfolding run_tool
  open_port ctxt proto port = do
    wrap masked (run_tool ctxt "open-port" ((itoa port ++ ("/" ++ proto)) ∷ []))
    pure tt

  unfoldable pub close_port : Context → String → ℕ → Act W (Unit {0})
  unfolding run_tool
  close_port ctxt proto port = do
    wrap masked (run_tool ctxt "close-port" ((itoa port ++ ("/" ++ proto)) ∷ []))
    pure tt

  unfoldable pub logf : Context → String → List String → Act W (Unit {0})
  unfolding run_tool
  logf ctxt f args = do wrap masked (run_tool ctxt "juju-log" (sprintf f args ∷ [])); pure tt

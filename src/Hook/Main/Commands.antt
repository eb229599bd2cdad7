-- ===== src/Hook/Main/Commands.antt =====
-- The way from the command name of a registry's context to the command.
use Prim.Native.String.{◌++◌}
use gocharm.Base.{String, ◌≡◌, refl, List, arith, Option, some, false}
use gocharm.Base.{Act, str_eq, str_eq_iff, ◌>>=◌, Bool-cases, inl, inr, ap}
use gocharm.Base.Dict.{lookup}
use gocharm.Base.Texts.{has_prefix, has_prefix-append, trim_prefix-append}
use gocharm.Hook.Context.{Tools, Context, command_name, with_registry_name}
use gocharm.Hook.Environment.{new_context_from_environment}
use gocharm.Hook.Juju.{Juju}
use gocharm.Hook.Query.{Json}
use gocharm.Hook.Registry.{SharedRegistry, Command, CommandFunc}
use gocharm.Hook.State.{PersistentState, Files}
use gocharm.Hook.Main.{main, run_command}

no_prefix : has_prefix "cmd-" "" ≡ false
unfolding has_prefix
no_prefix = refl

pub cmd_named : (name : String) → str_eq ("cmd-" ++ name) "" ≡ false
cmd_named name = elim (Bool-cases (str_eq ("cmd-" ++ name) "")) [
  | inl e ↦ cc (
    ap (has_prefix "cmd-") ((str_eq_iff ("cmd-" ++ name) "").0 e),
    has_prefix-append "cmd-" name,
    no_prefix,
  )
  | inr e ↦ e
]

module _ {W : Type 0} (juju : Juju) (getenv : String → String) (tools : Tools W) (files : Files W)
    (json : Json) where
  -- The program as the charm's own main function runs it: a context from the arguments, then Main.
  -- A command has no persistent state, and Main does not use one.
  abbrev pub run_program :
      SharedRegistry W
      → PersistentState W
      → String
      → String
      → List String
      → Act W (Option (Command W))
  run_program r state dir name args = do
    (ctxt, _) ← new_context_from_environment juju getenv tools files json r.relations dir name args
    main tools r ctxt state

  -- A program that is started with the command name of the context of the registry `name`, which
  -- is not blank, calls the command that is registered under that name, with the arguments
  -- behind it, and gives what it gives.
  pub command_reached :
      (r : SharedRegistry W) (state : PersistentState W) (ctxt : Context) (dir name : String)
      (args : List String) (f : CommandFunc W) (w : W)
      → str_eq name "" ≡ false
      → lookup name r.commands ≡ some f
      → run_program r state dir (command_name (with_registry_name ctxt name)) args w ≡ f args w
  unfolding new_context_from_environment main run_command command_name with_registry_name
  command_reached r state ctxt dir name args f w named e =
      ground (arith, has_prefix-append "cmd-" name, trim_prefix-append "cmd-" name, cmd_named name)

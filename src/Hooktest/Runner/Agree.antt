-- ===== src/Hooktest/Runner/Agree.antt =====
-- hook/hooktest/hooktest.go: a test runs a command as the program itself does.
use Prim.Native.String.{◌++◌}
use gocharm.Base.{String, ◌≡◌, List, arith, ok, str_eq, false, Act, ◌>>◌}
use gocharm.Base.Texts.{has_prefix-append, trim_prefix-append}
use gocharm.Hook.Environment.{new_context_from_environment}
use gocharm.Hook.Juju.{Juju}
use gocharm.Hook.Query.{Json}
use gocharm.Hook.Registry.{View, Unit₀, new_registry}
use gocharm.Hook.State.{PersistentState, Files}
use gocharm.Hook.Main.{main, register_main_hooks}
use gocharm.Hook.Main as Main
use gocharm.Hook.Main.Commands.{run_program, cmd_named}
use gocharm.Hooktest.Runner.{Setup, Marshal, World, tools, run_command}

module _ {V W : Type 0} (marshal : Marshal V) (setup : Setup V W) (juju : Juju)
    (getenv : String → String) (files : Files (World W)) (json : Json)
    (register_hooks : Act (View (World W)) Unit₀) where
  -- A test that runs a command, whose name behind the prefix is not blank, does what the program
  -- does that is started with the same name and arguments, once the charm's registration has
  -- succeeded.
  pub run_command-run_program :
      (v : View (World W)) (state : PersistentState (World W)) (dir name : String)
      (args : List String) (s : World W)
      → (register_hooks >> register_main_hooks juju) new_registry ≡ (ok tt, v)
      → str_eq name "" ≡ false
      → run_command marshal setup juju register_hooks ("cmd-" ++ name) args s
        ≡ run_program juju getenv
            (tools marshal setup)
            files
            json
            v.shared
            state
            dir
            ("cmd-" ++ name)
            args
            s
  unfolding run_command new_context_from_environment main Main.run_command
  run_command-run_program v state dir name args s h named =
      ground (arith, has_prefix-append "cmd-" name, trim_prefix-append "cmd-" name, cmd_named name)

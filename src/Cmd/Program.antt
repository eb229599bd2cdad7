-- ===== src/Cmd/Program.antt =====
-- cmd/gocharm/gocharm.go: the main function that hookMainCode gives a charm.
use gocharm.Base.{String, List, [], ◌∷◌, Option, none, some, Act, Result, newf, ok, err, panic}
use gocharm.Base.{◌>>◌, throw, ignore}
use gocharm.Base.Message.{message}
use gocharm.Hook.Context.{Tools, Context, close}
use gocharm.Hook.Environment.{new_context_from_environment}
use gocharm.Hook.Juju.{Juju}
use gocharm.Hook.Main.{main, register_main_hooks}
use gocharm.Hook.Query.{Json}
use gocharm.Hook.Registry.{View, SharedRegistry, Command, Unit₀, new_registry}
use gocharm.Hook.State.{PersistentState, Files}

-- The end of the process with a message, which runs no deferred call.
abbrev pub fatalf : {W A : Type 0} → String → List String → Act W A
fatalf f args = throw (newf f args)

module _ {W : Type 0} (juju : Juju) (getenv : String → String) (tools : Tools W) (files : Files W)
    (json : Json) where
  -- The deferred close of the context, whose error is not looked at.
  abbrev pub closing : Context → Result Unit₀ → Act W Unit₀
  closing ctxt r w =
      let (closed, w') = ignore (close tools ctxt) w in
      elim closed [ panic e ↦ (panic e, w') | _ ↦ (r, w') ]

  abbrev pub waited : Context → Result Unit₀ → Act W Unit₀
  waited ctxt (ok _) w = closing ctxt (ok tt) w
  waited ctxt (err e) w = fatalf "%v" (message e ∷ []) w
  waited ctxt (panic e) w = closing ctxt (panic e) w

  abbrev pub finished : Context → Result (Option (Command W)) → Act W Unit₀
  finished ctxt (ok none) w = closing ctxt (ok tt) w
  finished ctxt (ok (some cmd)) w = let (r, w') = cmd.wait w in waited ctxt r w'
  finished ctxt (err e) w = fatalf "%v" (message e ∷ []) w
  finished ctxt (panic e) w = closing ctxt (panic e) w

  -- A command is given no state; main does not use one.
  abbrev state_or : PersistentState W → Option (PersistentState W) → PersistentState W
  state_or other none = other
  state_or other (some state) = state

  abbrev nil_state : PersistentState W
  nil_state = record {
    save = λ name content. throw (newf "nil pointer dereference" []);
    load = λ name. throw (newf "nil pointer dereference" []);
  }

  abbrev pub in_context :
      SharedRegistry W → Result (Context × Option (PersistentState W)) → Act W Unit₀
  in_context r (ok (ctxt, state)) w =
      let (result, w') = main tools r ctxt (state_or nil_state state) w in finished ctxt result w'
  in_context r (err e) w = fatalf "cannot create context: %v" (message e ∷ []) w
  in_context r (panic e) w = (panic e, w)

  abbrev pub with_args : SharedRegistry W → List String → Act W Unit₀
  with_args r [] w = fatalf "hook name argument required" [] w
  with_args r (name ∷ args) w =
      let (created, w') =
        new_context_from_environment juju getenv tools files json r.relations
          "/var/lib/juju-localstate" name args w in
      in_context r created w'

  abbrev pub with_registry : Result Unit₀ × View W → List String → Act W Unit₀
  with_registry (ok _, v) args w = with_args v.shared args w
  with_registry (err e, v) args w = (err e, w)
  with_registry (panic e, v) args w = (panic e, w)

  -- The arguments are those behind the program's name.
  unfoldable pub hook_main : Act (View W) Unit₀ → List String → Act W Unit₀
  hook_main register_hooks args =
      with_registry ((register_hooks >> register_main_hooks juju) new_registry) args

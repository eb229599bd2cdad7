-- ===== src/Hook/Main.antt =====
-- hook/main.go: the dispatch of a hook or a command, and the persistent state around it.
pub mod Saved
pub mod Restored
pub mod Usage
pub mod Order
pub mod Outcomes
pub mod Commands
use Prim.Native.String.{◌++◌}
use gocharm.Base.{
  String, Option, none, some, List, [], ◌∷◌, ◌++◌ as append, map, Act, Result, Error,
}
use gocharm.Base.{
  newf, masked, noted, ok, err, panic, ◌>>=◌, ◌>>◌, pure, raise, wrap, ignore, for_each,
}
use gocharm.Base.{if◌then◌else◌, not}
use gocharm.Base.Dict.{lookup, keys}
use gocharm.Base.Message.{message}
use gocharm.Base.Sort.{sort}
use gocharm.Base.Texts.{is_empty, join}
use gocharm.Hook.Context.{Tools, Context, entries, logf}
use gocharm.Hook.Juju.{Juju}
use gocharm.Hook.Registry.{
  View, SharedRegistry, HookFunc, LocalState, ContextSetter, Command, Unit₀, register_hook,
}
use gocharm.Hook.State.{PersistentState}

abbrev pub command_usage : String → String
command_usage name = "cmd-" ++ (name ++ " [arg...]")

module _ {W : Type 0} where
  unfoldable pub load_one : PersistentState W → LocalState W → Act W Unit₀
  load_one state val = do
    found ←
        wrap (λ e. noted e "cannot load state for %s" (val.registry_name ∷ []))
          (state.load val.registry_name)
    elim found [
      | none ↦ pure tt
      | some content ↦
          wrap (λ e. noted e "cannot unmarshal state for %s" (val.registry_name ∷ []))
            (val.val.unmarshal content)
    ]

  unfoldable pub load_state : SharedRegistry W → PersistentState W → Act W Unit₀
  unfolding load_one
  load_state r state = for_each (load_one state) r.state

  unfoldable pub save_one : PersistentState W → LocalState W → Act W Unit₀
  save_one state val = do
    content ←
        wrap (λ e. noted e "cannot marshal state for %s" (val.registry_name ∷ []))
          (λ w. (val.val.marshal w, w))
    wrap (λ e. noted e "cannot save state for %s" (val.registry_name ∷ []))
        (state.save val.registry_name content)

  unfoldable pub save_state : SharedRegistry W → PersistentState W → Act W Unit₀
  unfolding save_one
  save_state r state = for_each (save_one state) r.state

  unfoldable pub usage_error : SharedRegistry W → Error
  usage_error r = newf "usage: runhook %s" (
      join (append (sort (map command_usage (keys r.commands))) (sort (keys r.hooks)))
        "\n\t| runhook "
      ∷ [])

  unfoldable pub run_command : SharedRegistry W → Context → Act W (Option (Command W))
  run_command r ctxt = elim (lookup ctxt.run_command_name r.commands) [
    | none ↦ raise (usage_error r)
    | some cmd ↦ cmd ctxt.run_command_args
  ]

  abbrev pub run_hook : HookFunc W → Act W Unit₀
  run_hook f = wrap masked f.run

module _ {W : Type 0} (tools : Tools W) where
  -- The functions of the hook, then those of the wildcard.
  abbrev run_funcs : SharedRegistry W → Context → List (HookFunc W) → Act W (Option (Command W))
  run_funcs r ctxt [] = do
    ignore (logf tools ctxt "hook %q not registered" (ctxt.hook_name ∷ []))
    raise (usage_error r)
  run_funcs r ctxt (f ∷ fs) = do
    for_each run_hook (append (f ∷ fs) (entries (lookup "*" r.hooks)))
    pure none

  unfoldable pub run_hooks : SharedRegistry W → Context → Act W (Option (Command W))
  run_hooks r ctxt = run_funcs r ctxt (entries (lookup ctxt.hook_name r.hooks))

  -- The deferred call that saves the state once the hooks have run, whatever came of them. While a
  -- panic goes on no error has been returned yet.
  unfoldable pub after_hooks :
      SharedRegistry W
      → Context
      → PersistentState W
      → Result (Option (Command W))
      → Act W (Option (Command W))
  unfolding logf
  after_hooks r ctxt state result w =
      let (saved, w') = save_state r state w in
      elim saved [
        | ok _ ↦ (result, w')
        | panic e ↦ (panic e, w')
        | err e ↦ elim result [
          | ok _ ↦ (err (noted e "cannot save local state" []), w')
          | panic p ↦ (panic p, w')
          | err first ↦
              (ignore (logf tools ctxt "cannot save local state: %v" (message e ∷ []))
                  >> raise first)
                w'
        ]
      ]

  unfoldable pub set_context : Context → ContextSetter W → Act W Unit₀
  set_context ctxt setter = wrap (λ e. noted e "cannot set context" []) (setter ctxt)

  -- From the load of the state to its save.
  unfoldable pub run_loaded :
      SharedRegistry W → Context → PersistentState W → Act W (Option (Command W))
  unfolding set_context
  run_loaded r ctxt state = do
    wrap masked (load_state r state)
    for_each (set_context ctxt) r.contexts
    λ w. let (result, w') = run_hooks r ctxt w in after_hooks r ctxt state result w'

  -- The deferred message at the end of a hook.
  abbrev after_all : {A : Type 0} → Context → Act W A → Act W A
  after_all ctxt m w =
      let (result, w') = m w in
      let (logged, w'') = ignore (logf tools ctxt "} %s" (ctxt.hook_name ∷ [])) w' in
      elim logged [ panic e ↦ (panic e, w'') | _ ↦ (result, w'') ]

  unfoldable pub main : SharedRegistry W → Context → PersistentState W → Act W (Option (Command W))
  main r ctxt state = if not (is_empty ctxt.run_command_name) then run_command r ctxt else do
    ignore (logf tools ctxt "running hook %s {" (ctxt.hook_name ∷ []))
    after_all ctxt (run_loaded r ctxt state)

module _ {W : Type 0} where
  abbrev nop : Act W Unit₀
  nop = pure tt

  unfoldable pub register_main_hooks : Juju → Act (View W) Unit₀
  register_main_hooks juju = do register_hook juju "install" nop; register_hook juju "start" nop

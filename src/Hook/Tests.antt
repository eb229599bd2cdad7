-- ===== src/Hook/Tests.antt =====
-- Examples of what is called on a registry, on a small charm.
mod Main
mod Environment
use Prim.Native.String.{◌++◌}
use mathlib.Core.List.{Perm}
use gocharm.Base.{
  String, ℕ, suc, ◌≡◌, refl, subst, inl, inr, List, [], ◌∷◌, Bool, true, false, Option, none, some,
  In, All, Distinct, map,
}
use gocharm.Base.{
  Act, Result, ok, err, panic, Error, newf, masked, not, str_eq, for_each, pure, ◌>>◌, wrap, noted,
}
use gocharm.Base.Decimal.{itoa}
use gocharm.Base.Dict.{Dict, lookup, insert}
use gocharm.Base.Texts.{is_empty, contains_rune}
use gocharm.Hook.Context.{Tools, Context, entries}
use gocharm.Hook.Environment.{empty_context}
use gocharm.Hook.Juju
use gocharm.Hook.Juju.{Juju, HookKind, CharmRelation}
use gocharm.Hook.Registry.{
  View, Registry, SharedRegistry, HookFunc, LocalState, Pointer, CommandFunc, Command, Unit₀,
  new_registry, pointer, clone, register_command,
}
use gocharm.Hook.Registry.Calls.{
  Call, perform, at, Reach, start, call, to_clone, to_context, to_command, to_relation,
}
use gocharm.Hook.Registry.Declare.{register_relation, with_defaults}
use gocharm.Hook.Registry.Details.{Extends, perform-Extends, register_relation_twice}
use gocharm.Hook.Registry.Names.{IsNamed, Reach-IsNamed}
use gocharm.Hook.Registry.Owners.{IsOwned, Reach-IsOwned, lookup-perform_command}
use gocharm.Hook.State.{PersistentState}
use gocharm.Hook.Main.{
  load_state, load_one, save_state, save_one, run_hook, run_hooks, run_loaded, after_hooks,
  set_context,
}
use gocharm.Hook.Main.Saved.{save_state-stores}
use gocharm.Hooktest.MemState.{mem_state, mem_state-IsStore, contents}

abbrev kind_text : HookKind → String
kind_text Juju.install = "install"
kind_text Juju.start = "start"
kind_text _ = "stop"

abbrev juju : Juju
juju = record {
  kind_text = kind_text;
  relation_snippet = λ s. not (is_empty s);
  role_peer = "peer";
  role_requirer = "requirer";
  role_provider = "provider";
  scope_global = "global";
  type_file = "file";
  validate = λ m. none;
  unit_tag = λ u. ok ("unit-" ++ u);
}

-- The contents of the persistent state, and a counter that the charm keeps.
abbrev World : Type 0
World = Dict String × ℕ

abbrev counter : Pointer World
counter = record { marshal = λ w. ok (itoa w.1); unmarshal = λ s w. (ok tt, (w.0, 5)) }

abbrev set_nothing : Context → Act World Unit₀
set_nothing ctxt = pure tt

abbrev echo : CommandFunc World
echo args = pure none

abbrev db : CharmRelation
db = record {
  name = "db";
  role = "requirer";
  interface = "mongodb";
  optional = false;
  limit = 0;
  scope = "";
}

-- A clone, whose registry registers a state and a command.
abbrev clone_call : Call World
clone_call = to_clone "web"

abbrev context_call : Call World
context_call = to_context set_nothing (pointer counter)

abbrev command_call : Call World
command_call = to_command echo

abbrev first : View World
first = (perform juju clone_call new_registry).1

abbrev made : List Registry
made = (perform juju clone_call new_registry).0

abbrev web : Registry
web = record { name = "root.web"; has_context = false; has_command = false; clones = [] }

reach_clone : Reach juju (first.registry ∷ web ∷ []) first.shared
unfolding perform clone lookup contains_rune insert
reach_clone =
    call [] [] (new_registry {W = World}).registry (new_registry {W = World}).shared clone_call
      (start new_registry refl)

abbrev with_command : View World
with_command = (perform juju command_call (at juju web first.shared)).1

abbrev with_context : View World
with_context = (perform juju context_call with_command).1

reach_command : Reach juju (first.registry ∷ with_command.registry ∷ []) with_command.shared
unfolding perform
reach_command = call (first.registry ∷ []) [] web first.shared command_call reach_clone

reach_context : Reach juju (first.registry ∷ with_context.registry ∷ []) with_context.shared
unfolding perform
reach_context =
    call (first.registry ∷ []) [] with_command.registry with_command.shared context_call
      reach_command

Reach-IsNamed_example : IsNamed (first.registry ∷ with_context.registry ∷ [])
Reach-IsNamed_example = Reach-IsNamed juju reach_context

Reach-IsOwned_example : IsOwned (first.registry ∷ with_context.registry ∷ []) with_context.shared
Reach-IsOwned_example = Reach-IsOwned juju reach_context

lookup-perform_command_example :
    lookup "root.web"
      (perform juju context_call
        (at juju with_command.registry with_command.shared)).1.shared.commands
    ≡ some echo
unfolding perform lookup register_command insert clone contains_rune
lookup-perform_command_example =
    lookup-perform_command juju (first.registry ∷ []) [] with_command.registry with_command.shared
      context_call "root.web" echo reach_command refl

perform-Extends_example :
    Extends with_context.shared (perform juju (to_relation db) with_context).1.shared
perform-Extends_example = perform-Extends juju (to_relation db) with_context

abbrev with_db : View World
with_db = (register_relation juju db new_registry).1

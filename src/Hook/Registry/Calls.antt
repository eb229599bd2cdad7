-- ===== src/Hook/Registry/Calls.antt =====
-- The calls that a charm's RegisterHooks makes, in any order and on any of the registries it has.
use gocharm.Base.{◌≡◌, String, List, [], ◌∷◌, ◌++◌, Act, Result, ok}
use gocharm.Hook.Juju.{Juju, CharmRelation, CharmOption, ResourceMeta}
use gocharm.Hook.Registry.{
  View, Registry, SharedRegistry, Unit₀, ContextSetter, CommandFunc, StateArg, CharmInfo,
  new_registry, set_charm_info, clone, register_hook, register_context, register_command,
}
use gocharm.Hook.Registry.Declare.{register_relation, register_resource, register_config}

pub data Call (W : Type 0) : Type 0 where
  to_clone : String → Call W
  to_hook : String → Act W Unit₀ → Call W
  to_context : ContextSetter W → StateArg W → Call W
  to_command : CommandFunc W → Call W
  to_relation : CharmRelation → Call W
  to_resource : ResourceMeta → Call W
  to_config : String → CharmOption → Call W
  to_info : CharmInfo → Call W

abbrev pub created : Result Registry → List Registry
created (ok r) = r ∷ []
created _ = []

abbrev nothing : {W : Type 0} → (Result Unit₀ × View W) → List Registry × View W
nothing (_, v) = ([], v)

module _ {W : Type 0} (juju : Juju) where
  -- The registries that a call makes, and what it leaves. A panic leaves what was written before it.
  unfoldable pub perform : Call W → View W → List Registry × View W
  perform (to_clone name) v = let (r, v') = clone name v in (created r, v')
  perform (to_hook name f) v = nothing (register_hook juju name f v)
  perform (to_context f st) v = nothing (register_context f st v)
  perform (to_command f) v = nothing (register_command f v)
  perform (to_relation rel) v = nothing (register_relation juju rel v)
  perform (to_resource res) v = nothing (register_resource juju res v)
  perform (to_config name opt) v = nothing (register_config name opt v)
  perform (to_info info) v = nothing (set_charm_info info v)

  abbrev pub at : Registry → SharedRegistry W → View W
  at r s = record { registry = r; shared = s }

  -- The registries that there are, and what they share, after some calls on a new registry.
  pub data Reach : List Registry → SharedRegistry W → Type 0 where
    start : (v : View W) → v ≡ new_registry → Reach (v.registry ∷ []) v.shared
    call :
        (before after : List Registry) (r : Registry) (s : SharedRegistry W) (c : Call W)
        → Reach (before ++ r ∷ after) s
        → Reach
            (before ++ (perform c (at r s)).1.registry ∷ (after ++ (perform c (at r s)).0))
            (perform c (at r s)).1.shared

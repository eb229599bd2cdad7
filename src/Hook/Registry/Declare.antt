-- ===== src/Hook/Registry/Declare.antt =====
-- hook/registry.go: the relations, resources and configuration options that go into the charm's
-- metadata, and the registered names that the build asks for.
use gocharm.Base.{String, none, some, List, [], ◌∷◌, ◌&&◌, ◌||◌}
use gocharm.Base.{if◌then◌else◌, Act, newf, noted, ok, panic, str_eq, ◌==◌}
use gocharm.Base.Dict.{Dict, lookup, insert}
use gocharm.Base.Texts.{is_empty}
use gocharm.Hook.Juju.{
  Juju, CharmRelation, CharmOption, ResourceMeta, relation_eq, option_eq, meta_eq,
}
use gocharm.Hook.Registry.{View, Unit₀, HookFunc}

module _ (juju : Juju) where
  -- The limit and the scope that a relation gets where it has none.
  unfoldable pub with_defaults : CharmRelation → CharmRelation
  with_defaults rel = record rel {
    limit =
        if rel.limit == 0 && (str_eq rel.role juju.role_peer || str_eq rel.role juju.role_requirer)
        then 1
        else rel.limit;
    scope = if is_empty rel.scope then juju.scope_global else rel.scope;
  }

  module _ {W : Type 0} where
    abbrev put_relation : CharmRelation → View W → View W
    put_relation rel v = record v {
      shared = record v.shared { relations = insert rel.name rel v.shared.relations };
    }

    abbrev pub add_relation : CharmRelation → Act (View W) Unit₀
    add_relation rel v = elim (lookup rel.name v.shared.relations) [
      | none ↦ (ok tt, put_relation rel v)
      | some old ↦ if relation_eq old rel then (ok tt, v) else (
        panic
            (newf "relation %q is already registered with different details (%#v)" (rel.name ∷ [])),
        v,
      )
    ]

    unfoldable pub register_relation : CharmRelation → Act (View W) Unit₀
    register_relation rel v =
        if is_empty rel.name
        then (panic (newf "no relation name given in %#v" []), v)
        else if is_empty rel.interface
        then (panic (newf "no interface name given in relation %#v" []), v)
        else if is_empty rel.role
        then (panic (newf "no role given in relation %#v" []), v)
        else add_relation (with_defaults rel) v

    abbrev put_resource : ResourceMeta → View W → View W
    put_resource res v = record v {
      shared = record v.shared { resources = insert res.name res v.shared.resources };
    }

    abbrev add_resource : ResourceMeta → Act (View W) Unit₀
    add_resource res v = elim (lookup res.name v.shared.resources) [
      | some old ↦ if meta_eq old res then (ok tt, v) else (
        panic
            (newf "resource %q is already registered with different details (%#v)" (res.name ∷ [])),
        v,
      )
      | none ↦ elim (juju.validate res) [
        | some e ↦ (panic (noted e "validation failed" []), v)
        | none ↦ (ok tt, put_resource res v)
      ]
    ]

    unfoldable pub register_resource : ResourceMeta → Act (View W) Unit₀
    register_resource res v =
        if is_empty res.name
        then (panic (newf "no resource name given in %#v" []), v)
        else add_resource res v

module _ {W : Type 0} where
  abbrev put_config : String → CharmOption → View W → View W
  put_config name opt v = record v {
    shared = record v.shared { config = insert name opt v.shared.config };
  }

  unfoldable pub register_config : String → CharmOption → Act (View W) Unit₀
  register_config name opt v = elim (lookup name v.shared.config) [
    | none ↦ (ok tt, put_config name opt v)
    | some old ↦ if option_eq old opt then (ok tt, v) else (
      panic (
          newf "configuration option %q is already registered with different details (%#v)"
            (name ∷ [])),
      v,
    )
  ]

  -- The names of a map of hooks, without the wildcard.
  hook_keys : Dict (List (HookFunc W)) → List String
  hook_keys [] = []
  hook_keys ((name, _) ∷ m) =
      let rest = hook_keys m in if str_eq name "*" then rest else name ∷ rest

  unfoldable pub registered_hooks : View W → List String
  unfolding hook_keys
  registered_hooks v = hook_keys v.shared.hooks

  unfoldable pub registered_relations : View W → Dict CharmRelation
  registered_relations v = v.shared.relations

  unfoldable pub registered_resources : View W → Dict ResourceMeta
  registered_resources v = v.shared.resources

  unfoldable pub registered_config : View W → Dict CharmOption
  registered_config v = v.shared.config

-- ===== src/Hook/Registry/Details.antt =====
-- hook/registry.go: the details of the relations, resources and options under a second registration.
use gocharm.Base.{String, ◌≡◌, inl, inr, refl, arith, some, Option-cases, Bool-cases}
use gocharm.Base.{ok, str_eq_iff}
use gocharm.Base.Dict.{lookup, lookup-insert}
use gocharm.Hook.Juju.{Juju, CharmRelation, ResourceMeta, CharmOption, relation_eq, relation_eq_iff}
use gocharm.Hook.Registry.{
  View, SharedRegistry, register_hook, register_context, register_command, set_charm_info, clone,
  no_state, not_pointer, pointer,
}
use gocharm.Hook.Registry.Calls.{Call, to_context, to_relation, to_resource, to_config, perform}
use gocharm.Hook.Registry.Declare.{
  with_defaults, add_relation, register_relation, register_resource, register_config,
}

-- The relations, resources and options of `s` are those of `s'` too.
pub record Extends {W : Type 0} (s s' : SharedRegistry W) : Type 0 where
  pub relations :
      (k : String) (v : CharmRelation)
      → lookup k s.relations ≡ some v
      → lookup k s'.relations ≡ some v
  pub resources :
      (k : String) (v : ResourceMeta)
      → lookup k s.resources ≡ some v
      → lookup k s'.resources ≡ some v
  pub config :
      (k : String) (v : CharmOption) → lookup k s.config ≡ some v → lookup k s'.config ≡ some v

defaults_name : (juju : Juju) (rel : CharmRelation) → (with_defaults juju rel).name ≡ rel.name
unfolding with_defaults
defaults_name juju rel = refl

module _ {W : Type 0} (juju : Juju) where
  register_relation-Extends :
      (rel : CharmRelation) (v : View W) → Extends v.shared (register_relation juju rel v).1.shared
  unfolding register_relation
  register_relation-Extends rel v = record {
    relations = λ k old h. ground (
      arith,
      lookup-insert (with_defaults juju rel).name k (with_defaults juju rel) v.shared.relations,
      str_eq_iff (with_defaults juju rel).name k,
    );
    resources = λ k old h. ground arith;
    config = λ k old h. ground arith;
  }

  register_resource-Extends :
      (res : ResourceMeta) (v : View W) → Extends v.shared (register_resource juju res v).1.shared
  unfolding register_resource
  register_resource-Extends res v = record {
    relations = λ k old h. ground arith;
    resources = λ k old h.
        ground (arith, lookup-insert res.name k res v.shared.resources, str_eq_iff res.name k);
    config = λ k old h. ground arith;
  }

  register_config-Extends :
      (name : String) (opt : CharmOption) (v : View W)
      → Extends v.shared (register_config name opt v).1.shared
  unfolding register_config
  register_config-Extends name opt v = record {
    relations = λ k old h. ground arith;
    resources = λ k old h. ground arith;
    config = λ k old h. ground (arith, lookup-insert name k opt v.shared.config, str_eq_iff name k);
  }

  -- Whatever is called on a registry, and also where the call panics: the relations, the
  -- resources and the options that were registered before keep their details.
  pub perform-Extends : (c : Call W) (v : View W) → Extends v.shared (perform juju c v).1.shared
  unfolding perform clone register_hook register_context register_command set_charm_info
  perform-Extends (to_relation rel) v = register_relation-Extends rel v
  perform-Extends (to_resource res) v = register_resource-Extends res v
  perform-Extends (to_config name opt) v = register_config-Extends name opt v
  perform-Extends (to_context f no_state) v = record {
    relations = λ k old h. ground arith;
    resources = λ k old h. ground arith;
    config = λ k old h. ground arith;
  }
  perform-Extends (to_context f (not_pointer t)) v = record {
    relations = λ k old h. ground arith;
    resources = λ k old h. ground arith;
    config = λ k old h. ground arith;
  }
  perform-Extends (to_context f (pointer p)) v = record {
    relations = λ k old h. ground arith;
    resources = λ k old h. ground arith;
    config = λ k old h. ground arith;
  }
  perform-Extends _ v = record {
    relations = λ k old h. ground arith;
    resources = λ k old h. ground arith;
    config = λ k old h. ground arith;
  }

  -- The end of the registration, on a relation that has its defaults.
  added_twice :
      (rel : CharmRelation) (v v' : View W)
      → add_relation juju rel v ≡ (ok tt, v')
      → (add_relation juju rel v' ≡ (ok tt, v')) × (lookup rel.name v'.shared.relations ≡ some rel)
  added_twice rel v v' h = elim (Option-cases (lookup rel.name v.shared.relations)) [
    | inl e ↦ ground (
      arith,
      lookup-insert rel.name rel.name rel v.shared.relations,
      str_eq_iff rel.name rel.name,
      relation_eq_iff rel rel,
    )
    | inr (old, e) ↦ elim (Bool-cases (relation_eq old rel)) [
      | inl same ↦ ground (arith, (relation_eq_iff old rel).0 same)
      | inr other ↦ absurd (ground arith)
    ]
  ]

  -- A relation whose registration succeeds can be registered again: the second call succeeds and
  -- changes nothing, and the relation is on record under its name with the limit and the scope
  -- that it gets.
  pub register_relation_twice :
      (rel : CharmRelation) (v v' : View W)
      → register_relation juju rel v ≡ (ok tt, v')
      → (register_relation juju rel v' ≡ (ok tt, v'))
        × (lookup rel.name v'.shared.relations ≡ some (with_defaults juju rel))
  unfolding register_relation
  register_relation_twice rel v v' h =
      ground (arith, added_twice (with_defaults juju rel) v v', defaults_name juju rel)

-- ===== src/Hook/Registry/Additions.antt =====
-- Which commands and states one call adds, and what it notes of that in the registry.
use gocharm.Base.{String, ◌≡◌, ◌⊎◌, inl, inr, refl, sym, true, false}
use gocharm.Base.{[], ◌∷◌, ◌++◌}
use gocharm.Base.{arith, str_eq_iff, Bool-cases, str_eq}
use gocharm.Base.Dict.{lookup, lookup-insert}
use gocharm.Hook.Juju.{Juju}
use gocharm.Hook.Registry.{
  Registry, SharedRegistry, LocalState, no_state, not_pointer, pointer, clone, register_hook,
  register_context, register_command, set_charm_info,
}
use gocharm.Hook.Registry.Declare.{register_relation, register_resource, register_config}
use gocharm.Hook.Registry.Calls.{Call, to_clone, to_context, to_command, perform, at}

abbrev pub owner_name : {W : Type 0} → LocalState W → String
owner_name st = st.registry_name

-- What a call on `r`, which it makes `r'`, does to the commands and to the states.
pub record Adds {W : Type 0} (r r' : Registry) (s s' : SharedRegistry W) : Type 0 where
  pub commands :
      (k : String)
      → (lookup k s'.commands ≡ lookup k s.commands)
        ⊎ ((k ≡ r.name) × (r.has_command ≡ false) × (r'.has_command ≡ true))
  pub states :
      (s'.state ≡ s.state)
      ⊎ ((st : LocalState W) × (s'.state ≡ s.state ++ st ∷ [])
          × (st.registry_name ≡ r.name)
          × (r.has_context ≡ false)
          × (r'.has_context ≡ true))
  pub has_command : r.has_command ≡ true → r'.has_command ≡ true
  pub has_context : r.has_context ≡ true → r'.has_context ≡ true

module _ {W : Type 0} (juju : Juju) where
  pub perform-Adds :
      (c : Call W) (r : Registry) (s : SharedRegistry W)
      → let v = (perform juju c (at juju r s)).1 in Adds r v.registry s v.shared
  unfolding perform clone register_hook register_context register_command set_charm_info
      register_relation register_resource register_config
  perform-Adds (to_clone name) r s = record {
    commands = λ k. inl (ground arith);
    states = inl (ground arith);
    has_command = λ h. ground arith;
    has_context = λ h. ground arith;
  }
  perform-Adds (to_command f) r s = record {
    commands = λ k. elim (Bool-cases r.has_command) [
      | inl old ↦ inl (ground arith)
      | inr new ↦ elim (Bool-cases (str_eq r.name k)) [
        | inl e ↦ inr (sym ((str_eq_iff r.name k).0 e), new, ground arith)
        | inr n ↦ inl (ground (arith, lookup-insert r.name k f s.commands))
      ]
    ];
    states = inl (ground arith);
    has_command = λ h. ground arith;
    has_context = λ h. ground arith;
  }
  perform-Adds (to_context f no_state) r s = record {
    commands = λ k. inl (ground arith);
    states = inl (ground arith);
    has_command = λ h. ground arith;
    has_context = λ h. ground arith;
  }
  perform-Adds (to_context f (not_pointer t)) r s = record {
    commands = λ k. inl (ground arith);
    states = inl (ground arith);
    has_command = λ h. ground arith;
    has_context = λ h. ground arith;
  }
  perform-Adds (to_context f (pointer p)) r s = record {
    commands = λ k. inl (ground arith);
    states = elim (Bool-cases r.has_context) [
      | inl old ↦ inl (ground arith)
      | inr new ↦
          inr (record { registry_name = r.name; val = p }, ground arith, refl, new, ground arith)
    ];
    has_command = λ h. ground arith;
    has_context = λ h. ground arith;
  }
  perform-Adds _ r s = record {
    commands = λ k. inl (ground arith);
    states = inl (ground arith);
    has_command = λ h. ground arith;
    has_context = λ h. ground arith;
  }

-- ===== src/Hook/Registry/Effects.antt =====
-- What one call does to the registry that it is made on, and which registries it makes.
use gocharm.Base.{String, ◌≡◌, ◌⊎◌, inl, inr, refl, true, false, ◌||◌}
use gocharm.Base.{List, [], ◌∷◌, arith}
use gocharm.Base.{Bool-cases}
use gocharm.Base.{str_eq_refl}
use gocharm.Base.Dict.{lookup, lookup-insert}
use gocharm.Base.Texts.{contains_rune, dotted, is_empty}
use gocharm.Hook.Juju.{Juju}
use gocharm.Hook.Registry.{
  View, Registry, SharedRegistry, no_state, not_pointer, pointer, taken, clone, register_hook,
  register_context, register_command, set_charm_info,
}
use gocharm.Hook.Registry.Declare.{register_relation, register_resource, register_config}
use gocharm.Hook.Registry.Calls.{Call, to_clone, to_hook, to_context, perform, at}

-- `q` is the clone of `r` with the name `c`; `r'` is `r` afterwards.
pub record IsClone (r r' q : Registry) (c : String) : Type 0 where
  pub named : q.name ≡ dotted r.name c
  pub plain : contains_rune c b'.' ≡ false
  pub unused : taken (lookup c r.clones) ≡ false
  pub noted : taken (lookup c r'.clones) ≡ true
  pub no_context : q.has_context ≡ false
  pub no_command : q.has_command ≡ false

-- What a call makes of the registry that it is made on.
pub record Keeps (r r' : Registry) : Type 0 where
  pub name : r'.name ≡ r.name
  pub clones : (k : String) → taken (lookup k r.clones) ≡ true → taken (lookup k r'.clones) ≡ true

pub Keeps-refl : (r : Registry) → Keeps r r
Keeps-refl r = record { name = refl; clones = λ k h. h }

abbrev pub Created : Registry → Registry → List Registry → Type 0
Created r r' new = (new ≡ []) ⊎ ((q : Registry) × (c : String) × (new ≡ q ∷ []) × IsClone r r' q c)

-- The registry that Clone returns, where it returns one.
abbrev child : String → Registry → Registry
child c r = record { name = dotted r.name c; has_context = false; has_command = false; clones = [] }

module _ {W : Type 0} (juju : Juju) where
  abbrev after : Call W → Registry → SharedRegistry W → Registry
  after c r s = (perform juju c (at juju r s)).1.registry

  clone-Keeps : (name : String) (v : View W) → Keeps v.registry (clone name v).1.registry
  unfolding clone
  clone-Keeps name v = record {
    name = ground arith;
    clones = λ k h. ground (arith, lookup-insert name k true v.registry.clones);
  }

  pub perform-Keeps : (c : Call W) (r : Registry) (s : SharedRegistry W) → Keeps r (after c r s)
  unfolding perform register_hook register_context register_command set_charm_info register_relation
      register_resource register_config
  perform-Keeps (to_clone name) r s = clone-Keeps name (at juju r s)
  perform-Keeps (to_hook name f) r s = record { name = ground arith; clones = λ k h. ground arith }
  perform-Keeps (to_context f no_state) r s = record {
    name = ground arith;
    clones = λ k h. ground arith;
  }
  perform-Keeps (to_context f (not_pointer t)) r s = record {
    name = ground arith;
    clones = λ k h. ground arith;
  }
  perform-Keeps (to_context f (pointer p)) r s = record {
    name = ground arith;
    clones = λ k h. ground arith;
  }
  perform-Keeps _ r s = record { name = ground arith; clones = λ k h. ground arith }

  pub perform-Created :
      (c : Call W) (r : Registry) (s : SharedRegistry W)
      → Created r (after c r s) (perform juju c (at juju r s)).0
  unfolding perform clone register_hook register_context register_command set_charm_info
      register_relation register_resource register_config
  perform-Created (to_clone name) r s =
      elim (Bool-cases (is_empty name || contains_rune name b'.' || contains_rune name b'/')) [
        | inl bad ↦ inl (rw bad)
        | inr good ↦ elim (Bool-cases (taken (lookup name r.clones))) [
          | inl old ↦ inl (rw (good, old))
          | inr new ↦ inr (
            child name r,
            name,
            rw (good, new),
            record {
              named = refl;
              plain = ground arith;
              unused = new;
              noted = ground (arith, lookup-insert name name true r.clones, str_eq_refl name);
              no_context = refl;
              no_command = refl;
            },
          )
        ]
      ]
  perform-Created (to_hook name f) r s = inl refl
  perform-Created _ r s = inl refl

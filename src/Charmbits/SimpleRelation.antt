-- ===== src/Charmbits/SimpleRelation.antt =====
-- charmbits/simplerelation: a relation where the provider's units give attributes that the
-- requirer's units see. A component's methods act on its own state beside the rest, `W`.
pub mod Values
pub mod Joined
use Prim.Native.String.{◌++◌}
use gocharm.Base.{String, List, [], ◌∷◌, Option, none, some, Bool, true, false, if◌then◌else◌}
use gocharm.Base.{
  Act, Result, Error, ok, err, panic, masked, ◌>>=◌, ◌>>◌, pure, wrap, ignore, for_each, outside,
  own, update,
}
use gocharm.Base.Dict.{Dict, lookup, keys}
use gocharm.Base.Message.{message}
use gocharm.Base.Sort.{sort}
use gocharm.Base.Texts.{is_empty}
use gocharm.Hook.Actions.{set_relation, set_relation_with_id}
use gocharm.Hook.Context.{Tools, Context, entries, logf}
use gocharm.Hook.Juju.{Juju, CharmRelation}
use gocharm.Hook.Registry.{View, Unit₀, Pointer, pointer, no_state, register_hook, register_context}
use gocharm.Hook.Registry.Declare.{register_relation}

-- `values` is the persistent part of a provider.
pub record Provider : Type 0 where
  pub values : List String
  pub ctxt : Context
  pub relation_name : String

-- The attributes and their values in turn, in the order of the map.
abbrev pub keyvals : Dict String → List String
keyvals [] = []
keyvals ((attr, val) ∷ vals) = attr ∷ val ∷ keyvals vals

module _ {W : Type 0} (tools : Tools W) where
  unfoldable pub set_context : Context → Act (Provider × W) Unit₀
  set_context ctxt = update (λ p. record p { ctxt = ctxt })

  unfoldable pub set_values : Dict String → Act (Provider × W) Unit₀
  set_values vals = do
    p ← own
    outside (
        for_each (λ id. wrap masked (set_relation_with_id tools p.ctxt id (keyvals vals)))
          (entries (lookup p.relation_name p.ctxt.relation_ids)))
    update (λ p. record p { values = keyvals vals })

  unfoldable pub relation_joined : Act (Provider × W) Unit₀
  relation_joined = do p ← own; outside (wrap masked (set_relation tools p.ctxt p.values))

-- The registration of a provider, whose methods act on the charm's state as `embed` says.
module _ {V : Type 0} (juju : Juju) (joined : Act V Unit₀) (setter : Context → Act V Unit₀)
    (state : Pointer V) where
  unfoldable pub register_provider : String → String → Act (View V) Unit₀
  register_provider name interface = do
    register_relation juju (record {
      name = name;
      interface = interface;
      role = juju.role_provider;
      optional = false;
      limit = 0;
      scope = juju.scope_global;
    })
    register_hook juju (name ++ "-relation-joined") joined
    register_context setter (pointer state)

pub record Requirer : Type 0 where
  pub ctxt : Context
  pub relation_name : String

module _ {V : Type 0} (juju : Juju) (setter : Context → Act V Unit₀) where
  abbrev nop : Act V Unit₀
  nop = pure tt

  unfoldable pub register_requirer : String → String → Act (View V) Unit₀
  register_requirer name interface = do
    register_context setter no_state
    register_relation juju (record {
      name = name;
      interface = interface;
      role = juju.role_requirer;
      optional = false;
      limit = 0;
      scope = "";
    })
    register_hook juju (name ++ "-relation-joined") nop
    register_hook juju (name ++ "-relation-changed") nop
    register_hook juju (name ++ "-relation-departed") nop

module _ {W : Type 0} (tools : Tools W) where
  abbrev pub one_provider : Requirer → List String → Act W (Dict (Dict String))
  one_provider req [] = pure []
  one_provider req (id ∷ []) = pure (entries (lookup id req.ctxt.relations))
  one_provider req (_ ∷ _ ∷ _) = do
    ignore
        (logf tools req.ctxt "more than one provider for the %s relation" (req.relation_name ∷ []))
    pure []

  -- By unit id; a nil map reads as an empty one.
  unfoldable pub values : Requirer → Act W (Dict (Dict String))
  values req = one_provider req (entries (lookup req.relation_name req.ctxt.relation_ids))

  -- What one unit's attributes add to the values of the units behind it: nothing where they do not
  -- convert, or convert to the empty text.
  abbrev pub convert_one :
      Requirer
      → (Dict String → Result String)
      → String
      → Option (Dict String)
      → Act W (List String)
      → Act W (List String)
  convert_one req convert id attrs rest = elim (convert (entries attrs)) [
    | panic e ↦ λ w. (panic e, w)
    | err e ↦ do
      ignore (logf tools req.ctxt "unit %s has invalid attributes: %v" (id ∷ message e ∷ []))
      rest
    | ok s ↦ do vals ← rest; pure (if is_empty s then vals else s ∷ vals)
  ]

  unfoldable pub convert_all :
      Requirer
      → (Dict String → Result String)
      → Dict (Dict String)
      → List String
      → Act W (List String)
  convert_all req convert units [] = pure []
  convert_all req convert units (id ∷ ids) =
      convert_one req convert id (lookup id units) (convert_all req convert units ids)

  unfoldable pub strings : Requirer → (Dict String → Result String) → Act W (List String)
  strings req convert = do units ← values req; convert_all req convert units (sort (keys units))

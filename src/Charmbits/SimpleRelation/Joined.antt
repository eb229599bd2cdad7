-- ===== src/Charmbits/SimpleRelation/Joined.antt =====
-- What a unit that joins later is sent.
use gocharm.Base.{String, ◌≡◌, arith}
use gocharm.Base.{ok, wrap, masked}
use gocharm.Base.Dict.{Dict}
use gocharm.Hook.Actions.{set_relation, set_relation_with_id}
use gocharm.Hook.Context.{Tools}
use gocharm.Charmbits.SimpleRelation.{Provider, keyvals, set_values, relation_joined}

module _ {W : Type 0} (tools : Tools W) where
  -- Once SetValues has succeeded, a unit that joins is sent the same attributes, on the relation
  -- id of its hook.
  pub relation_joined-set_values :
      (vals : Dict String) (p p' : Provider) (w w' : W)
      → set_values tools vals (p, w) ≡ (ok tt, (p', w'))
      → (relation_joined tools (p', w')).0
        ≡ (wrap masked
            (wrap masked (set_relation_with_id tools p.ctxt p.ctxt.relation_id (keyvals vals)))
            w').0
  unfolding set_values relation_joined set_relation
  relation_joined-set_values vals p p' w w' h = ground arith

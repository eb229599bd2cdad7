-- ===== src/ExampleCharms/Mongodbclient.antt =====
-- example-charms/mongodbclient: a charm that writes the address of its database to the log.
use gocharm.Base.{[], ◌∷◌, Act, ◌>>=◌, ignore, outside, own, update}
use gocharm.Charmbits.MongodbRelation.{url}
use gocharm.Charmbits.SimpleRelation.{Requirer}
use gocharm.Hook.Context.{Tools, Context, logf}
use gocharm.Hook.Registry.{Unit₀}

pub record Charm : Type 0 where
  pub ctxt : Context
  pub mongodb : Requirer

unfoldable pub set_context : {W : Type 0} → Context → Act (Charm × W) Unit₀
set_context ctxt = update (λ c. record c { ctxt = ctxt })

unfoldable pub changed : {W : Type 0} → Tools W → Act (Charm × W) Unit₀
changed tools = do
  c ← own
  u ← outside (url tools c.mongodb)
  outside (ignore (logf tools c.ctxt "mongo URL is now %q" (u ∷ [])))

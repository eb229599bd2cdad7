-- ===== src/ExampleCharms/Concat/Delivered.antt =====
-- example-charms/concat: a hook of the charm and the server that it calls.
use gocharm.Base.{String, ℕ, ◌≡◌, List, [], ◌∷◌, ok, false, arith, Act}
use gocharm.Base.{for_each}
use gocharm.Base.Dict.{lookup}
use gocharm.Base.Inversion.{bind-ok}
use gocharm.Charmbits.HttpRelation.{http_port}
use gocharm.Charmbits.Service.{Encoding, OsService, OsServiceParams}
use gocharm.Charmbits.Service.Answered.{IsAnswered}
use gocharm.Charmbits.Service.Call.{Rpc}
use gocharm.Hook.Context.{Tools, Context, entries, logf}
use gocharm.Hook.Juju.{Juju}
use gocharm.Hook.Registry.{Unit₀}
use gocharm.Hook.State.{Files}
use gocharm.ExampleCharms.Concat.{Concatenator, ServerState}
use gocharm.ExampleCharms.Concat.{finally, same_state}
use gocharm.ExampleCharms.Concat.{note, notify_one}
use Prim.Native.String.{◌++◌}
use gocharm.Base.Texts.{sprintf}
use gocharm.ExampleCharms.Concat.{set_downstream_val}
use gocharm.Hook.Actions.{set_relation_with_id, settings}
use gocharm.Hook.Context.{run_tool}
use gocharm.ExampleCharms.Concat.Server.{ConcatServer, Network, StateCodec, handle_set}
use gocharm.ExampleCharms.Concat.Served.{IsCodec, IsKept, handle_set-IsKept}
use gocharm.Charmbits.HttpService.Restored.{IsFiles}
use gocharm.ExampleCharms.Concat.Notified.{finally-IsNotified}

-- The call of Set over net/rpc, in a world `W` that holds the server and the server's own world: an
-- answer that is no error is that of the server's Set. Neither the end of the connection nor a hook
-- tool touches the server.
pub record IsServed {V Listener W Client : Type 0} (net : Network V Listener) (codec : StateCodec)
    (files : Files V) (dir_of : String → String) (tools : Tools W)
    (rpc : Rpc W Client ServerState Unit₀) (server_of : W → ConcatServer Listener)
    (world_of : W → V) : Type 0 where
  pub calls :
      (c : Client) (p : ServerState) (w w' : W)
      → rpc.call c "ConcatServer.Set" p w ≡ (ok tt, w')
      → handle_set net codec files dir_of p (server_of w, world_of w)
        ≡ (ok tt, (server_of w', world_of w'))
  pub closes :
      (c : Client) (w : W)
      → (server_of (rpc.close c w) ≡ server_of w) × (world_of (rpc.close c w) ≡ world_of w)
  pub runs :
      (cmd : String) (args : List String) (w : W)
      → (server_of (tools.run cmd args w).1 ≡ server_of w)
        × (world_of (tools.run cmd args w).1 ≡ world_of w)

module _ {V Listener W Client : Type 0} (net : Network V Listener) (codec : StateCodec)
    (files : Files V) (dir_of : String → String) (tools : Tools W)
    (rpc : Rpc W Client ServerState Unit₀) (server_of : W → ConcatServer Listener)
    (world_of : W → V) (served : IsServed net codec files dir_of tools rpc server_of world_of) where
  abbrev Alike : W → W → Type 0
  Alike w' w = (server_of w' ≡ server_of w) × (world_of w' ≡ world_of w)

  run_tool-Alike :
      (ctxt : Context) (cmd : String) (args : List String) (w : W)
      → Alike (run_tool tools ctxt cmd args w).1 w
  unfolding run_tool
  run_tool-Alike ctxt cmd args w = ground (arith, served.runs cmd args w)

  note-Alike :
      (ctxt : Context) (f : String) (args : List String) (w : W)
      → Alike (note tools ctxt f args w).1 w
  unfolding logf
  note-Alike ctxt f args w = ground (arith, run_tool-Alike ctxt "juju-log" (sprintf f args ∷ []) w)

  set-Alike :
      (ctxt : Context) (id k v : String) (w : W)
      → Alike (set_relation_with_id tools ctxt id (k ∷ v ∷ []) w).1 w
  unfolding set_relation_with_id settings
  set-Alike ctxt id k v w =
      ground
        (arith, run_tool-Alike ctxt "relation-set" ("-r" ∷ id ∷ "--" ∷ (k ++ ("=" ++ v)) ∷ []) w)

  notify_one-Alike : (c : Concatenator) (id : String) (w : W) → Alike (notify_one tools c id w).1 w
  unfolding set_downstream_val
  notify_one-Alike c id w =
      let texts = id ∷ c.new_state.val ∷ [] in
      let f : String = "setting downstream relation %q to %q" in
      ground (
        arith,
        note-Alike c.ctxt f texts w,
        set-Alike c.ctxt id "val" c.new_state.val (note tools c.ctxt f texts w).1,
      )

  notified-Alike :
      (c : Concatenator) (ids : List String) (w w' : W)
      → for_each (notify_one tools c) ids w ≡ (ok tt, w')
      → Alike w' w
  unfolding for_each
  notified-Alike c [] w w' h = ground arith
  notified-Alike c (id ∷ ids) w w' h =
      let (_, w₁, first, rest) =
        bind-ok (notify_one tools c id) (λ _. for_each (notify_one tools c) ids) w w' tt h in
      ground (arith, notify_one-Alike c id w, notified-Alike c ids w₁ w' rest)

  answered-IsKept :
      (p : ServerState) (w₁ w' : W)
      → IsCodec codec
      → IsFiles files
      → IsAnswered tools rpc "ConcatServer.Set" p tt w₁
      → Alike w' w₁
      → IsKept net codec files dir_of p (server_of w') (world_of w')
  answered-IsKept p w₁ w' coded lawful
        (path, c, ctxt, w₀, w₂, w₃, w₄, dialled, logged, answered, closed) same =
      let kept =
        handle_set-IsKept net codec files dir_of coded lawful p (server_of w₃) (server_of w₄)
          (world_of w₃) (world_of w₄) (served.calls c p w₃ w₄ answered) in
      let shut = served.closes c w₄ in
      let server : server_of w' ≡ server_of w₄ = ground arith in
      let world : world_of w' ≡ world_of w₄ = ground arith in rw server (rw world kept)

  module _ (juju : Juju) (enc : Encoding) (new_service : OsServiceParams → Act W (OsService W))
      (charm_files : Files W) (retries : ℕ) where
    -- The concat charm and its server together: where the call of Set reaches the server's Set,
    -- hook tools and the end of the connection leave the server alone, a written file reads as
    -- written and JSON decodes what it encodes, a finally that ends with success on a changed
    -- state leaves a server that answers a GET of /val with the new value, and a server that is
    -- started again on its directory loads the new value and the port.
    pub finally-IsKept :
        (c c' : Concatenator) (w w' : W)
        → IsCodec codec
        → IsFiles files
        → finally tools juju enc new_service charm_files rpc retries (c, w) ≡ (ok tt, (c', w'))
        → same_state c.new_state c.state ≡ false
        → IsKept net codec files dir_of
            (record { val = c.new_state.val; port = http_port c.http })
            (server_of w')
            (world_of w')
    unfolding set_downstream_val
    finally-IsKept c c' w w' coded lawful h differ =
        let (w₁, answered, sent) =
          finally-IsNotified tools juju enc new_service charm_files rpc retries c c' w w' h
            differ in
        answered-IsKept (record { val = c.new_state.val; port = http_port c.http }) w₁ w' coded
          lawful answered
          (notified-Alike c (entries (lookup "downstream" c.ctxt.relation_ids)) w₁ w' sent)

-- ===== src/ExampleCharms/Concat.antt =====
-- example-charms/concat/runhook.go: a charm that joins the values of its upstream units and passes the
-- result on, to its downstream relations and to a server of its own.
pub mod Server
pub mod Served
pub mod Stable
pub mod Committed
pub mod Notified
pub mod Delivered
use Prim.Native.String.{◌++◌}
use gocharm.Base.{
  String, ℕ, List, [], ◌∷◌, ◌++◌ as append, map, Bool, true, false, ◌&&◌, Option, none, some,
}
use gocharm.Base.{if◌then◌else◌, str_eq, ◌==◌, Act, masked, noted, ok, ◌>>=◌, ◌>>◌, pure}
use gocharm.Base.{wrap, ignore, outside, own, update, for_each}
use gocharm.Base.Decimal.{itoa}
use gocharm.Base.Dict.{Dict, lookup, keys}
use gocharm.Base.Sort.{sort}
use gocharm.Base.Texts.{is_empty, join, quote}
use gocharm.Charmbits.HttpRelation.{http_port}
use gocharm.Charmbits.HttpRelation as HttpRelation
use gocharm.Charmbits.Service.{Service, Encoding, OsService, OsServiceParams, start}
use gocharm.Charmbits.Service.Call.{Rpc, started, call}
use gocharm.Hook.Actions.{set_relation_with_id}
use gocharm.Hook.Context.{Tools, Context, entries, logf}
use gocharm.Hook.Environment.{state_dir}
use gocharm.Hook.Juju.{Juju}
use gocharm.Hook.Query.{Json, get_config_string}
use gocharm.Hook.Registry.{Unit₀}
use gocharm.Hook.State.{Files}

pub record LocalState : Type 0 where
  pub val : String
  pub port : ℕ

-- ServerState of http.go.
pub record ServerState : Type 0 where
  pub val : String
  pub port : ℕ

-- `state` is the persistent part of the charm's own.
pub record Concatenator : Type 0 where
  pub ctxt : Context
  pub http : HttpRelation.Provider
  pub svc : Service
  pub state : LocalState
  pub new_state : LocalState

-- A key that a map of texts does not have reads as the empty text.
abbrev pub text : Option String → String
text none = ""
text (some s) = s

-- The values of a relation's units, in the order of the units' names.
unfoldable pub relation_vals : Dict (Dict String) → List String
unfolding lookup sort
relation_vals units =
    map (λ id. text (lookup "val" (entries (lookup id units)))) (sort (keys units))

unfoldable pub upstream_vals : Dict (Dict (Dict String)) → List String → List String
unfolding relation_vals lookup
upstream_vals relations [] = []
upstream_vals relations (id ∷ ids) =
    append (relation_vals (entries (lookup id relations))) (upstream_vals relations ids)

unfoldable pub joined : Context → String → String
unfolding upstream_vals lookup
joined ctxt local =
    let own_vals = if is_empty local then [] else local ∷ [] in
    let vals = upstream_vals ctxt.relations (entries (lookup "upstream" ctxt.relation_ids)) in
    "{" ++ (join (append own_vals vals) " " ++ "}")

abbrev pub same_state : LocalState → LocalState → Bool
same_state s t = str_eq s.val t.val && s.port == t.port

-- What %#v shows of a state; the formats below put this text in by %v.
abbrev pub shown : LocalState → String
shown s = "concat.localState{Val:" ++ (quote s.val ++ (", Port:" ++ (itoa s.port ++ "}")))

-- A call of the service within the charm.
abbrev pub on_service : {W A : Type 0} → Act (Service × W) A → Act (Concatenator × W) A
on_service m (c, w) = let (r, (s, w')) = m (c.svc, w) in (r, (record c { svc = s }, w'))

unfoldable pub set_context : {W : Type 0} → Context → Act (Concatenator × W) Unit₀
set_context ctxt = update (λ c. record c { ctxt = ctxt; new_state = c.state })

-- The end of finally.
abbrev pub commit : {W : Type 0} → Act (Concatenator × W) Unit₀
commit = update (λ c. record c { state = c.new_state })

module _ {W : Type 0} (tools : Tools W) where
  abbrev pub note : Context → String → List String → Act W Unit₀
  note ctxt f args = ignore (logf tools ctxt f args)

  unfoldable pub changed : Json → Act (Concatenator × W) Unit₀
  changed json = do
    c ← own
    local ← outside (wrap masked (get_config_string tools json c.ctxt "val"))
    update (λ c. record c {
      new_state = record { val = joined c.ctxt local; port = http_port c.http };
    })

  unfoldable pub set_downstream_val : Concatenator → String → String → Act W Unit₀
  set_downstream_val c id val = do
    note c.ctxt "setting downstream relation %q to %q" (id ∷ c.new_state.val ∷ [])
    set_relation_with_id tools c.ctxt id ("val" ∷ val ∷ [])

  unfoldable pub downstream_joined : Act (Concatenator × W) Unit₀
  unfolding set_downstream_val
  downstream_joined = do c ← own; outside (set_downstream_val c c.ctxt.relation_id c.state.val)

  abbrev pub notify_one : Concatenator → String → Act W Unit₀
  notify_one c id =
      wrap (λ e. noted e "cannot set relation %v" (id ∷ []))
        (set_downstream_val c id c.new_state.val)

  abbrev pub notify_downstream : Act (Concatenator × W) Unit₀
  notify_downstream = do
    c ← own
    outside (for_each (notify_one c) (entries (lookup "downstream" c.ctxt.relation_ids)))

  module _ {Client : Type 0} (juju : Juju) (enc : Encoding)
      (new_service : OsServiceParams → Act W (OsService W)) (files : Files W)
      (rpc : Rpc W Client ServerState Unit₀) (retries : ℕ) where
    abbrev pub start_in : String → Act (Concatenator × W) Unit₀
    start_in dir = wrap masked (on_service (start juju tools enc new_service files (dir ∷ [])))

    abbrev pub start_unless : Bool → Act (Concatenator × W) Unit₀
    start_unless true = pure tt
    start_unless false = do c ← own; dir ← outside (state_dir juju c.ctxt); start_in dir

    unfoldable pub ensure_started : Act (Concatenator × W) Unit₀
    ensure_started = do
      running ← on_service (started juju tools enc new_service)
      start_unless running

    abbrev pub send_state : Concatenator → Act (Concatenator × W) Unit₀
    send_state c =
        wrap (λ e. noted e "cannot set state in server" [])
          (on_service (
            call juju tools enc new_service rpc retries "ConcatServer.Set"
              (record { val = c.new_state.val; port = http_port c.http })))

    unfoldable pub notify_server : Act (Concatenator × W) Unit₀
    unfolding ensure_started
    notify_server = do ensure_started; c ← own; send_state c

    abbrev pub settle : Concatenator → Bool → Act (Concatenator × W) Unit₀
    settle c true =
        outside (note c.ctxt "concat state is unchanged at %v; doing nothing" (shown c.state ∷ []))
    settle c false = do
      outside (
          note c.ctxt "concat state changed from %v to %v" (shown c.state ∷ shown c.new_state ∷ []))
      wrap masked notify_server
      notify_downstream
      commit

    unfoldable pub finally : Act (Concatenator × W) Unit₀
    unfolding notify_server set_downstream_val
    finally = do c ← own; settle c (same_state c.new_state c.state)

-- ===== src/Charmbits/HttpService/Server.antt =====
-- charmbits/httpservice/server.go: the state of the process that serves HTTP, and how a new state is
-- put into effect. The network and the charm's handler are parameters.
use Prim.Native.String.{◌++◌}
use gocharm.Base.{String, ℕ, List, [], ◌∷◌, ◌++◌ as append, Option, none, some, Bool, true, false}
use gocharm.Base.{◌&&◌, ◌||◌, not, if◌then◌else◌, str_eq, ◌==◌, Act, Result, Error, newf}
use gocharm.Base.{noted, cause, ok, err, panic, ◌>>=◌, ◌>>◌, raise, wrap}
use gocharm.Base.{update}
use gocharm.Base.Decimal.{itoa}
use gocharm.Base.Dict.{Dict}
use gocharm.Base.Message.{message}
use gocharm.Base.Texts.{is_empty}
use gocharm.Hook.Registry.{Unit₀}
use gocharm.Charmbits.HttpService.Fields.{
  ServerState, Server, Field, RegisteredRelation, is_restart, is_incomplete, set_relations,
  finalize_fields,
}

-- What the charm's handler function is made of: the relation fields that it takes, the type of its
-- argument, and the call.
pub record HandlerInfo (W Val Arg Handler : Type 0) : Type 0 where
  pub relation_type : Option (List Field)
  pub unmarshal_arg : String → Result Arg
  pub run : Arg → Option (List Val) → Act W Handler

-- The network: net.Listen on an address, the goroutine that serves a listener, the close of a
-- listener with the wait for its goroutine, and the certificate of a TLS listener.
pub record Network (W Listener Handler : Type 0) : Type 0 where
  pub listen : String → Act W Listener
  pub serve : Listener → Handler → W → W
  pub shut : Listener → W → W
  pub close_handler : Handler → W → W
  pub key_pair : String → Option Error
  pub with_tls : String → Listener → Listener

-- The server and the warnings of the call that is being answered.
pub record Setting (Val Listener Handler : Type 0) : Type 0 where
  pub server : Server Val Listener Handler
  pub warnings : List String

abbrev pub http_ok : ServerState → Bool
http_ok state = not (state.http_port == 0)

abbrev pub https_ok : ServerState → Bool
https_ok state = not (state.https_port == 0) && not (is_empty state.cert_pem)

abbrev pub state_differs : ServerState → ServerState → Bool
state_differs a b =
    not (a.http_port == b.http_port)
    || not (a.https_port == b.https_port)
    || not (str_eq a.cert_pem b.cert_pem)
    || not (str_eq a.arg_data b.arg_data)

abbrev pub is_some : {A : Type 0} → Option A → Bool
is_some none = false
is_some (some _) = true

unfoldable pub needs_restart :
    {Val Listener Handler : Type 0} → Server Val Listener Handler → ServerState → Bool
needs_restart srv state = state_differs state srv.state

module _ {Val Listener Handler W : Type 0} where
  -- addError
  abbrev pub add_error : Error → Act (Setting Val Listener Handler × W) Unit₀
  add_error e = update (λ s. record s { warnings = append s.warnings (message e ∷ []) })

  -- A method of the server within.
  abbrev pub on_server :
      {A : Type 0}
      → Act (Server Val Listener Handler × W) A
      → Act (Setting Val Listener Handler × W) A
  on_server m (s, w) = let (r, (srv, w')) = m (s.server, w) in (r, (record s { server = srv }, w'))

module _ {W Val Data Arg Listener Handler : Type 0}
    (registered : Dict (RegisteredRelation W Val Data)) (zero_of : String → Val)
    (info : HandlerInfo W Val Arg Handler) (net : Network W Listener Handler) where
  abbrev pub shut_listener : Option Listener → W → W
  shut_listener none w = w
  shut_listener (some l) w = net.shut l w

  abbrev pub close_handler : Option Handler → W → W
  close_handler none w = w
  close_handler (some h) w = net.close_handler h w

  abbrev pub close_running : Server Val Listener Handler → Server Val Listener Handler
  close_running s = record s { handler = none; http_listener = none; https_listener = none }

  unfoldable pub close_resources : Act (Server Val Listener Handler × W) Unit₀
  close_resources (s, w) = finalize_fields registered zero_of info.relation_type (
    close_running s,
    close_handler s.handler (shut_listener s.https_listener (shut_listener s.http_listener w)),
  )

  unfoldable pub serve_http : ℕ → Handler → Act W Listener
  serve_http port h = do
    l ←
        wrap (λ e. newf "cannot listen on %s: %v" ((":" ++ itoa port) ∷ message e ∷ []))
          (net.listen (":" ++ itoa port))
    λ w. (ok l, net.serve l h w)

  unfoldable pub serve_https : ℕ → String → Handler → Act W Listener
  serve_https port cert h = elim (net.key_pair cert) [
    | some e ↦ raise (newf "cannot parse certificate: %v" (message e ∷ []))
    | none ↦ do
      l ←
          wrap (λ e. newf "cannot listen on %s: %v" ((":" ++ itoa port) ∷ message e ∷ []))
            (net.listen (":" ++ itoa port))
      λ w. (ok (net.with_tls cert l), net.serve (net.with_tls cert l) h w)
  ]

  abbrev pub values_for : Server Val Listener Handler → Option (List Val)
  values_for s = elim info.relation_type [ none ↦ none | some _ ↦ s.relation_state ]

  -- handlerInfo.handler
  unfoldable pub make_handler : String → Option (List Val) → Act W Handler
  make_handler arg values = do
    a ← wrap (λ e. noted e "cannot unmarshal into %s" []) (λ w. (info.unmarshal_arg arg, w))
    info.run a values

  abbrev put_http : Option Listener → Setting Val Listener Handler → Setting Val Listener Handler
  put_http l s = record s { server = record s.server { http_listener = l } }

  abbrev put_https : Option Listener → Setting Val Listener Handler → Setting Val Listener Handler
  put_https l s = record s { server = record s.server { https_listener = l } }

  -- What comes of an attempt to serve: the listener, or a warning and a nil listener.
  abbrev served :
      (Option Listener → Setting Val Listener Handler → Setting Val Listener Handler)
      → String
      → Act W Listener
      → Act (Setting Val Listener Handler × W) Unit₀
  served put text m (s, w) =
      let (r, w') = m w in
      elim r [
        | ok l ↦ (ok tt, (put (some l) s, w'))
        | err e ↦ add_error (noted e text []) (put none s, w')
        | panic e ↦ (panic e, (s, w'))
      ]

  unfoldable pub start_http : ServerState → Handler → Act (Setting Val Listener Handler × W) Unit₀
  start_http state h (s, w) =
      if not (is_some s.server.http_listener) && http_ok state
      then served put_http "cannot start HTTP server" (serve_http state.http_port h) (s, w)
      else (ok tt, (s, w))

  unfoldable pub start_https : ServerState → Handler → Act (Setting Val Listener Handler × W) Unit₀
  start_https state h (s, w) =
      if not (is_some s.server.https_listener) && https_ok state
      then served put_https "cannot start HTTPS server"
          (serve_https state.https_port state.cert_pem h) (s, w)
      else (ok tt, (s, w))

  abbrev keep_handler :
      ServerState → Handler → Setting Val Listener Handler → Setting Val Listener Handler
  keep_handler state h s = record s { server = record s.server { handler = some h; state = state } }

  -- The end of `set`, from the call of the handler function.
  unfoldable pub start_handler : ServerState → Act (Setting Val Listener Handler × W) Unit₀
  unfolding start_http start_https
  start_handler state (s, w) =
      let (r, w') = make_handler state.arg_data (values_for s.server) w in
      elim r [
        | panic e ↦ (panic e, (s, w'))
        | err e ↦ add_error (noted e "cannot get handler" []) (s, w')
        | ok h ↦
            (start_http state h >> start_https state h >> update (keep_handler state h)) (s, w')
      ]

  -- The text of the warning for an error of a new relation value.
  abbrev renew_error : Error → Error
  renew_error e =
      if is_restart (cause e)
      then newf "restart unexpectedly needed on empty relation value!" []
      else if is_incomplete (cause e)
      then newf "relation unexpectedly incomplete" []
      else e

  -- What follows an attempt to set a new relation value.
  abbrev pub after_renewal :
      ServerState → Result Unit₀ → Act (Setting Val Listener Handler × W) Unit₀
  after_renewal state (panic e) s = (panic e, s)
  after_renewal state (err e) s = add_error (renew_error e) s
  after_renewal state (ok _) s = start_handler state s

  -- The relation value is set anew where it has just been destroyed.
  abbrev pub renewed :
      ServerState → Option (List Val) → Act (Setting Val Listener Handler × W) Unit₀
  renewed state (some vs) s = start_handler state s
  renewed state none s =
      let (r, s') = on_server (set_relations registered zero_of info.relation_type state) s in
      after_renewal state r s'

  -- A handler that runs uses the current relation value, so everything is closed first.
  abbrev pub stopped : Option Handler → Act (Setting Val Listener Handler × W) Unit₀
  stopped none s = (ok tt, s)
  stopped (some _) s = on_server close_resources s

  abbrev pub go_on : ServerState → Result Unit₀ → Act (Setting Val Listener Handler × W) Unit₀
  go_on state (ok _) (s, w) = renewed state s.server.relation_state (s, w)
  go_on state (err e) s = (err e, s)
  go_on state (panic e) s = (panic e, s)

  -- What follows once a restart is found to be needed.
  unfoldable pub restart_handler : ServerState → Act (Setting Val Listener Handler × W) Unit₀
  unfolding start_handler
  restart_handler state (s, w) = let (r, s') = stopped s.server.handler (s, w) in go_on state r s'

  -- What follows the attempt to set the relation fields.
  abbrev pub after_relations :
      ServerState → Result Unit₀ → Act (Setting Val Listener Handler × W) Unit₀
  after_relations state (panic e) s = (panic e, s)
  after_relations state (ok _) (s, w) =
      if not (needs_restart s.server state) && is_some s.server.handler
      then (ok tt, (s, w))
      else restart_handler state (s, w)
  after_relations state (err e) s =
      if is_restart (cause e)
      then restart_handler state s
      else (on_server close_resources >> add_error e) s

  unfoldable pub set : ServerState → Act (Setting Val Listener Handler × W) Unit₀
  unfolding restart_handler close_resources
  set state s =
      let (r, s') = on_server (set_relations registered zero_of info.relation_type state) s in
      if not (http_ok state) && not (https_ok state)
      then on_server close_resources s
      else after_relations state r s'

-- ===== src/Charmbits/HttpService/Charm.antt =====
-- charmbits/httpservice/service.go: the charm's side of an HTTP service, which runs in the hooks.

pub mod Sent
pub mod Refreshed
pub mod Delivered
use Prim.Native.String.{◌++◌}
use gocharm.Base.{String, ℕ, List, [], ◌∷◌, Bool, true, false, not, ◌&&◌, ◌||◌, ◌==◌, str_eq}
use gocharm.Base.{if◌then◌else◌, Act, Result, Error, newf, sentinel, masked, noted, cause, ok, err}
use gocharm.Base.{panic, ◌>>=◌, ◌>>◌, pure, raise, wrap, ignore, outside, own, update, for_each}
use gocharm.Base.Decimal.{itoa}
use gocharm.Base.Dict.{Dict, insert, erase}
use gocharm.Base.Texts.{is_empty}
use gocharm.Hook.Actions.{public_address}
use gocharm.Hook.Context.{Tools, Context, logf}
use gocharm.Hook.Environment.{state_dir}
use gocharm.Hook.Juju.{Juju}
use gocharm.Hook.Query.{Json}
use gocharm.Hook.Registry.{Unit₀}
use gocharm.Hook.State.{Files}
use gocharm.Charmbits.HttpRelation as HttpRelation
use gocharm.Charmbits.HttpRelation.{Provider, http_port, https_port, tls_cert_pem}
use gocharm.Charmbits.HttpService.Fields.{ServerState, is_incomplete}
use gocharm.Charmbits.Service as Service
use gocharm.Charmbits.Service.{Encoding, OsService, OsServiceParams}
use gocharm.Charmbits.Service.Call.{Rpc, started, call}

-- `arg_data` and `started` are the persistent part. The handler's type is that of `marshal_arg`.
pub record HttpService : Type 0 where
  pub ctxt : Context
  pub svc : Service.Service
  pub http : Provider
  pub arg_data : String
  pub started : Bool
  pub relation_values : Dict String

-- What a handler function takes, and json.Marshal on it.
pub record ArgType (Arg : Type 0) : Type 0 where
  pub type_name : String
  pub type_of : Arg → String
  pub marshal_json : Arg → Result String
  pub show_arg : Arg → String

unfoldable pub set_context : {W : Type 0} → Context → Act (HttpService × W) Unit₀
set_context ctxt = update (λ s. record s { ctxt = ctxt })

-- handlerInfo.marshal
unfoldable pub marshal_arg : {Arg : Type 0} → ArgType Arg → Arg → Result String
marshal_arg t arg =
    if not (str_eq (t.type_of arg) t.type_name)
    then err
        (newf "unexpected argument type; got %s, expected %s" (t.type_of arg ∷ t.type_name ∷ []))
    else elim (t.marshal_json arg) [
      | ok content ↦ ok content
      | err e ↦ err (noted e "cannot marshal %#v" (t.show_arg arg ∷ []))
      | panic e ↦ panic e
    ]

-- Whether an error's cause is httprelation.ErrHTTPSNotConfigured.
abbrev pub is_not_configured : Error → Bool
is_not_configured (sentinel s) = str_eq s "HTTPS not configured"
is_not_configured _ = false

-- A method of the service, or of the provider, within.
abbrev pub on_svc : {W A : Type 0} → Act (Service.Service × W) A → Act (HttpService × W) A
on_svc m (s, w) = let (r, (svc, w')) = m (s.svc, w) in (r, (record s { svc = svc }, w'))

abbrev pub on_http : {W A : Type 0} → Act (Provider × W) A → Act (HttpService × W) A
on_http m (s, w) = let (r, (p, w')) = m (s.http, w) in (r, (record s { http = p }, w'))

-- Where there is nothing to serve, or no start has been asked for.
abbrev pub must_stop : HttpService → String → Bool
must_stop s cert =
    not s.started || (http_port s.http == 0 && (https_port s.http == 0 || is_empty cert))

abbrev pub server_state : HttpService → String → ServerState
server_state s cert = record {
  http_port = http_port s.http;
  https_port = https_port s.http;
  cert_pem = cert;
  arg_data = s.arg_data;
  relation_values = s.relation_values;
}

module _ {W Client : Type 0} (juju : Juju) (tools : Tools W) (enc : Encoding)
    (new_service : OsServiceParams → Act W (OsService W)) (json : Json) (files : Files W)
    (rpc : Rpc W Client ServerState (List String)) (retries : ℕ) where
  -- What changed logs; an error of the log is ignored.
  abbrev pub note : String → List String → Act (HttpService × W) Unit₀
  note f args = do s ← own; outside (ignore (logf tools s.ctxt f args))

  unfoldable pub ensure_started : Act (HttpService × W) Unit₀
  ensure_started = do
    there ← on_svc (started juju tools enc new_service)
    if there then note "httpservice: no need to start service" [] else do
      note "httpservice: starting service" []
      s ← own
      dir ← outside (state_dir juju s.ctxt)
      wrap (λ e. noted e "cannot start service" [])
          (on_svc (Service.start juju tools enc new_service files (dir ∷ [])))

  unfoldable pub send_state : String → Act (HttpService × W) Unit₀
  send_state cert = do
    s ← own
    warnings ←
        wrap (λ e. noted e "cannot set state in server" [])
          (on_svc (call juju tools enc new_service rpc retries "Srv.Set" (server_state s cert)))
    for_each (λ text. note "warning: %s" (text ∷ [])) warnings

  -- Stops the service, or brings it up and sends it its state.
  unfoldable pub settle : Bool → String → Act (HttpService × W) Unit₀
  settle true cert = do
    note "httpservice: stopping service" []
    on_svc (Service.stop juju tools enc new_service)
  settle false cert = do ensure_started; send_state cert

  unfoldable pub changed_with : String → Act (HttpService × W) Unit₀
  changed_with cert = do s ← own; settle (must_stop s cert) cert

  unfoldable pub changed : Act (HttpService × W) Unit₀
  changed s =
      let (r, s') = on_http (tls_cert_pem tools json) s in
      elim r [
        | ok cert ↦ changed_with cert s'
        | err e ↦
            if is_not_configured (cause e)
            then changed_with "" s'
            else (do note "bad TLS cert" []; raise (masked e)) s'
        | panic e ↦ (panic e, s')
      ]

  unfoldable pub start : {Arg : Type 0} → ArgType Arg → Arg → Act (HttpService × W) Unit₀
  start t arg = do
    content ← wrap masked (λ s. (marshal_arg t arg, s))
    update (λ s. record s { arg_data = content; started = true })
    changed

  unfoldable pub stop : Act (HttpService × W) Unit₀
  stop = do update (λ s. record s { arg_data = ""; started = false }); changed

  unfoldable pub restart : Act (HttpService × W) Unit₀
  restart = on_svc (Service.restart juju tools enc new_service files)

module _ {W : Type 0} (tools : Tools W) (json : Json) where
  abbrev pub url_with : String → String → ℕ → ℕ → String
  url_with scheme addr port usual =
      if port == usual then scheme ++ addr else scheme ++ (addr ++ (":" ++ itoa port))

  abbrev address : Act (HttpService × W) String
  address = do
    s ← own
    outside (wrap (λ e. noted e "cannot get public address" []) (public_address tools s.ctxt))

  unfoldable pub public_http_url : Act (HttpService × W) String
  public_http_url = do
    addr ← address
    s ← own
    if http_port s.http == 0
        then raise (newf "port not currently set" [])
        else pure (url_with "http://" addr (http_port s.http) 80)

  abbrev https_url : Act (HttpService × W) String
  https_url = do
    s ← own
    if https_port s.http == 0
        then raise (sentinel "HTTPS not configured")
        else do addr ← address; pure (url_with "https://" addr (https_port s.http) 443)

  unfoldable pub public_https_url : Act (HttpService × W) String
  public_https_url s =
      let (r, s') = on_http (tls_cert_pem tools json) s in
      elim r [
        | ok _ ↦ https_url s'
        | err e ↦
            if is_not_configured (cause e)
            then raise (sentinel "HTTPS not configured") s'
            else raise (masked e) s'
        | panic e ↦ (panic e, s')
      ]

abbrev put_value : String → String → HttpService → HttpService
put_value name content s = record s { relation_values = insert name content s.relation_values }

abbrev drop_value : String → HttpService → HttpService
drop_value name s = record s { relation_values = erase name s.relation_values }

-- The hook function that newHandlerInfo registers: the data of each relation field of the handler.
module _ {W Val : Type 0} (marshal : Val → Result String) where
  abbrev pub store_value : String → Val → Act (HttpService × W) Unit₀
  store_value name val = do
    content ←
        wrap (λ e. noted e "cannot marshal value for field %s" (name ∷ [])) (λ s. (marshal val, s))
    if is_empty content
        then raise (newf "field %s marshaled to no data" (name ∷ []))
        else update (put_value name content)

  unfoldable pub refresh_one : String × Act W Val → Act (HttpService × W) Unit₀
  refresh_one (name, getter) s =
      let (r, s') = outside getter s in
      elim r [
        | ok val ↦ store_value name val s'
        | err e ↦
            if is_incomplete (cause e)
            then update (drop_value name) s'
            else raise (noted e "cannot get value for field %s" (name ∷ [])) s'
        | panic e ↦ (panic e, s')
      ]

  -- The fields in the order in which Go goes through the map of the getters.
  unfoldable pub refresh : List (String × Act W Val) → Act (HttpService × W) Unit₀
  refresh getters = for_each refresh_one getters

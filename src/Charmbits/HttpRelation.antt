-- ===== src/Charmbits/HttpRelation.antt =====
-- charmbits/httprelation: the provider of an http relation, which opens and closes the configured
-- ports, and the requirer's URLs.
pub mod Ports
pub mod Swap
use Prim.Native.String.{◌++◌}
use Prim.Native.Char.{code}
use gocharm.Base.{String, ℕ, suc, List, [], ◌∷◌, Option, none, some, Bool, true, false, ◌||◌}
use gocharm.Base.{not, if◌then◌else◌, ◌==◌, leb}
use gocharm.Base.{
  Act, Result, Error, sentinel, ok, err, panic, masked, noted, ◌>>=◌, ◌>>◌, pure, raise, wrap,
}
use gocharm.Base.{ignore, outside, own, update}
use gocharm.Base.Decimal.{show_int, itoa}
use gocharm.Base.Dict.{Dict, lookup}
use gocharm.Base.Int.{ℤ, pos, negsuc}
use gocharm.Base.Texts.{is_empty, contains_rune, trim_suffix}
use gocharm.Hook.Actions.{private_address}
use gocharm.Hook.Context.{Tools, Context, logf, open_port, close_port}
use gocharm.Hook.Query.{Json, get_config_int, get_config_string}
use gocharm.Hook.Registry.{Unit₀}
use gocharm.Charmbits.SimpleRelation as SimpleRelation

-- `opened_http_port` and `opened_https_port` are the persistent part; a port of 0 is none.
pub record Provider : Type 0 where
  pub prov : SimpleRelation.Provider
  pub opened_http_port : ℕ
  pub opened_https_port : ℕ
  pub ctxt : Context
  pub allow_https : Bool

-- The field that configurePort is given a pointer to.
pub data Field : Type 0 where
  http https : Field

abbrev pub opened : Field → Provider → ℕ
opened http p = p.opened_http_port
opened https p = p.opened_https_port

abbrev pub set_opened : Field → ℕ → Provider → Provider
set_opened http n p = record p { opened_http_port = n }
set_opened https n p = record p { opened_https_port = n }

abbrev pub err_https_not_configured : Error
err_https_not_configured = sentinel "HTTPS not configured"

-- The port that a configured value stands for; `none` where the code ignores it.
unfoldable pub valid_port : ℤ → Option ℕ
valid_port (negsuc n) = none
valid_port (pos n) = if leb n 0 || leb 65535 n then none else some n

unfoldable pub http_port : Provider → ℕ
http_port p = p.opened_http_port

unfoldable pub https_port : Provider → ℕ
https_port p = p.opened_https_port

module _ {W : Type 0} (tools : Tools W) (json : Json) where
  unfoldable pub set_context : Context → Act (Provider × W) Unit₀
  set_context ctxt = update (λ p. record p { ctxt = ctxt })

  -- The end of configurePort: the port is not open, and no other one is on record.
  unfoldable pub open_recorded : Field → ℕ → Act (Provider × W) Unit₀
  open_recorded field port = do
    p ← own
    outside (wrap masked (open_port tools p.ctxt "tcp" port))
    update (set_opened field port)

  unfoldable pub close_recorded : Field → Act (Provider × W) Unit₀
  close_recorded field = do
    p ← own
    if opened field p == 0 then pure tt else do
      outside (wrap masked (close_port tools p.ctxt "tcp" (opened field p)))
      update (set_opened field 0)

  unfoldable pub change_port : Field → ℕ → Act (Provider × W) Unit₀
  unfolding open_recorded close_recorded
  change_port field port = do
    p ← own
    if port == opened field p then pure tt else do close_recorded field; open_recorded field port

  unfoldable pub configure_port : Field → String → Act (Provider × W) Unit₀
  configure_port field key = do
    p ← own
    port ←
        outside
          (wrap (λ e. noted e "cannot get %s" (key ∷ [])) (get_config_int tools json p.ctxt key))
    elim (valid_port port) [
      | none ↦
          outside (ignore (logf tools p.ctxt "ignoring invalid %s %v" (key ∷ show_int port ∷ [])))
      | some n ↦ change_port field n
    ]

  unfoldable pub tls_cert_pem : Act (Provider × W) String
  tls_cert_pem = do
    p ← own
    if not p.allow_https
        then raise err_https_not_configured
        else outside (wrap masked (get_config_string tools json p.ctxt "https-certificate"))

  -- A method of the provider of the simple relation within.
  abbrev inner : {A : Type 0} → Act (SimpleRelation.Provider × W) A → Act (Provider × W) A
  inner m (p, w) = let (r, (q, w')) = m (p.prov, w) in (r, (record p { prov = q }, w'))

  -- An error of the certificate is no error of the hook.
  abbrev configure_https : Act (Provider × W) Unit₀
  configure_https s =
      let (r, s') = tls_cert_pem s in
      elim r [
        | ok _ ↦ wrap masked (configure_port https "https-port") s'
        | err _ ↦ (ok tt, s')
        | panic e ↦ (panic e, s')
      ]

  unfoldable pub publish : Act (Provider × W) Unit₀
  publish = do
    p ← own
    if p.opened_http_port == 0
        then inner (SimpleRelation.set_values tools (("hostname", "") ∷ ("port", "") ∷ []))
        else do
          addr ← outside (wrap masked (private_address tools p.ctxt))
          wrap masked (
              inner (
                SimpleRelation.set_values tools
                  (("hostname", addr) ∷ ("port", itoa p.opened_http_port) ∷ [])))

  unfoldable pub config_changed : Act (Provider × W) Unit₀
  unfolding publish
  config_changed = do
    wrap masked (configure_port http "http-port")
    p ← own
    if p.allow_https then configure_https else pure tt
    publish

-- net.JoinHostPort
unfoldable pub join_host_port : String → String → String
join_host_port host port =
    if contains_rune host b':' then "[" ++ (host ++ ("]:" ++ port)) else host ++ (":" ++ port)

-- A missing attribute reads as the empty text.
abbrev pub attr : String → Dict String → String
attr k m = elim (lookup k m) [ none ↦ "" | some v ↦ v ]

unfoldable pub attrs_to_url : Dict String → Result String
attrs_to_url attrs =
    let host = attr "hostname" attrs in
    let port = attr "port" attrs in
    let host_port = join_host_port host (if is_empty port then "80" else port) in
    if is_empty host then ok "" else ok ("http://" ++ trim_suffix ":80" host_port)

-- Requirer.URLs
unfoldable pub urls : {W : Type 0} → Tools W → SimpleRelation.Requirer → Act W (List String)
urls tools req = SimpleRelation.strings tools req attrs_to_url

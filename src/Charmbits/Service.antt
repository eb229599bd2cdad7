-- ===== src/Charmbits/Service.antt =====
-- charmbits/service: a process that runs outside the hooks, under the operating system's service
-- daemon. A process is started as a command of the charm's program with its parameters as an argument.
pub mod Daemon
pub mod Launch
pub mod Call
pub mod LocalRpc
pub mod Answered
use Prim.Native.String.{◌++◌}
use gocharm.Base.{String, List, [], ◌∷◌, map, Option, Bool, true, false, not, if◌then◌else◌}
use gocharm.Base.{
  Act, Result, Error, newf, masked, noted, ok, err, panic, ◌>>=◌, ◌>>◌, pure, raise, throw, wrap,
  ignore, outside, own, update,
}
use gocharm.Base.Paths.{join_path}
use gocharm.Base.Texts.{is_empty, join, quote, sprintf}
use gocharm.Hook.Context.{Tools, Context, logf, command_name}
use gocharm.Hook.Environment.{state_dir}
use gocharm.Hook.Juju.{Juju}
use gocharm.Hook.Registry.{Unit₀}
use gocharm.Hook.State.{Files}

pub record OsService (W : Type 0) : Type 0 where
  pub install : Act W Unit₀
  pub stop_and_remove : Act W Unit₀
  pub running : Act W Bool
  pub stop : Act W Unit₀
  pub start : Act W Unit₀
  -- IsNotInstalled of the program within a *srv, which no other implementation has.
  pub not_installed : Option (Act W Bool)

pub record OsServiceParams : Type 0 where
  pub name : String
  pub description : String
  pub exe : String
  pub args : List String

pub record ServiceParams : Type 0 where
  pub socket_path : String
  pub args : List String
  pub name : String

-- `installed` and `args` are the persistent part.
pub record Service : Type 0 where
  pub ctxt : Context
  pub service_name : String
  pub installed : Bool
  pub args : List String

-- What the code takes from encoding/json, encoding/base64 and crypto/sha1.
pub record Encoding : Type 0 where
  pub marshal : ServiceParams → Result String
  pub unmarshal : String → Result ServiceParams
  pub encode : String → String
  pub decode : String → Result String
  pub sha1_hex : String → String

-- %q of a slice
abbrev pub quoted : List String → String
quoted args = "[" ++ (join (map quote args) " " ++ "]")

unfoldable pub set_context : {W : Type 0} → Context → Act (Service × W) Unit₀
set_context ctxt = update (λ s. record s { ctxt = ctxt })

module _ {W : Type 0} (juju : Juju) (tools : Tools W) (enc : Encoding)
    (new_service : OsServiceParams → Act W (OsService W)) where
  unfoldable pub socket_path : Context → Act W String
  socket_path ctxt = do
    dir ← state_dir juju ctxt
    pure ("@" ++ enc.sha1_hex (join_path (dir ∷ "service" ∷ [])))

  -- A service without a name is named after the unit.
  unfoldable pub name_of : Service → Act W String
  name_of s w =
      if is_empty s.service_name then (juju.unit_tag s.ctxt.unit, w) else (ok s.service_name, w)

  unfoldable pub service_params : Service → String → String → OsServiceParams
  service_params s name content = record {
    name = name;
    description = sprintf "service for juju unit %q" (s.ctxt.unit ∷ []);
    exe = join_path (s.ctxt.charm_dir ∷ "bin" ∷ "runhook" ∷ []);
    args = command_name s.ctxt ∷ enc.encode content ∷ [];
  }

  unfoldable pub os_service : Service → List String → Act W (OsService W)
  unfolding socket_path name_of service_params
  os_service s args = do
    ignore (logf tools s.ctxt "osService with args: %s" (quoted args ∷ []))
    name ← name_of s
    socket ← socket_path s.ctxt
    elim (enc.marshal (record { socket_path = socket; args = args; name = name })) [
      | ok content ↦ new_service (service_params s name content)
      | err e ↦ throw (noted e "cannot marshal parameters" [])
      | panic e ↦ throw e
    ]

  module _ (files : Files W) where
    -- Service.Start, up to the change of the service's own state.
    abbrev pub launch : Service → List String → Act W Unit₀
    launch s args = do
      ignore (logf tools s.ctxt "service start with args %s" (quoted args ∷ []))
      dir ← state_dir juju s.ctxt
      wrap (λ e. noted e "cannot create state directory" []) (files.mkdir_all dir)
      ignore (logf tools s.ctxt "starting service" [])
      os ← os_service s args
      wrap (λ e. noted e "cannot install service" []) os.install
      wrap (λ e. noted e "cannot start service" []) os.start

    unfoldable pub start : List String → Act (Service × W) Unit₀
    unfolding os_service
    start args = do
      s ← own
      outside (launch s args)
      update (λ s. record s { installed = true; args = args })

  abbrev pub halt : Service → Act W Unit₀
  halt s = do os ← os_service s []; wrap masked os.stop

  unfoldable pub stop : Act (Service × W) Unit₀
  unfolding os_service
  stop = do s ← own; outside (halt s)

  unfoldable pub restart : Files W → Act (Service × W) Unit₀
  unfolding start stop
  restart files = do
    wrap (λ e. noted e "cannot stop service" []) stop
    s ← own
    wrap (λ e. noted e "cannot restart service" []) (start files s.args)

  unfoldable pub stop_and_remove : Act (Service × W) Unit₀
  unfolding os_service
  stop_and_remove = do
    s ← own
    if not s.installed then pure tt else do
      outside (do os ← os_service s []; wrap masked os.stop_and_remove)
      update (λ s. record s { installed = false })

-- service/server.go: the other end, as the operating system starts it.
module _ {W A : Type 0} (enc : Encoding) (system_logger : String → Act W Unit₀) where
  abbrev launched : (String → List String → Act W A) → ServiceParams → Act W A
  launched start p = do system_logger p.name; start p.socket_path p.args

  abbrev decoded : (String → List String → Act W A) → String → Act W A
  decoded start arg = do
    content ← wrap (λ e. noted e "cannot base64 decode argument" []) (λ w. (enc.decode arg, w))
    p ←
        wrap (λ e. noted e "cannot json unmarshal argument %q" (content ∷ []))
          (λ w. (enc.unmarshal content, w))
    launched start p

  -- The start function gets the socket path of its context.
  unfoldable pub run_server : (String → List String → Act W A) → List String → Act W A
  run_server start (arg ∷ []) = decoded start arg
  run_server start args = raise (newf "expected exactly one argument, found %s" (quoted args ∷ []))

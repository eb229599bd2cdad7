-- ===== src/ExampleCharms/HelloWorld.antt =====
-- example-charms/helloworld and example-charms/helloworld-configurable: charms that serve a text over
-- HTTP, a fixed one and one of the configuration. The encoding of the argument's type is a parameter.
use Prim.Native.String.{◌++◌}
use gocharm.Base.{String, ℕ, [], Act, noted, ◌>>=◌, wrap, outside, own, update}
use gocharm.Charmbits.HttpService.Charm.{HttpService, ArgType, start}
use gocharm.Charmbits.HttpService.Fields.{ServerState}
use gocharm.Charmbits.Service.{Encoding, OsService, OsServiceParams}
use gocharm.Charmbits.Service.Call.{Rpc}
use gocharm.Hook.Context.{Tools, Context}
use gocharm.Hook.Juju.{Juju}
use gocharm.Hook.Query.{Json, get_config_string}
use gocharm.Hook.Registry.{Unit₀}
use gocharm.Hook.State.{Files}
use gocharm.Base.{List}

pub record Params : Type 0 where
  pub message : String

pub record HelloWorld : Type 0 where
  pub ctxt : Context
  pub svc : HttpService

-- What the two handlers answer to every request.
abbrev pub hello_handler : Unit₀ → String
hello_handler _ = "hello, world\n"

abbrev pub configurable_handler : Params → String
configurable_handler p = p.message ++ "\n"

unfoldable pub set_context : {W : Type 0} → Context → Act (HelloWorld × W) Unit₀
set_context ctxt = update (λ hw. record hw { ctxt = ctxt })

abbrev on_svc : {W A : Type 0} → Act (HttpService × W) A → Act (HelloWorld × W) A
on_svc m (hw, w) = let (r, (svc, w')) = m (hw.svc, w) in (r, (record hw { svc = svc }, w'))

module _ {W Client : Type 0} (juju : Juju) (tools : Tools W) (enc : Encoding)
    (new_service : OsServiceParams → Act W (OsService W)) (json : Json) (files : Files W)
    (rpc : Rpc W Client ServerState (List String)) (retries : ℕ) where
  unfoldable pub hello_start : ArgType Unit₀ → Act (HttpService × W) Unit₀
  unfolding start
  hello_start t = start juju tools enc new_service json files rpc retries t tt

  unfoldable pub configurable_changed : ArgType Params → Act (HelloWorld × W) Unit₀
  unfolding start
  configurable_changed t = do
    hw ← own
    message ←
        wrap (λ e. noted e "cannot get message from configuration" [])
          (outside (get_config_string tools json hw.ctxt "message"))
    on_svc
        (start juju tools enc new_service json files rpc retries t (record { message = message }))

-- ===== src/Charmbits/Service/Call.antt =====
-- charmbits/service/service.go: whether the service runs, and the calls of the running service over
-- its socket. net/rpc is a parameter; so is how often the time that is given allows to dial again.
use gocharm.Base.{String, ℕ, zero, suc, [], ◌∷◌, none, some, Bool, false, not}
use gocharm.Base.{if◌then◌else◌, Act, newf, noted, ok, err, panic, ◌>>=◌, ◌>>◌, pure}
use gocharm.Base.{raise, throw, wrap, ignore, outside, own}
use gocharm.Hook.Context.{Tools, logf}
use gocharm.Hook.Juju.{Juju}
use gocharm.Charmbits.Service.{
  Service, Encoding, OsService, OsServiceParams, os_service, socket_path,
}

-- dialRPC, and Call and Close on the client that it returns.
pub record Rpc (W Client Arg Reply : Type 0) : Type 0 where
  pub dial : String → Act W Client
  pub call : Client → String → Arg → Act W Reply
  pub close : Client → W → W

module _ {W : Type 0} (juju : Juju) (tools : Tools W) (enc : Encoding)
    (new_service : OsServiceParams → Act W (OsService W)) where
  -- The code asserts that the service is the one of implementation.go.
  abbrev running_of : OsService W → Act W Bool
  running_of os = elim os.not_installed [
    | none ↦ throw (newf "interface conversion: service.OSService is not *service.srv" [])
    | some missing ↦ do b ← missing; if b then pure false else os.running
  ]

  unfoldable pub started : Act (Service × W) Bool
  started = do s ← own; outside (do os ← os_service juju tools enc new_service s []; running_of os)

  module _ {Client Arg Reply : Type 0} (rpc : Rpc W Client Arg Reply) where
    -- The loop of Call; the number is how often it can still try again.
    unfoldable pub dial_service : ℕ → String → Act W Client
    dial_service zero path w = wrap (λ e. noted e "cannot dial %q" (path ∷ [])) (rpc.dial path) w
    dial_service (suc n) path w =
        let (r, w') = rpc.dial path w in
        let again = dial_service n path w' in
        elim r [ ok c ↦ (ok c, w') | err _ ↦ again | panic e ↦ (panic e, w') ]

    -- The call on a client that is closed when Call returns.
    abbrev pub call_client : Service → String → Arg → Client → Act W Reply
    call_client s method arg c w =
        let (r, w') =
          (do
            ignore (logf tools s.ctxt "dial succeeded" [])
            wrap (λ e. noted e "local service call failed" []) (rpc.call c method arg))
            w in
        (r, rpc.close c w')

    abbrev pub call_dialled : ℕ → String → Arg → Service → String → Act W Reply
    call_dialled retries method arg s path = do
      c ← dial_service retries path
      call_client s method arg c

    abbrev pub call_at : ℕ → String → Arg → Service → String → Act W Reply
    call_at retries method arg s path = do
      ignore (logf tools s.ctxt "dialing rpc server on %s" (path ∷ []))
      call_dialled retries method arg s path

    abbrev pub call_installed : ℕ → String → Arg → Service → Act W Reply
    call_installed retries method arg s = do
      path ← socket_path juju tools enc new_service s.ctxt
      call_at retries method arg s path

    unfoldable pub call : ℕ → String → Arg → Act (Service × W) Reply
    call retries method arg = do
      s ← own
      if not s.installed
          then raise (newf "service is not started" [])
          else outside (call_installed retries method arg s)

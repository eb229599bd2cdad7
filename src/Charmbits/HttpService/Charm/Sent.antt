-- ===== src/Charmbits/HttpService/Charm/Sent.antt =====
-- charmbits/httpservice/service.go: what the charm has done for the server once a hook ends with
-- success.
use gocharm.Base.{String, ℕ, ◌≡◌, refl, ◌⊎◌, inl, inr, List, [], ◌∷◌, Option, none, some, Bool}
use gocharm.Base.{true, false, arith, Act, Result, ok, err, panic, cause}
use gocharm.Base.{wrap, noted, Bool-cases, Result-cases, if◌then◌else◌, for_each}
use gocharm.Base.{◌≢◌, ◌<◌, str_eq_iff, ap, sym, subst, masked, ignore}
use gocharm.Base.Inversion.{bind-ok, wrap-ok}
use gocharm.Hook.Context.{Tools, Context, logf}
use gocharm.Hook.Juju.{Juju}
use gocharm.Hook.Query.{Json}
use gocharm.Hook.State.{Files}
use gocharm.Charmbits.HttpRelation.{Provider, tls_cert_pem, http_port, https_port}
use gocharm.Charmbits.HttpService.Charm.{
  HttpService, on_svc, is_not_configured, must_stop, server_state, ensure_started, send_state,
  settle, changed_with, changed, note,
}
use gocharm.Charmbits.HttpService.Fields.{ServerState}
use gocharm.Charmbits.Service as Service
use gocharm.Charmbits.Service.{Encoding, OsService, OsServiceParams, os_service, halt}
use gocharm.Charmbits.Service.Answered.{IsAnswered, call-ok}
use gocharm.Charmbits.Service.Call.{Rpc, call}

-- The certificate that goes with what TLSCertPEM has returned; none where a hook ends with an error.
abbrev pub certificate : Result String → Option String
certificate (ok cert) = some cert
certificate (err e) = if is_not_configured (cause e) then some "" else none
certificate (panic e) = none

-- No start has been asked for, or there is nothing to serve.
abbrev pub IsIdle : HttpService → String → Type 0
IsIdle s cert =
    (s.started ≡ false)
    ⊎ ((s.http.opened_http_port ≡ 0) × ((s.http.opened_https_port ≡ 0) ⊎ (cert ≡ "")))

-- A start has been asked for, and there is a port to serve.
abbrev pub IsServing : HttpService → String → Type 0
IsServing s cert =
    (s.started ≡ true)
    × ((0 < s.http.opened_http_port) ⊎ ((0 < s.http.opened_https_port) × (cert ≢ "")))

must_stop-IsIdle : (s : HttpService) (cert : String) → must_stop s cert ≡ true → IsIdle s cert
unfolding http_port https_port
must_stop-IsIdle s cert h = ground (arith, str_eq_iff cert "")

must_stop-IsServing :
    (s : HttpService) (cert : String) → must_stop s cert ≡ false → IsServing s cert
unfolding http_port https_port
must_stop-IsServing s cert h = ground (arith, str_eq_iff cert "")

-- Two states of the charm's side that differ in the record of the service alone.
pub record SameState (s s' : HttpService) : Type 0 where
  pub ctxt : s'.ctxt ≡ s.ctxt
  pub http : s'.http ≡ s.http
  pub arg_data : s'.arg_data ≡ s.arg_data
  pub started : s'.started ≡ s.started
  pub relation_values : s'.relation_values ≡ s.relation_values

module _ {W A : Type 0} where
  pub on_svc-SameState :
      (m : Act (Service.Service × W) A) (s : HttpService) (w : W)
      → SameState s (on_svc m (s, w)).1.0
  on_svc-SameState m s w = record {
    ctxt = refl;
    http = refl;
    arg_data = refl;
    started = refl;
    relation_values = refl;
  }

  on_svc-ok :
      (m : Act (Service.Service × W) A) (s s' : HttpService) (w w' : W) (a : A)
      → on_svc m (s, w) ≡ (ok a, (s', w'))
      → m (s.svc, w) ≡ (ok a, (s'.svc, w'))
  on_svc-ok m s s' w w' a h = ground arith

module _ {W Client : Type 0} (juju : Juju) (tools : Tools W) (enc : Encoding)
    (new_service : OsServiceParams → Act W (OsService W)) (json : Json) (files : Files W)
    (rpc : Rpc W Client ServerState (List String)) (retries : ℕ) where
  ensure_started-SameState :
      (s : HttpService) (w : W)
      → SameState s (ensure_started juju tools enc new_service json files rpc retries (s, w)).1.0
  unfolding ensure_started
  ensure_started-SameState s w = ground arith

  -- The server has answered to exactly the state that is given, and its warnings have been logged.
  abbrev pub IsSent : Context → ServerState → W → Type 0
  IsSent ctxt p w' =
      (warnings : List String) × (w₁ : W) × IsAnswered tools rpc "Srv.Set" p warnings w₁
      × (for_each (λ text. ignore (logf tools ctxt "warning: %s" (text ∷ []))) warnings w₁
          ≡ (ok tt, w'))

  warned-ok :
      (warnings : List String) (s s' : HttpService) (w w' : W)
      → for_each
          (λ text. note juju tools enc new_service json files rpc retries "warning: %s" (text ∷ []))
          warnings
          (s, w)
        ≡ (ok tt, (s', w'))
      → for_each (λ text. ignore (logf tools s.ctxt "warning: %s" (text ∷ []))) warnings w
        ≡ (ok tt, w')
  unfolding for_each
  warned-ok [] s s' w w' h = ground arith
  warned-ok (text ∷ warnings) s s' w w' h =
      let w₁ = (logf tools s.ctxt "warning: %s" (text ∷ []) w).1 in
      let rest : for_each
            (λ text.
              note juju tools enc new_service json files rpc retries "warning: %s" (text ∷ []))
            warnings (s, w₁)
          ≡ (ok tt, (s', w')) =
        ground arith in
      ground (arith, warned-ok warnings s s' w₁ w' rest)

  send_state-ok :
      (cert : String) (s s' : HttpService) (w w' : W)
      → send_state juju tools enc new_service json files rpc retries cert (s, w) ≡ (ok tt, (s', w'))
      → IsSent s.ctxt (server_state s cert) w'
  unfolding send_state
  send_state-ok cert s s' w w' h =
      let sending = call juju tools enc new_service rpc retries "Srv.Set" (server_state s cert) in
      let (warnings, (s₁, w₁), e₁, h₁) =
        bind-ok (wrap (λ e. noted e "cannot set state in server" []) (on_svc sending))
          (for_each (λ text.
            note juju tools enc new_service json files rpc retries "warning: %s" (text ∷ [])))
          (s, w) (s', w') tt h in
      let e₂ =
        wrap-ok (λ e. noted e "cannot set state in server" []) (on_svc sending) (s, w) (s₁, w₁)
          warnings e₁ in
      let (_, _, answered) =
        call-ok juju tools enc new_service rpc retries "Srv.Set" (server_state s cert) s.svc s₁.svc
          w w₁ warnings (on_svc-ok sending s s₁ w w₁ warnings e₂) in
      let same : s₁.ctxt ≡ s.ctxt = ground arith in
      (
        warnings,
        w₁,
        answered,
        subst
            (λ c.
              for_each (λ text. ignore (logf tools c "warning: %s" (text ∷ []))) warnings w₁
              ≡ (ok tt, w'))
            same (warned-ok warnings s₁ s' w₁ w' h₁),
      )

  -- The operating system's service has been stopped.
  abbrev pub IsStopped : HttpService → W → Type 0
  IsStopped s w' =
      (os : OsService W) × (w₀ w₁ : W) × (os_service juju tools enc new_service s.svc [] w₀
        ≡ (ok os, w₁))
      × (os.stop w₁ ≡ (ok tt, w'))

  stop-ok :
      (s s₁ : HttpService) (svc : Service.Service) (w w' : W)
      → s₁ ≡ s
      → Service.stop juju tools enc new_service (s₁.svc, w) ≡ (ok tt, (svc, w'))
      → IsStopped s w'
  unfolding Service.stop
  stop-ok s s₁ svc w w' same h =
      let (os, w₁, found, h₁) =
        bind-ok (os_service juju tools enc new_service s.svc []) (λ os. wrap masked os.stop) w w' tt
          (ground arith) in
      (os, w, w₁, found, wrap-ok masked os.stop w₁ w' tt h₁)

  -- What the hook has come to: the service is stopped where it must be, and where it need not be the
  -- server has answered to exactly the present state.
  abbrev pub IsSettled : HttpService → String → W → Type 0
  IsSettled s cert w' =
      (IsIdle s cert × IsStopped s w')
      ⊎ (IsServing s cert
          × IsSent s.ctxt
              (record {
                http_port = s.http.opened_http_port;
                https_port = s.http.opened_https_port;
                cert_pem = cert;
                arg_data = s.arg_data;
                relation_values = s.relation_values;
              })
              w')

  settle-ok :
      (b : Bool) (cert : String) (s s' : HttpService) (w w' : W)
      → must_stop s cert ≡ b
      → settle juju tools enc new_service json files rpc retries b cert (s, w) ≡ (ok tt, (s', w'))
      → IsSettled s cert w'
  unfolding settle http_port https_port
  settle-ok true cert s s' w w' b h =
      let stopping = Service.stop juju tools enc new_service in
      let (_, (s₁, w₁), e₁, h₁) =
        bind-ok
          (note juju tools enc new_service json files rpc retries "httpservice: stopping service"
            [])
          (λ _. on_svc stopping) (s, w) (s', w') tt h in
      let same : s₁ ≡ s = ground arith in
      let e₂ = on_svc-ok stopping s₁ s' w₁ w' tt h₁ in
      inl (must_stop-IsIdle s cert b, stop-ok s s₁ s'.svc w₁ w' same e₂)
  settle-ok false cert s s' w w' b h =
      let (_, (s₁, w₁), e₁, h₁) =
        bind-ok (ensure_started juju tools enc new_service json files rpc retries)
          (λ _. send_state juju tools enc new_service json files rpc retries cert) (s, w) (s', w')
          tt h in
      let kept = ensure_started-SameState s w in
      let same : server_state s₁ cert ≡ server_state s cert = ground arith in
      let alike : s₁.ctxt ≡ s.ctxt = ground arith in
      inr (
        must_stop-IsServing s cert b,
        subst (λ c. IsSent c (server_state s cert) w') alike
            (subst (λ p. IsSent s₁.ctxt p w') same (send_state-ok cert s₁ s' w₁ w' h₁)),
      )

  changed_with-ok :
      (cert : String) (s s₁ s' : HttpService) (w w' : W)
      → s₁ ≡ s
      → changed_with juju tools enc new_service json files rpc retries cert (s₁, w)
        ≡ (ok tt, (s', w'))
      → IsSettled s cert w'
  unfolding changed_with
  changed_with-ok cert s s₁ s' w w' same h =
      settle-ok (must_stop s cert) cert s s' w w' refl (rw (sym same) h)

  tls_cert_pem-kept : (p : Provider) (w : W) → (tls_cert_pem tools json (p, w)).1.0 ≡ p
  unfolding tls_cert_pem
  tls_cert_pem-kept p w = ground arith

  -- A hook whose changed ends with success had a certificate or HTTPS that is not configured. If
  -- the service must be stopped, because no start was asked for or because there is neither an
  -- http port nor an https port with a certificate, the operating system's service was stopped
  -- with success. Otherwise the server has answered to a Srv.Set with exactly the ports on
  -- record, the certificate, the argument and the relation data, on a client that was dialled
  -- and has been closed, and its warnings have been logged.
  pub changed-ok :
      (s s' : HttpService) (w w' : W)
      → changed juju tools enc new_service json files rpc retries (s, w) ≡ (ok tt, (s', w'))
      → (cert : String) × (certificate (tls_cert_pem tools json (s.http, w)).0 ≡ some cert)
        × IsSettled s cert w'
  unfolding changed
  changed-ok s s' w w' h =
      let (p, w₁) = (tls_cert_pem tools json (s.http, w)).1 in
      let same : record s { http = p } ≡ s =
        ap (λ p. record s { http = p }) (tls_cert_pem-kept s.http w) in
      elim (Result-cases (tls_cert_pem tools json (s.http, w)).0) [
        | inl (cert, e) ↦ (
          cert,
          ap certificate e,
          changed_with-ok cert s (record s { http = p }) s' w₁ w' same (ground arith),
        )
        | inr (inl (x, e)) ↦ elim (Bool-cases (is_not_configured (cause x))) [
          | inl bare ↦ (
            "",
            ground arith,
            changed_with-ok "" s (record s { http = p }) s' w₁ w' same (ground arith),
          )
          | inr odd ↦ absurd (ground arith)
        ]
        | inr (inr (x, e)) ↦ absurd (ground arith)
      ]

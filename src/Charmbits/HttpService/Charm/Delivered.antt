-- ===== src/Charmbits/HttpService/Charm/Delivered.antt =====
-- charmbits/httpservice: the two sides together, a hook of the charm and the server that it calls.
use gocharm.Base.{String, ℕ, ◌≡◌, subst, inl, inr, List, [], some}
use gocharm.Base.{arith, Act, ok}
use gocharm.Base.Dict.{Dict}
use gocharm.Base.{◌∷◌, ignore, for_each}
use gocharm.Base.Inversion.{bind-ok}
use gocharm.Base.Texts.{sprintf}
use gocharm.Hook.Context.{Tools, Context, logf}
use gocharm.Hook.Juju.{Juju}
use gocharm.Hook.Query.{Json}
use gocharm.Hook.State.{Files}
use gocharm.Charmbits.HttpRelation.{tls_cert_pem}
use gocharm.Charmbits.HttpService.Charm.{HttpService, changed}
use gocharm.Charmbits.HttpService.Charm.Sent.{IsServing, IsSettled, IsSent, certificate, changed-ok}
use gocharm.Charmbits.HttpService.Fields.{ServerState, Server, RegisteredRelation}
use gocharm.Charmbits.HttpService.Persisted.{StateCodec, load_state, handle_set}
use gocharm.Charmbits.HttpService.Restored.{IsFiles, IsCodec, load_state-handle_set}
use gocharm.Charmbits.HttpService.Server.{HandlerInfo, Network, Setting}
use gocharm.Charmbits.Service.{Encoding, OsService, OsServiceParams}
use gocharm.Charmbits.Service.Call.{Rpc}

module _ {V Val Data Arg Listener Handler : Type 0} (codec : StateCodec) (files : Files V)
    (dir_of : String → String) (registered : Dict (RegisteredRelation V Val Data))
    (zero_of : String → Val) (info : HandlerInfo V Val Arg Handler)
    (net : Network V Listener Handler) where
  handle_set-state :
      (p : ServerState) (s s' : Setting Val Listener Handler) (w w' : V)
      → handle_set codec files dir_of registered zero_of info net p (s, w) ≡ (ok tt, (s', w'))
      → s'.server.state ≡ p
  unfolding handle_set
  handle_set-state p s s' w w' h = ground arith

  -- The call of Srv.Set over net/rpc, in a world `W` that holds the server and the server's own world:
  -- an answer that is no error is that of the server's Set, and its warnings. Neither the end of the
  -- connection nor a hook tool touches the server.
  pub record IsServed {W Client : Type 0} (tools : Tools W)
      (rpc : Rpc W Client ServerState (List String)) (server_of : W → Server Val Listener Handler)
      (world_of : W → V) : Type 0 where
    pub calls :
        (c : Client) (p : ServerState) (warnings : List String) (w w' : W)
        → rpc.call c "Srv.Set" p w ≡ (ok warnings, w')
        → handle_set codec files dir_of registered zero_of info net p
            (record { server = server_of w; warnings = [] }, world_of w)
          ≡ (ok tt, (record { server = server_of w'; warnings = warnings }, world_of w'))
    pub closes :
        (c : Client) (w : W)
        → (server_of (rpc.close c w) ≡ server_of w) × (world_of (rpc.close c w) ≡ world_of w)
    pub runs :
        (cmd : String) (args : List String) (w : W)
        → (server_of (tools.run cmd args w).1 ≡ server_of w)
          × (world_of (tools.run cmd args w).1 ≡ world_of w)

  module _ {W Client : Type 0} (juju : Juju) (tools : Tools W) (enc : Encoding)
      (new_service : OsServiceParams → Act W (OsService W)) (json : Json) (charm_files : Files W)
      (rpc : Rpc W Client ServerState (List String)) (retries : ℕ)
      (server_of : W → Server Val Listener Handler) (world_of : W → V)
      (served : IsServed tools rpc server_of world_of) where
    log_kept :
        (ctxt : Context) (text : String) (w : W)
        → let w' = (ignore (logf tools ctxt "warning: %s" (text ∷ [])) w).1 in
          (server_of w' ≡ server_of w) × (world_of w' ≡ world_of w)
    unfolding logf
    log_kept ctxt text w =
        ground (arith, served.runs "juju-log" (sprintf "warning: %s" (text ∷ []) ∷ []) w)

    logs_kept :
        (ctxt : Context) (texts : List String) (w w' : W)
        → for_each (λ text. ignore (logf tools ctxt "warning: %s" (text ∷ []))) texts w
          ≡ (ok tt, w')
        → (server_of w' ≡ server_of w) × (world_of w' ≡ world_of w)
    unfolding for_each
    logs_kept ctxt [] w w' h = ground arith
    logs_kept ctxt (text ∷ texts) w w' h =
        let w₁ = (ignore (logf tools ctxt "warning: %s" (text ∷ [])) w).1 in
        let (_, _, first, rest) =
          bind-ok (ignore (logf tools ctxt "warning: %s" (text ∷ [])))
            (λ _. for_each (λ text. ignore (logf tools ctxt "warning: %s" (text ∷ []))) texts) w w'
            tt h in
        ground (arith, log_kept ctxt text w, logs_kept ctxt texts w₁ w' (ground arith))

    -- The server has the charm's present state, and so has one that is started on its directory.
    abbrev pub IsDelivered : HttpService → String → W → Type 0
    IsDelivered s cert w =
        let sent : ServerState = record {
          http_port = s.http.opened_http_port;
          https_port = s.http.opened_https_port;
          cert_pem = cert;
          arg_data = s.arg_data;
          relation_values = s.relation_values;
        } in
        ((server_of w).state ≡ sent)
        × (load_state codec files dir_of (server_of w).state_dir (world_of w)
            ≡ (ok sent, world_of w))

    delivered :
        (s : HttpService) (cert : String) (w' : W)
        → IsCodec codec
        → IsFiles files
        → IsSent juju tools enc new_service json charm_files rpc retries s.ctxt
            (record {
              http_port = s.http.opened_http_port;
              https_port = s.http.opened_https_port;
              cert_pem = cert;
              arg_data = s.arg_data;
              relation_values = s.relation_values;
            })
            w'
        → IsDelivered s cert w'
    delivered s cert w' coded lawful
          (warnings, w₁, (path, c, ctxt, w₀, w₂, w₃, w₄, dialled, logged, answered, closed), said) =
        let p : ServerState = record {
          http_port = s.http.opened_http_port;
          https_port = s.http.opened_https_port;
          cert_pem = cert;
          arg_data = s.arg_data;
          relation_values = s.relation_values;
        } in
        let set = served.calls c p warnings w₃ w₄ answered in
        let before : Setting Val Listener Handler = record {
          server = server_of w₃;
          warnings = [];
        } in
        let after : Setting Val Listener Handler = record {
          server = server_of w₄;
          warnings = warnings;
        } in
        let (same, alike) = logs_kept s.ctxt warnings w₁ w' said in
        let (shut, outer) = served.closes c w₄ in
        let server : server_of w' ≡ server_of w₄ = ground arith in
        let world : world_of w' ≡ world_of w₄ = ground arith in
        rw server (
          rw world (
            handle_set-state p before after (world_of w₃) (world_of w₄) set,
            load_state-handle_set codec files dir_of coded lawful registered zero_of info net p
                before after (world_of w₃) (world_of w₄) set,
          ))

    going_on :
        (s : HttpService) (cert : String) (w' : W)
        → IsServing s cert
        → IsCodec codec
        → IsFiles files
        → IsSettled juju tools enc new_service json charm_files rpc retries s cert w'
        → IsDelivered s cert w'
    going_on s cert w' going coded lawful (inl (stopping, _)) = absurd (ground arith)
    going_on s cert w' going coded lawful (inr (_, sent)) = delivered s cert w' coded lawful sent

    -- The two sides together: where the call of Srv.Set reaches the server's Set, hook tools and
    -- the end of the connection leave the server alone, a written file reads as written and JSON
    -- decodes what it encodes, a hook whose changed ends with success where a start was asked
    -- for and there is an http port or an https port with a certificate, leaves a server whose
    -- state is exactly the ports on record, the certificate, the argument and the relation data
    -- of the charm, and a server that is started again on its directory loads just that state.
    pub load_state-changed :
        (s s' : HttpService) (cert : String) (w w' : W)
        → IsCodec codec
        → IsFiles files
        → changed juju tools enc new_service json charm_files rpc retries (s, w) ≡ (ok tt, (s', w'))
        → certificate (tls_cert_pem tools json (s.http, w)).0 ≡ some cert
        → IsServing s cert
        → IsDelivered s cert w'
    load_state-changed s s' cert w w' coded lawful h e going =
        let (cert', e', settled) =
          changed-ok juju tools enc new_service json charm_files rpc retries s s' w w' h in
        let same : cert' ≡ cert = ground arith in
        going_on s cert w' going coded lawful (
          subst (λ c. IsSettled juju tools enc new_service json charm_files rpc retries s c w') same
            settled)

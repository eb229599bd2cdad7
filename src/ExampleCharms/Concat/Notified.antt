-- ===== src/ExampleCharms/Concat/Notified.antt =====
-- example-charms/concat/runhook.go: what a finally that succeeds has notified.
use gocharm.Base.{String, ℕ, ◌≡◌, List, [], ◌∷◌, ok, false, arith, Act}
use gocharm.Base.{◌>>=◌, ◌>>◌, wrap, own, masked, noted, for_each}
use gocharm.Base.Dict.{lookup}
use gocharm.Base.Inversion.{bind-ok, wrap-ok}
use gocharm.Charmbits.HttpRelation.{http_port}
use gocharm.Charmbits.Service.{Encoding, OsService, OsServiceParams}
use gocharm.Charmbits.Service.Answered.{IsAnswered, call-ok}
use gocharm.Charmbits.Service.Call.{Rpc, call}
use gocharm.Hook.Context.{Tools, entries}
use gocharm.Hook.Juju.{Juju}
use gocharm.Hook.Registry.{Unit₀}
use gocharm.Hook.State.{Files}
use gocharm.ExampleCharms.Concat.{Concatenator, ServerState, on_service, ensure_started, send_state}
use gocharm.ExampleCharms.Concat.{notify_server, notify_downstream, commit, finally, same_state}
use gocharm.ExampleCharms.Concat.{note, notify_one, settle, shown}
use gocharm.ExampleCharms.Concat.Committed.{ensure_started-Keeps, notify_server-Keeps, Keeps-ok}
use gocharm.Base.{subst}
use gocharm.ExampleCharms.Concat.{set_downstream_val}

module _ {W Client : Type 0} (tools : Tools W) (juju : Juju) (enc : Encoding)
    (new_service : OsServiceParams → Act W (OsService W)) (files : Files W)
    (rpc : Rpc W Client ServerState Unit₀) (retries : ℕ) where
  abbrev pub sent_state : Concatenator → ServerState
  sent_state c = record { val = c.new_state.val; port = http_port c.http }

  abbrev pub downstream_ids : Concatenator → List String
  downstream_ids c = entries (lookup "downstream" c.ctxt.relation_ids)

  -- The server has answered to the new state, and each downstream relation has then been set.
  abbrev pub IsNotified : Concatenator → W → Type 0
  IsNotified c w' =
      (w₁ : W) × IsAnswered tools rpc "ConcatServer.Set" (sent_state c) tt w₁
      × (for_each (notify_one tools c) (downstream_ids c) w₁ ≡ (ok tt, w'))

  send_state-ok :
      (c c' : Concatenator) (w w' : W)
      → send_state tools juju enc new_service files rpc retries c (c, w) ≡ (ok tt, (c', w'))
      → IsAnswered tools rpc "ConcatServer.Set" (sent_state c) tt w'
  send_state-ok c c' w w' h =
      let sending = call juju tools enc new_service rpc retries "ConcatServer.Set" (sent_state c) in
      let inner =
        wrap-ok (λ e. noted e "cannot set state in server" []) (on_service sending) (c, w) (c', w')
          tt h in
      let (_, _, answered) =
        call-ok juju tools enc new_service rpc retries "ConcatServer.Set" (sent_state c) c.svc
          c'.svc w w' tt (ground arith) in
      answered

  notify_server-ok :
      (c c' : Concatenator) (w w' : W)
      → notify_server tools juju enc new_service files rpc retries (c, w) ≡ (ok tt, (c', w'))
      → IsAnswered tools rpc "ConcatServer.Set" (sent_state c) tt w'
  unfolding notify_server
  notify_server-ok c c' w w' h =
      let sending = send_state tools juju enc new_service files rpc retries in
      let (_, (c₁, w₁), started, h₁) =
        bind-ok (ensure_started tools juju enc new_service files rpc retries) (λ _. own >>= sending)
          (c, w) (c', w') tt h in
      let kept =
        Keeps-ok (ensure_started tools juju enc new_service files rpc retries) c c₁ w w₁ tt
          (ensure_started-Keeps tools juju enc new_service files rpc retries) started in
      subst (λ (x : Concatenator). IsAnswered tools rpc "ConcatServer.Set" (sent_state x) tt w')
        kept (send_state-ok c₁ c' w₁ w' h₁)

  notify_downstream-ok :
      (c c' : Concatenator) (w w' : W)
      → (notify_downstream tools >> commit) (c, w) ≡ (ok tt, (c', w'))
      → for_each (notify_one tools c) (downstream_ids c) w ≡ (ok tt, w')
  notify_downstream-ok c c' w w' h = ground arith

  -- The step from the charm as it was before the server was notified.
  notify_downstream-kept :
      (c c₁ c' : Concatenator) (w w' : W)
      → c₁ ≡ record c { svc = c₁.svc }
      → (notify_downstream tools >> commit) (c₁, w) ≡ (ok tt, (c', w'))
      → for_each (notify_one tools c) (downstream_ids c) w ≡ (ok tt, w')
  unfolding set_downstream_val
  notify_downstream-kept c c₁ c' w w' kept h =
      subst (λ (x : Concatenator). for_each (notify_one tools x) (downstream_ids x) w ≡ (ok tt, w'))
        kept (notify_downstream-ok c₁ c' w w' h)

  pub finally-IsNotified :
      (c c' : Concatenator) (w w' : W)
      → finally tools juju enc new_service files rpc retries (c, w) ≡ (ok tt, (c', w'))
      → same_state c.new_state c.state ≡ false
      → IsNotified c w'
  unfolding finally
  finally-IsNotified c c' w w' h differ =
      let server = notify_server tools juju enc new_service files rpc retries in
      let texts = shown c.state ∷ shown c.new_state ∷ [] in
      let said = note tools c.ctxt "concat state changed from %v to %v" texts in
      let rest = notify_downstream tools >> commit in
      let h' : settle tools juju enc new_service files rpc retries c false (c, w)
          ≡ (ok tt, (c', w')) =
        subst
          (λ b. settle tools juju enc new_service files rpc retries c b (c, w) ≡ (ok tt, (c', w')))
          differ h in
      let w₁ = (said w).1 in
      let h₁ : (wrap masked server >> rest) (c, w₁) ≡ (ok tt, (c', w')) = ground arith in
      let (_, (c₂, w₂), told, h₂) =
        bind-ok (wrap masked server) (λ _. rest) (c, w₁) (c', w') tt h₁ in
      let set = wrap-ok masked server (c, w₁) (c₂, w₂) tt told in
      let kept =
        Keeps-ok server c c₂ w₁ w₂ tt
          (notify_server-Keeps tools juju enc new_service files rpc retries) set in
      (w₂, notify_server-ok c c₂ w₁ w₂ set, notify_downstream-kept c c₂ c' w₂ w' kept h₂)

-- ===== src/Charmbits/Service/Answered.antt =====
-- charmbits/service/service.go: what a call of the running service that succeeds has done.
use gocharm.Base.{String, ℕ, zero, suc, ◌≡◌, [], ◌∷◌, true}
use gocharm.Base.{arith, Act, ok, ignore}
use gocharm.Base.{Bool-cases, Result-cases, inl, inr}
use gocharm.Base.Inversion.{bind-ok}
use gocharm.Hook.Context.{Tools, Context, logf}
use gocharm.Hook.Juju.{Juju}
use gocharm.Charmbits.Service.{Service, Encoding, OsService, OsServiceParams, socket_path}
use gocharm.Charmbits.Service.Call.{
  Rpc, dial_service, call_client, call_installed, call_at, call_dialled, call,
}

module _ {W Client Arg Reply : Type 0} (tools : Tools W) (rpc : Rpc W Client Arg Reply) where
  -- The method has been called with the argument and has answered, on a client that had been dialled
  -- just before, but for a line of the log, and that has been closed since.
  abbrev pub IsAnswered : String → Arg → Reply → W → Type 0
  IsAnswered method arg r w' =
      (path : String) × (c : Client) × (ctxt : Context) × (w₀ w₁ w₂ w₃ : W) × (rpc.dial path w₀
        ≡ (ok c, w₁))
      × (ignore (logf tools ctxt "dial succeeded" []) w₁ ≡ (ok tt, w₂))
      × (rpc.call c method arg w₂ ≡ (ok r, w₃))
      × (w' ≡ rpc.close c w₃)

module _ {W Client Arg Reply : Type 0} (juju : Juju) (tools : Tools W) (enc : Encoding)
    (new_service : OsServiceParams → Act W (OsService W)) (rpc : Rpc W Client Arg Reply) where
  dial_service-ok :
      (n : ℕ) (path : String) (c : Client) (w w' : W)
      → dial_service juju tools enc new_service rpc n path w ≡ (ok c, w')
      → (w₀ : W) × (rpc.dial path w₀ ≡ (ok c, w'))
  unfolding dial_service
  dial_service-ok zero path c w w' h = (w, ground arith)
  dial_service-ok (suc n) path c w w' h =
      let w₁ = (rpc.dial path w).1 in
      elim (Result-cases (rpc.dial path w).0) [
        | inl (a, e) ↦ (w, ground arith)
        | inr (inl (x, e)) ↦ dial_service-ok n path c w₁ w' (ground arith)
        | inr (inr (x, e)) ↦ absurd (ground arith)
      ]

  call_client-ok :
      (s : Service) (method : String) (arg : Arg) (c : Client) (r : Reply) (w w' : W)
      → call_client juju tools enc new_service rpc s method arg c w ≡ (ok r, w')
      → (w₁ w₂ : W) × (ignore (logf tools s.ctxt "dial succeeded" []) w ≡ (ok tt, w₁))
        × (rpc.call c method arg w₁ ≡ (ok r, w₂))
        × (w' ≡ rpc.close c w₂)
  call_client-ok s method arg c r w w' h =
      let w₁ = (logf tools s.ctxt "dial succeeded" [] w).1 in
      (w₁, (rpc.call c method arg w₁).1, ground arith, ground arith, ground arith)

  call_installed-ok :
      (n : ℕ) (method : String) (arg : Arg) (s : Service) (r : Reply) (w w' : W)
      → call_installed juju tools enc new_service rpc n method arg s w ≡ (ok r, w')
      → IsAnswered tools rpc method arg r w'
  call_installed-ok n method arg s r w w' h =
      let (path, w₁, e₁, h₁) =
        bind-ok (socket_path juju tools enc new_service s.ctxt)
          (call_at juju tools enc new_service rpc n method arg s) w w' r h in
      let (_, w₂, e₂, h₂) =
        bind-ok (ignore (logf tools s.ctxt "dialing rpc server on %s" (path ∷ [])))
          (λ _. call_dialled juju tools enc new_service rpc n method arg s path) w₁ w' r h₁ in
      let (c, w₃, e₃, h₃) =
        bind-ok (dial_service juju tools enc new_service rpc n path)
          (call_client juju tools enc new_service rpc s method arg) w₂ w' r h₂ in
      let (w₀, dialled) = dial_service-ok n path c w₂ w₃ e₃ in
      let (w₄, w₅, logged, answered, closed) = call_client-ok s method arg c r w₃ w' h₃ in
      (path, c, s.ctxt, w₀, w₃, w₄, w₅, dialled, logged, answered, closed)

  pub call-ok :
      (n : ℕ) (method : String) (arg : Arg) (s s' : Service) (w w' : W) (r : Reply)
      → call juju tools enc new_service rpc n method arg (s, w) ≡ (ok r, (s', w'))
      → (s.installed ≡ true) × (s' ≡ s) × IsAnswered tools rpc method arg r w'
  unfolding call
  call-ok n method arg s s' w w' r h = elim (Bool-cases s.installed) [
    | inr missing ↦ absurd (ground arith)
    | inl there ↦ (there, ground arith, call_installed-ok n method arg s r w w' (ground arith))
  ]

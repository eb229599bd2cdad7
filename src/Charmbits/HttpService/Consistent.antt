-- ===== src/Charmbits/HttpService/Consistent.antt =====
-- charmbits/httpservice/server.go: what the listeners on record are after a new state is set.
use gocharm.Base.{String, ◌≡◌, ◌≢◌, inl, inr, refl, List, Option, none, some, false, arith}
use gocharm.Base.{Result, Error, ok, err, panic, cause, Bool-cases, Result-cases, not, ◌&&◌}
use gocharm.Base.{str_eq_iff, sym, ◌∙◌}
use gocharm.Hook.State.{Files}
use gocharm.Charmbits.HttpService.Persisted.{StateCodec, handle_set}
use gocharm.Charmbits.HttpService.Warnings.{set-ne_err}
use gocharm.Base.Dict.{Dict}
use gocharm.Hook.Registry.{Unit₀}
use gocharm.Charmbits.HttpService.Fields.{
  ServerState, Server, RegisteredRelation, is_restart, set_relations,
}
use gocharm.Charmbits.HttpService.Server.{
  HandlerInfo, Network, Setting, restart_handler, renewed, after_renewal, go_on, stopped,
  after_relations, set, needs_restart, http_ok, https_ok, is_some,
}
use gocharm.Charmbits.HttpService.Listeners.{
  SameRunning, set_relations-SameRunning, IsClosed, close_resources-IsClosed, IsServing,
  IsServing-of_IsClosed, start_handler-IsServing,
}

module _ {W Val Data Arg Listener Handler : Type 0}
    (registered : Dict (RegisteredRelation W Val Data)) (zero_of : String → Val)
    (info : HandlerInfo W Val Arg Handler) (net : Network W Listener Handler) where
  still-IsClosed : (s t : Server Val Listener Handler) → SameRunning s t → IsClosed s → IsClosed t
  still-IsClosed s t same c = ground arith

  abbrev Serves : ServerState → Setting Val Listener Handler → Type 0
  Serves p s = IsServing registered zero_of info net p s.server

  after_renewal-IsServing :
      (p : ServerState) (r : Result Unit₀) (s : Setting Val Listener Handler) (w : W)
      → IsClosed s.server
      → (after_renewal registered zero_of info net p r (s, w)).0 ≡ ok tt
      → Serves p (after_renewal registered zero_of info net p r (s, w)).1.0
  after_renewal-IsServing p (ok _) s w c good =
      start_handler-IsServing registered zero_of info net p s w c good
  after_renewal-IsServing p (err e) s w c good =
      IsServing-of_IsClosed registered zero_of info net p s.server c
  after_renewal-IsServing p (panic e) s w c good = cc

  renewed-IsServing :
      (p : ServerState) (o : Option (List Val)) (s : Setting Val Listener Handler) (w : W)
      → IsClosed s.server
      → (renewed registered zero_of info net p o (s, w)).0 ≡ ok tt
      → Serves p (renewed registered zero_of info net p o (s, w)).1.0
  renewed-IsServing p (some vs) s w c good =
      start_handler-IsServing registered zero_of info net p s w c good
  renewed-IsServing p none s w c good =
      let (r, (srv, w')) = set_relations registered zero_of info.relation_type p (s.server, w) in
      after_renewal-IsServing p r (record s { server = srv }) w'
        (still-IsClosed s.server srv
          (set_relations-SameRunning registered zero_of info.relation_type p s.server w) c)
        good

  go_on-IsServing :
      (p : ServerState) (r : Result Unit₀) (s : Setting Val Listener Handler) (w : W)
      → IsClosed s.server
      → (go_on registered zero_of info net p r (s, w)).0 ≡ ok tt
      → Serves p (go_on registered zero_of info net p r (s, w)).1.0
  go_on-IsServing p (ok _) s w c good = renewed-IsServing p s.server.relation_state s w c good
  go_on-IsServing p (err e) s w c good = cc
  go_on-IsServing p (panic e) s w c good = cc

  stopped-IsClosed :
      (o : Option Handler) (p : ServerState) (s : Setting Val Listener Handler) (w : W)
      → s.server.handler ≡ o
      → Serves p s
      → IsClosed (stopped registered zero_of info net o (s, w)).1.0.server
  stopped-IsClosed none p s w e h =
      let (a, b) = h.idle e in record { handler = e; http_listener = a; https_listener = b }
  stopped-IsClosed (some x) p s w e h =
      close_resources-IsClosed registered zero_of info net s.server w

  restart_handler-IsServing :
      (p q : ServerState) (s : Setting Val Listener Handler) (w : W)
      → Serves q s
      → (restart_handler registered zero_of info net p (s, w)).0 ≡ ok tt
      → Serves p (restart_handler registered zero_of info net p (s, w)).1.0
  unfolding restart_handler
  restart_handler-IsServing p q s w h good =
      let (r, (s', w')) = stopped registered zero_of info net s.server.handler (s, w) in
      go_on-IsServing p r s' w' (stopped-IsClosed s.server.handler q s w refl h) good

  -- Where no restart is needed the ports and the certificate are those that there are.
  same_ports :
      (p : ServerState) (s : Server Val Listener Handler)
      → needs_restart s p ≡ false
      → (p.http_port ≡ s.state.http_port)
        × (p.https_port ≡ s.state.https_port)
        × (p.cert_pem ≡ s.state.cert_pem)
  unfolding needs_restart
  same_ports p s same = ground (arith, str_eq_iff p.cert_pem s.state.cert_pem)

  kept-IsServing :
      (p : ServerState) (s : Setting Val Listener Handler)
      → needs_restart s.server p ≡ false
      → Serves s.server.state s
      → Serves p s
  kept-IsServing p s same h =
      let (e₁, e₂, e₃) = same_ports p s.server same in
      record {
        idle = h.idle;
        http = λ l x a b. rw e₁ (h.http l x a b);
        https = λ l x a b. rw (e₂, e₃) (h.https l x a b);
      }

  after_relations-IsServing :
      (p : ServerState) (r : Result Unit₀) (s : Setting Val Listener Handler) (w : W)
      → Serves s.server.state s
      → (after_relations registered zero_of info net p r (s, w)).0 ≡ ok tt
      → Serves p (after_relations registered zero_of info net p r (s, w)).1.0
  after_relations-IsServing p (panic e) s w h good = cc
  after_relations-IsServing p (ok _) s w h good =
      elim (Bool-cases (not (needs_restart s.server p) && is_some s.server.handler)) [
        | inl keep ↦ rw keep (kept-IsServing p s (ground arith) h)
        | inr change ↦
            rw change (restart_handler-IsServing p s.server.state s w h (rw change at good))
      ]
  after_relations-IsServing p (err e) s w h good = elim (Bool-cases (is_restart (cause e))) [
    | inl again ↦ rw again (restart_handler-IsServing p s.server.state s w h (rw again at good))
    | inr other ↦ rw other (
        IsServing-of_IsClosed registered zero_of info net p _ (
          let c = close_resources-IsClosed registered zero_of info net s.server w in
          record {
            handler = ground arith;
            http_listener = ground arith;
            https_listener = ground arith;
          }))
  ]

  SameRunning-IsServing :
      (s t : Server Val Listener Handler)
      → SameRunning s t
      → IsServing registered zero_of info net s.state s
      → IsServing registered zero_of info net t.state t
  SameRunning-IsServing s t same h = record {
    idle = λ e.
        let (a, b) = h.idle (sym same.handler ∙ e) in
        (same.http_listener ∙ a, same.https_listener ∙ b);
    http =
        λ l x a b. rw same.state (h.http l x (sym same.http_listener ∙ a) (sym same.handler ∙ b));
    https =
        λ l x a b. rw same.state (h.https l x (sym same.https_listener ∙ a) (sym same.handler ∙ b));
  }

  pub set-IsServing :
      (p : ServerState) (s : Setting Val Listener Handler) (w : W)
      → Serves s.server.state s
      → (set registered zero_of info net p (s, w)).0 ≡ ok tt
      → Serves p (set registered zero_of info net p (s, w)).1.0
  unfolding set
  set-IsServing p s w h good = elim (Bool-cases (not (http_ok p) && not (https_ok p))) [
    | inl none_wanted ↦ rw none_wanted (
        IsServing-of_IsClosed registered zero_of info net p _
          (close_resources-IsClosed registered zero_of info net s.server w))
    | inr wanted ↦
        let (r, (srv, w')) = set_relations registered zero_of info.relation_type p (s.server, w) in
        rw wanted (
          after_relations-IsServing p r (record s { server = srv }) w'
            (SameRunning-IsServing s.server srv
              (set_relations-SameRunning registered zero_of info.relation_type p s.server w) h)
            (rw wanted at good))
  ]

  module _ (codec : StateCodec) (files : Files W) (dir_of : String → String) where
    abbrev answer :
        ServerState
        → Setting Val Listener Handler
        → W
        → Result Unit₀ × (Setting Val Listener Handler × W)
    answer p s w = handle_set codec files dir_of registered zero_of info net p (s, w)

    -- A call that does not panic has set the state without one.
    pub set-ok :
        (p : ServerState) (s : Setting Val Listener Handler) (w : W)
        → ((e : Error) → (answer p s w).0 ≢ panic e)
        → (set registered zero_of info net p (s, w)).0 ≡ ok tt
    unfolding handle_set
    set-ok p s w calm = elim (Result-cases (set registered zero_of info net p (s, w)).0) [
      | inl (_, e) ↦ e
      | inr (inl (x, e)) ↦ cc (set-ne_err registered zero_of info net p s w, e)
      | inr (inr (x, e)) ↦ absurd (calm x (ground arith))
    ]

    server_after :
        (p : ServerState) (s : Setting Val Listener Handler) (w : W)
        → (set registered zero_of info net p (s, w)).0 ≡ ok tt
        → (answer p s w).1.0.server
          ≡ record (set registered zero_of info net p (s, w)).1.0.server { state = p }
    unfolding handle_set
    server_after p s w good = ground arith

    -- Whatever fails on the way, so long as nothing panics: after Set the state on record is the
    -- one that was sent, each listener on record was opened on its port, with its certificate,
    -- for the handler that is on record, and no listener is on record without a handler.
    pub handle_set-IsServing :
        (p : ServerState) (s : Setting Val Listener Handler) (w : W)
        → Serves s.server.state s
        → ((e : Error) → (answer p s w).0 ≢ panic e)
        → ((answer p s w).1.0.server.state ≡ p) × Serves p (answer p s w).1.0
    handle_set-IsServing p s w h calm =
        let good = set-ok p s w calm in
        let k = set-IsServing p s w h good in
        rw (server_after p s w good)
          (refl, record { idle = k.idle; http = k.http; https = k.https })

-- ===== src/Charmbits/HttpService/Complete.antt =====
-- charmbits/httpservice/server.go: a state that is set without a warning is in effect.
use gocharm.Base.{String, ◌≡◌, ◌⊎◌, inl, inr, refl, ◌∙◌, List, [], Option, none, some}
use gocharm.Base.{true, false, arith, Result, ok, err, panic, cause, Bool-cases, not}
use gocharm.Base.{◌&&◌, ◌||◌, str_eq_iff}
use gocharm.Base.Dict.{Dict}
use gocharm.Hook.Registry.{Unit₀}
use gocharm.Charmbits.HttpService.Fields.{
  ServerState, Server, RegisteredRelation, is_restart, set_relations,
}
use gocharm.Charmbits.HttpService.Server.{
  HandlerInfo, Network, Setting, start_http, start_https, start_handler, restart_handler, renewed,
  after_renewal, go_on, stopped, after_relations, set, needs_restart, http_ok, https_ok, is_some,
}
use gocharm.Charmbits.HttpService.Listeners.{
  SameRunning, set_relations-SameRunning, IsClosed, close_resources-IsClosed,
}

-- A handler runs if there is a port to serve it on, and there is exactly the listener of each port.
pub record IsRunning {Val Listener Handler : Type 0} (p : ServerState)
    (s : Server Val Listener Handler) : Type 0 where
  pub handler : is_some s.handler ≡ (http_ok p || https_ok p)
  pub http : is_some s.http_listener ≡ http_ok p
  pub https : is_some s.https_listener ≡ https_ok p

module _ {W Val Data Arg Listener Handler : Type 0}
    (registered : Dict (RegisteredRelation W Val Data)) (zero_of : String → Val)
    (info : HandlerInfo W Val Arg Handler) (net : Network W Listener Handler) where
  -- A result that is a success with no warning.
  abbrev Plain : Result Unit₀ × (Setting Val Listener Handler × W) → Type 0
  Plain (r, (s, w)) = (r ≡ ok tt) × (s.warnings ≡ [])

  abbrev Runs : ServerState → Result Unit₀ × (Setting Val Listener Handler × W) → Type 0
  Runs p (r, (s, w)) = IsRunning p s.server

  start_handler-IsRunning :
      (p : ServerState) (s : Setting Val Listener Handler) (w : W)
      → (http_ok p || https_ok p) ≡ true
      → IsClosed s.server
      → s.warnings ≡ []
      → Plain (start_handler registered zero_of info net p (s, w))
      → Runs p (start_handler registered zero_of info net p (s, w))
  unfolding start_handler start_http start_https
  start_handler-IsRunning p s w wanted c quiet good = record {
    handler = ground arith;
    http = ground arith;
    https = ground arith;
  }

  after_renewal-IsRunning :
      (p : ServerState) (r : Result Unit₀) (s : Setting Val Listener Handler) (w : W)
      → (http_ok p || https_ok p) ≡ true
      → IsClosed s.server
      → s.warnings ≡ []
      → Plain (after_renewal registered zero_of info net p r (s, w))
      → Runs p (after_renewal registered zero_of info net p r (s, w))
  after_renewal-IsRunning p (ok _) s w wanted c quiet good =
      start_handler-IsRunning p s w wanted c quiet good
  after_renewal-IsRunning p (err e) s w wanted c quiet good = absurd (ground arith)
  after_renewal-IsRunning p (panic e) s w wanted c quiet good = absurd (ground arith)

  renewed-IsRunning :
      (p : ServerState) (o : Option (List Val)) (s : Setting Val Listener Handler) (w : W)
      → (http_ok p || https_ok p) ≡ true
      → IsClosed s.server
      → s.warnings ≡ []
      → Plain (renewed registered zero_of info net p o (s, w))
      → Runs p (renewed registered zero_of info net p o (s, w))
  renewed-IsRunning p (some vs) s w wanted c quiet good =
      start_handler-IsRunning p s w wanted c quiet good
  renewed-IsRunning p none s w wanted c quiet good =
      let (r, (srv, w')) = set_relations registered zero_of info.relation_type p (s.server, w) in
      let same = set_relations-SameRunning registered zero_of info.relation_type p s.server w in
      after_renewal-IsRunning p r (record s { server = srv }) w' wanted
        (record {
          handler = same.handler ∙ c.handler;
          http_listener = same.http_listener ∙ c.http_listener;
          https_listener = same.https_listener ∙ c.https_listener;
        })
        quiet good

  go_on-IsRunning :
      (p : ServerState) (r : Result Unit₀) (s : Setting Val Listener Handler) (w : W)
      → (http_ok p || https_ok p) ≡ true
      → IsClosed s.server
      → s.warnings ≡ []
      → Plain (go_on registered zero_of info net p r (s, w))
      → Runs p (go_on registered zero_of info net p r (s, w))
  go_on-IsRunning p (ok _) s w wanted c quiet good =
      renewed-IsRunning p s.server.relation_state s w wanted c quiet good
  go_on-IsRunning p (err e) s w wanted c quiet good = absurd (ground arith)
  go_on-IsRunning p (panic e) s w wanted c quiet good = absurd (ground arith)

  -- What a server is before a state is set: what its state asks for, or closed.
  abbrev pub Ready : Server Val Listener Handler → Type 0
  Ready s = IsRunning s.state s ⊎ IsClosed s

  idle-IsClosed : (s : Server Val Listener Handler) → Ready s → s.handler ≡ none → IsClosed s
  idle-IsClosed s (inl run) e = record {
    handler = e;
    http_listener = ground arith;
    https_listener = ground arith;
  }
  idle-IsClosed s (inr c) e = c

  stopped-IsClosed :
      (o : Option Handler) (s : Setting Val Listener Handler) (w : W)
      → s.server.handler ≡ o
      → Ready s.server
      → IsClosed (stopped registered zero_of info net o (s, w)).1.0.server
  stopped-IsClosed none s w e h = idle-IsClosed s.server h e
  stopped-IsClosed (some x) s w e h =
      close_resources-IsClosed registered zero_of info net s.server w

  stopped_quiet :
      (o : Option Handler) (s : Setting Val Listener Handler) (w : W)
      → (stopped registered zero_of info net o (s, w)).1.0.warnings ≡ s.warnings
  stopped_quiet none s w = refl
  stopped_quiet (some x) s w = refl

  restart_handler-IsRunning :
      (p : ServerState) (s : Setting Val Listener Handler) (w : W)
      → (http_ok p || https_ok p) ≡ true
      → Ready s.server
      → s.warnings ≡ []
      → Plain (restart_handler registered zero_of info net p (s, w))
      → Runs p (restart_handler registered zero_of info net p (s, w))
  unfolding restart_handler
  restart_handler-IsRunning p s w wanted h quiet good =
      let (r, (s', w')) = stopped registered zero_of info net s.server.handler (s, w) in
      go_on-IsRunning p r s' w' wanted (stopped-IsClosed s.server.handler s w refl h)
        (stopped_quiet s.server.handler s w ∙ quiet) good

  kept-IsRunning :
      (p : ServerState) (s : Server Val Listener Handler)
      → (not (needs_restart s p) && is_some s.handler) ≡ true
      → Ready s
      → IsRunning p s
  unfolding needs_restart
  kept-IsRunning p s keep (inr c) = absurd (ground arith)
  kept-IsRunning p s keep (inl run) = record {
    handler = ground (arith, str_eq_iff p.cert_pem s.state.cert_pem);
    http = ground arith;
    https = ground (arith, str_eq_iff p.cert_pem s.state.cert_pem);
  }

  after_relations-IsRunning :
      (p : ServerState) (r : Result Unit₀) (s : Setting Val Listener Handler) (w : W)
      → (http_ok p || https_ok p) ≡ true
      → Ready s.server
      → s.warnings ≡ []
      → Plain (after_relations registered zero_of info net p r (s, w))
      → Runs p (after_relations registered zero_of info net p r (s, w))
  after_relations-IsRunning p (panic e) s w wanted h quiet good = absurd (ground arith)
  after_relations-IsRunning p (ok _) s w wanted h quiet good =
      elim (Bool-cases (not (needs_restart s.server p) && is_some s.server.handler)) [
        | inl keep ↦ rw keep (kept-IsRunning p s.server keep h)
        | inr change ↦
            rw change (restart_handler-IsRunning p s w wanted h quiet (rw change at good))
      ]
  after_relations-IsRunning p (err e) s w wanted h quiet good =
      elim (Bool-cases (is_restart (cause e))) [
        | inl again ↦ rw again (restart_handler-IsRunning p s w wanted h quiet (rw again at good))
        | inr other ↦ absurd (ground arith)
      ]

  same-Ready : (s t : Server Val Listener Handler) → SameRunning s t → Ready s → Ready t
  same-Ready s t same (inl run) =
      inl (record { handler = ground arith; http = ground arith; https = ground arith })
  same-Ready s t same (inr c) = inr (record {
    handler = same.handler ∙ c.handler;
    http_listener = same.http_listener ∙ c.http_listener;
    https_listener = same.https_listener ∙ c.https_listener;
  })

  closed-IsRunning :
      (p : ServerState) (s : Server Val Listener Handler)
      → (not (http_ok p) && not (https_ok p)) ≡ true
      → IsClosed s
      → IsRunning p s
  closed-IsRunning p s unwanted c = record {
    handler = ground arith;
    http = ground arith;
    https = ground arith;
  }

  some_wanted :
      (p : ServerState)
      → (not (http_ok p) && not (https_ok p)) ≡ false
      → (http_ok p || https_ok p) ≡ true
  some_wanted p h = ground arith

  -- From a server that runs its handler with the listeners of its state or that has everything
  -- closed, a set that ends without a panic and without a warning leaves a handler exactly where
  -- the new state has a port to serve, and for each of HTTP and HTTPS a listener exactly where
  -- the new state asks for it.
  pub set-IsRunning :
      (p : ServerState) (s : Setting Val Listener Handler) (w : W)
      → Ready s.server
      → s.warnings ≡ []
      → (set registered zero_of info net p (s, w)).0 ≡ ok tt
      → (set registered zero_of info net p (s, w)).1.0.warnings ≡ []
      → IsRunning p (set registered zero_of info net p (s, w)).1.0.server
  unfolding set
  set-IsRunning p s w h quiet good still_quiet =
      elim (Bool-cases (not (http_ok p) && not (https_ok p))) [
        | inl unwanted ↦ rw unwanted (
            closed-IsRunning p _ unwanted
              (close_resources-IsClosed registered zero_of info net s.server w))
        | inr wanted ↦
            let (r, (srv, w')) =
              set_relations registered zero_of info.relation_type p (s.server, w) in
            rw wanted (
              after_relations-IsRunning p r (record s { server = srv }) w' (some_wanted p wanted)
                (same-Ready s.server srv
                  (set_relations-SameRunning registered zero_of info.relation_type p s.server w) h)
                quiet (rw wanted at good, rw wanted at still_quiet))
      ]

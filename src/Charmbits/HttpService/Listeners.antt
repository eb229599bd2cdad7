-- ===== src/Charmbits/HttpService/Listeners.antt =====
-- charmbits/httpservice/server.go: which listeners and which handler the server has on record.
use gocharm.Base.{String, ◌≡◌, refl, List, [], ◌∷◌, Option, none, some, Bool}
use gocharm.Base.{true, false, arith, ok}
use gocharm.Base.Dict.{Dict}
use gocharm.Charmbits.HttpService.Fields.{
  ServerState, Server, Field, RegisteredRelation, data_of, set_field_value, set_each, set_relations,
  valid_values, finalize_each, finalize_fields,
}
use gocharm.Charmbits.HttpService.Server.{
  HandlerInfo, Network, Setting, close_resources, close_handler, shut_listener, close_running,
  values_for, serve_http, serve_https, make_handler, start_http, start_https, start_handler,
}

-- The relation fields are all in which two servers differ.
pub record SameRunning {Val Listener Handler : Type 0} (s s' : Server Val Listener Handler)
    : Type 0 where
  pub handler : s'.handler ≡ s.handler
  pub state_dir : s'.state_dir ≡ s.state_dir
  pub state : s'.state ≡ s.state
  pub http_listener : s'.http_listener ≡ s.http_listener
  pub https_listener : s'.https_listener ≡ s.https_listener

module _ {Val Listener Handler : Type 0} where
  pub SameRunning-refl : (s : Server Val Listener Handler) → SameRunning s s
  SameRunning-refl s = record {
    handler = refl;
    state_dir = refl;
    state = refl;
    http_listener = refl;
    https_listener = refl;
  }

  pub SameRunning-trans :
      (s t u : Server Val Listener Handler) → SameRunning s t → SameRunning t u → SameRunning s u
  SameRunning-trans s t u p q = ground arith

module _ {W Val Data Listener Handler : Type 0} (registered : Dict (RegisteredRelation W Val Data))
    (zero_of : String → Val) where
  pub set_field_value-SameRunning :
      (fields : List Field) (f : Field) (content : String) (s : Server Val Listener Handler) (w : W)
      → SameRunning s (set_field_value registered zero_of fields f content (s, w)).1.0
  unfolding set_field_value
  set_field_value-SameRunning fields f content s w = ground arith

  set_each-SameRunning :
      (fields : List Field) (state : ServerState) (fs : List Field) (restart : Bool)
      (s : Server Val Listener Handler) (w : W)
      → SameRunning s (set_each registered zero_of fields state fs restart (s, w)).1.0
  unfolding set_each
  set_each-SameRunning fields state [] restart s w = ground arith
  set_each-SameRunning fields state (f ∷ fs) restart s w =
      let (r, (s', w')) = set_field_value registered zero_of fields f (data_of state f) (s, w) in
      ground (
        arith,
        set_field_value-SameRunning fields f (data_of state f) s w,
        set_each-SameRunning fields state fs restart s' w',
        set_each-SameRunning fields state fs true s' w',
      )

  finalize_each-SameRunning :
      (fields fs : List Field) (s : Server Val Listener Handler) (w : W)
      → SameRunning s (finalize_each registered zero_of fields fs (s, w)).1.0
  unfolding finalize_each
  finalize_each-SameRunning fields [] s w = ground arith
  finalize_each-SameRunning fields (f ∷ fs) s w =
      let (r, (s', w')) = set_field_value registered zero_of fields f "" (s, w) in
      ground (
        arith,
        set_field_value-SameRunning fields f "" s w,
        finalize_each-SameRunning fields fs s' w',
      )

  pub set_relations-SameRunning :
      (kind : Option (List Field)) (state : ServerState) (s : Server Val Listener Handler) (w : W)
      → SameRunning s (set_relations registered zero_of kind state (s, w)).1.0
  unfolding set_relations
  set_relations-SameRunning none state s w = SameRunning-refl s
  set_relations-SameRunning (some fields) state s w =
      let s' = record s { relation_state = some (valid_values zero_of fields s.relation_state) } in
      ground (arith, set_each-SameRunning fields state fields false s' w)

  finalize_fields-SameRunning :
      (kind : Option (List Field)) (s : Server Val Listener Handler) (w : W)
      → SameRunning s (finalize_fields registered zero_of kind (s, w)).1.0
  unfolding finalize_fields
  finalize_fields-SameRunning none s w = SameRunning-refl s
  finalize_fields-SameRunning (some fields) s w =
      ground (arith, finalize_each-SameRunning fields fields s w)

-- Nothing runs.
pub record IsClosed {Val Listener Handler : Type 0} (s : Server Val Listener Handler) : Type 0 where
  pub handler : s.handler ≡ none
  pub http_listener : s.http_listener ≡ none
  pub https_listener : s.https_listener ≡ none

module _ {W Val Data Arg Listener Handler : Type 0}
    (registered : Dict (RegisteredRelation W Val Data)) (zero_of : String → Val)
    (info : HandlerInfo W Val Arg Handler) (net : Network W Listener Handler) where
  pub close_resources-IsClosed :
      (s : Server Val Listener Handler) (w : W)
      → IsClosed (close_resources registered zero_of info net (s, w)).1.0
  unfolding close_resources
  close_resources-IsClosed s w =
      let w' = close_handler registered zero_of info net s.handler (
        shut_listener registered zero_of info net s.https_listener
          (shut_listener registered zero_of info net s.http_listener w)) in
      let same =
        finalize_fields-SameRunning registered zero_of info.relation_type
          (close_running registered zero_of info net s) w' in
      record {
        handler = same.handler;
        http_listener = same.http_listener;
        https_listener = same.https_listener;
      }

  -- Each listener on record was opened for the handler on record and on the port of the state, with
  -- its certificate; and there is no listener without a handler.
  pub record IsServing (p : ServerState) (s : Server Val Listener Handler) : Type 0 where
    pub idle : s.handler ≡ none → (s.http_listener ≡ none) × (s.https_listener ≡ none)
    pub http :
        (l : Listener) (h : Handler)
        → s.http_listener ≡ some l
        → s.handler ≡ some h
        → (w w' : W) × (serve_http registered zero_of info net p.http_port h w ≡ (ok l, w'))
    pub https :
        (l : Listener) (h : Handler)
        → s.https_listener ≡ some l
        → s.handler ≡ some h
        → (w w' : W) × (serve_https registered zero_of info net p.https_port p.cert_pem h w
            ≡ (ok l, w'))

  pub IsServing-of_IsClosed :
      (p : ServerState) (s : Server Val Listener Handler) → IsClosed s → IsServing p s
  IsServing-of_IsClosed p s c = record {
    idle = λ _. (c.http_listener, c.https_listener);
    http = λ l h a b. cc (c.http_listener);
    https = λ l h a b. cc (c.https_listener);
  }

  -- A server that nothing was started on, or that has been told where it listens.
  pub start_handler-IsServing :
      (p : ServerState) (s : Setting Val Listener Handler) (w : W)
      → IsClosed s.server
      → (start_handler registered zero_of info net p (s, w)).0 ≡ ok tt
      → IsServing p (start_handler registered zero_of info net p (s, w)).1.0.server
  unfolding start_handler start_http start_https
  start_handler-IsServing p s w c good = record {
    idle = λ none_there. ground arith;
    http = λ l h a b.
        let w₁ =
          (make_handler registered zero_of info net p.arg_data
            (values_for registered zero_of info net s.server) w).1 in
        (w₁, (serve_http registered zero_of info net p.http_port h w₁).1, ground arith);
    https = λ l h a b.
        let w₁ =
          (make_handler registered zero_of info net p.arg_data
            (values_for registered zero_of info net s.server) w).1 in
        let w₂ = (start_http registered zero_of info net p h (s, w₁)).1.1 in
        (
          w₂,
          (serve_https registered zero_of info net p.https_port p.cert_pem h w₂).1,
          ground arith,
        );
  }

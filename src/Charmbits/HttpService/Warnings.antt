-- ===== src/Charmbits/HttpService/Warnings.antt =====
-- charmbits/httpservice/server.go: the errors of a new state are warnings of the call, and what a call
-- without a warning has started.
use gocharm.Base.{String, ◌≡◌, refl, List, [], ◌∷◌, Option, none, some, Bool, true, false, arith}
use gocharm.Base.{Result, ok, err, panic}
use gocharm.Base.Dict.{Dict}
use gocharm.Hook.Registry.{Unit₀}
use gocharm.Charmbits.HttpService.Fields.{
  ServerState, Server, Field, RegisteredRelation, set_field_value, set_relations, finalize_each,
  finalize_fields,
}
use gocharm.Charmbits.HttpService.Server.{
  HandlerInfo, Network, Setting, close_resources, close_running, close_handler, shut_listener,
  start_http, start_https, start_handler, restart_handler, renewed, after_renewal, go_on, stopped,
  after_relations, set,
}

abbrev pub is_err : {A : Type 0} → Result A → Bool
is_err (err _) = true
is_err _ = false

module _ {W Val Data Listener Handler : Type 0} (registered : Dict (RegisteredRelation W Val Data))
    (zero_of : String → Val) where
  finalize_each-ne_err :
      (fields fs : List Field) (s : Server Val Listener Handler) (w : W)
      → is_err (finalize_each registered zero_of fields fs (s, w)).0 ≡ false
  unfolding finalize_each
  finalize_each-ne_err fields [] s w = refl
  finalize_each-ne_err fields (f ∷ fs) s w =
      let (r, (s', w')) = set_field_value registered zero_of fields f "" (s, w) in
      ground (arith, finalize_each-ne_err fields fs s' w')

  finalize_fields-ne_err :
      (kind : Option (List Field)) (s : Server Val Listener Handler) (w : W)
      → is_err (finalize_fields registered zero_of kind (s, w)).0 ≡ false
  unfolding finalize_fields
  finalize_fields-ne_err none s w = refl
  finalize_fields-ne_err (some fields) s w = ground (arith, finalize_each-ne_err fields fields s w)

module _ {W Val Data Arg Listener Handler : Type 0}
    (registered : Dict (RegisteredRelation W Val Data)) (zero_of : String → Val)
    (info : HandlerInfo W Val Arg Handler) (net : Network W Listener Handler) where
  close_resources-ne_err :
      (s : Server Val Listener Handler) (w : W)
      → is_err (close_resources registered zero_of info net (s, w)).0 ≡ false
  unfolding close_resources
  close_resources-ne_err s w =
      finalize_fields-ne_err registered zero_of info.relation_type
        (close_running registered zero_of info net s)
        (close_handler registered zero_of info net s.handler (
          shut_listener registered zero_of info net s.https_listener
            (shut_listener registered zero_of info net s.http_listener w)))

  start_handler-ne_err :
      (p : ServerState) (s : Setting Val Listener Handler) (w : W)
      → is_err (start_handler registered zero_of info net p (s, w)).0 ≡ false
  unfolding start_handler start_http start_https
  start_handler-ne_err p s w = ground arith

  after_renewal-ne_err :
      (p : ServerState) (r : Result Unit₀) (s : Setting Val Listener Handler) (w : W)
      → is_err (after_renewal registered zero_of info net p r (s, w)).0 ≡ false
  after_renewal-ne_err p (ok _) s w = start_handler-ne_err p s w
  after_renewal-ne_err p (err e) s w = refl
  after_renewal-ne_err p (panic e) s w = refl

  renewed-ne_err :
      (p : ServerState) (o : Option (List Val)) (s : Setting Val Listener Handler) (w : W)
      → is_err (renewed registered zero_of info net p o (s, w)).0 ≡ false
  renewed-ne_err p (some vs) s w = start_handler-ne_err p s w
  renewed-ne_err p none s w =
      let (r, (srv, w')) = set_relations registered zero_of info.relation_type p (s.server, w) in
      after_renewal-ne_err p r (record s { server = srv }) w'

  go_on-ne_err :
      (p : ServerState) (r : Result Unit₀) (s : Setting Val Listener Handler) (w : W)
      → is_err r ≡ false
      → is_err (go_on registered zero_of info net p r (s, w)).0 ≡ false
  go_on-ne_err p (ok _) s w h = renewed-ne_err p s.server.relation_state s w
  go_on-ne_err p (err e) s w h = h
  go_on-ne_err p (panic e) s w h = refl

  stopped-ne_err :
      (o : Option Handler) (s : Setting Val Listener Handler) (w : W)
      → is_err (stopped registered zero_of info net o (s, w)).0 ≡ false
  stopped-ne_err none s w = refl
  stopped-ne_err (some h) s w = close_resources-ne_err s.server w

  restart_handler-ne_err :
      (p : ServerState) (s : Setting Val Listener Handler) (w : W)
      → is_err (restart_handler registered zero_of info net p (s, w)).0 ≡ false
  unfolding restart_handler
  restart_handler-ne_err p s w =
      let (r, (s', w')) = stopped registered zero_of info net s.server.handler (s, w) in
      go_on-ne_err p r s' w' (stopped-ne_err s.server.handler s w)

  after_relations-ne_err :
      (p : ServerState) (r : Result Unit₀) (s : Setting Val Listener Handler) (w : W)
      → is_err (after_relations registered zero_of info net p r (s, w)).0 ≡ false
  after_relations-ne_err p (ok _) s w = ground (arith, restart_handler-ne_err p s w)
  after_relations-ne_err p (err e) s w =
      ground (arith, restart_handler-ne_err p s w, close_resources-ne_err s.server w)
  after_relations-ne_err p (panic e) s w = refl

  pub set-ne_err :
      (p : ServerState) (s : Setting Val Listener Handler) (w : W)
      → is_err (set registered zero_of info net p (s, w)).0 ≡ false
  unfolding set
  set-ne_err p s w =
      let (r, (srv, w')) = set_relations registered zero_of info.relation_type p (s.server, w) in
      ground (
        arith,
        close_resources-ne_err s.server w,
        after_relations-ne_err p r (record s { server = srv }) w',
      )

-- ===== src/Charmbits/HttpService/FirstField.antt =====
-- charmbits/httpservice/server.go: which fields of the relation value are set.
use gocharm.Base.{
  String, ◌≡◌, refl, ap, List, [], ◌∷◌, Option, none, some, Bool, true, false, arith,
}
use gocharm.Base.{Error, err, cause, Bool-cases, inl, inr, ◌||◌}
use gocharm.Base.Dict.{Dict, lookup}
use gocharm.Charmbits.HttpService.Fields.{
  ServerState, Server, Field, RegisteredRelation, is_restart, data_of, set_field_value, set_each,
  set_relations, set_first, set_registered, valid_values, any_missing,
}
use gocharm.Charmbits.HttpService.Server.{
  HandlerInfo, Network, Setting, start_handler, restart_handler, set, http_ok, https_ok,
}

-- The values behind the first field.
abbrev pub rest_of : {Val : Type 0} → Option (List Val) → Option (List Val)
rest_of none = none
rest_of (some []) = none
rest_of (some (v ∷ vs)) = some vs

module _ {W Val Data Listener Handler : Type 0} (registered : Dict (RegisteredRelation W Val Data))
    (zero_of : String → Val) where
  set_first_rest :
      (fields : List Field) (reg : RegisteredRelation W Val Data) (f : Field) (content : String)
      (o : Option (List Val)) (s : Server Val Listener Handler) (w : W)
      → s.relation_state ≡ o
      → rest_of (set_first registered zero_of fields reg f content o (s, w)).1.0.relation_state
        ≡ rest_of o
  set_first_rest fields reg f content none s w e = ap rest_of e
  set_first_rest fields reg f content (some []) s w e = ap rest_of e
  set_first_rest fields reg f content (some (v ∷ vs)) s w e = ground (arith, ap rest_of e)

  set_registered_rest :
      (fields : List Field) (f : Field) (content : String)
      (o : Option (RegisteredRelation W Val Data)) (s : Server Val Listener Handler) (w : W)
      → rest_of (set_registered registered zero_of fields f content o (s, w)).1.0.relation_state
        ≡ rest_of s.relation_state
  set_registered_rest fields f content none s w = refl
  set_registered_rest fields f content (some reg) s w =
      set_first_rest fields reg f content s.relation_state s w refl

  set_field_value_rest :
      (fields : List Field) (f : Field) (content : String) (s : Server Val Listener Handler) (w : W)
      → rest_of (set_field_value registered zero_of fields f content (s, w)).1.0.relation_state
        ≡ rest_of s.relation_state
  unfolding set_field_value
  set_field_value_rest fields f content s w =
      set_registered_rest fields f content (lookup f.kind registered) s w

  set_each_rest :
      (fields : List Field) (state : ServerState) (fs : List Field) (restart : Bool)
      (s : Server Val Listener Handler) (w : W)
      → rest_of (set_each registered zero_of fields state fs restart (s, w)).1.0.relation_state
        ≡ rest_of s.relation_state
  unfolding set_each
  set_each_rest fields state [] restart s w = ground arith
  set_each_rest fields state (f ∷ fs) restart s w =
      let (r, (s', w')) = set_field_value registered zero_of fields f (data_of state f) (s, w) in
      ground (
        arith,
        set_field_value_rest fields f (data_of state f) s w,
        set_each_rest fields state fs restart s' w',
        set_each_rest fields state fs true s' w',
      )

  -- Setting the relation fields never changes a field behind the first: what is behind it stays
  -- as it was, or zero where the relation value is new.
  pub set_relations_rest :
      (f : Field) (fs : List Field) (state : ServerState) (s : Server Val Listener Handler) (w : W)
      → rest_of (set_relations registered zero_of (some (f ∷ fs)) state (s, w)).1.0.relation_state
        ≡ rest_of (some (valid_values zero_of (f ∷ fs) s.relation_state))
  unfolding set_relations
  set_relations_rest f fs state s w =
      let s' = record s {
        relation_state = some (valid_values zero_of (f ∷ fs) s.relation_state);
      } in
      elim (Bool-cases (any_missing state (f ∷ fs))) [
        | inl missing ↦ rw missing refl
        | inr present ↦ rw present (set_each_rest (f ∷ fs) state (f ∷ fs) false s' w)
      ]

module _ {W Val Data Arg Listener Handler : Type 0}
    (registered : Dict (RegisteredRelation W Val Data)) (zero_of : String → Val)
    (info : HandlerInfo W Val Arg Handler) (net : Network W Listener Handler) where
  pub set_restarted :
      (p : ServerState) (s : Setting Val Listener Handler) (w w' : W) (vs : List Val)
      (srv : Server Val Listener Handler) (e : Error)
      → (http_ok p || https_ok p) ≡ true
      → srv.handler ≡ none
      → srv.relation_state ≡ some vs
      → is_restart (cause e) ≡ true
      → set_relations registered zero_of info.relation_type p (s.server, w) ≡ (err e, (srv, w'))
      → set registered zero_of info net p (s, w)
        ≡ start_handler registered zero_of info net p (record s { server = srv }, w')
  unfolding set restart_handler
  set_restarted p s w w' vs srv e wanted idle valid again q = ground arith

-- ===== src/Charmbits/HttpService/Fields.antt =====
-- charmbits/httpservice/server.go: the relation fields that a handler is given, and how the data of
-- the relations is put into them. The types that relation packages have registered are a table of
-- setters. `Val` holds the value of a field, `Data` what its setter is given.
use gocharm.Base.{String, ℕ, List, [], ◌∷◌, map, Option, none, some, Bool, true, false, ◌||◌}
use gocharm.Base.{if◌then◌else◌, str_eq, Act, Result, Error, newf, sentinel, with_cause, masked}
use gocharm.Base.{noted, cause, ok, err, panic, ◌>>◌, pure, raise, throw, wrap, update}
use gocharm.Base.Dict.{Dict, lookup}
use gocharm.Base.Message.{message}
use gocharm.Base.Texts.{is_empty}
use gocharm.Hook.Registry.{Unit₀}
use gocharm.Charmbits.HttpRelation.{attr}

abbrev pub err_restart_needed : Error
err_restart_needed = sentinel "handler needs to be restarted"

abbrev pub err_relation_incomplete : Error
err_relation_incomplete = sentinel "relation data is incomplete"

-- Whether an error is the one of a restart, or of relation data that is not all there.
abbrev pub is_restart : Error → Bool
is_restart (sentinel s) = str_eq s "handler needs to be restarted"
is_restart _ = false

abbrev pub is_incomplete : Error → Bool
is_incomplete (sentinel s) = str_eq s "relation data is incomplete"
is_incomplete _ = false

-- errgo.Mask(err, errgo.Is(ErrRestartNeeded))
abbrev pub mask_but_restart : Error → Error
mask_but_restart e = if is_restart (cause e) then with_cause (cause e) (message e) else masked e

pub record ServerState : Type 0 where
  pub http_port : ℕ
  pub https_port : ℕ
  pub cert_pem : String
  pub arg_data : String
  -- the marshalled data by the name of the field; a missing entry reads as no data
  pub relation_values : Dict String

-- A field of the struct that a handler takes.
pub record Field : Type 0 where
  pub name : String
  pub kind : String

-- registeredRelation, as far as the server uses it: the type of the field, and what is made of the
-- data before it is set.
pub record RegisteredRelation (W Val Data : Type 0) : Type 0 where
  pub kind : String
  pub unmarshal : String → Result Data
  pub nothing : Data
  pub set : Data → Act (Val × W) Unit₀

-- The fields of the server that concern its handler; `none` is a nil handler or listener, or a struct
-- value that is not valid.
pub record Server (Val Listener Handler : Type 0) : Type 0 where
  pub handler : Option Handler
  pub state_dir : String
  pub state : ServerState
  pub relation_state : Option (List Val)
  pub http_listener : Option Listener
  pub https_listener : Option Listener

abbrev pub kind_of_first : List Field → String
kind_of_first [] = ""
kind_of_first (f ∷ _) = f.kind

-- The data of a field, marshalled; the empty text is no data.
abbrev pub data_of : ServerState → Field → String
data_of state f = attr f.name state.relation_values

abbrev pub any_missing : ServerState → List Field → Bool
any_missing state [] = false
any_missing state (f ∷ fs) = is_empty (data_of state f) || any_missing state fs

abbrev pub decode : {W Val Data : Type 0} → RegisteredRelation W Val Data → String → Result Data
decode reg content = if is_empty content then ok reg.nothing else reg.unmarshal content

-- The relation value that there is, or a new one whose fields are zero.
abbrev pub valid_values :
    {Val : Type 0} → (String → Val) → List Field → Option (List Val) → List Val
valid_values zero_of fields none = map (λ f. zero_of f.kind) fields
valid_values zero_of fields (some vs) = vs

module _ {W Val Data Listener Handler : Type 0} (registered : Dict (RegisteredRelation W Val Data))
    (zero_of : String → Val) where
  -- The call of the setter on the address of a field.
  abbrev pub call_setter :
      RegisteredRelation W Val Data
      → Data
      → Val
      → List Val
      → Act (Server Val Listener Handler × W) Unit₀
  call_setter reg d v vs (s, w) =
      let (r, (v', w')) = reg.set d (v, w) in
      wrap mask_but_restart (λ s'. (r, s')) (record s { relation_state = some (v' ∷ vs) }, w')

  -- The value that is set is that of the first field, whichever field the data is for: the code takes
  -- `srv.relationState.Field(0)`.
  abbrev pub set_first :
      List Field
      → RegisteredRelation W Val Data
      → Field
      → String
      → Option (List Val)
      → Act (Server Val Listener Handler × W) Unit₀
  set_first fields reg f content none = throw (newf "reflect: call of Field on zero Value" [])
  set_first fields reg f content (some []) = throw (newf "reflect: Field index out of range" [])
  set_first fields reg f content (some (v ∷ vs)) = elim (decode reg content) [
    | panic e ↦ throw e
    | err e ↦
        raise
          (noted e "cannot unmarshal relation data (type %v, data %q)" (reg.kind ∷ content ∷ []))
    | ok d ↦
        if str_eq reg.kind (kind_of_first fields)
        then call_setter reg d v vs
        else throw (newf "reflect: Call using a pointer of the wrong type" [])
  ]

  abbrev pub set_registered :
      List Field
      → Field
      → String
      → Option (RegisteredRelation W Val Data)
      → Act (Server Val Listener Handler × W) Unit₀
  set_registered fields f content none s =
      (panic (newf "no registered relation for type %s in field %s" (f.kind ∷ f.name ∷ [])), s)
  set_registered fields f content (some reg) (s, w) =
      set_first fields reg f content s.relation_state (s, w)

  unfoldable pub set_field_value :
      List Field → Field → String → Act (Server Val Listener Handler × W) Unit₀
  set_field_value fields f content = set_registered fields f content (lookup f.kind registered)

  -- The loop over the fields; the flag says that a setter has asked for a restart.
  unfoldable pub set_each :
      List Field → ServerState → List Field → Bool → Act (Server Val Listener Handler × W) Unit₀
  set_each fields state [] restart s = if restart then (err err_restart_needed, s) else (ok tt, s)
  set_each fields state (f ∷ fs) restart s =
      let (r, s') = set_field_value fields f (data_of state f) s in
      let go_on = λ (b : Bool). set_each fields state fs b s' in
      elim r [
        | ok _ ↦ go_on restart
        | err e ↦
            if is_restart (cause e)
            then go_on true
            else (err (noted e "cannot set field %s" (f.name ∷ [])), s')
        | panic e ↦ (panic e, s')
      ]

  unfoldable pub set_relations :
      Option (List Field) → ServerState → Act (Server Val Listener Handler × W) Unit₀
  unfolding set_field_value set_each
  set_relations none state = pure tt
  set_relations (some fields) state = do
    update (λ s. record s { relation_state = some (valid_values zero_of fields s.relation_state) })
    if any_missing state fields
        then raise err_relation_incomplete
        else set_each fields state fields false

  -- Errors of the setters are only logged.
  unfoldable pub finalize_each :
      List Field → List Field → Act (Server Val Listener Handler × W) Unit₀
  finalize_each fields [] (s, w) = (ok tt, (record s { relation_state = none }, w))
  finalize_each fields (f ∷ fs) s =
      let (r, s') = set_field_value fields f "" s in
      let rest = finalize_each fields fs s' in elim r [ panic e ↦ (panic e, s') | _ ↦ rest ]

  abbrev finalize_valid :
      List Field → Option (List Val) → Act (Server Val Listener Handler × W) Unit₀
  finalize_valid fields none = pure tt
  finalize_valid fields (some _) = finalize_each fields fields

  unfoldable pub finalize_fields : Option (List Field) → Act (Server Val Listener Handler × W) Unit₀
  unfolding set_field_value finalize_each
  finalize_fields none = pure tt
  finalize_fields (some fields) = λ (s, w). finalize_valid fields s.relation_state (s, w)

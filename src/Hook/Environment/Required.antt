-- ===== src/Hook/Environment/Required.antt =====
-- The variables that a hook needs.
use gocharm.Base.{String, ◌≡◌, refl, List, [], ◌∷◌, All, false, Bool-cases, inl, inr, arith, Option}
use gocharm.Base.{ok}
use gocharm.Base.Dict.{Dict}
use gocharm.Base.Texts.{is_empty, has_prefix}
use gocharm.Hook.Context.{Tools, Context}
use gocharm.Hook.Environment.{
  check_vars, required_vars, fetch_units, fetch_ids, fetch_relations, new_context_from_environment,
}
use gocharm.Hook.Juju.{Juju, CharmRelation}
use gocharm.Hook.Query.{Json, relation_units, relation_ids}
use gocharm.Base.{str_eq, str_eq_iff, ◌↔◌, wrap, noted, pure, Act, some, ◌>>=◌, ◌∙◌, ◌≢◌, true, ◌∷◌}
use gocharm.Base.Inversion.{bind-ok}
use gocharm.Base.Dict.{insert, keys}
use gocharm.Base.Texts.{has_suffix}
use gocharm.Hook.Juju.{relation_broken}
use gocharm.Hook.Environment.{state_dir, hook_context}
use Prim.Native.String.{◌++◌}
use gocharm.Hook.State.{Files, PersistentState, new_disk_state}

module _ (getenv : String → String) where
  check_vars-All :
      {W : Type 0} (vs : List String) (w w' : W)
      → check_vars getenv vs w ≡ (ok tt, w')
      → All (λ v. is_empty (getenv v) ≡ false) vs
  unfolding check_vars
  check_vars-All [] w w' h = tt
  check_vars-All (v ∷ vs) w w' h = elim (Bool-cases (is_empty (getenv v))) [
    | inl e ↦ absurd (ground arith)
    | inr e ↦ (e, check_vars-All vs w w' (ground arith))
  ]

module _ {W : Type 0} (tools : Tools W) (json : Json) where
  -- What of a context is not about relations' units.
  abbrev plain : Context → Context
  plain ctxt = record ctxt { relations = []; relation_ids = [] }

  fetch_ids-plain :
      (ids : List String) (ctxt c : Context) (w w' : W)
      → fetch_ids tools json ctxt ids w ≡ (ok c, w')
      → plain c ≡ plain ctxt
  unfolding fetch_ids
  fetch_ids-plain [] ctxt c w w' h = ground arith
  fetch_ids-plain (id ∷ ids) ctxt c w w' h =
      let units =
        wrap (λ e. noted e "cannot get unit ids for relation id %q" (id ∷ []))
          (relation_units tools json ctxt id) in
      let (unit_ids, w₁, _, h₁) =
        bind-ok units
          (λ unit_ids. fetch_units tools json ctxt id unit_ids [] >>= λ units.
            fetch_ids tools json (record ctxt { relations = insert id units ctxt.relations }) ids)
          w w' c h in
      let (settings, w₂, _, h₂) =
        bind-ok (fetch_units tools json ctxt id unit_ids [])
          (λ units.
            fetch_ids tools json (record ctxt { relations = insert id units ctxt.relations }) ids)
          w₁ w' c h₁ in
      fetch_ids-plain ids (record ctxt { relations = insert id settings ctxt.relations }) c w₂ w' h₂

  fetch_relations-plain :
      (names : List String) (ctxt c : Context) (w w' : W)
      → fetch_relations tools json ctxt names w ≡ (ok c, w')
      → plain c ≡ plain ctxt
  unfolding fetch_relations
  fetch_relations-plain [] ctxt c w w' h = ground arith
  fetch_relations-plain (name ∷ names) ctxt c w w' h =
      let known =
        wrap (λ e. noted e "cannot get relation ids for relation %q" (name ∷ []))
          (relation_ids tools json ctxt name) in
      let (ids, w₁, _, h₁) =
        bind-ok known
          (λ ids.
            fetch_ids tools json (record ctxt { relation_ids = insert name ids ctxt.relation_ids })
              ids
            >>= λ ctxt'. fetch_relations tools json ctxt' names)
          w w' c h in
      let (ctxt', w₂, first, h₂) =
        bind-ok
          (fetch_ids tools json (record ctxt { relation_ids = insert name ids ctxt.relation_ids })
            ids)
          (λ ctxt'. fetch_relations tools json ctxt' names) w₁ w' c h₁ in
      fetch_relations-plain names ctxt' c w₂ w' h₂
      ∙ fetch_ids-plain ids (record ctxt { relation_ids = insert name ids ctxt.relation_ids }) ctxt'
          w₁ w₂ first

module _ {W : Type 0} (juju : Juju) (getenv : String → String) (tools : Tools W) (files : Files W)
    (json : Json) where
  -- The variables that are required, by their names.
  required_vars-set :
      (hook : String)
      → All (λ v. is_empty (getenv v) ≡ false) (required_vars juju getenv hook)
      → (getenv "JUJU_MODEL_UUID" ≢ "")
        × (getenv "JUJU_UNIT_NAME" ≢ "")
        × (getenv "CHARM_DIR" ≢ "")
        × (getenv "JUJU_CONTEXT_ID" ≢ "")
        × (getenv "JUJU_RELATION" ≢ "" → getenv "JUJU_RELATION_ID" ≢ "")
        × (getenv "JUJU_RELATION" ≢ ""
            → has_suffix ("-" ++ juju.kind_text relation_broken) hook ≡ false
            → getenv "JUJU_REMOTE_UNIT" ≢ "")
  unfolding required_vars
  required_vars-set hook h =
      let blank : (v : String) → (str_eq (getenv v) "" ≡ true) ↔ (getenv v ≡ "") =
        λ v. str_eq_iff (getenv v) "" in
      elim (Bool-cases (is_empty (getenv "JUJU_RELATION"))) [
        | inl e ↦ ground (
          arith,
          blank "JUJU_RELATION",
          blank "JUJU_MODEL_UUID",
          blank "JUJU_UNIT_NAME",
          blank "CHARM_DIR",
          blank "JUJU_CONTEXT_ID",
        )
        | inr e ↦ elim (Bool-cases (has_suffix ("-" ++ juju.kind_text relation_broken) hook)) [
          | inl b ↦ ground (
            arith,
            blank "JUJU_RELATION_ID",
            blank "JUJU_MODEL_UUID",
            blank "JUJU_UNIT_NAME",
            blank "CHARM_DIR",
            blank "JUJU_CONTEXT_ID",
          )
          | inr b ↦ ground (
            arith,
            blank "JUJU_RELATION_ID",
            blank "JUJU_REMOTE_UNIT",
            blank "JUJU_MODEL_UUID",
            blank "JUJU_UNIT_NAME",
            blank "CHARM_DIR",
            blank "JUJU_CONTEXT_ID",
          )
        ]
      ]

  -- A context for a hook, one whose name has no command's prefix, is made only where there are
  -- no further arguments and JUJU_MODEL_UUID, JUJU_UNIT_NAME, CHARM_DIR and JUJU_CONTEXT_ID are
  -- set, and where JUJU_RELATION is set, JUJU_RELATION_ID too, and JUJU_REMOTE_UNIT unless the
  -- hook is that of a broken relation. But for the relations' units, the context holds the
  -- variables' values, the name of the hook, the state directory and nothing else.
  pub new_context-plain :
      (relations : Dict CharmRelation) (dir hook : String) (args : List String) (w w' : W)
      (ctxt : Context) (state : Option (PersistentState W))
      → has_prefix "cmd-" hook ≡ false
      → new_context_from_environment juju getenv tools files json relations dir hook args w
        ≡ (ok (ctxt, state), w')
      → (args ≡ [])
        × (getenv "JUJU_MODEL_UUID" ≢ "")
        × (getenv "JUJU_UNIT_NAME" ≢ "")
        × (getenv "CHARM_DIR" ≢ "")
        × (getenv "JUJU_CONTEXT_ID" ≢ "")
        × (getenv "JUJU_RELATION" ≢ "" → getenv "JUJU_RELATION_ID" ≢ "")
        × (getenv "JUJU_RELATION" ≢ ""
            → has_suffix ("-" ++ juju.kind_text relation_broken) hook ≡ false
            → getenv "JUJU_REMOTE_UNIT" ≢ "")
        × (record ctxt { relations = []; relation_ids = [] } ≡ record {
          registry_name = "";
          uuid = getenv "JUJU_MODEL_UUID";
          unit = getenv "JUJU_UNIT_NAME";
          charm_dir = getenv "CHARM_DIR";
          hook_state_dir = dir;
          hook_name = hook;
          relations = [];
          relation_ids = [];
          relation_name = getenv "JUJU_RELATION";
          relation_id = getenv "JUJU_RELATION_ID";
          remote_unit = getenv "JUJU_REMOTE_UNIT";
          has_runner = true;
          run_command_name = "";
          run_command_args = [];
        })
  unfolding new_context_from_environment required_vars
  new_context-plain relations dir hook [] w w' ctxt state plain_name h =
      let vars = required_vars juju getenv hook in
      let here = hook_context getenv dir hook in
      let names = keys relations in
      let checked = check_vars getenv vars in
      let fetched = fetch_relations tools json here names in
      let finish : Context → Act W (Context × Option (PersistentState W)) =
        λ c. state_dir juju c >>= λ d. pure (c, some (new_disk_state files d)) in
      let (_, w₁, first, h₁) =
        bind-ok checked (λ _. fetched >>= finish) w w' (ctxt, state) (ground arith) in
      let (c, w₂, second, h₂) = bind-ok fetched finish w₁ w' (ctxt, state) h₁ in
      let (d, w₃, _, h₃) =
        bind-ok (state_dir juju c) (λ d. pure (c, some (new_disk_state files d))) w₂ w'
          (ctxt, state) h₂ in
      let same : c ≡ ctxt = ground arith in
      let kept = fetch_relations-plain tools json names here c w₁ w₂ second in
      let (uuid, unit, charm, id, relation, remote) =
        required_vars-set hook (check_vars-All getenv vars w w₁ first) in
      (refl, uuid, unit, charm, id, relation, remote, ground arith)
  new_context-plain relations dir hook (a ∷ args) w w' ctxt state plain_name h =
      absurd (ground arith)

-- ===== src/Hooktest/Runner/Relations.antt =====
-- hook/hooktest/hooktest.go: the relation that a hook runs for.
use gocharm.Base.{String, ◌≡◌, refl, List, [], ◌∷◌, true, false, arith, ok, str_eq, str_eq_iff, In}
use gocharm.Base.{subst, panic, newf, All, ◌⊎◌, Bool-cases, inl, inr}
use gocharm.Base.Dict.{Dict}
use gocharm.Base.Texts.{is_empty}
use gocharm.Hook.Context.{Context}
use gocharm.Hooktest.Runner.{Setup, Marshal, plain_context, hook_context, lists, relation_name}

lists-In : (id : String) (ids : List String) → lists id ids ≡ true → In id ids
lists-In id [] h = absurd (ground arith)
lists-In id (i ∷ ids) h = elim (Bool-cases (str_eq i id)) [
  | inl e ↦ inl ((str_eq_iff i id).0 e)
  | inr e ↦ inr (lists-In id ids (ground arith))
]

In-lists : (id : String) (ids : List String) → In id ids → lists id ids ≡ true
In-lists id [] h = absurd h
In-lists id (i ∷ ids) (inl e) = ground (arith, str_eq_iff i id)
In-lists id (i ∷ ids) (inr h) = ground (arith, In-lists id ids h)

-- The name lists the id, with the ids that it stands with.
abbrev Listed : String → String → Dict (List String) → Type 0
Listed id name m = (ids : List String) × In (name, ids) m × In id ids

relation_name-In :
    (id : String) (m : Dict (List String))
    → is_empty (relation_name id m) ≡ false
    → Listed id (relation_name id m) m
relation_name-In id [] h = absurd (ground arith)
relation_name-In id ((name, ids) ∷ m) h = elim (Bool-cases (lists id ids)) [
  | inl e ↦ rw e (ids, inl refl, lists-In id ids e)
  | inr e ↦
      let (ids', there, listed) = relation_name-In id m (ground arith) in
      subst (λ n. Listed id n ((name, ids) ∷ m)) (ground arith) (ids', inr there, listed)
]

-- No relation has a blank name.
abbrev pub Named : Dict (List String) → Type 0
Named m = All (λ (entry : String × List String). is_empty entry.0 ≡ false) m

relation_name-none :
    (id n : String) (ids : List String) (m : Dict (List String))
    → Named m
    → is_empty (relation_name id m) ≡ true
    → In (n, ids) m
    → In id ids
    → ⊥
relation_name-none id n ids [] named h i j = absurd i
relation_name-none id n ids ((name, ids') ∷ m) named h (inl e) j =
    ground (arith, named.0, In-lists id ids j, e)
relation_name-none id n ids ((name, ids') ∷ m) named h (inr i) j =
    elim (Bool-cases (lists id ids')) [
      | inl e ↦ ground (arith, named.0)
      | inr e ↦ relation_name-none id n ids m named.1 (ground arith) i j
    ]

module _ {V W : Type 0} (marshal : Marshal V) (setup : Setup V W) where
  abbrev pub Within : String → String → Context → Type 0
  Within id unit ctxt =
      (ctxt.relation_id ≡ id)
      × (ctxt.remote_unit ≡ unit)
      × Listed id ctxt.relation_name setup.relation_ids

  -- For an id that is not blank, where no relation has a blank name: the context of a hook has
  -- the id, the unit and the name of a relation that lists the id; or no relation lists it, and
  -- the making of the context panics.
  pub hook_context-relation :
      (name id unit : String)
      → is_empty id ≡ false
      → Named setup.relation_ids
      → ((ctxt : Context) × (hook_context marshal setup name id unit ≡ ok ctxt)
          × Within id unit ctxt)
        ⊎ ((hook_context marshal setup name id unit ≡ panic (newf "relation id not found" []))
            × ((n : String) (ids : List String) → In (n, ids) setup.relation_ids → In id ids → ⊥))
  unfolding hook_context
  hook_context-relation name id unit given named =
      elim (Bool-cases (is_empty (relation_name id setup.relation_ids))) [
        | inl e ↦
            inr (
              ground arith,
              λ n ids i j. relation_name-none id n ids setup.relation_ids named e i j,
            )
        | inr e ↦
            let ctxt = record (plain_context marshal setup name) {
              relation_id = id;
              remote_unit = unit;
              relation_name = relation_name id setup.relation_ids;
            } in
            inl (ctxt, ground arith, (refl, refl, relation_name-In id setup.relation_ids e))
      ]

-- ===== src/Cmd/Filed.antt =====
-- cmd/gocharm/inspect.go: where the relations that a charm has registered go.
use gocharm.Base.{String, ◌≡◌, ◌≢◌, ◌⊎◌, refl, sym, [], ◌∷◌, some, ok, err, panic}
use gocharm.Base.{arith, Result, In, All, Distinct, inl, inr, Bool-cases, str_eq}
use gocharm.Base.{str_eq_iff, subst, ◌∙◌}
use gocharm.Base.Dict.{Dict, lookup, keys, lookup-insert}
use gocharm.Cmd.Inspect.{Meta, CharmInfo, file_relation, file_relations, and_then, inspect}
use gocharm.Cmd.Inspect.{with_meta, plain_meta}
use gocharm.Hook.Juju.{Juju, CharmRelation}
use gocharm.Hook.Registry.{View}
use gocharm.Hook.Registry.Declare.{registered_relations}

module _ (juju : Juju) where
  -- Under its name, among the relations of its role, which is not that of a peer.
  abbrev pub IsFiled : String → CharmRelation → Meta → Type 0
  IsFiled n rel m =
      ((rel.role ≡ juju.role_provider) × (lookup n m.provides ≡ some rel))
      ⊎ ((rel.role ≡ juju.role_requirer) × (lookup n m.requires ≡ some rel))

  file_relation-IsFiled :
      (n : String) (rel : CharmRelation) (m m' : Meta)
      → file_relation juju n rel m ≡ ok m'
      → IsFiled n rel m'
  unfolding file_relation
  file_relation-IsFiled n rel m m' h = elim (Bool-cases (str_eq rel.role juju.role_provider)) [
    | inl p ↦ inl (
      ground (arith, str_eq_iff rel.role juju.role_provider),
      ground (arith, lookup-insert n n rel m.provides, str_eq_iff n n),
    )
    | inr p ↦ elim (Bool-cases (str_eq rel.role juju.role_requirer)) [
      | inl r ↦ inr (
        ground (arith, str_eq_iff rel.role juju.role_requirer),
        ground (arith, lookup-insert n n rel m.requires, str_eq_iff n n),
      )
      | inr r ↦ absurd (ground arith)
    ]
  ]

  -- Another name's relation stays where it is.
  file_relation-kept :
      (n k : String) (rel other : CharmRelation) (m m' : Meta)
      → file_relation juju n rel m ≡ ok m'
      → n ≢ k
      → IsFiled k other m
      → IsFiled k other m'
  unfolding file_relation
  file_relation-kept n k rel other m m' h differ (inl (role, there)) =
      inl (role, ground (arith, lookup-insert n k rel m.provides, str_eq_iff n k))
  file_relation-kept n k rel other m m' h differ (inr (role, there)) =
      inr (role, ground (arith, lookup-insert n k rel m.requires, str_eq_iff n k))

  and_then-ok :
      (r : Result Meta) (f : Meta → Result Meta) (m' : Meta)
      → and_then r f ≡ ok m'
      → (m : Meta) × (r ≡ ok m) × (f m ≡ ok m')
  and_then-ok (ok m) f m' h = (m, refl, h)
  and_then-ok (err e) f m' h = absurd (ground arith)
  and_then-ok (panic e) f m' h = absurd (ground arith)

  file_relations-kept :
      (k : String) (other : CharmRelation) (rels : Dict CharmRelation) (m m' : Meta)
      → file_relations juju rels m ≡ ok m'
      → All (λ n. n ≢ k) (keys rels)
      → IsFiled k other m
      → IsFiled k other m'
  unfolding file_relations
  file_relations-kept k other [] m m' h a f =
      let same : m ≡ m' = ground arith in subst (IsFiled k other) same f
  file_relations-kept k other ((n, rel) ∷ rels) m m' h a f =
      let (m₁, first, rest) =
        and_then-ok (file_relation juju n rel m) (file_relations juju rels) m' h in
      file_relations-kept k other rels m₁ m' rest a.1
        (file_relation-kept n k rel other m m₁ first a.0 f)

  file_relations-IsFiled :
      (n : String) (rel : CharmRelation) (rels : Dict CharmRelation) (m m' : Meta)
      → Distinct (keys rels)
      → file_relations juju rels m ≡ ok m'
      → In (n, rel) rels
      → IsFiled n rel m'
  unfolding file_relations
  file_relations-IsFiled n rel [] m m' d h i = absurd i
  file_relations-IsFiled n rel ((k, other) ∷ rels) m m' d h i =
      let (m₁, first, rest) =
        and_then-ok (file_relation juju k other m) (file_relations juju rels) m' h in
      elim i [
        | inl e ↦
            subst (λ (x : String × CharmRelation). IsFiled x.0 x.1 m') e
              (file_relations-kept k other rels m₁ m' rest d.0
                (file_relation-IsFiled k other m m₁ first))
        | inr later ↦ file_relations-IsFiled n rel rels m₁ m' d.1 rest later
      ]

  module _ {W : Type 0} where
    with_meta-ok :
        (v : View W) (r : Result Meta) (info : CharmInfo)
        → with_meta v r ≡ ok info
        → r ≡ ok info.meta
    with_meta-ok v (ok m) info h = ground arith
    with_meta-ok v (err e) info h = absurd (ground arith)
    with_meta-ok v (panic e) info h = absurd (ground arith)

    -- Where the registered relations have different names, an inspection that gives a result has
    -- each of them under its name and with its details among the relations of its role, which is
    -- the provider's or the requirer's. So a charm that registers a peer's relation gets no
    -- result.
    pub inspect-IsFiled :
        (v : View W) (info : CharmInfo) (n : String) (rel : CharmRelation)
        → Distinct (keys (registered_relations v))
        → inspect juju v ≡ ok info
        → In (n, rel) (registered_relations v)
        → IsFiled n rel info.meta
    unfolding inspect
    inspect-IsFiled v info n rel d h i =
        let rels = registered_relations v in
        file_relations-IsFiled n rel rels (plain_meta v) info.meta d
          (with_meta-ok v (file_relations juju rels (plain_meta v)) info h) i

    -- A peer's relation has a place nowhere, so that there is no result.
    inspect-peer :
        (v : View W) (info : CharmInfo) (n : String) (rel : CharmRelation)
        → Distinct (keys (registered_relations v))
        → juju.role_peer ≢ juju.role_provider
        → juju.role_peer ≢ juju.role_requirer
        → rel.role ≡ juju.role_peer
        → In (n, rel) (registered_relations v)
        → inspect juju v ≢ ok info
    inspect-peer v info n rel d other_provider other_requirer peer i h =
        elim (inspect-IsFiled v info n rel d h i) [
          | inl (role, _) ↦ other_provider (sym peer ∙ role)
          | inr (role, _) ↦ other_requirer (sym peer ∙ role)
        ]

-- ===== src/Hook/Registry/Owners.antt =====
-- Which registry a command and a persistent state belong to: one of its own name, that has
-- registered one of them and will not register another.
use gocharm.Base.{String, ◌≡◌, ◌≢◌, inl, inr, refl, sym, ap, subst, ◌∙◌, Bool, true, false}
use gocharm.Base.{List, [], ◌∷◌, ◌++◌, map, In, All-map, Distinct, Distinct-snoc, Distinct-inj}
use gocharm.Base.{In-append_left, In-append_right, In-append_cases, some}
use mathlib.Core.List.{map-append}
use gocharm.Base.Dict.{lookup}
use gocharm.Hook.Juju.{Juju}
use gocharm.Hook.Registry.{View, Registry, SharedRegistry, LocalState, CommandFunc}
use gocharm.Hook.Registry.Calls.{Call, perform, at, Reach, start, call}
use gocharm.Hook.Registry.Additions.{Adds, perform-Adds, owner_name}
use gocharm.Hook.Registry.Effects.{perform-Keeps}
use gocharm.Hook.Registry.Names.{IsNamed, Reach-IsNamed, name_of}

abbrev Owner : List Registry → (Registry → Bool) → String → Type 0
Owner rs has n = (r : Registry) × In r rs × (r.name ≡ n) × (has r ≡ true)

-- Commands and states have owners, and no two states have the same name.
pub record IsOwned {W : Type 0} (rs : List Registry) (s : SharedRegistry W) : Type 0 where
  pub commands :
      (k : String) (f : CommandFunc W)
      → lookup k s.commands ≡ some f
      → Owner rs (λ r. r.has_command) k
  pub states : (st : LocalState W) → In st s.state → Owner rs (λ r. r.has_context) st.registry_name
  pub distinct : Distinct (map owner_name s.state)

module _ {W : Type 0} (juju : Juju) (before after : List Registry) (r : Registry)
    (s : SharedRegistry W) (c : Call W) where
  abbrev result : List Registry × View W
  result = perform juju c (at juju r s)

  abbrev registries : List Registry
  registries = before ++ result.1.registry ∷ (after ++ result.0)

  abbrev adds : Adds r result.1.registry s result.1.shared
  adds = perform-Adds juju c r s

  here : In result.1.registry registries
  here =
      In-append_right result.1.registry before (result.1.registry ∷ (after ++ result.0)) (inl refl)

  -- A registry that has registered something is still there, under its name.
  keeps_Owner :
      (has : Registry → Bool)
      → (has r ≡ true → has result.1.registry ≡ true)
      → (n : String) → Owner (before ++ r ∷ after) has n
      → Owner registries has n
  keeps_Owner has still n (q, iq, nq, hq) = elim (In-append_cases q before (r ∷ after) iq) [
    | inl early ↦ (q, In-append_left q before _ early, nq, hq)
    | inr (inl e) ↦ (
      result.1.registry,
      here,
      (perform-Keeps juju c r s).name ∙ ap name_of e ∙ nq,
      still (ap has e ∙ hq),
    )
    | inr (inr late) ↦ (
      q,
      In-append_right q before (result.1.registry ∷ (after ++ result.0))
          (inr (In-append_left q after result.0 late)),
      nq,
      hq,
    )
  ]

  module _ (named : IsNamed (before ++ r ∷ after)) (h : IsOwned (before ++ r ∷ after) s) where
    owned_command :
        (k : String) (f : CommandFunc W)
        → lookup k result.1.shared.commands ≡ some f
        → Owner registries (λ q. q.has_command) k
    owned_command k f e = elim (adds.commands k) [
      | inl same ↦
          keeps_Owner (λ q. q.has_command) adds.has_command k (h.commands k f (sym same ∙ e))
      | inr (kr, _, now) ↦ (result.1.registry, here, (perform-Keeps juju c r s).name ∙ sym kr, now)
    ]

    -- A registry has one owner's name at most, so that a name with no state has none yet.
    unowned :
        (n : String)
        → n ≡ r.name
        → r.has_context ≡ false
        → (st : LocalState W) → In st s.state
        → owner_name st ≢ n
    unowned n nr none_yet st i e =
        let (q, iq, nq, hq) = h.states st i in
        let same =
          Distinct-inj name_of (before ++ r ∷ after) named.distinct iq
            (In-append_right r before (r ∷ after) (inl refl)) (nq ∙ e ∙ nr) in
        cc (ap (λ (x : Registry). x.has_context) same)

    owned_state :
        (st : LocalState W)
        → In st result.1.shared.state
        → Owner registries (λ q. q.has_context) st.registry_name
    owned_state st i = elim adds.states [
      | inl same ↦
          keeps_Owner (λ q. q.has_context) adds.has_context st.registry_name
            (h.states st (subst (In st) same i))
      | inr (new, grown, nm, _, now) ↦
          elim (In-append_cases st s.state (new ∷ []) (subst (In st) grown i)) [
            | inl old ↦
                keeps_Owner (λ q. q.has_context) adds.has_context st.registry_name (h.states st old)
            | inr (inl e) ↦ (
              result.1.registry,
              here,
              (perform-Keeps juju c r s).name ∙ sym nm ∙ ap owner_name e,
              now,
            )
            | inr (inr bad) ↦ absurd bad
          ]
    ]

    Distinct-states : Distinct (map owner_name result.1.shared.state)
    Distinct-states = elim adds.states [
      | inl same ↦ rw same h.distinct
      | inr (new, grown, nm, none_yet, _) ↦ rw grown (
          rw map-append (
            Distinct-snoc new.registry_name (map owner_name s.state) h.distinct
              (All-map s.state (unowned new.registry_name nm none_yet))))
    ]

    perform-IsOwned : IsOwned registries result.1.shared
    perform-IsOwned = record {
      commands = owned_command;
      states = owned_state;
      distinct = Distinct-states;
    }

-- Whatever is registered, and in whatever order: each command and each persistent state belongs
-- to the registry of its name, which has registered it, and no two persistent states have the
-- same name.
pub Reach-IsOwned :
    {W : Type 0} (juju : Juju) {rs : List Registry} {s : SharedRegistry W}
    → Reach juju rs s
    → IsOwned rs s
unfolding lookup
Reach-IsOwned {W} juju (start v e) =
    subst (λ (x : View W). IsOwned (x.registry ∷ []) x.shared) (sym e)
      (record { commands = λ k f h. cc h; states = λ st i. absurd i; distinct = tt })
Reach-IsOwned juju (call before after r s c reach) =
    perform-IsOwned juju before after r s c (Reach-IsNamed juju reach) (Reach-IsOwned juju reach)

-- No later call on any of the registries changes a command that is registered.
pub lookup-perform_command :
    {W : Type 0} (juju : Juju) (before after : List Registry) (r : Registry) (s : SharedRegistry W)
    (c : Call W) (k : String) (f : CommandFunc W)
    → Reach juju (before ++ r ∷ after) s
    → lookup k s.commands ≡ some f
    → lookup k (perform juju c (at juju r s)).1.shared.commands ≡ some f
lookup-perform_command juju before after r s c k f reach e =
    elim ((perform-Adds juju c r s).commands k) [
      | inl same ↦ same ∙ e
      | inr (kr, none_yet, _) ↦
          let (q, iq, nq, hq) = (Reach-IsOwned juju reach).commands k f e in
          let same =
            Distinct-inj name_of (before ++ r ∷ after) (Reach-IsNamed juju reach).distinct iq
              (In-append_right r before (r ∷ after) (inl refl)) (nq ∙ kr) in
          cc (ap (λ (x : Registry). x.has_command) same)
    ]

-- ===== src/Hook/Main/Restored.antt =====
-- What loadState makes of the values after saveState, in the next run of the program.
use gocharm.Base.{String, ◌≡◌, ◌≢◌, refl, sym, ◌∙◌, ap, subst, inl, inr, List, [], ◌∷◌, map, arith}
use gocharm.Base.{ok, In, All, Distinct, for_each, some}
use gocharm.Base.Dict.{Dict, lookup}
use gocharm.Hook.Registry.{SharedRegistry, LocalState}
use gocharm.Hook.Registry.Additions.{owner_name}
use gocharm.Hook.State.{PersistentState}
use gocharm.Hook.Main.{load_one, load_state, save_state}
use gocharm.Hook.Main.Saved.{IsStore, IsApart, save_state-stores}

-- Values of which JSON decodes what it encodes: once decoded, a value encodes to the same text. Each
-- lies behind a pointer of its own, apart from the store and from the other values.
pub record IsValues {W : Type 0} (store : W → Dict String) (l : List (LocalState W)) : Type 0 where
  pub decodes :
      (st : LocalState W) (c : String) (w w' : W)
      → In st l
      → st.val.marshal w ≡ ok c
      → ((st.val.unmarshal c w').0 ≡ ok tt) × (st.val.marshal (st.val.unmarshal c w').1 ≡ ok c)
  pub stores :
      (st : LocalState W) (c : String) (w : W) → In st l → store (st.val.unmarshal c w).1 ≡ store w
  pub others :
      (st b : LocalState W) (c : String) (w : W)
      → In st l
      → In b l
      → st.registry_name ≢ b.registry_name
      → b.val.marshal (st.val.unmarshal c w).1 ≡ b.val.marshal w

module _ {W : Type 0} (state : PersistentState W) (store : W → Dict String)
    (laws : IsStore state store) where
  load_one-found :
      (st : LocalState W) (c : String) (w : W)
      → lookup st.registry_name (store w) ≡ some c
      → (st.val.unmarshal c w).0 ≡ ok tt
      → load_one state st w ≡ (ok tt, (st.val.unmarshal c w).1)
  unfolding load_one
  load_one-found st c w found good = ground (arith, laws.loads st.registry_name w)

  module _ (all : List (LocalState W)) (values : IsValues store all) (w₀ : W) where
    -- The store holds what the value marshals to in the world of the save.
    abbrev IsStored : W → LocalState W → Type 0
    IsStored w st =
        (c : String) × (st.val.marshal w₀ ≡ ok c) × (lookup st.registry_name (store w) ≡ some c)

    -- Some of the values have been loaded, and the others are as they were.
    abbrev IsLoaded : List (LocalState W) → W → W → Type 0
    IsLoaded l w w' =
        (for_each (load_one state) l w ≡ (ok tt, w'))
        × ((st : LocalState W) → In st l → st.val.marshal w' ≡ st.val.marshal w₀)
        × ((b : LocalState W)
            → In b all
            → All (λ n. n ≢ b.registry_name) (map owner_name l)
            → b.val.marshal w' ≡ b.val.marshal w)

    loaded :
        (l : List (LocalState W)) (w : W)
        → ((st : LocalState W) → In st l → In st all)
        → Distinct (map owner_name l)
        → ((st : LocalState W) → In st l → IsStored w st)
        → (w' : W) × IsLoaded l w w'
    unfolding for_each
    loaded [] w sub d stored = (w, (refl, λ st i. absurd i, λ b i a. refl))
    loaded (x ∷ l) w sub d stored =
        let (c, m, s) = stored x (inl refl) in
        let here = sub x (inl refl) in
        let w₁ = (x.val.unmarshal c w).1 in
        let (good, same) = values.decodes x c w₀ w here m in
        let one = load_one-found x c w s good in
        let stay : store w₁ ≡ store w = values.stores x c w here in
        let (w', (run, each, rest)) =
          loaded l w₁ (λ st i. sub st (inr i)) d.1
            (λ st i.
              let (c', m', s') = stored st (inr i) in
              (c', m', ap (lookup st.registry_name) stay ∙ s')) in
        (
          w',
          (
            ground arith,
            λ st i. elim i [
              | inl e ↦
                  subst (λ (y : LocalState W). y.val.marshal w' ≡ y.val.marshal w₀) e
                    (rest x here d.0 ∙ same ∙ sym m)
              | inr later ↦ each st later
            ],
            λ b i a. rest b i a.1 ∙ values.others x b c w here i a.0,
          ),
        )

  -- The persistent state survives the end of the program: after a saveState that succeeds, a
  -- loadState on a store with the same contents succeeds, whatever the values are at its start,
  -- and leaves each of the registered values such that it marshals as it did at the save. No two
  -- of the states have the same name, a store reads as saved, the values lie apart from it and
  -- from each other, and decoding what a value was encoded to gives a value of the same code.
  pub load_state-restores :
      (r : SharedRegistry W) (w w' w₁ : W)
      → IsApart state r.state
      → IsValues store r.state
      → Distinct (map owner_name r.state)
      → save_state r state w ≡ (ok tt, w')
      → store w₁ ≡ store w'
      → (w₂ : W) × (load_state r state w₁ ≡ (ok tt, w₂))
        × ((st : LocalState W) → In st r.state → st.val.marshal w₂ ≡ st.val.marshal w)
  unfolding load_state
  load_state-restores r w w' w₁ apart values d h e =
      let (w₂, (run, each, _)) =
        loaded r.state values w r.state w₁ (λ st i. i) d
          (λ st i.
            let (c, m, s) = save_state-stores state store laws r w w' st apart d h i in
            (c, m, ap (lookup st.registry_name) e ∙ s)) in
      (w₂, run, each)

-- ===== src/Hook/Main/Saved.antt =====
-- What saveState leaves in the persistent state.
use gocharm.Base.{String, ◌≡◌, ◌≢◌, inl, inr, sym, ap, subst, ◌∙◌, List, [], ◌∷◌, map, arith}
use gocharm.Base.{Act, Result, ok, Result-cases, ◌>>◌, for_each, In, All, Distinct}
use gocharm.Base.{if◌then◌else◌, str_eq, str_eq_iff, some}
use gocharm.Base.Dict.{Dict, lookup}
use gocharm.Hook.Registry.{SharedRegistry, LocalState, Unit₀}
use gocharm.Hook.Registry.Additions.{owner_name}
use gocharm.Hook.State.{PersistentState}
use gocharm.Hook.Main.{save_one, save_state}

-- A persistent state whose contents are a map: what a successful Save and a Load do with it.
pub record IsStore {W : Type 0} (state : PersistentState W) (store : W → Dict String) : Type 0 where
  pub saves :
      (n c : String) (w : W) (k : String)
      → (state.save n c w).0 ≡ ok tt
      → lookup k (store (state.save n c w).1) ≡ (if str_eq n k then some c else lookup k (store w))
  pub loads : (n : String) (w : W) → state.load n w ≡ (ok (lookup n (store w)), w)

-- Saving to the store changes no value that the pointers point to.
abbrev pub IsApart : {W : Type 0} → PersistentState W → List (LocalState W) → Type 0
IsApart {W} state l =
    (n c : String) (w : W) (st : LocalState W)
    → In st l
    → st.val.marshal (state.save n c w).1 ≡ st.val.marshal w

module _ {W : Type 0} (state : PersistentState W) where
  >>-ok :
      (m k : Act W Unit₀) (w w' : W)
      → (m >> k) w ≡ (ok tt, w')
      → (m w ≡ (ok tt, (m w).1)) × (k (m w).1 ≡ (ok tt, w'))
  >>-ok m k w w' h = ground arith

  save_one-ok :
      (st : LocalState W) (w w' : W)
      → save_one state st w ≡ (ok tt, w')
      → (c : String) × (st.val.marshal w ≡ ok c) × (state.save st.registry_name c w ≡ (ok tt, w'))
  unfolding save_one
  save_one-ok st w w' h = elim (Result-cases (st.val.marshal w)) [
    | inl (c, e) ↦ (c, e, ground arith)
    | inr (inl (x, e)) ↦ absurd (ground arith)
    | inr (inr (x, e)) ↦ absurd (ground arith)
  ]

module _ {W : Type 0} (state : PersistentState W) (store : W → Dict String)
    (laws : IsStore state store) where
  stored :
      (n c k : String) (w w' : W)
      → state.save n c w ≡ (ok tt, w')
      → lookup k (store w') ≡ (if str_eq n k then some c else lookup k (store w))
  stored n c k w w' e =
      sym (ap (λ (x : Result Unit₀ × W). lookup k (store x.1)) e)
      ∙ laws.saves n c w k (ap (λ (x : Result Unit₀ × W). x.0) e)

  others_kept :
      (l : List (LocalState W)) (w w' : W) (k : String)
      → for_each (save_one state) l w ≡ (ok tt, w')
      → All (λ n. n ≢ k) (map owner_name l)
      → lookup k (store w') ≡ lookup k (store w)
  unfolding for_each
  others_kept [] w w' k h a = ap (λ (x : Result Unit₀ × W). lookup k (store x.1)) (sym h)
  others_kept (st ∷ l) w w' k h a =
      let (first, rest) = >>-ok state (save_one state st) (for_each (save_one state) l) w w' h in
      let (c, m, s) = save_one-ok state st w (save_one state st w).1 first in
      ground (
        arith,
        others_kept l (save_one state st w).1 w' k rest a.1,
        stored st.registry_name c k w (save_one state st w).1 s,
        a.0,
        str_eq_iff st.registry_name k,
      )

  saved_all :
      (l : List (LocalState W)) (w w' : W) (st : LocalState W)
      → IsApart state l
      → Distinct (map owner_name l)
      → for_each (save_one state) l w ≡ (ok tt, w')
      → In st l
      → (c : String) × (st.val.marshal w ≡ ok c) × (lookup st.registry_name (store w') ≡ some c)
  unfolding for_each
  saved_all [] w w' st apart d h i = absurd i
  saved_all (x ∷ l) w w' st apart d h i =
      let w₁ = (save_one state x w).1 in
      let (first, rest) = >>-ok state (save_one state x) (for_each (save_one state) l) w w' h in
      let (c, m, s) = save_one-ok state x w w₁ first in
      elim i [
        | inl e ↦
            subst
              (λ (y : LocalState W).
                (c : String) × (y.val.marshal w ≡ ok c)
                × (lookup y.registry_name (store w') ≡ some c))
              e
              (
                c,
                m,
                ground (
                  arith,
                  others_kept l w₁ w' x.registry_name rest d.0,
                  stored x.registry_name c x.registry_name w w₁ s,
                  str_eq_iff x.registry_name x.registry_name,
                ),
              )
        | inr later ↦
            let (c', m', s') =
              saved_all l w₁ w' st (λ n d' v y j. apart n d' v y (inr j)) d.1 rest later in
            (
              c',
              sym (
                    sym (ap st.val.marshal (ap (λ (p : Result Unit₀ × W). p.1) s))
                    ∙ apart x.registry_name c w st (inr later))
                  ∙ m',
              s',
            )
      ]

  -- Where saveState succeeds, no two of the registered states have the same name, and saving
  -- changes no value, the store holds for each of them what its own value marshals to.
  pub save_state-stores :
      (r : SharedRegistry W) (w w' : W) (st : LocalState W)
      → IsApart state r.state
      → Distinct (map owner_name r.state)
      → save_state r state w ≡ (ok tt, w')
      → In st r.state
      → (c : String) × (st.val.marshal w ≡ ok c) × (lookup st.registry_name (store w') ≡ some c)
  unfolding save_state
  save_state-stores r w w' st apart d h i = saved_all r.state w w' st apart d h i

-- ===== src/Hook/Main/Outcomes.antt =====
-- What Main does around the hook functions: it saves the state whatever came of them, and reports
-- success only where everything succeeded.
use gocharm.Base.{String, ◌≡◌, refl, List, [], ◌∷◌, map, arith, Option, none, some, In, Distinct}
use gocharm.Base.{
  pure, ◌>>◌, Act, Result, ok, for_each, wrap, noted, masked, Result-cases, inl, inr,
}
use gocharm.Base.Dict.{Dict, lookup}
use gocharm.Base.Inversion.{bind-ok, wrap-ok, Each, for_each-Each}
use gocharm.Hook.Context.{Tools, Context, entries}
use gocharm.Hook.Registry.{SharedRegistry, HookFunc, LocalState, Command, Unit₀}
use gocharm.Hook.Registry.Additions.{owner_name}
use gocharm.Hook.State.{PersistentState}
use gocharm.Hook.Main.{
  load_one, load_state, save_one, save_state, run_hook, run_hooks, after_hooks, run_loaded,
  set_context,
}
use gocharm.Hook.Main.Order.{for_each-append}
use gocharm.Hook.Main.Saved.{IsStore, IsApart, save_state-stores}

module _ {W : Type 0} (state : PersistentState W) where
  -- A value has been decoded from the text, if there is one.
  abbrev pub IsGiven : LocalState W → Option String → W → W → Type 0
  IsGiven st none w w' = w ≡ w'
  IsGiven st (some c) w w' = st.val.unmarshal c w ≡ (ok tt, w')

  -- The value has got the text that the store has under its name, if it has one.
  abbrev pub IsLoaded : LocalState W → W → W → Type 0
  IsLoaded st w w' =
      (found : Option String) × (w₁ : W) × (state.load st.registry_name w ≡ (ok found, w₁))
      × IsGiven st found w₁ w'

  -- The value has been written under its name.
  abbrev pub IsSaved : LocalState W → W → W → Type 0
  IsSaved st w w' =
      (c : String) × (st.val.marshal w ≡ ok c) × (state.save st.registry_name c w ≡ (ok tt, w'))

  -- What load_one does with a text that it has found.
  abbrev give : LocalState W → Option String → Act W Unit₀
  give st none = pure tt
  give st (some content) =
      wrap (λ e. noted e "cannot unmarshal state for %s" (st.registry_name ∷ []))
        (st.val.unmarshal content)

  given :
      (st : LocalState W) (w' : W) (found : Option String) (w : W)
      → give st found w ≡ (ok tt, w')
      → IsGiven st found w w'
  given st w' none w h = ground arith
  given st w' (some c) w h = ground arith

  load_one-IsLoaded :
      (st : LocalState W) (w w' : W) → load_one state st w ≡ (ok tt, w') → IsLoaded st w w'
  unfolding load_one
  load_one-IsLoaded st w w' h =
      let loading =
        wrap (λ e. noted e "cannot load state for %s" (st.registry_name ∷ []))
          (state.load st.registry_name) in
      let (found, w₁, first, second) = bind-ok loading (give st) w w' tt h in
      (
        found,
        w₁,
        wrap-ok _ (state.load st.registry_name) w w₁ found first,
        given st w' found w₁ second,
      )

  save_one-IsSaved :
      (st : LocalState W) (w w' : W) → save_one state st w ≡ (ok tt, w') → IsSaved st w w'
  unfolding save_one
  save_one-IsSaved st w w' h = elim (Result-cases (st.val.marshal w)) [
    | inl (c, e) ↦ (c, e, ground arith)
    | inr (inl (x, e)) ↦ absurd (ground arith)
    | inr (inr (x, e)) ↦ absurd (ground arith)
  ]

  module _ (tools : Tools W) (r : SharedRegistry W) (ctxt : Context) where
    -- Hook functions that have all succeeded: those of the hook, of which there is one at least, and
    -- those of the wildcard.
    abbrev pub IsRun : W → W → Type 0
    IsRun w w' =
        (f : HookFunc W) × (fs : List (HookFunc W)) × (w₁ : W) × (lookup ctxt.hook_name r.hooks
          ≡ some (f ∷ fs))
        × Each (λ g w w'. g.run w ≡ (ok tt, w')) (f ∷ fs) w w₁
        × Each (λ g w w'. g.run w ≡ (ok tt, w')) (entries (lookup "*" r.hooks)) w₁ w'

    funcs-IsRun :
        (l : Option (List (HookFunc W))) (w w' : W) (c : Option (Command W))
        → lookup ctxt.hook_name r.hooks ≡ l
        → run_hooks tools r ctxt w ≡ (ok c, w')
        → (c ≡ none) × IsRun w w'
    unfolding run_hooks
    funcs-IsRun none w w' c e h = absurd (ground arith)
    funcs-IsRun (some []) w w' c e h = absurd (ground arith)
    funcs-IsRun (some (f ∷ fs)) w w' c e h =
        let rest = entries (lookup "*" r.hooks) in
        let ran = for_each-append run_hook (f ∷ fs) rest w in
        let (_, w₁, first, second) =
          bind-ok (for_each run_hook (f ∷ fs)) (λ _. for_each run_hook rest) w w' tt
            (ground arith) in
        (
          ground arith,
          (
            f,
            fs,
            w₁,
            e,
            for_each-Each run_hook _ (λ g w w₁ h. wrap-ok masked g.run w w₁ tt h) (f ∷ fs) w w₁
                first,
            for_each-Each run_hook _ (λ g w w₁ h. wrap-ok masked g.run w w₁ tt h) rest w₁ w' second,
          ),
        )

    after_hooks-ok :
        (result : Result (Option (Command W))) (w w' : W) (c : Option (Command W))
        → after_hooks tools r ctxt state result w ≡ (ok c, w')
        → (result ≡ ok c) × (save_state r state w ≡ (ok tt, w'))
    unfolding after_hooks
    after_hooks-ok result w w' c h = ground arith

    -- No error is lost: where a hook ends with success, it has no command to run on, each of the
    -- registered values has been loaded with success, then each context has been set with
    -- success, then each of the hook's functions and of the wildcard's has succeeded, and then
    -- each of the values has been marshalled and saved with success, all in their order.
    pub run_loaded-ok :
        (w w' : W) (c : Option (Command W))
        → run_loaded tools r ctxt state w ≡ (ok c, w')
        → (c ≡ none)
          × (w₁ : W) × (w₂ : W) × (w₃ : W) × Each IsLoaded r.state w w₁
          × Each (λ setter w w'. setter ctxt w ≡ (ok tt, w')) r.contexts w₁ w₂
          × IsRun w₂ w₃
          × Each IsSaved r.state w₃ w'
    unfolding run_loaded load_state save_state set_context
    run_loaded-ok w w' c h =
        let loading = wrap masked (load_state r state) in
        let setting = for_each (set_context tools ctxt) r.contexts in
        let (_, w₁, first, h₁) =
          bind-ok loading
            (λ _. setting >> λ w.
              let (result, w') = run_hooks tools r ctxt w in
              after_hooks tools r ctxt state result w')
            w w' c h in
        let (_, w₂, second, h₂) =
          bind-ok setting
            (λ _ w.
              let (result, w') = run_hooks tools r ctxt w in
              after_hooks tools r ctxt state result w')
            w₁ w' c h₁ in
        let (result, w₃) = run_hooks tools r ctxt w₂ in
        let (good, saved) = after_hooks-ok result w₃ w' c h₂ in
        let (none_left, run) =
          funcs-IsRun (lookup ctxt.hook_name r.hooks) w₂ w₃ c refl (ground arith) in
        (
          none_left,
          w₁,
          w₂,
          w₃,
          for_each-Each (load_one state) IsLoaded load_one-IsLoaded r.state w w₁
              (wrap-ok masked (load_state r state) w w₁ tt first),
          for_each-Each (set_context tools ctxt) _ (λ f w w₁ h. wrap-ok _ (f ctxt) w w₁ tt h)
              r.contexts w₁ w₂ second,
          run,
          for_each-Each (save_one state) IsSaved save_one-IsSaved r.state w₃ w' saved,
        )

    module _ (store : W → Dict String) (laws : IsStore state store) where
      -- A save of values that can all be marshalled, to a store where a save cannot fail, succeeds.
      save_all-ok :
          (l : List (LocalState W)) (w : W)
          → ((st : LocalState W) (w : W) → In st l → (c : String) × (st.val.marshal w ≡ ok c))
          → ((n c : String) (w : W) → (state.save n c w).0 ≡ ok tt)
          → (for_each (save_one state) l w).0 ≡ ok tt
      unfolding for_each save_one
      save_all-ok [] w marshals saves = refl
      save_all-ok (st ∷ l) w marshals saves =
          let (c, m) = marshals st w (inl refl) in
          let rest =
            save_all-ok l (state.save st.registry_name c w).1 (λ st w i. marshals st w (inr i))
              saves in
          ground (arith, saves st.registry_name c w)

      -- What the hook functions leave is saved whatever came of them, a result, an error or a
      -- panic, once the state is loaded and the contexts are set: where every value can be
      -- marshalled and no save fails, the store ends with what each of the registered values
      -- marshalled to behind the hook functions, under its own name, and the result is theirs.
      -- No two of the states have the same name, and saving changes no value.
      pub run_loaded-saves :
          (w w₁ w₂ w₃ : W) (result : Result (Option (Command W)))
          → IsApart state r.state
          → Distinct (map owner_name r.state)
          → ((st : LocalState W) (w : W) → In st r.state → (c : String) × (st.val.marshal w ≡ ok c))
          → ((n c : String) (w : W) → (state.save n c w).0 ≡ ok tt)
          → load_state r state w ≡ (ok tt, w₁)
          → for_each (set_context tools ctxt) r.contexts w₁ ≡ (ok tt, w₂)
          → run_hooks tools r ctxt w₂ ≡ (result, w₃)
          → (w' : W) × (run_loaded tools r ctxt state w ≡ (result, w'))
            × ((st : LocalState W)
                → In st r.state
                → (c : String) × (st.val.marshal w₃ ≡ ok c)
                  × (lookup st.registry_name (store w') ≡ some c))
      unfolding run_loaded after_hooks save_state
      run_loaded-saves w w₁ w₂ w₃ result apart d marshals saves l c h =
          let w' = (save_state r state w₃).1 in
          let good = save_all-ok r.state w₃ marshals saves in
          (
            w',
            ground arith,
            λ st i. save_state-stores state store laws r w₃ w' st apart d (ground arith) i,
          )

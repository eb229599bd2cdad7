-- ===== src/Hook/Main/Order.antt =====
-- The order of the hook functions, from their registration to the run of the hook.
use gocharm.Base.{String, ◌≡◌, refl, sym, ap, ◌∙◌, List, [], ◌∷◌, ◌++◌ as append, map, arith}
use gocharm.Base.{Act, ok, masked, wrap, ◌>>◌, for_each, pure, none, inl, inr}
use gocharm.Base.{if◌then◌else◌, str_eq, str_eq_iff, Bool-cases}
use gocharm.Base.Dict.{lookup, insert, lookup-insert}
use gocharm.Base.Inversion.{bind-ok}
use gocharm.Hook.Context.{Tools, Context, entries}
use gocharm.Hook.Juju.{Juju}
use gocharm.Hook.Registry.{View, SharedRegistry, HookFunc, Unit₀, register_hook}
use gocharm.Hook.Main.{run_hook, run_hooks}

module _ {W : Type 0} where
  -- Calls in turn on a list that is in two parts.
  pub for_each-append :
      {A : Type 0} (f : A → Act W Unit₀) (xs ys : List A) (w : W)
      → for_each f (append xs ys) w ≡ (for_each f xs >> for_each f ys) w
  unfolding for_each
  for_each-append f [] ys w = refl
  for_each-append f (x ∷ xs) ys w = ground (arith, for_each-append f xs ys (f x w).1)

  abbrev run_of : HookFunc W → Act W Unit₀
  run_of h = h.run

  -- The functions that a list of registrations has for a name, in its order.
  abbrev pub under : String → List (String × Act W Unit₀) → List (Act W Unit₀)
  under name [] = []
  under name ((n, f) ∷ regs) =
      let rest = under name regs in if str_eq n name then f ∷ rest else rest

  for_each-run_of :
      (l : List (HookFunc W)) (w : W)
      → for_each run_hook l w ≡ for_each (wrap masked) (map run_of l) w
  unfolding for_each
  for_each-run_of [] w = refl
  for_each-run_of (h ∷ l) w = ground (arith, for_each-run_of l (h.run w).1)

  map-append_one :
      (l : List (HookFunc W)) (h : HookFunc W) (fs : List (Act W Unit₀))
      → append (map run_of (append l (h ∷ []))) fs ≡ append (map run_of l) (h.run ∷ fs)
  map-append_one [] h fs = refl
  map-append_one (x ∷ l) h fs = ap (λ fs. x.run ∷ fs) (map-append_one l h fs)

  append_nil : (fs : List (Act W Unit₀)) → append fs [] ≡ fs
  append_nil [] = refl
  append_nil (f ∷ fs) = ap (λ fs. f ∷ fs) (append_nil fs)

  abbrev register : Juju → String × Act W Unit₀ → Act (View W) Unit₀
  register juju (n, f) = register_hook juju n f

  register-ok :
      (juju : Juju) (n : String) (f : Act W Unit₀) (v v' : View W)
      → register_hook juju n f v ≡ (ok tt, v')
      → v'.shared.hooks
        ≡ insert n
            (append
              (entries (lookup n v.shared.hooks))
              (record { registry_name = v.registry.name; run = f } ∷ []))
            v.shared.hooks
  unfolding register_hook
  register-ok juju n f v v' h = ground arith

  -- One registration goes behind the functions of its own name.
  registered-run_of :
      (juju : Juju) (name n : String) (f : Act W Unit₀) (v v' : View W) (fs : List (Act W Unit₀))
      → register_hook juju n f v ≡ (ok tt, v')
      → append (map run_of (entries (lookup name v'.shared.hooks))) fs
        ≡ append
            (map run_of (entries (lookup name v.shared.hooks)))
            (if str_eq n name then f ∷ fs else fs)
  registered-run_of juju name n f v v' fs h =
      let l = entries (lookup n v.shared.hooks) in
      let g : HookFunc W = record { registry_name = v.registry.name; run = f } in
      rw (register-ok juju n f v v' h) (
        rw (lookup-insert n name (append l (g ∷ [])) v.shared.hooks)
          (elim (Bool-cases (str_eq n name)) [
            | inl e ↦
                let same : n ≡ name = ground (arith, str_eq_iff n name) in
                let step = map-append_one l g fs in
                ground (arith, ap (λ k. entries (lookup k v.shared.hooks)) same, step)
            | inr e ↦ ground arith
          ]))

  registered_under :
      (juju : Juju) (name : String) (regs : List (String × Act W Unit₀)) (v v' : View W)
      → for_each (register juju) regs v ≡ (ok tt, v')
      → map run_of (entries (lookup name v'.shared.hooks))
        ≡ append (map run_of (entries (lookup name v.shared.hooks))) (under name regs)
  unfolding for_each
  registered_under juju name [] v v' h =
      let same : v ≡ v' = ground arith in
      rw same (sym (append_nil (map run_of (entries (lookup name v'.shared.hooks)))))
  registered_under juju name ((n, f) ∷ regs) v v' h =
      let (_, v₁, first, rest) =
        bind-ok (register juju (n, f)) (λ _. for_each (register juju) regs) v v' tt h in
      registered_under juju name regs v₁ v' rest
      ∙ registered-run_of juju name n f v v₁ (under name regs) first

  module _ (tools : Tools W) (juju : Juju) (ctxt : Context) where
    funcs_run :
        (r : SharedRegistry W) (l : List (HookFunc W)) (f : Act W Unit₀) (fs : List (Act W Unit₀))
        (w : W)
        → entries (lookup ctxt.hook_name r.hooks) ≡ l
        → map run_of l ≡ f ∷ fs
        → run_hooks tools r ctxt w
          ≡ (for_each (wrap masked) (f ∷ fs)
                >> for_each (wrap masked) (map run_of (entries (lookup "*" r.hooks)))
                >> pure none)
              w
    unfolding run_hooks
    funcs_run r [] f fs w e m = absurd (ground arith)
    funcs_run r (h ∷ l) f fs w e m =
        let rest = entries (lookup "*" r.hooks) in
        let w₁ = (for_each run_hook (h ∷ l) w).1 in
        rw (sym m) (
          ground (
            arith,
            for_each-append run_hook (h ∷ l) rest w,
            for_each-run_of (h ∷ l) w,
            for_each-run_of rest w₁,
          ))

    -- On a registry without hook functions, hook functions are registered with success, for any
    -- names and in any order. A hook that has functions among them then runs exactly those of
    -- its name, in the order in which they were registered, and where all of them succeed, those
    -- of the wildcard, in that order, up to the first that fails; the call returns no command.
    pub run_hooks-register_hook :
        (regs : List (String × Act W Unit₀)) (v v' : View W) (f : Act W Unit₀)
        (fs : List (Act W Unit₀)) (w : W)
        → v.shared.hooks ≡ []
        → for_each (λ (n, g). register_hook juju n g) regs v ≡ (ok tt, v')
        → under ctxt.hook_name regs ≡ f ∷ fs
        → run_hooks tools v'.shared ctxt w
          ≡ (for_each (wrap masked) (f ∷ fs)
                >> for_each (wrap masked) (under "*" regs)
                >> pure none)
              w
    unfolding lookup
    run_hooks-register_hook regs v v' f fs w none_yet h e =
        let own = registered_under juju ctxt.hook_name regs v v' h in
        let wild = registered_under juju "*" regs v v' h in
        let found : map run_of (entries (lookup ctxt.hook_name v'.shared.hooks)) ≡ f ∷ fs =
          ground arith in
        let others : map run_of (entries (lookup "*" v'.shared.hooks)) ≡ under "*" regs =
          ground arith in
        rw (sym others)
          (funcs_run v'.shared (entries (lookup ctxt.hook_name v'.shared.hooks)) f fs w refl found)

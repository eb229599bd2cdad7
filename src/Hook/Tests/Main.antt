-- ===== src/Hook/Tests/Main.antt =====
-- Examples of what Main runs, on a charm of one registry that keeps a counter.
use gocharm.Base.{String, suc, ◌≡◌, refl, subst, inl, inr, List, [], ◌∷◌, true, none}
use gocharm.Base.{Act, ok, err, newf, masked, for_each, pure, ◌>>◌, wrap}
use gocharm.Base.Decimal.{itoa, atoi, atoi-itoa}
use gocharm.Base.Dict.{lookup, insert}
use gocharm.Hook.Context.{Tools, Context}
use gocharm.Hook.Environment.{empty_context}
use gocharm.Hook.Registry.{
  SharedRegistry, HookFunc, LocalState, Unit₀, new_registry, Pointer, View, Command, register_hook,
}
use gocharm.Hook.HookName.{valid_hook_name}
use gocharm.Hook.State.{PersistentState}
use gocharm.Hook.Main.{
  load_state, load_one, save_state, save_one, run_hooks, run_loaded, after_hooks, set_context,
}
use gocharm.Hook.Main.Outcomes.{IsLoaded, IsSaved, IsRun, run_loaded-saves, run_loaded-ok}
use gocharm.Hook.Main.Order.{run_hooks-register_hook}
use gocharm.Hook.Main.Saved.{IsApart}
use gocharm.Base.Inversion.{Each}
use gocharm.Base.{In, some, arith, ap, sym, ◌∙◌, Option}
use gocharm.Hook.Main.Restored.{IsValues, load_state-restores}
use gocharm.Hooktest.MemState.{mem_state, mem_state-IsStore, contents}
use gocharm.Hook.Tests.{World, juju, echo, set_nothing}

abbrev pub tools : Tools World
tools = record { run = λ cmd args w. (ok "", w); close = pure tt }

abbrev count : Act World Unit₀
count w = (ok tt, (w.0, suc w.1))

abbrev fail : Act World Unit₀
fail w = (err (newf "no disk" []), (w.0, suc w.1))

-- A number that the charm keeps.
abbrev number : Pointer World
number = record {
  marshal = λ w. ok (itoa w.1);
  unmarshal =
      λ s w. elim (atoi s) [ some n ↦ (ok tt, (w.0, n)) | none ↦ (err (newf "no number" []), w) ];
}

abbrev kept : LocalState World
kept = record { registry_name = "root"; val = number }

abbrev pub counting : HookFunc World
counting = record { registry_name = "root"; run = count }

abbrev pub failing : HookFunc World
failing = record { registry_name = "root"; run = fail }

abbrev pub shared : List (HookFunc World) → SharedRegistry World
shared funcs = record new_registry.shared {
  hooks = ("install", funcs) ∷ ("*", counting ∷ []) ∷ [];
  commands = ("root", echo) ∷ [];
  contexts = set_nothing ∷ [];
  state = kept ∷ [];
}

abbrev pub ctxt : Context
ctxt = record empty_context { hook_name = "install"; has_runner = true }

abbrev pub empty : World
empty = ([], 0)

abbrev pub disk : PersistentState World
disk = mem_state

-- Saving does not touch the counter.
kept_apart :
    (n c : String) (w : World) (st : LocalState World)
    → kept ≡ st
    → st.val.marshal (disk.save n c w).1 ≡ st.val.marshal w
unfolding mem_state
kept_apart n c w st e =
    subst (λ (x : LocalState World). x.val.marshal (disk.save n c w).1 ≡ x.val.marshal w) e refl

disk_saves :
    (st : LocalState World) (w : World)
    → In st (kept ∷ [])
    → (c : String) × (st.val.marshal w ≡ ok c)
disk_saves st w (inl e) =
    subst (λ (x : LocalState World). (c : String) × (x.val.marshal w ≡ ok c)) e (itoa w.1, refl)
disk_saves st w (inr bad) = absurd bad

apart : IsApart disk (kept ∷ [])
apart n c w st (inl e) = kept_apart n c w st e
apart n c w st (inr bad) = absurd bad

-- The number that is decoded is the one that was encoded.
number-decodes :
    (c : String) (w w' : World)
    → number.marshal w ≡ ok c
    → ((number.unmarshal c w').0 ≡ ok tt) × (number.marshal (number.unmarshal c w').1 ≡ ok c)
number-decodes c w w' m =
    let same : itoa w.1 ≡ c = ground arith in
    let read : atoi c ≡ some w.1 = subst (λ c. atoi c ≡ some w.1) same (atoi-itoa w.1) in
    ground arith

number-stores : (c : String) (w : World) → contents (number.unmarshal c w).1 ≡ contents w
number-stores c w = ground arith

values : IsValues contents (kept ∷ [])
values = record {
  decodes = λ st c w w' i m. elim i [
    | inl e ↦
        subst
          (λ (x : LocalState World).
            x.val.marshal w ≡ ok c
            → ((x.val.unmarshal c w').0 ≡ ok tt) × (x.val.marshal (x.val.unmarshal c w').1 ≡ ok c))
          e (number-decodes c w w') m
    | inr bad ↦ absurd bad
  ];
  stores = λ st c w i. elim i [
    | inl e ↦
        subst (λ (x : LocalState World). contents (x.val.unmarshal c w).1 ≡ contents w) e
          (number-stores c w)
    | inr bad ↦ absurd bad
  ];
  others = λ st b c w i j differ. elim i [
    | inl e ↦ elim j [
      | inl d ↦ absurd (differ (ap (λ (x : LocalState World). x.registry_name) (sym e ∙ d)))
      | inr bad ↦ absurd bad
    ]
    | inr bad ↦ absurd bad
  ];
}

-- The counter is saved though the hook fails.
run_loaded-saves_example :
    (w' : World) × (run_loaded tools (shared (failing ∷ [])) ctxt disk empty
      ≡ (err (masked (newf "no disk" [])), w'))
    × ((st : LocalState World)
        → In st (kept ∷ [])
        → (c : String) × (st.val.marshal ([], 1) ≡ ok c)
          × (lookup st.registry_name (contents w') ≡ some c))
unfolding load_state load_one for_each run_hooks mem_state lookup set_context
run_loaded-saves_example =
    run_loaded-saves disk tools (shared (failing ∷ [])) ctxt contents mem_state-IsStore empty empty
      empty ([], 1) (err (masked (newf "no disk" []))) apart (tt, tt) disk_saves (λ n c w. refl)
      refl refl refl

run_loaded-ok_example :
    (◌≡◌ {A = Option (Command World)} none none)
    × (w₁ : World) × (w₂ : World) × (w₃ : World) × Each (IsLoaded disk) (kept ∷ []) empty w₁
    × Each (λ setter w w'. setter ctxt w ≡ (ok tt, w')) (set_nothing ∷ []) w₁ w₂
    × IsRun disk tools (shared (counting ∷ [])) ctxt w₂ w₃
    × Each (IsSaved disk) (kept ∷ []) w₃ (("root", "2") ∷ [], 2)
unfolding run_loaded after_hooks load_state load_one save_state save_one for_each run_hooks
    mem_state lookup insert set_context itoa
run_loaded-ok_example =
    run_loaded-ok disk tools (shared (counting ∷ [])) ctxt empty (("root", "2") ∷ [], 2) none refl

-- A hook function, one of the wildcard, and one of another hook.
abbrev registrations : List (String × Act World Unit₀)
registrations = ("*", count) ∷ ("install", fail) ∷ ("start", count) ∷ ("install", count) ∷ []

abbrev registered : View World
registered = (for_each (λ (n, g). register_hook juju n g) registrations new_registry).1

run_hooks-register_hook_example :
    run_hooks tools registered.shared ctxt empty
    ≡ (for_each (wrap masked) (fail ∷ count ∷ [])
          >> for_each (wrap masked) (count ∷ [])
          >> pure none)
        empty
unfolding for_each register_hook valid_hook_name
run_hooks-register_hook_example =
    run_hooks-register_hook tools juju ctxt registrations new_registry registered fail (count ∷ [])
      empty refl refl refl

abbrev seven : World
seven = ([], 7)

-- The next run starts with another number.
load_state-restores_example :
    (w₂ : World) × (load_state (shared []) disk (("root", "7") ∷ [], 3) ≡ (ok tt, w₂))
    × ((st : LocalState World) → In st (kept ∷ []) → st.val.marshal w₂ ≡ st.val.marshal seven)
unfolding save_state save_one for_each mem_state insert itoa
load_state-restores_example =
    load_state-restores disk contents mem_state-IsStore (shared []) ([], 7) (("root", "7") ∷ [], 7)
      (("root", "7") ∷ [], 3) apart values (tt, tt) refl refl

-- ===== src/Hooktest/MemState.antt =====
-- hook/hooktest/hooktest.go: MemState, the persistent state in memory. It is a component's own state
-- beside the rest.
use gocharm.Base.{String, refl, Option, Act, ok}
use gocharm.Base.Dict.{Dict, lookup, insert, lookup-insert}
use gocharm.Hook.State.{PersistentState}
use gocharm.Hook.Main.Saved.{IsStore}

unfoldable pub mem_save : {W : Type 0} → String → String → Act (Dict String × W) (Unit {0})
mem_save name content (s, w) = (ok tt, (insert name content s, w))

-- A nil slice is what a missing name gives.
unfoldable pub mem_load : {W : Type 0} → String → Act (Dict String × W) (Option String)
mem_load name (s, w) = (ok (lookup name s), (s, w))

unfoldable pub mem_state : {W : Type 0} → PersistentState (Dict String × W)
unfolding mem_save mem_load
mem_state = record { save = mem_save; load = mem_load }

abbrev pub contents : {W : Type 0} → (Dict String × W) → Dict String
contents (s, w) = s

-- The state in memory is a map: a save is seen by the loads of its name alone, and a load
-- changes nothing.
pub mem_state-IsStore : {W : Type 0} → IsStore (mem_state {W = W}) contents
unfolding mem_state
mem_state-IsStore = record { saves = λ n c w k _. lookup-insert n k c w.0; loads = λ n w. refl }

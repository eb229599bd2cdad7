-- ===== src/Hooktest/OsServices/Objects.antt =====
-- hook/hooktest/service.go: what starts and stops one service keeps to the protocol of its events.
use gocharm.Base.{String, ℕ, ◌+◌, ◌≡◌, refl, subst, sym, List, [], ◌∷◌, true}
use gocharm.Base.{Option, none, some, str_eq, str_eq_iff, arith, Error, inl}
use gocharm.Base.{inr, Option-cases, Result, ok, err, panic}
use gocharm.Base.Dict.{lookup}
use gocharm.Charmbits.Service.{OsServiceParams}
use gocharm.Hooktest.OsServices.{ServiceEventKind, ServiceEvent, InstalledOsService, OsServices}
use gocharm.Hooktest.OsServices.{Commands, waiting, start, error, stop}
use gocharm.Hooktest.OsServices.{send, set_cmd, put, begin}
use gocharm.Hooktest.OsServices.{installed_service, notify, launched}
use gocharm.Hooktest.OsServices.{log_event}
use gocharm.Hooktest.OsServices.{halted}
use gocharm.Hooktest.OsServices.{start_found, stop_found}
use gocharm.Hooktest.OsServices.Protocol.{idle, running, phase}
use gocharm.Hooktest.OsServices.Protocol.{IsTracked}
use gocharm.Hooktest.OsServices.Tracked.{event, error-IsTracked, set_cmd-IsTracked}
use gocharm.Hooktest.OsServices.Tracked.{events-IsTracked, watcher-IsTracked}

-- The state that a call leaves, to which an invariant is carried over.
pub carried :
    {W A : Type 0} (s' : OsServices) (r : A × (OsServices × W))
    → r.1.0 ≡ s'
    → IsTracked s'
    → IsTracked r.1.0
carried s' r e t = subst IsTracked (sym e) t

module _ (s : OsServices) (t : IsTracked s) where
  pub installed_service-some :
      (params : OsServiceParams) (i : ℕ) (o : InstalledOsService)
      → installed_service params s ≡ some (i, o)
      → (s.object i ≡ some o)
        × (lookup o.params.name s.installed ≡ some i)
        × (o.params.name ≡ params.name)
  unfolding installed_service
  installed_service-some params i o h = elim (Option-cases (lookup params.name s.installed)) [
    | inl missing ↦ absurd (ground arith)
    | inr (j, there) ↦ ground (arith, t.named params.name j)
  ]

  pub installed_service-none :
      (params : OsServiceParams)
      → installed_service params s ≡ none
      → lookup params.name s.installed ≡ none
  unfolding installed_service
  installed_service-none params h = elim (Option-cases (lookup params.name s.installed)) [
    | inl missing ↦ missing
    | inr (j, there) ↦ absurd (ground (arith, t.named params.name j))
  ]

module _ {W : Type 0} (commands : Commands W) where
  pub notify_lem :
      (o : InstalledOsService) (kind : ServiceEventKind) (e : Option Error) (s : OsServices) (w : W)
      → s.notifying ≡ true
      → notify commands o kind e (s, w) ≡ (
        ok tt,
        (
          send (record { kind = kind; params = o.params; error = e }) s,
          log_event commands kind e w,
        ),
      )
  unfolding notify
  notify_lem o kind e s w telling = rw telling refl

  module _ (s : OsServices) (t : IsTracked s) where
    pub notify_error-IsTracked :
        (o : InstalledOsService) (e : Option Error) (w : W)
        → IsTracked (notify commands o error e (s, w)).1.0
    unfolding notify
    notify_error-IsTracked o e w =
        carried (send (record { kind = error; params = o.params; error = e }) s)
          (notify commands o error e (s, w)) (ground (arith, t.telling)) (error-IsTracked s t o e)

    module _ (i : ℕ) (o : InstalledOsService) (there : s.object i ≡ some o)
        (listed : lookup o.params.name s.installed ≡ some i) where
      at_idle :
          o.cmd ≡ none → (n : String) → str_eq o.params.name n ≡ true → phase n s.events ≡ idle
      at_idle stopped n same = ground (arith, t.told n, str_eq_iff o.params.name n)

      at_running :
          (c : ℕ)
          → o.cmd ≡ some c
          → (n : String) → str_eq o.params.name n ≡ true
          → phase n s.events ≡ running
      at_running c runs n same = ground (arith, t.told n, str_eq_iff o.params.name n)

      started-IsTracked : (c : ℕ) → o.cmd ≡ none → IsTracked (begin i o c (send (event start o) s))
      unfolding phase
      started-IsTracked c stopped =
          let s' = set_cmd i o (some c) (send (event start o) s) in
          watcher-IsTracked s'
            (set_cmd-IsTracked s t i o there listed (some c) (event start o ∷ s.events)
              (λ n. ground (arith, at_idle stopped n)))
            (put s.next_watcher (waiting i c) s.watcher) (s.next_watcher + 1)

      launched-IsTracked :
          (r : Result (Option ℕ)) (w : W)
          → o.cmd ≡ none
          → IsTracked (launched commands i o r (s, w)).1.0
      unfolding phase
      launched-IsTracked (panic e) w stopped = t
      launched-IsTracked (err e) w stopped = notify_error-IsTracked o _ w
      launched-IsTracked (ok none) w stopped =
          carried (record s { events = event stop o ∷ event start o ∷ s.events })
            (launched commands i o (ok none) (s, w))
            (ground (
              arith,
              notify_lem o start none s w t.telling,
              notify_lem o stop none (send (event start o) s) (log_event commands start none w)
                  t.telling,
            ))
            (events-IsTracked s t (event stop o ∷ event start o ∷ s.events)
              (λ n. ground (arith, at_idle stopped n)))
      launched-IsTracked (ok (some c)) w stopped =
          carried (begin i o c (send (event start o) s))
            (launched commands i o (ok (some c)) (s, w))
            (ground (arith, notify_lem o start none s w t.telling)) (started-IsTracked c stopped)

      pub stopped-IsTracked :
          (c : ℕ) → o.cmd ≡ some c → IsTracked (set_cmd i o none (send (event stop o) s))
      unfolding phase
      stopped-IsTracked c runs =
          set_cmd-IsTracked s t i o there listed none (event stop o ∷ s.events)
            (λ n. ground (arith, at_running c runs n))

      abbrev pub halted_state : Option Error → OsServices
      halted_state none = set_cmd i o none (send (event stop o) s)
      halted_state (some e) = set_cmd i o none (
          send (event stop o) (send (record { kind = error; params = o.params; error = some e }) s))

      pub halted_lem :
          (e : Option Error) (w : W) → (halted commands i o e (s, w)).1.0 ≡ halted_state e
      halted_lem none w = ground (arith, notify_lem o stop none s w t.telling)
      halted_lem (some e) w =
          let failed : ServiceEvent = record { kind = error; params = o.params; error = some e } in
          ground (
            arith,
            notify_lem o error (some e) s w t.telling,
            notify_lem o stop none (send failed s) (log_event commands error (some e) w) t.telling,
          )

      halted-IsTracked :
          (e : Option Error) (c : ℕ) (w : W)
          → o.cmd ≡ some c
          → IsTracked (halted commands i o e (s, w)).1.0
      unfolding phase
      halted-IsTracked none c w runs =
          carried (halted_state none) (halted commands i o none (s, w)) (halted_lem none w)
            (stopped-IsTracked c runs)
      halted-IsTracked (some e) c w runs =
          let failed : ServiceEvent = record { kind = error; params = o.params; error = some e } in
          carried (halted_state (some e)) (halted commands i o (some e) (s, w))
            (halted_lem (some e) w)
            (set_cmd-IsTracked s t i o there listed none (event stop o ∷ failed ∷ s.events)
              (λ n. ground (arith, at_running c runs n)))

      pub start_found-IsTracked :
          (args : List String) (cmd : Option ℕ) (w : W)
          → o.cmd ≡ cmd
          → IsTracked (start_found commands i o args cmd (s, w)).1.0
      start_found-IsTracked args (some c) w e = t
      start_found-IsTracked [] none w e = t
      start_found-IsTracked (name ∷ args) none w e =
          let (r, w') = commands.run_command name args w in launched-IsTracked r w' e

      pub stop_found-IsTracked :
          (cmd : Option ℕ) (w : W)
          → o.cmd ≡ cmd
          → IsTracked (stop_found commands i o cmd (s, w)).1.0
      stop_found-IsTracked none w e = t
      stop_found-IsTracked (some c) w runs =
          let (e, w') = commands.wait c (commands.kill c w) in halted-IsTracked e c w' runs

-- ===== src/Hooktest/OsServices/Steps.antt =====
-- hook/hooktest/service.go: the services and the goroutines that wait for their commands, interleaved
-- in any order.
use gocharm.Base.{String, ℕ, ◌≡◌, ◌≢◌, refl, subst, sym, ◌∙◌, true}
use gocharm.Base.{Option, some, arith, Error, inl}
use gocharm.Base.{inr, Act, Result, ok, err, panic, ignore, ◌>>◌}
use gocharm.Base.{Option-cases}
use gocharm.Base.Dict.{lookup}
use gocharm.Charmbits.Service.{OsServiceParams}
use gocharm.Hook.Registry.{Unit₀}
use gocharm.Hooktest.OsServices.{OsServices}
use gocharm.Hooktest.OsServices.{Commands, waiting, ended}
use gocharm.Hooktest.OsServices.{pointed, put}
use gocharm.Hooktest.OsServices.{installed_service, install_new, start_service}
use gocharm.Hooktest.OsServices.{install_service, stop_service, stop_and_remove_service}
use gocharm.Hooktest.OsServices.{watch_end, watch_reap, forget, new_services}
use gocharm.Hooktest.OsServices.{drop_watcher}
use gocharm.Hooktest.OsServices.Protocol.{broken, phase}
use gocharm.Hooktest.OsServices.Protocol.{status, IsTracked}
use gocharm.Hooktest.OsServices.Tracked.{watcher-IsTracked}
use gocharm.Hooktest.OsServices.Kept.{install_missing-IsTracked}
use gocharm.Hooktest.OsServices.Kept.{start_there-IsTracked}
use gocharm.Hooktest.OsServices.Kept.{stop_there-IsTracked}
use gocharm.Hooktest.OsServices.Kept.{stop_there-Stopped}
use gocharm.Hooktest.OsServices.Kept.{remove_there-IsTracked}
use gocharm.Hooktest.OsServices.Kept.{reported-IsTracked}
use gocharm.Hooktest.OsServices.Kept.{reaped-IsTracked}
use gocharm.Hooktest.OsServices.Kept.{Stopped}

module _ {W : Type 0} (commands : Commands W) where
  -- A call of a service's methods, or a step of a goroutine.
  pub data Call : Type 0 where
    install_call start_call stop_call remove_call : OsServiceParams → Call
    end_call : (t i c : ℕ) → Option Error → Call
    reap_call : (t i c : ℕ) → Call

  unfoldable pub perform : Call → Act (OsServices × W) Unit₀
  perform (install_call p) = install_service commands p
  perform (start_call p) = start_service commands p
  perform (stop_call p) = stop_service commands p
  perform (remove_call p) = stop_and_remove_service commands p
  perform (end_call t i c e) = watch_end commands t i c e
  perform (reap_call t i c) = watch_reap commands t i c

  -- A goroutine takes only the step that it stands before.
  abbrev pub Ready : OsServices → Call → Type 0
  Ready s (end_call t i c e) = s.watcher t ≡ some (waiting i c)
  Ready s (reap_call t i c) = s.watcher t ≡ some (ended i c)
  Ready s _ = Unit

  -- Between two calls the rest of the world may change in any way.
  pub data Reach : OsServices → Type 0 where
    here : Reach (new_services true)
    next :
        (s : OsServices) (w : W) (call : Call)
        → Reach s
        → Ready s call
        → Reach (perform call (s, w)).1.0

  abbrev Tracked : OsServices × W → Type 0
  Tracked (s, w) = IsTracked s

  seq_result-Tracked :
      (r : Result Unit₀) (k : Act (OsServices × W) Unit₀) (s : OsServices × W)
      → Tracked s
      → Tracked (k s).1
      → Tracked (((λ s'. (r, s')) >> k) s).1
  seq_result-Tracked (ok u) k s p q = q
  seq_result-Tracked (err e) k s p q = p
  seq_result-Tracked (panic e) k s p q = p

  seq-Tracked :
      (m k : Act (OsServices × W) Unit₀) (s : OsServices × W)
      → Tracked (m s).1
      → Tracked (k (m s).1).1
      → Tracked ((m >> k) s).1
  seq-Tracked m k s p q = seq_result-Tracked (m s).0 k (m s).1 p q

  ignored-Tracked :
      (r : Result Unit₀) (s : OsServices × W) → Tracked s → Tracked (ignore (λ s'. (r, s')) s).1
  ignored-Tracked (ok u) s p = p
  ignored-Tracked (err e) s p = p
  ignored-Tracked (panic e) s p = p

  ignore-Tracked :
      (m : Act (OsServices × W) Unit₀) (s : OsServices × W)
      → Tracked (m s).1
      → Tracked (ignore m s).1
  ignore-Tracked m s p = ignored-Tracked (m s).0 (m s).1 p

  start-Tracked :
      (p : OsServiceParams) (s : OsServices × W)
      → Tracked s
      → Tracked (start_service commands p s).1
  unfolding start_service
  start-Tracked p (s, w) t =
      start_there-IsTracked commands s t p p.args (installed_service p s) w refl

  install_new-Tracked :
      (p : OsServiceParams) (s : OsServices × W) → Tracked s → Tracked (install_new commands p s).1
  unfolding install_new
  install_new-Tracked p (s, w) t =
      install_missing-IsTracked commands s t p (installed_service p s) w refl

  install-Tracked :
      (p : OsServiceParams) (s : OsServices × W)
      → Tracked s
      → Tracked (install_service commands p s).1
  unfolding install_service
  install-Tracked p s t =
      let new = install_new commands p in
      let start = start_service commands p in
      let t' = install_new-Tracked p s t in
      seq-Tracked new (ignore start) s t'
        (ignore-Tracked start (new s).1 (start-Tracked p (new s).1 t'))

  -- Stop leaves no command of the name running.
  stop-Tracked :
      (p : OsServiceParams) (s : OsServices × W) → Tracked s → Tracked (stop_service commands p s).1
  unfolding stop_service
  stop-Tracked p (s, w) t = stop_there-IsTracked commands s t p (installed_service p s) w refl

  forget-Tracked :
      (p : OsServiceParams) (s : OsServices × W) (t : Tracked s)
      → Stopped p s.0
      → Tracked (forget commands p s).1
  unfolding forget
  forget-Tracked p (s, w) t stopped =
      remove_there-IsTracked commands s t p (installed_service p s) w refl stopped

  ignored-state : (r : Result Unit₀) (s : OsServices × W) → s ≡ (ignore (λ s'. (r, s')) s).1
  ignored-state (ok u) s = refl
  ignored-state (err e) s = refl
  ignored-state (panic e) s = refl

  stop_ignored-Stopped :
      (p : OsServiceParams) (s : OsServices × W) (t : Tracked s)
      → Stopped p (ignore (stop_service commands p) s).1.0
  unfolding stop_service
  stop_ignored-Stopped p (s, w) t =
      let stop = stop_service commands p in
      subst (λ s'. Stopped p s'.0) (ignored-state (stop (s, w)).0 (stop (s, w)).1)
        (stop_there-Stopped commands s t p (installed_service p s) w refl)

  remove-Tracked :
      (p : OsServiceParams) (s : OsServices × W)
      → Tracked s
      → Tracked (stop_and_remove_service commands p s).1
  unfolding stop_and_remove_service
  remove-Tracked p s t =
      let stop = ignore (stop_service commands p) in
      let t' = ignore-Tracked (stop_service commands p) s (stop-Tracked p s t) in
      seq-Tracked stop (forget commands p) s t'
        (forget-Tracked p (stop s).1 t' (stop_ignored-Stopped p s t))

  perform-IsTracked :
      (call : Call) (s : OsServices) (w : W) → IsTracked s → IsTracked (perform call (s, w)).1.0
  unfolding perform watch_end watch_reap
  perform-IsTracked (install_call p) s w t = install-Tracked p (s, w) t
  perform-IsTracked (start_call p) s w t = start-Tracked p (s, w) t
  perform-IsTracked (stop_call p) s w t = stop-Tracked p (s, w) t
  perform-IsTracked (remove_call p) s w t = remove-Tracked p (s, w) t
  perform-IsTracked (end_call n i c e) s w t =
      reported-IsTracked commands (record s { watcher = put n (ended i c) s.watcher })
        (watcher-IsTracked s t (put n (ended i c) s.watcher) s.next_watcher) (s.object i) e w
  perform-IsTracked (reap_call n i c) s w t =
      let dropped = drop_watcher n s in
      reaped-IsTracked commands dropped (watcher-IsTracked s t dropped.watcher s.next_watcher) i c
        (s.object i) w refl

  new_services-IsTracked : IsTracked (new_services true)
  unfolding phase lookup
  new_services-IsTracked = record {
    telling = refl;
    fresh = λ i h. refl;
    named = λ n i h. absurd (ground arith);
    live = λ i c o h r. absurd (ground arith);
    told = λ n. refl;
  }

  pub Reach-IsTracked : (s : OsServices) → Reach s → IsTracked s
  Reach-IsTracked _ here = new_services-IsTracked
  Reach-IsTracked _ (next s w call r ready) = perform-IsTracked call s w (Reach-IsTracked s r)

  status_sound : (n : String) (s : OsServices) → status n s ≢ broken
  status_sound n s h = elim (Option-cases (pointed (lookup n s.installed) s.object)) [
    | inl missing ↦ ground arith
    | inr ((i, o), found) ↦ elim (Option-cases o.cmd) [
      | inl stopped ↦ ground arith
      | inr (c, runs) ↦ ground arith
    ]
  ]

  -- Whatever is called of the services of a test whose events are sent, whatever the commands
  -- do, and however the goroutines that wait for the commands come between the calls, which run
  -- to their end: for every name, the events sent so far are an install, then starts and stops
  -- in turn, then a remove, and so on, with errors anywhere, and have led exactly to where the
  -- service of that name is, not installed, stopped or running.
  pub Reach-told :
      (s : OsServices) (n : String)
      → Reach s
      → (phase n s.events ≡ status n s) × (phase n s.events ≢ broken)
  Reach-told s n r =
      let told = (Reach-IsTracked s r).told n in (told, λ h. status_sound n s (sym told ∙ h))

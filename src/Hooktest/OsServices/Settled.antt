-- ===== src/Hooktest/OsServices/Settled.antt =====
-- hook/hooktest/service.go: a service whose command has ended comes to be idle.
use gocharm.Base.{ℕ, ◌≡◌, ◌⊎◌, refl, sym, subst, inl, inr, Option, none, some}
use gocharm.Base.{arith, Error, ok, Bool, true, false, if◌then◌else◌, ◌>>◌}
use gocharm.Base.{ignore, update}
use gocharm.Charmbits.Service.{OsServiceParams}
use gocharm.Hooktest.OsServices.{InstalledOsService, OsServices, Commands}
use gocharm.Hooktest.OsServices.{waiting, ended, error, stop}
use gocharm.Hooktest.OsServices.{put, set_cmd, notify, same_cmd}
use gocharm.Hooktest.OsServices.{reported, reaped, drop_watcher, new_services}
use gocharm.Hooktest.OsServices.{install_new, start_service, install_service, stop_service, forget}
use gocharm.Hooktest.OsServices.{stop_and_remove_service, watch_end, watch_reap, installed_service}
use gocharm.Hooktest.OsServices.Steps.{
  Call, perform, Ready, Reach, install_call, start_call, stop_call,
}
use gocharm.Hooktest.OsServices.Steps.{remove_call, end_call, reap_call, here, next}
use gocharm.Hooktest.OsServices.Watched.{IsWatched, events-IsWatched, stopped-IsWatched}
use gocharm.Hooktest.OsServices.Watched.{ended-IsWatched}
use gocharm.Hooktest.OsServices.Watched.{dropped-IsWatched}
use gocharm.Hooktest.OsServices.Protocol.{idle, status, IsTracked}
use gocharm.Hooktest.OsServices.Steps.{Reach-IsTracked}
use gocharm.Hooktest.OsServices.Preserved.{seq-Preserves}
use gocharm.Hooktest.OsServices.Preserved.{ignore-Preserves}
use gocharm.Hooktest.OsServices.Preserved.{start_there-Preserves}
use gocharm.Hooktest.OsServices.Preserved.{stop_there-Preserves}
use gocharm.Hooktest.OsServices.Preserved.{install_missing-Preserves}
use gocharm.Hooktest.OsServices.Preserved.{remove_there-Preserves}
use gocharm.Hooktest.OsServices.Preserved.{reported-Preserves}
use gocharm.Hooktest.OsServices.Preserved.{notify_watched}
use gocharm.Hooktest.OsServices.Preserved.{notify-ok}
use gocharm.Hooktest.OsServices.Preserved.{Preserves}

new_services-IsWatched : (b : Bool) → IsWatched (new_services b)
new_services-IsWatched b = record { free = λ n h. refl; seen = λ i c o h r. absurd (ground arith) }

module _ {W : Type 0} (commands : Commands W) where
  start-Preserves : (p : OsServiceParams) → Preserves commands (start_service commands p)
  unfolding start_service
  start-Preserves p (s, w) = start_there-Preserves commands p.args (installed_service p s) (s, w)

  stop-Preserves : (p : OsServiceParams) → Preserves commands (stop_service commands p)
  unfolding stop_service
  stop-Preserves p (s, w) = stop_there-Preserves commands (installed_service p s) (s, w)

  install_new-Preserves : (p : OsServiceParams) → Preserves commands (install_new commands p)
  unfolding install_new
  install_new-Preserves p (s, w) =
      install_missing-Preserves commands p (installed_service p s) (s, w)

  forget-Preserves : (p : OsServiceParams) → Preserves commands (forget commands p)
  unfolding forget
  forget-Preserves p (s, w) = remove_there-Preserves commands p (installed_service p s) (s, w)

  install-Preserves : (p : OsServiceParams) → Preserves commands (install_service commands p)
  unfolding install_service
  install-Preserves p =
      seq-Preserves commands (install_new commands p) (ignore (start_service commands p))
        (install_new-Preserves p)
        (ignore-Preserves commands (start_service commands p) (start-Preserves p))

  remove-Preserves : (p : OsServiceParams) → Preserves commands (stop_and_remove_service commands p)
  unfolding stop_and_remove_service
  remove-Preserves p =
      seq-Preserves commands (ignore (stop_service commands p)) (forget commands p)
        (ignore-Preserves commands (stop_service commands p) (stop-Preserves p))
        (forget-Preserves p)

  -- Where the goroutine finds its command still on record.
  reaped_lem :
      (i : ℕ) (o : InstalledOsService) (s : OsServices) (w : W)
      → let s' = ((do notify commands o stop none; update (set_cmd i o none)) (s, w)).1.0 in
        s' ≡ set_cmd i o none (record s { events = s'.events })
  reaped_lem i o s w =
      ground (arith, notify_watched commands o stop none s w, notify-ok commands o stop none s w)

  reaped_same-IsWatched :
      (same : Bool) (n i c : ℕ) (o : InstalledOsService) (s : OsServices) (w : W)
      → same_cmd o.cmd c ≡ same
      → s.object i ≡ some o
      → s.watcher n ≡ some (ended i c)
      → IsWatched s
      → let r =
          if same
          then (do notify commands o stop none; update (set_cmd i o none)) (drop_watcher n s, w)
          else (ok tt, (drop_watcher n s, w)) in
        IsWatched r.1.0
  reaped_same-IsWatched false n i c o s w differ there ready a =
      dropped-IsWatched s a n i c ready (λ o' h k. ground arith)
  reaped_same-IsWatched true n i c o s w same there ready a =
      let s' =
        ((do notify commands o stop none; update (set_cmd i o none)) (drop_watcher n s, w)).1.0 in
      let told = record s { events = s'.events } in
      subst IsWatched (sym (reaped_lem i o (drop_watcher n s) w)) (
        dropped-IsWatched (set_cmd i o none told)
          (stopped-IsWatched told (events-IsWatched s a s'.events) i o) n i c ready
          (λ o' h k. ground arith))

  reaped-IsWatched :
      (n i c : ℕ) (r : Option InstalledOsService) (s : OsServices) (w : W)
      → s.object i ≡ r
      → s.watcher n ≡ some (ended i c)
      → IsWatched s
      → IsWatched (reaped commands i r c (drop_watcher n s, w)).1.0
  reaped-IsWatched n i c none s w there ready a =
      dropped-IsWatched s a n i c ready (λ o h. absurd (ground arith))
  reaped-IsWatched n i c (some o) s w there ready a =
      reaped_same-IsWatched (same_cmd o.cmd c) n i c o s w refl there ready a

  perform-IsWatched :
      (call : Call commands) (s : OsServices) (w : W)
      → Ready commands s call
      → IsWatched s
      → IsWatched (perform commands call (s, w)).1.0
  unfolding perform watch_end watch_reap
  perform-IsWatched (install_call p) s w ready a = install-Preserves p (s, w) a
  perform-IsWatched (start_call p) s w ready a = start-Preserves p (s, w) a
  perform-IsWatched (stop_call p) s w ready a = stop-Preserves p (s, w) a
  perform-IsWatched (remove_call p) s w ready a = remove-Preserves p (s, w) a
  perform-IsWatched (end_call n i c e) s w ready a =
      reported-Preserves commands (s.object i) e
        (record s { watcher = put n (ended i c) s.watcher }, w) (ended-IsWatched s a n i c ready)
  perform-IsWatched (reap_call n i c) s w ready a =
      reaped-IsWatched n i c (s.object i) s w refl ready a

  Reach-IsWatched : (s : OsServices) → Reach commands s → IsWatched s
  Reach-IsWatched _ here = new_services-IsWatched true
  Reach-IsWatched _ (next s w call r ready) = perform-IsWatched call s w ready (Reach-IsWatched s r)

  reported_lem :
      (r : Option InstalledOsService) (e : Option Error) (s : OsServices) (w : W)
      → let s' = (reported commands r e (s, w)).1.0 in s' ≡ record s { events = s'.events }
  reported_lem none e s w = refl
  reported_lem (some o) none s w = refl
  reported_lem (some o) (some e) s w = notify_watched commands o error _ s w

  -- Behind the end of its command: the last step of the goroutine `n` leaves the service idle.
  abbrev pub LeadsToIdle : ℕ → ℕ → InstalledOsService → ℕ → OsServices → Type 0
  LeadsToIdle i c o n s =
      (s.watcher n ≡ some (ended i c))
      × ((w : W) → status o.params.name (perform commands (reap_call n i c) (s, w)).1.0 ≡ idle)

  module _ (i c : ℕ) (o : InstalledOsService) (runs : o.cmd ≡ some c) where
    reap_idle :
        (n : ℕ) (s : OsServices) (w : W)
        → IsTracked s
        → s.object i ≡ some o
        → status o.params.name (perform commands (reap_call n i c) (s, w)).1.0 ≡ idle
    unfolding perform watch_reap
    reap_idle n s w t there =
        let same : same_cmd o.cmd c ≡ true = ground arith in
        let listed = t.live i c o there runs in
        let s' =
          ((do notify commands o stop none; update (set_cmd i o none)) (drop_watcher n s, w)).1.0 in
        let left : status o.params.name s' ≡ idle =
          ground (arith, reaped_lem i o (drop_watcher n s) w) in
        rw (there, same) left

    waiting_idle :
        (n : ℕ) (e : Option Error) (s : OsServices) (w : W)
        → Reach commands s
        → s.object i ≡ some o
        → s.watcher n ≡ some (waiting i c)
        → LeadsToIdle i c o n (perform commands (end_call n i c e) (s, w)).1.0
    unfolding perform watch_end
    waiting_idle n e s w r there ready =
        let before = record s { watcher = put n (ended i c) s.watcher } in
        let after = (reported commands (s.object i) e (before, w)).1.0 in
        let same = reported_lem (s.object i) e before w in
        let kept : after.object i ≡ some o = ground arith in
        let behind : after.watcher n ≡ some (ended i c) = ground arith in
        (
          behind,
          λ w'.
              reap_idle n after w'
                (Reach-IsTracked commands after (next s w (end_call n i c e) r ready)) kept,
        )

  -- In whatever order calls and goroutines have come, so long as events are sent: for a command
  -- that is on record there is a goroutine that waits for it or is just behind its end. Once the
  -- command has ended, whatever its error, the last step of that goroutine leaves the service of
  -- the command's name installed and stopped.
  pub Reach-idle :
      (s : OsServices) (i c : ℕ) (o : InstalledOsService)
      → Reach commands s
      → s.object i ≡ some o
      → o.cmd ≡ some c
      → (n : ℕ) × (((s.watcher n ≡ some (waiting i c))
            × ((e : Option Error) (w : W)
                → LeadsToIdle i c o n (perform commands (end_call n i c e) (s, w)).1.0))
          ⊎ LeadsToIdle i c o n s)
  Reach-idle s i c o r there runs =
      let (n, watched) = (Reach-IsWatched s r).seen i c o there runs in
      elim watched [
        | inl ready ↦ (n, inl (ready, λ e w. waiting_idle i c o runs n e s w r there ready))
        | inr behind ↦
            (n, inr (behind, λ w. reap_idle i c o runs n s w (Reach-IsTracked commands s r) there))
      ]

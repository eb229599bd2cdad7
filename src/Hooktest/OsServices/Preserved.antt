-- ===== src/Hooktest/OsServices/Preserved.antt =====
-- hook/hooktest/service.go: no call and no goroutine leaves a running command that nothing waits for.
use gocharm.Base.{String, ℕ, ◌≡◌, refl, sym, subst, inl, inr, List, [], ◌∷◌, Option, none, some}
use gocharm.Base.{arith, Error, Act, Result, ok, err, panic, ◌>>◌}
use gocharm.Base.{ignore, update, Bool-cases}
use gocharm.Charmbits.Service.{OsServiceParams}
use gocharm.Hook.Registry.{Unit₀}
use gocharm.Hooktest.OsServices.{InstalledOsService, OsServices, Commands, ServiceEventKind}
use gocharm.Hooktest.OsServices.{error, start, stop, install, remove}
use gocharm.Hooktest.OsServices.{set_cmd, begin, add_object, notify, launched, halted}
use gocharm.Hooktest.OsServices.{start_found, stop_found, install_missing, start_there, stop_there}
use gocharm.Hooktest.OsServices.{remove_there, reported, new_object}
use gocharm.Base.Dict.{erase}
use gocharm.Hooktest.OsServices.{notify_error}
use gocharm.Hooktest.OsServices.Watched.{IsWatched, events-IsWatched, stopped-IsWatched}
use gocharm.Hooktest.OsServices.Watched.{begun-IsWatched, added-IsWatched}

module _ {W : Type 0} (commands : Commands W) where
  -- What notify leaves, whether events are sent or not.
  pub notify_watched :
      (o : InstalledOsService) (kind : ServiceEventKind) (e : Option Error) (s : OsServices) (w : W)
      → let s' = (notify commands o kind e (s, w)).1.0 in s' ≡ record s { events = s'.events }
  unfolding notify
  notify_watched o kind e s w = elim (Bool-cases s.notifying) [
    | inl yes_sent ↦ rw yes_sent refl
    | inr unsent ↦ rw unsent refl
  ]

  pub notify-ok :
      (o : InstalledOsService) (kind : ServiceEventKind) (e : Option Error) (s : OsServices) (w : W)
      → (notify commands o kind e (s, w)).0 ≡ ok tt
  unfolding notify
  notify-ok o kind e s w = ground arith

  abbrev pub Watched : OsServices × W → Type 0
  Watched (s, w) = IsWatched s

  abbrev pub Preserves : Act (OsServices × W) Unit₀ → Type 0
  Preserves m = (s : OsServices × W) → Watched s → Watched (m s).1

  seq_result-Preserves :
      (r : Result Unit₀) (k : Act (OsServices × W) Unit₀) (s : OsServices × W)
      → Preserves k
      → Watched s
      → Watched (((λ s'. (r, s')) >> k) s).1
  seq_result-Preserves (ok u) k s p a = p s a
  seq_result-Preserves (err e) k s p a = a
  seq_result-Preserves (panic e) k s p a = a

  pub seq-Preserves :
      (m k : Act (OsServices × W) Unit₀) → Preserves m → Preserves k → Preserves (m >> k)
  seq-Preserves m k p q s a = seq_result-Preserves (m s).0 k (m s).1 q (p s a)

  ignored-Watched :
      (r : Result Unit₀) (s : OsServices × W) → Watched s → Watched (ignore (λ s'. (r, s')) s).1
  ignored-Watched (ok u) s a = a
  ignored-Watched (err e) s a = a
  ignored-Watched (panic e) s a = a

  pub ignore-Preserves : (m : Act (OsServices × W) Unit₀) → Preserves m → Preserves (ignore m)
  ignore-Preserves m p s a = ignored-Watched (m s).0 (m s).1 (p s a)

  notify-Preserves :
      (o : InstalledOsService) (kind : ServiceEventKind) (e : Option Error)
      → Preserves (notify commands o kind e)
  notify-Preserves o kind e (s, w) a =
      let s' = (notify commands o kind e (s, w)).1.0 in
      subst IsWatched (sym (notify_watched o kind e s w)) (events-IsWatched s a s'.events)

  launched-Preserves :
      (i : ℕ) (o : InstalledOsService) (r : Result (Option ℕ)) → Preserves (launched commands i o r)
  launched-Preserves i o (panic e) s a = a
  launched-Preserves i o (err e) s a = notify-Preserves o error _ s a
  launched-Preserves i o (ok none) s a =
      seq-Preserves (notify commands o start none) (notify commands o stop none)
        (notify-Preserves o start none) (notify-Preserves o stop none) s a
  launched-Preserves i o (ok (some c)) s a =
      seq-Preserves (notify commands o start none) (update (begin i o c))
        (notify-Preserves o start none) (λ s a. begun-IsWatched s.0 a i c o) s a

  notify_error-Preserves :
      (o : InstalledOsService) (e : Option Error) → Preserves (notify_error commands o e)
  notify_error-Preserves o none s a = a
  notify_error-Preserves o (some e) s a = notify-Preserves o error (some e) s a

  halted-Preserves :
      (i : ℕ) (o : InstalledOsService) (e : Option Error) → Preserves (halted commands i o e)
  halted-Preserves i o e =
      let clear = update (set_cmd i o none) in
      seq-Preserves (notify_error commands o e) (notify commands o stop none >> clear)
        (notify_error-Preserves o e)
        (seq-Preserves (notify commands o stop none) clear (notify-Preserves o stop none)
          (λ s a. stopped-IsWatched s.0 a i o))

  start_found-Preserves :
      (i : ℕ) (o : InstalledOsService) (args : List String) (cmd : Option ℕ)
      → Preserves (start_found commands i o args cmd)
  start_found-Preserves i o args (some c) s a = a
  start_found-Preserves i o [] none s a = a
  start_found-Preserves i o (name ∷ args) none (s, w) a =
      let (r, w') = commands.run_command name args w in launched-Preserves i o r (s, w') a

  pub start_there-Preserves :
      (args : List String) (r : Option (ℕ × InstalledOsService))
      → Preserves (start_there commands args r)
  start_there-Preserves args none s a = a
  start_there-Preserves args (some (i, o)) s a = start_found-Preserves i o args o.cmd s a

  stop_found-Preserves :
      (i : ℕ) (o : InstalledOsService) (cmd : Option ℕ) → Preserves (stop_found commands i o cmd)
  stop_found-Preserves i o none s a = a
  stop_found-Preserves i o (some c) (s, w) a =
      let (e, w') = commands.wait c (commands.kill c w) in halted-Preserves i o e (s, w') a

  pub stop_there-Preserves :
      (r : Option (ℕ × InstalledOsService)) → Preserves (stop_there commands r)
  stop_there-Preserves none s a = a
  stop_there-Preserves (some (i, o)) s a = stop_found-Preserves i o o.cmd s a

  pub install_missing-Preserves :
      (p : OsServiceParams) (r : Option (ℕ × InstalledOsService))
      → Preserves (install_missing commands p r)
  install_missing-Preserves p (some found) s a = a
  install_missing-Preserves p none (s, w) a =
      notify-Preserves (new_object p) install none (add_object p s, _) (added-IsWatched s a p)

  pub remove_there-Preserves :
      (p : OsServiceParams) (r : Option (ℕ × InstalledOsService))
      → Preserves (remove_there commands p r)
  remove_there-Preserves p none s a = a
  remove_there-Preserves p (some (i, o)) (s, w) a =
      notify-Preserves o remove none (record s { installed = erase p.name s.installed }, w)
        (record { free = a.free; seen = a.seen })

  pub reported-Preserves :
      (r : Option InstalledOsService) (e : Option Error) → Preserves (reported commands r e)
  reported-Preserves none e s a = a
  reported-Preserves (some o) none s a = a
  reported-Preserves (some o) (some e) s a = notify-Preserves o error _ s a

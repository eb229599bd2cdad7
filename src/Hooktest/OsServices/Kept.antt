-- ===== src/Hooktest/OsServices/Kept.antt =====
-- hook/hooktest/service.go: what each method finds, or does not find, under its name keeps to the
-- protocol of the events.
use gocharm.Base.{String, ℕ, ◌≡◌, refl, List, [], ◌∷◌, true}
use gocharm.Base.{false, Option, none, some, if◌then◌else◌, arith, Error}
use gocharm.Base.{ok, noted, ◌>>◌}
use gocharm.Base.{update, Bool, ◌==◌}
use gocharm.Base.Dict.{erase}
use gocharm.Charmbits.Service.{OsServiceParams}
use gocharm.Hooktest.OsServices.{InstalledOsService, OsServices}
use gocharm.Hooktest.OsServices.{Commands, install, stop}
use gocharm.Hooktest.OsServices.{remove, send, set_cmd, add_object, new_object}
use gocharm.Hooktest.OsServices.{installed_service, notify}
use gocharm.Hooktest.OsServices.{halted}
use gocharm.Hooktest.OsServices.{stop_found, install_missing, start_there, stop_there}
use gocharm.Hooktest.OsServices.{remove_there, reported, reaped, same_cmd}
use gocharm.Hooktest.OsServices.Protocol.{IsTracked}
use gocharm.Hooktest.OsServices.Tracked.{event}
use gocharm.Hooktest.OsServices.Tracked.{install-IsTracked}
use gocharm.Hooktest.OsServices.Tracked.{remove-IsTracked}
use gocharm.Hooktest.OsServices.Objects.{carried, installed_service-some, installed_service-none}
use gocharm.Hooktest.OsServices.Objects.{notify_lem, notify_error-IsTracked, start_found-IsTracked}
use gocharm.Hooktest.OsServices.Objects.{stop_found-IsTracked, halted_lem, halted_state}
use gocharm.Hooktest.OsServices.Objects.{stopped-IsTracked}

-- No service of the name runs.
abbrev pub Stopped : OsServiceParams → OsServices → Type 0
Stopped p s = (i : ℕ) (o : InstalledOsService) → installed_service p s ≡ some (i, o) → o.cmd ≡ none

module _ {W : Type 0} (commands : Commands W) (s : OsServices) (t : IsTracked s) where
  pub install_missing-IsTracked :
      (p : OsServiceParams) (r : Option (ℕ × InstalledOsService)) (w : W)
      → installed_service p s ≡ r
      → IsTracked (install_missing commands p r (s, w)).1.0
  install_missing-IsTracked p (some found) w e = t
  install_missing-IsTracked p none w e =
      carried (send (event install (new_object p)) (add_object p s))
        (install_missing commands p none (s, w))
        (ground (
          arith,
          notify_lem commands (new_object p) install none (add_object p s)
              (commands.log "hooktest: install service %s; exe: %s; args: %q"
                (p.name ∷ p.exe ∷ p.args) w)
              t.telling,
        ))
        (install-IsTracked s t p (installed_service-none s t p e))

  pub start_there-IsTracked :
      (p : OsServiceParams) (args : List String) (r : Option (ℕ × InstalledOsService)) (w : W)
      → installed_service p s ≡ r
      → IsTracked (start_there commands args r (s, w)).1.0
  start_there-IsTracked p args none w e = t
  start_there-IsTracked p args (some (i, o)) w e =
      let (there, listed, name) = installed_service-some s t p i o e in
      start_found-IsTracked commands s t i o there listed args o.cmd w refl

  pub stop_there-IsTracked :
      (p : OsServiceParams) (r : Option (ℕ × InstalledOsService)) (w : W)
      → installed_service p s ≡ r
      → IsTracked (stop_there commands r (s, w)).1.0
  stop_there-IsTracked p none w e = t
  stop_there-IsTracked p (some (i, o)) w e =
      let (there, listed, name) = installed_service-some s t p i o e in
      stop_found-IsTracked commands s t i o there listed o.cmd w refl

  pub stop_found-Stopped :
      (p : OsServiceParams) (i : ℕ) (o : InstalledOsService) (cmd : Option ℕ) (w : W)
      → installed_service p s ≡ some (i, o)
      → o.cmd ≡ cmd
      → Stopped p (stop_found commands i o cmd (s, w)).1.0
  unfolding installed_service
  stop_found-Stopped p i o none w e none_runs j o' h = ground arith
  stop_found-Stopped p i o (some c) w e runs j o' h =
      let (there, listed, name) = installed_service-some s t p i o e in
      let (r, w') = commands.wait c (commands.kill c w) in
      ground (arith, halted_lem commands s t i o there listed r w')

  pub stop_there-Stopped :
      (p : OsServiceParams) (r : Option (ℕ × InstalledOsService)) (w : W)
      → installed_service p s ≡ r
      → Stopped p (stop_there commands r (s, w)).1.0
  stop_there-Stopped p none w e j o' h = absurd (ground arith)
  stop_there-Stopped p (some (i, o)) w e j o' h = stop_found-Stopped p i o o.cmd w e refl j o' h

  pub remove_there-IsTracked :
      (p : OsServiceParams) (r : Option (ℕ × InstalledOsService)) (w : W)
      → installed_service p s ≡ r
      → Stopped p s
      → IsTracked (remove_there commands p r (s, w)).1.0
  remove_there-IsTracked p none w e stopped = t
  remove_there-IsTracked p (some (i, o)) w e stopped =
      let (there, listed, name) = installed_service-some s t p i o e in
      carried (send (event remove o) (record s { installed = erase o.params.name s.installed }))
        (remove_there commands p (some (i, o)) (s, w))
        (ground (
          arith,
          notify_lem commands o remove none (record s { installed = erase p.name s.installed }) w
              t.telling,
        ))
        (remove-IsTracked s t i o there listed (stopped i o e))

  pub reported-IsTracked :
      (r : Option InstalledOsService) (e : Option Error) (w : W)
      → IsTracked (reported commands r e (s, w)).1.0
  reported-IsTracked none e w = t
  reported-IsTracked (some o) none w = t
  reported-IsTracked (some o) (some e) w =
      notify_error-IsTracked commands s t o (some (noted e "command wait" [])) w

  pub reaped_running-IsTracked :
      (same : Bool) (i d : ℕ) (o : InstalledOsService) (w : W)
      → s.object i ≡ some o
      → o.cmd ≡ some d
      → IsTracked
          (if same
            then (do notify commands o stop none; update (set_cmd i o none)) (s, w)
            else (ok tt, (s, w))).1.0
  reaped_running-IsTracked false i d o w there runs = t
  reaped_running-IsTracked true i d o w there runs =
      let listed = t.live i d o there runs in
      carried (halted_state commands s t i o there listed none) (halted commands i o none (s, w))
        (halted_lem commands s t i o there listed none w)
        (stopped-IsTracked commands s t i o there listed d runs)

  pub reaped_found-IsTracked :
      (i c : ℕ) (o : InstalledOsService) (cmd : Option ℕ) (w : W)
      → s.object i ≡ some o
      → o.cmd ≡ cmd
      → IsTracked
          (if same_cmd cmd c
            then (do notify commands o stop none; update (set_cmd i o none)) (s, w)
            else (ok tt, (s, w))).1.0
  reaped_found-IsTracked i c o none w there e = t
  reaped_found-IsTracked i c o (some d) w there e =
      reaped_running-IsTracked (d == c) i d o w there e

  pub reaped-IsTracked :
      (i c : ℕ) (r : Option InstalledOsService) (w : W)
      → s.object i ≡ r
      → IsTracked (reaped commands i r c (s, w)).1.0
  reaped-IsTracked i c none w e = t
  reaped-IsTracked i c (some o) w e = reaped_found-IsTracked i c o o.cmd w e refl

-- ===== src/Hooktest/OsServices.antt =====
-- hook/hooktest/service.go: the operating system's services as tests of a charm mock them. The names
-- of the event kinds are those of serviceeventkind_string.go.
pub mod Protocol
pub mod Tracked
pub mod Objects
pub mod Kept
pub mod Steps
pub mod Watched
pub mod Preserved
pub mod Settled
use gocharm.Base.{String, ℕ, zero, suc, ◌+◌, List, [], ◌∷◌, Bool, true, false, Option, none, some}
use gocharm.Base.{if◌then◌else◌, ◌==◌, not, Act, Result, Error, newf, noted, ok, err, panic}
use gocharm.Base.{◌>>=◌, ◌>>◌, pure, raise, throw, ignore, outside, own, update}
use gocharm.Base.Dict.{Dict, lookup, insert, erase}
use gocharm.Base.Message.{message}
use gocharm.Hook.Registry.{Unit₀}
use gocharm.Charmbits.Service.{OsService, OsServiceParams}

pub data ServiceEventKind : Type 0 where
  install start error stop remove : ServiceEventKind

abbrev pub kind_text : ServiceEventKind → String
kind_text install = "ServiceEventInstall"
kind_text start = "ServiceEventStart"
kind_text error = "ServiceEventError"
kind_text stop = "ServiceEventStop"
kind_text remove = "ServiceEventRemove"

pub record ServiceEvent : Type 0 where
  pub kind : ServiceEventKind
  pub params : OsServiceParams
  pub error : Option Error

-- `cmd` is the handle of the running command.
pub record InstalledOsService : Type 0 where
  pub params : OsServiceParams
  pub cmd : Option ℕ

-- The goroutine that Start leaves behind, before and behind the return of the command's Wait.
pub data Watcher : Type 0 where
  waiting ended : (object cmd : ℕ) → Watcher

-- osServices: the objects that the map's pointers point to, and the goroutines, stand under their
-- numbers; those from `next` on are not in use. The events are those sent so far, the last one first.
pub record OsServices : Type 0 where
  pub notifying : Bool
  pub installed : Dict ℕ
  pub object : ℕ → Option InstalledOsService
  pub next : ℕ
  pub watcher : ℕ → Option Watcher
  pub next_watcher : ℕ
  pub events : List ServiceEvent

-- The runner, as far as services use it: RunCommand, the methods of the commands that it returns,
-- and its logger.
pub record Commands (W : Type 0) : Type 0 where
  pub run_command : String → List String → Act W (Option ℕ)
  pub kill : ℕ → W → W
  pub wait : ℕ → W → Option Error × W
  pub log : String → List String → W → W

abbrev pub new_services : Bool → OsServices
new_services notifying = record {
  notifying = notifying;
  installed = [];
  object = λ i. none;
  next = 0;
  watcher = λ t. none;
  next_watcher = 0;
  events = [];
}

-- A write at one number.
abbrev pub put {ℓ} : {A : Type ℓ} → ℕ → A → (ℕ → Option A) → ℕ → Option A
put i a f j = if i == j then some a else f j

abbrev pub set_cmd : ℕ → InstalledOsService → Option ℕ → OsServices → OsServices
set_cmd i isvc cmd s = record s { object = put i (record isvc { cmd = cmd }) s.object }

abbrev pub send : ServiceEvent → OsServices → OsServices
send ev s = record s { events = ev ∷ s.events }

abbrev pub new_object : OsServiceParams → InstalledOsService
new_object params = record { params = params; cmd = none }

abbrev pub add_object : OsServiceParams → OsServices → OsServices
add_object params s = record s {
  object = put s.next (new_object params) s.object;
  next = s.next + 1;
  installed = insert params.name s.next s.installed;
}

-- The command that runs, with the goroutine that waits for it.
abbrev pub begin : ℕ → InstalledOsService → ℕ → OsServices → OsServices
begin i isvc c s = record (set_cmd i isvc (some c) s) {
  watcher = put s.next_watcher (waiting i c) s.watcher;
  next_watcher = s.next_watcher + 1;
}

abbrev pub drop_watcher : ℕ → OsServices → OsServices
drop_watcher t s = record s { watcher = λ j. if t == j then none else s.watcher j }

abbrev pub same_cmd : Option ℕ → ℕ → Bool
same_cmd none c = false
same_cmd (some d) c = d == c

-- What the map's pointer for a name points to.
abbrev pub pointed : Option ℕ → (ℕ → Option InstalledOsService) → Option (ℕ × InstalledOsService)
pointed none heap = none
pointed (some i) heap = elim (heap i) [ none ↦ none | some isvc ↦ some (i, isvc) ]

unfoldable pub installed_service : OsServiceParams → OsServices → Option (ℕ × InstalledOsService)
installed_service params s = pointed (lookup params.name s.installed) s.object

module _ {W : Type 0} (commands : Commands W) where
  abbrev pub log_event : ServiceEventKind → Option Error → W → W
  log_event kind none w = commands.log "hooktest: service event %v" (kind_text kind ∷ []) w
  log_event kind (some e) w =
      commands.log "hooktest: service event %v (err %v)" (kind_text kind ∷ message e ∷ []) w

  unfoldable pub notify :
      InstalledOsService → ServiceEventKind → Option Error → Act (OsServices × W) Unit₀
  notify isvc kind e (s, w) =
      if s.notifying
      then (
        ok tt,
        (send (record { kind = kind; params = isvc.params; error = e }) s, log_event kind e w),
      )
      else (ok tt, (s, w))

  -- The error of a command, where there is one.
  abbrev pub notify_error : InstalledOsService → Option Error → Act (OsServices × W) Unit₀
  notify_error isvc none = pure tt
  notify_error isvc (some e) = notify isvc error (some e)

  -- osService.install, which does nothing for a name that is there.
  abbrev pub install_missing :
      OsServiceParams → Option (ℕ × InstalledOsService) → Act (OsServices × W) Unit₀
  install_missing params (some found) s = (ok tt, s)
  install_missing params none (s, w) = notify (new_object params) install none (
    add_object params s,
    commands.log "hooktest: install service %s; exe: %s; args: %q"
        (params.name ∷ params.exe ∷ params.args) w,
  )

  unfoldable pub install_new : OsServiceParams → Act (OsServices × W) Unit₀
  install_new params (s, w) = install_missing params (installed_service params s) (s, w)

  abbrev pub launched : ℕ → InstalledOsService → Result (Option ℕ) → Act (OsServices × W) Unit₀
  launched i isvc (panic e) = throw e
  launched i isvc (err e) = notify isvc error (some (noted e "command start" []))
  launched i isvc (ok none) = do notify isvc start none; notify isvc stop none
  launched i isvc (ok (some c)) = do notify isvc start none; update (begin i isvc c)

  abbrev pub launch : ℕ → InstalledOsService → List String → Act (OsServices × W) Unit₀
  launch i isvc [] s = throw (newf "index out of range" []) s
  launch i isvc (name ∷ args) (s, w) =
      let (r, w') = commands.run_command name args w in launched i isvc r (s, w')

  -- A service that runs is left alone.
  abbrev pub start_found :
      ℕ → InstalledOsService → List String → Option ℕ → Act (OsServices × W) Unit₀
  start_found i isvc args none s = launch i isvc args s
  start_found i isvc args (some c) s = (ok tt, s)

  abbrev pub start_there :
      List String → Option (ℕ × InstalledOsService) → Act (OsServices × W) Unit₀
  start_there args none s = (err (newf "service not installed" []), s)
  start_there args (some (i, isvc)) s = start_found i isvc args isvc.cmd s

  unfoldable pub start_service : OsServiceParams → Act (OsServices × W) Unit₀
  start_service params (s, w) = start_there params.args (installed_service params s) (s, w)

  unfoldable pub install_service : OsServiceParams → Act (OsServices × W) Unit₀
  install_service params = do install_new params; ignore (start_service params)

  -- The end of Stop, once the command has been waited for.
  abbrev pub halted : ℕ → InstalledOsService → Option Error → Act (OsServices × W) Unit₀
  halted i isvc e = do notify_error isvc e; notify isvc stop none; update (set_cmd i isvc none)

  abbrev pub stop_found : ℕ → InstalledOsService → Option ℕ → Act (OsServices × W) Unit₀
  stop_found i isvc none s = (ok tt, s)
  stop_found i isvc (some c) (s, w) =
      let (e, w') = commands.wait c (commands.kill c w) in halted i isvc e (s, w')

  abbrev pub stop_there : Option (ℕ × InstalledOsService) → Act (OsServices × W) Unit₀
  stop_there none s = (ok tt, s)
  stop_there (some (i, isvc)) s = stop_found i isvc isvc.cmd s

  unfoldable pub stop_service : OsServiceParams → Act (OsServices × W) Unit₀
  stop_service params (s, w) = stop_there (installed_service params s) (s, w)

  abbrev pub remove_there :
      OsServiceParams → Option (ℕ × InstalledOsService) → Act (OsServices × W) Unit₀
  remove_there params none s = (ok tt, s)
  remove_there params (some (i, isvc)) (s, w) =
      notify isvc remove none (record s { installed = erase params.name s.installed }, w)

  unfoldable pub forget : OsServiceParams → Act (OsServices × W) Unit₀
  forget params (s, w) = remove_there params (installed_service params s) (s, w)

  unfoldable pub stop_and_remove_service : OsServiceParams → Act (OsServices × W) Unit₀
  stop_and_remove_service params = do ignore (stop_service params); forget params

  unfoldable pub running_service : OsServiceParams → Act (OsServices × W) Bool
  running_service params (s, w) = elim (installed_service params s) [
    | none ↦ (ok false, (s, w))
    | some (i, isvc) ↦ elim isvc.cmd [ none ↦ (ok false, (s, w)) | some c ↦ (ok true, (s, w)) ]
  ]

  abbrev pub reported : Option InstalledOsService → Option Error → Act (OsServices × W) Unit₀
  reported (some isvc) (some e) s = notify isvc error (some (noted e "command wait" [])) s
  reported _ _ s = (ok tt, s)

  -- The goroutine, when Wait has returned: the event of an error is sent without the lock.
  unfoldable pub watch_end : ℕ → ℕ → ℕ → Option Error → Act (OsServices × W) Unit₀
  watch_end t i c e (s, w) =
      reported (s.object i) e (record s { watcher = put t (ended i c) s.watcher }, w)

  abbrev pub reaped : ℕ → Option InstalledOsService → ℕ → Act (OsServices × W) Unit₀
  reaped i none c s = (ok tt, s)
  reaped i (some isvc) c s =
      if same_cmd isvc.cmd c
      then (do notify isvc stop none; update (set_cmd i isvc none)) s
      else (ok tt, s)

  -- Then, under the lock: a service that has been stopped in the meantime is left alone.
  unfoldable pub watch_reap : ℕ → ℕ → ℕ → Act (OsServices × W) Unit₀
  watch_reap t i c (s, w) = reaped i (s.object i) c (drop_watcher t s, w)

  -- NewServiceFunc. The mock is no *srv, so that Started of package service refuses it.
  unfoldable pub new_service : OsServiceParams → OsService (OsServices × W)
  unfolding install_service stop_and_remove_service running_service stop_service start_service
  new_service params = record {
    install = install_service params;
    stop_and_remove = stop_and_remove_service params;
    running = running_service params;
    stop = stop_service params;
    start = start_service params;
    not_installed = none;
  }

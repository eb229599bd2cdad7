-- ===== src/Charmbits/Service/Daemon.antt =====
-- charmbits/service/implementation.go: the operating system's service over github.com/mever/service.
use gocharm.Base.{Option, none, some, Bool, true, false, if◌then◌else◌}
use gocharm.Base.{Act, Error, newf, noted, ok, panic, [], ◌>>=◌, ◌>>◌, pure, wrap}
use gocharm.Hook.Registry.{Unit₀}
use gocharm.Charmbits.Service.{OsService}

pub data DaemonStatus : Type 0 where
  unknown running stopped : DaemonStatus

-- service.Service, whose Status gives a status and perhaps an error beside it.
pub record Daemon (W : Type 0) : Type 0 where
  pub install : Act W Unit₀
  pub uninstall : Act W Unit₀
  pub start : Act W Unit₀
  pub stop : Act W Unit₀
  pub status : W → (DaemonStatus × Option Error) × W
  -- er == service.ErrNotInstalled
  pub not_installed : Error → Bool

module _ {W : Type 0} (d : Daemon W) where
  unfoldable pub is_not_installed : Act W Bool
  is_not_installed w =
      let ((s, e), w') = d.status w in
      elim s [
        | unknown ↦ elim e [
          | none ↦ (panic (newf "service daemon reports an unknown status" []), w')
          | some x ↦ (ok (d.not_installed x), w')
        ]
        | _ ↦ (ok false, w')
      ]

  unfoldable pub is_running : Act W Bool
  is_running w =
      let ((s, e), w') = d.status w in
      elim e [
        | some x ↦ (panic x, w')
        | none ↦ elim s [ running ↦ (ok true, w') | _ ↦ (ok false, w') ]
      ]

  -- The methods of *srv.
  unfoldable pub daemon_service : OsService W
  unfolding is_not_installed is_running
  daemon_service = record {
    install = do
      missing ← is_not_installed
      if missing then d.install else pure tt;
    stop_and_remove = do
      wrap (λ e. noted e "can not stop service" []) d.stop
      wrap (λ e. noted e "can not remove service" []) d.uninstall;
    running = is_running;
    stop = d.stop;
    start = d.start;
    not_installed = some is_not_installed;
  }

-- ===== src/Hooktest/OsServices/Watched.antt =====
-- hook/hooktest/service.go: a command that runs is one that a goroutine waits for.
use gocharm.Base.{ℕ, ◌≡◌, ◌≤◌, ◌⊎◌, refl, inl, inr, List, none, some}
use gocharm.Base.{arith, Bool, true, false, ◌==◌}
use gocharm.Base.{Bool-cases, ◌≢◌}
use gocharm.Charmbits.Service.{OsServiceParams}
use gocharm.Hooktest.OsServices.{InstalledOsService, OsServices}
use gocharm.Hooktest.OsServices.{ServiceEvent, waiting, ended}
use gocharm.Hooktest.OsServices.{put, set_cmd, begin, add_object}
use gocharm.Hooktest.OsServices.{drop_watcher}

abbrev pub Awaited : OsServices → ℕ → ℕ → Type 0
Awaited s i c = (n : ℕ) × ((s.watcher n ≡ some (waiting i c)) ⊎ (s.watcher n ≡ some (ended i c)))

pub record IsWatched (s : OsServices) : Type 0 where
  pub free : (n : ℕ) → s.next_watcher ≤ n → s.watcher n ≡ none
  pub seen :
      (i c : ℕ) (o : InstalledOsService) → s.object i ≡ some o → o.cmd ≡ some c → Awaited s i c

module _ (s : OsServices) (a : IsWatched s) where
  -- Events and the map of the names have no part in it.
  pub events-IsWatched : (es : List ServiceEvent) → IsWatched (record s { events = es })
  events-IsWatched es = record { free = a.free; seen = a.seen }

  pub stopped-IsWatched : (i : ℕ) (o : InstalledOsService) → IsWatched (set_cmd i o none s)
  stopped-IsWatched i o = record {
    free = a.free;
    seen = λ j c o' h r. a.seen j c o' (ground arith) r;
  }

  begun-Awaited :
      (i c : ℕ) (o : InstalledOsService) (j d : ℕ) → Awaited s j d → Awaited (begin i o c s) j d
  begun-Awaited i c o j d (n, inl h) = (n, inl (ground (arith, a.free n)))
  begun-Awaited i c o j d (n, inr h) = (n, inr (ground (arith, a.free n)))

  begun-seen :
      (i c : ℕ) (o : InstalledOsService) (same : Bool) (j d : ℕ) (o' : InstalledOsService)
      → (i == j) ≡ same
      → (begin i o c s).object j ≡ some o'
      → o'.cmd ≡ some d
      → Awaited (begin i o c s) j d
  begun-seen i c o true j d o' e h r = (s.next_watcher, inl (ground arith))
  begun-seen i c o false j d o' e h r = begun-Awaited i c o j d (a.seen j d o' (ground arith) r)

  pub begun-IsWatched : (i c : ℕ) (o : InstalledOsService) → IsWatched (begin i o c s)
  begun-IsWatched i c o = record {
    free = λ n h. ground (arith, a.free n);
    seen = λ j d o' h r. begun-seen i c o (i == j) j d o' refl h r;
  }

  pub added-IsWatched : (p : OsServiceParams) → IsWatched (add_object p s)
  added-IsWatched p = record { free = a.free; seen = λ j c o' h r. a.seen j c o' (ground arith) r }

  ended-Awaited :
      (n i c j d : ℕ)
      → s.watcher n ≡ some (waiting i c)
      → Awaited s j d
      → Awaited (record s { watcher = put n (ended i c) s.watcher }) j d
  ended-Awaited n i c j d ready (k, inl h) = elim (Bool-cases (n == k)) [
    | inl e ↦ (n, inr (ground arith))
    | inr e ↦ (k, inl (ground arith))
  ]
  ended-Awaited n i c j d ready (k, inr h) = (k, inr (ground arith))

  pub ended-IsWatched :
      (n i c : ℕ)
      → s.watcher n ≡ some (waiting i c)
      → IsWatched (record s { watcher = put n (ended i c) s.watcher })
  ended-IsWatched n i c ready = record {
    free = λ k h. ground (arith, a.free k, a.free n);
    seen = λ j d o h r. ended-Awaited n i c j d ready (a.seen j d o h r);
  }

  dropped-Awaited :
      (n i c j d : ℕ) (o : InstalledOsService)
      → s.watcher n ≡ some (ended i c)
      → ((o : InstalledOsService) → s.object i ≡ some o → o.cmd ≢ some c)
      → s.object j ≡ some o
      → o.cmd ≡ some d
      → Awaited s j d
      → Awaited (drop_watcher n s) j d
  dropped-Awaited n i c j d o ready stopped there runs (k, inl h) = (k, inl (ground arith))
  dropped-Awaited n i c j d o ready stopped there runs (k, inr h) = elim (Bool-cases (n == k)) [
    | inl e ↦ absurd (ground (arith, stopped o))
    | inr e ↦ (k, inr (ground arith))
  ]

  pub dropped-IsWatched :
      (n i c : ℕ)
      → s.watcher n ≡ some (ended i c)
      → ((o : InstalledOsService) → s.object i ≡ some o → o.cmd ≢ some c)
      → IsWatched (drop_watcher n s)
  dropped-IsWatched n i c ready stopped = record {
    free = λ k h. ground (arith, a.free k);
    seen = λ j d o h r. dropped-Awaited n i c j d o ready stopped h r (a.seen j d o h r);
  }

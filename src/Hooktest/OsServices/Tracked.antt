-- ===== src/Hooktest/OsServices/Tracked.antt =====
-- hook/hooktest/service.go: each change of the services keeps to the protocol of their events.
use gocharm.Base.{String, ℕ, ◌≡◌, ◌≤◌, ◌∙◌, List, true, false, Option}
use gocharm.Base.{none, some, if◌then◌else◌, str_eq, str_eq_iff, arith, Error, inl, inr}
use gocharm.Base.{Option-cases}
use gocharm.Base.Dict.{lookup, erase, lookup-insert, lookup-erase}
use gocharm.Charmbits.Service.{OsServiceParams}
use gocharm.Hooktest.OsServices.{
  ServiceEventKind, ServiceEvent, InstalledOsService, OsServices, Watcher, install, error, remove,
  send, set_cmd, put, add_object,
}
use gocharm.Hooktest.OsServices.Protocol.{phase, phase_of, name_of, status, IsTracked}

abbrev pub event : ServiceEventKind → InstalledOsService → ServiceEvent
event kind isvc = record { kind = kind; params = isvc.params; error = none }

module _ (s : OsServices) (t : IsTracked s) where
  pub error-IsTracked :
      (isvc : InstalledOsService) (e : Option Error)
      → IsTracked (send (record { kind = error; params = isvc.params; error = e }) s)
  unfolding phase
  error-IsTracked isvc e = record {
    telling = t.telling;
    fresh = t.fresh;
    named = t.named;
    live = t.live;
    told = λ n. ground (arith, t.told n);
  }

  module _ (i : ℕ) (o : InstalledOsService) (there : s.object i ≡ some o)
      (listed : lookup o.params.name s.installed ≡ some i) (cmd : Option ℕ) where
    set_cmd-fresh : (j : ℕ) → s.next ≤ j → put i (record o { cmd = cmd }) s.object j ≡ none
    set_cmd-fresh j h = ground (arith, t.fresh j, t.fresh i)

    set_cmd-named :
        (n : String) (j : ℕ)
        → lookup n s.installed ≡ some j
        → name_of (put i (record o { cmd = cmd }) s.object j) ≡ some n
    set_cmd-named n j h = ground (arith, t.named n j)

    set_cmd-live :
        (j d : ℕ) (o' : InstalledOsService)
        → put i (record o { cmd = cmd }) s.object j ≡ some o'
        → o'.cmd ≡ some d
        → lookup o'.params.name s.installed ≡ some j
    set_cmd-live j d o' h r = ground (arith, t.live j d o')

    -- Another name points to another object.
    status_elsewhere :
        (n : String) → str_eq o.params.name n ≡ false → status n (set_cmd i o cmd s) ≡ status n s
    status_elsewhere n other = elim (Option-cases (lookup n s.installed)) [
      | inl missing ↦ ground arith
      | inr (j, there') ↦ ground (arith, t.named n j, str_eq_iff o.params.name n)
    ]

    status_here :
        (n : String)
        → str_eq o.params.name n ≡ true
        → (status n s ≡ phase_of (some (i, o)))
          × (status n (set_cmd i o cmd s) ≡ phase_of (some (i, record o { cmd = cmd })))
    status_here n same = ground (arith, str_eq_iff o.params.name n)

    -- What is sent and the new command agree, for the phase that there was.
    pub set_cmd-IsTracked :
        (es : List ServiceEvent)
        → ((n : String)
            → phase n es ≡ (
                if str_eq o.params.name n
                then phase_of (some (i, record o { cmd = cmd }))
                else phase n s.events))
        → IsTracked (set_cmd i o cmd (record s { events = es }))
    set_cmd-IsTracked es h = record {
      telling = t.telling;
      fresh = set_cmd-fresh;
      named = set_cmd-named;
      live = set_cmd-live;
      told = λ n. ground (arith, h n, t.told n, status_here n, status_elsewhere n);
    }

  pub events-IsTracked :
      (es : List ServiceEvent)
      → ((n : String) → phase n es ≡ phase n s.events)
      → IsTracked (record s { events = es })
  events-IsTracked es h = record {
    telling = t.telling;
    fresh = t.fresh;
    named = t.named;
    live = t.live;
    told = λ n. h n ∙ t.told n;
  }

  pub watcher-IsTracked :
      (watcher : ℕ → Option Watcher) (next : ℕ)
      → IsTracked (record s { watcher = watcher; next_watcher = next })
  watcher-IsTracked watcher next = record {
    telling = t.telling;
    fresh = t.fresh;
    named = t.named;
    live = t.live;
    told = t.told;
  }

  module _ (params : OsServiceParams) (missing : lookup params.name s.installed ≡ none) where
    abbrev with_new : OsServices
    with_new = send (event install (record { params = params; cmd = none })) (add_object params s)

    add_object-named :
        (n : String) (j : ℕ)
        → lookup n with_new.installed ≡ some j
        → name_of (with_new.object j) ≡ some n
    add_object-named n j h = ground (
      arith,
      lookup-insert params.name n s.next s.installed,
      str_eq_iff params.name n,
      t.named n j,
      t.fresh j,
    )

    add_object-live :
        (j d : ℕ) (o' : InstalledOsService)
        → with_new.object j ≡ some o'
        → o'.cmd ≡ some d
        → lookup o'.params.name with_new.installed ≡ some j
    add_object-live j d o' h r = ground (
      arith,
      t.live j d o',
      lookup-insert params.name o'.params.name s.next s.installed,
      str_eq_iff params.name o'.params.name,
    )

    add_object-told : (n : String) → phase n with_new.events ≡ status n with_new
    unfolding phase
    add_object-told n = elim (Option-cases (lookup n s.installed)) [
      | inl none_there ↦ ground (
        arith,
        t.told n,
        lookup-insert params.name n s.next s.installed,
        str_eq_iff params.name n,
      )
      | inr (j, there) ↦ ground (
        arith,
        t.told n,
        t.named n j,
        t.fresh j,
        lookup-insert params.name n s.next s.installed,
        str_eq_iff params.name n,
      )
    ]

    pub install-IsTracked : IsTracked with_new
    install-IsTracked = record {
      telling = t.telling;
      fresh = λ j h. ground (arith, t.fresh j);
      named = add_object-named;
      live = add_object-live;
      told = add_object-told;
    }

  module _ (i : ℕ) (o : InstalledOsService) (there : s.object i ≡ some o)
      (listed : lookup o.params.name s.installed ≡ some i) (stopped : o.cmd ≡ none) where
    abbrev without : OsServices
    without = send (event remove o) (record s { installed = erase o.params.name s.installed })

    erase-live :
        (j d : ℕ) (o' : InstalledOsService)
        → s.object j ≡ some o'
        → o'.cmd ≡ some d
        → lookup o'.params.name without.installed ≡ some j
    erase-live j d o' h r = ground (
      arith,
      t.live j d o',
      lookup-erase o.params.name o'.params.name s.installed,
      str_eq_iff o.params.name o'.params.name,
    )

    pub remove-IsTracked : IsTracked without
    unfolding phase
    remove-IsTracked = record {
      telling = t.telling;
      fresh = t.fresh;
      named = λ n j h. ground (arith, t.named n j, lookup-erase o.params.name n s.installed);
      live = erase-live;
      told = λ n.
          ground
            (arith, t.told n, lookup-erase o.params.name n s.installed, str_eq_iff o.params.name n);
    }

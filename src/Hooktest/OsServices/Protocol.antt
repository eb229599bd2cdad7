-- ===== src/Hooktest/OsServices/Protocol.antt =====
-- hook/hooktest/service.go: the order of the events of one service, as the comments on the kinds of
-- events describe it.
use gocharm.Base.{
  String, ℕ, ◌≡◌, ◌≤◌, List, [], ◌∷◌, true, Option, none, some, if◌then◌else◌, str_eq,
}
use gocharm.Base.Dict.{lookup}
use gocharm.Hooktest.OsServices.{
  ServiceEventKind, ServiceEvent, InstalledOsService, OsServices, install, start, error, stop,
  remove, pointed,
}

pub data Phase : Type 0 where
  absent idle running broken : Phase

-- An error can come at any time; any other event out of turn breaks the protocol.
abbrev pub advance : Phase → ServiceEventKind → Phase
advance p error = p
advance absent install = idle
advance idle start = running
advance running stop = idle
advance idle remove = absent
advance _ _ = broken

-- Where the events of a name have led; the last event stands first.
unfoldable pub phase : String → List ServiceEvent → Phase
phase name [] = absent
phase name (e ∷ es) =
    let before = phase name es in
    if str_eq e.params.name name then advance before e.kind else before

abbrev pub phase_of : Option (ℕ × InstalledOsService) → Phase
phase_of none = absent
phase_of (some (i, isvc)) = elim isvc.cmd [ none ↦ idle | some c ↦ running ]

-- What the services are at.
abbrev pub status : String → OsServices → Phase
status name s = phase_of (pointed (lookup name s.installed) s.object)

abbrev pub name_of : Option InstalledOsService → Option String
name_of none = none
name_of (some o) = some o.params.name

-- The services agree with the events sent so far, name by name; a command that runs belongs to a
-- service that is installed.
pub record IsTracked (s : OsServices) : Type 0 where
  pub telling : s.notifying ≡ true
  pub fresh : (i : ℕ) → s.next ≤ i → s.object i ≡ none
  pub named : (n : String) (i : ℕ) → lookup n s.installed ≡ some i → name_of (s.object i) ≡ some n
  pub live :
      (i c : ℕ) (o : InstalledOsService)
      → s.object i ≡ some o
      → o.cmd ≡ some c
      → lookup o.params.name s.installed ≡ some i
  pub told : (n : String) → phase n s.events ≡ status n s

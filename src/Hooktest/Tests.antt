-- ===== src/Hooktest/Tests.antt =====
-- Examples of services and runners that tests of a charm use.
use gocharm.Base.{◌≡◌, ◌≢◌, refl, [], ◌∷◌, true, none, some, ok, newf}
use gocharm.Base.Dict.{lookup, insert}
use gocharm.Base.{String, List, ◌++◌ as append, false, panic, ◌⊎◌, In, Act, pure, ◌>>◌}
use gocharm.Base.Int.{pos}
use gocharm.Charmbits.Service.{OsServiceParams}
use gocharm.Charmbits.Tests.Processes.{juju}
use gocharm.Hook.Context.{Context}
use gocharm.Hook.HookName.{valid_hook_name}
use gocharm.Hook.Main.{register_main_hooks}
use gocharm.Hook.Main.Commands.{run_program}
use gocharm.Hook.Query.{Json}
use gocharm.Hook.Registry.{View, Unit₀, new_registry, register_command, register_hook}
use gocharm.Hook.State.{Files, PersistentState}
use gocharm.Hooktest.MemState.{mem_state}
use gocharm.Hooktest.Runner.{Setup, Marshal, Runner, World, hook_context, tools, run_command}
use gocharm.Hooktest.Runner.Recorded.{replay, other_calls, replay-recorded}
use gocharm.Hooktest.Runner.Relations.{Within, hook_context-relation}
use gocharm.Hooktest.Runner.Agree.{run_command-run_program}
use gocharm.Hooktest.OsServices.{Commands, OsServices, new_services, watch_end, watch_reap}
use gocharm.Hooktest.OsServices.{
  install_service, install_new, start_service, notify, installed_service,
}
use gocharm.Base.{Error, ℕ, Option}
use gocharm.Hooktest.OsServices.{InstalledOsService, waiting}
use gocharm.Hooktest.OsServices.Settled.{LeadsToIdle, Reach-idle}
use gocharm.Hooktest.OsServices.Protocol.{phase, status, broken, idle}
use gocharm.Hooktest.OsServices.Steps.{
  Reach, here, next, perform, install_call, end_call, reap_call,
}
use gocharm.Hooktest.OsServices.Steps.{Reach-told}

-- Every command starts, and ends with an error.
abbrev commands : Commands Unit
commands = record {
  run_command = λ name args w. (ok (some 7), w);
  kill = λ c w. w;
  wait = λ c w. (some (newf "killed" []), w);
  log = λ f args w. w;
}

abbrev web : OsServiceParams
web = record { name = "web"; description = "d"; exe = "runhook"; args = "cmd-web" ∷ [] }

abbrev installed : OsServices
installed = (perform commands (install_call web) (new_services true, tt)).1.0

abbrev ended : OsServices
ended = (perform commands (end_call 0 0 7 none) (installed, tt)).1.0

abbrev reaped : OsServices
reaped = (perform commands (reap_call 0 0 7) (ended, tt)).1.0

installed-Reach : Reach commands installed
installed-Reach = next (new_services true) tt (install_call web) here tt

ended-Reach : Reach commands ended
unfolding perform install_service install_new start_service notify installed_service lookup
    watch_end insert
ended-Reach = next installed tt (end_call 0 0 7 none) installed-Reach refl

reaped-Reach : Reach commands reaped
unfolding perform install_service install_new start_service notify installed_service lookup
    watch_end insert
reaped-Reach = next ended tt (reap_call 0 0 7) ended-Reach refl

Reach-told_example :
    (phase "web" reaped.events ≡ status "web" reaped) × (phase "web" reaped.events ≢ broken)
Reach-told_example = Reach-told commands reaped "web" reaped-Reach

abbrev running_web : InstalledOsService
running_web = record { params = web; cmd = some 7 }

Reach-idle_example :
    (n : ℕ) × (((installed.watcher n ≡ some (waiting 0 7))
        × ((e : Option Error) (w : Unit)
            → LeadsToIdle commands 0 7 running_web n
                (perform commands (end_call n 0 7 e) (installed, w)).1.0))
      ⊎ LeadsToIdle commands 0 7 running_web n installed)
unfolding perform install_service install_new start_service notify installed_service lookup insert
Reach-idle_example = Reach-idle commands installed 0 7 running_web installed-Reach refl refl

-- The run ends at an installed service that is stopped.
reaped-idle : status "web" reaped ≡ idle
unfolding perform install_service install_new start_service notify installed_service lookup
    watch_end watch_reap insert
reaped-idle = refl

abbrev marshal : Marshal String
marshal = record { all = λ m. ok "{}"; one = λ v. ok "x" }

abbrev setup : Setup String Unit₀
setup = record {
  relations = [];
  relation_ids = ("db", "db:0" ∷ []) ∷ ("web", "web:0" ∷ "web:1" ∷ []) ∷ [];
  config = [];
  public_address = "1.2.3.4";
  private_address = "10.0.0.1";
  hook_state_dir = "/s";
  run_func = none;
  logf = λ f args w. w;
}

abbrev runner : Runner × Unit₀
runner = (record { recorded = []; closed = false }, tt)

abbrev three_calls : List (String × List String)
three_calls = ("juju-log", "hi" ∷ []) ∷ ("open-port", "80/tcp" ∷ []) ∷ ("unit-get", []) ∷ []

abbrev getenv : String → String
getenv v = ""

abbrev files : Files (World Unit₀)
files = record { mkdir_all = λ d. pure tt; write_file = λ p c. pure tt; read_file = λ p. pure none }

abbrev json : Json
json = record {
  settings = λ s. ok [];
  ids = λ s. ok [];
  text = λ s. ok s;
  int = λ s. ok (pos 8080);
  bool = λ s. ok true;
}

abbrev state : PersistentState (World Unit₀)
state = mem_state

replay-recorded_example :
    (replay marshal setup three_calls runner).0.recorded ≡ append [] (other_calls three_calls)
replay-recorded_example = replay-recorded marshal setup three_calls runner

hook_context-relation_example :
    ((ctxt : Context) × (hook_context marshal setup "web-relation-changed" "web:1" "u/0" ≡ ok ctxt)
      × Within marshal setup "web:1" "u/0" ctxt)
    ⊎ ((hook_context marshal setup "web-relation-changed" "web:1" "u/0"
          ≡ panic (newf "relation id not found" []))
        × ((n : String) (ids : List String) → In (n, ids) setup.relation_ids → In "web:1" ids → ⊥))
hook_context-relation_example =
    hook_context-relation marshal setup "web-relation-changed" "web:1" "u/0" refl (refl, (refl, tt))

abbrev world : World Unit₀
world = ([], runner)

abbrev echo : Act (View (World Unit₀)) Unit₀
echo = register_command (λ args. pure none)

abbrev echo_registered : View (World Unit₀)
echo_registered = ((echo >> register_main_hooks juju) new_registry).1

run_command-run_program_example :
    run_command marshal setup juju echo "cmd-root" ("a" ∷ []) world
    ≡ run_program juju getenv
        (tools marshal setup)
        files
        json
        echo_registered.shared
        state
        "dir"
        "cmd-root"
        ("a" ∷ [])
        world
unfolding register_command register_main_hooks register_hook valid_hook_name
run_command-run_program_example =
    run_command-run_program marshal setup juju getenv files json echo echo_registered state "dir"
      "root" ("a" ∷ []) world refl refl

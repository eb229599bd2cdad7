-- ===== src/ExampleCharms/Tests.antt =====
-- An example of the concat charm and its server in one world.
use mathlib.Core.List.Perm as Perms
use gocharm.Base.{String, ◌≡◌, refl, [], ◌∷◌, ◌==◌, if◌then◌else◌, true, false, none, some, arith}
use gocharm.Base.{Act, ok, err, pure, newf, Bool-cases, inl, inr, str_eq, str_eq_iff}
use gocharm.Base.{for_each}
use gocharm.Base.Decimal.{itoa}
use gocharm.Base.Dict.{Dict, lookup, insert}
use gocharm.Hook.Context.{Tools, logf}
use gocharm.Hook.Environment.{empty_context, state_dir}
use gocharm.Hook.Registry.{Unit₀}
use gocharm.Hook.State.{Files}
use gocharm.Hook.Actions.{set_relation_with_id, settings}
use gocharm.Charmbits.HttpRelation.{http_port}
use gocharm.Charmbits.Service.{OsService, OsServiceParams, os_service}
use gocharm.Charmbits.Service.Call.{Rpc, started, call, dial_service}
use gocharm.Charmbits.HttpRelation.Ports.{differ}
use gocharm.Charmbits.Tests.Charms.{enc, json, web}
use gocharm.Charmbits.Tests.Processes.{juju}
use gocharm.Charmbits.Tests.Servers.{World, files, files-IsFiles}
use gocharm.ExampleCharms.Concat.{Concatenator, ServerState, changed, finally, notify_server}
use gocharm.ExampleCharms.Concat.{ensure_started, set_downstream_val}
use gocharm.ExampleCharms.Concat.Committed.{After, finally-After}
use gocharm.ExampleCharms.Concat.Delivered.{IsServed, finally-IsKept}
use gocharm.ExampleCharms.Concat.Served.{IsNetwork, IsCodec, IsKept, On, Settled, set-Settled}
use gocharm.ExampleCharms.Concat.Server.{ConcatServer, Network, StateCodec, new_server, set}
use gocharm.ExampleCharms.Concat.Server.{handle_set, save_state}
use gocharm.ExampleCharms.Concat.Stable.{SameRelations, SameOutcome, turned, changed_stable}

-- The server that runs beside the hooks, and the files.
abbrev Both : Type 0
Both = ConcatServer String × World

abbrev tools : Tools Both
tools = record { run = λ cmd args w. (ok "v", w); close = pure tt }

abbrev new_os : OsServiceParams → Act Both (OsService Both)
new_os p = pure (record {
  install = pure tt;
  stop_and_remove = pure tt;
  running = pure true;
  stop = pure tt;
  start = pure tt;
  not_installed = some (pure false);
})

abbrev charm_files : Files Both
charm_files = record {
  mkdir_all = λ d. pure tt;
  write_file = λ p c. pure tt;
  read_file = λ p. pure none;
}

abbrev net : Network World String
net = record { listen = λ a w. (ok a, w); close = λ l w. w; serve = λ l a w. w }

net-IsNetwork : IsNetwork net (λ l. l)
net-IsNetwork = record { listens = λ a l w w' h. ground arith }

abbrev codec : StateCodec
codec = record {
  marshal = λ p. if p.port == 80 then ok p.val else err (newf "port" []);
  unmarshal = λ s. ok (record { val = s; port = 80 });
}

codec-IsCodec : IsCodec codec
codec-IsCodec = record { decodes = λ p s h. ground arith }

abbrev rpc : Rpc Both String ServerState Unit₀
rpc = record {
  dial = λ path. pure path;
  call = λ c method p w. handle_set net codec files (λ p. p) p w;
  close = λ c w. w;
}

rpc-IsServed : IsServed net codec files (λ p. p) tools rpc (λ w. w.0) (λ w. w.1)
rpc-IsServed = record {
  calls = λ c p w w' h. h;
  closes = λ c w. (refl, refl);
  runs = λ cmd args w. (refl, refl);
}

abbrev unit_a : Dict String
unit_a = ("val", "a") ∷ []

abbrev unit_b : Dict String
unit_b = ("val", "b") ∷ []

abbrev relations : Dict (Dict (Dict String))
relations = ("up:0", ("u/0", unit_a) ∷ ("u/1", unit_b) ∷ []) ∷ []

abbrev relations_turned : Dict (Dict (Dict String))
relations_turned = ("up:0", ("u/1", unit_b) ∷ ("u/0", unit_a) ∷ []) ∷ []

abbrev concat : Concatenator
concat = record {
  ctxt = record empty_context {
    has_runner = true;
    hook_state_dir = "/s";
    relations = relations;
    relation_ids = ("upstream", "up:0" ∷ []) ∷ ("downstream", "down:0" ∷ []) ∷ [];
  };
  http = web.http;
  svc = web.svc;
  state = record { val = "{}"; port = 80 };
  new_state = record { val = "{a b}"; port = 80 };
}

abbrev before : Both
before = (new_server "/s", [])

same_relations : SameRelations relations relations_turned
unfolding lookup
same_relations id = elim (Bool-cases (str_eq "up:0" id)) [
  | inl e ↦ rw e (record { same_keys = Perms.swap "u/1" "u/0" []; same_values = λ k. same_unit k })
  | inr e ↦ rw e (record { same_keys = Perms.refl []; same_values = λ k. refl })
]
  where
    same_unit :
        (k : String)
        → lookup k (("u/0", unit_a) ∷ ("u/1", unit_b) ∷ [])
          ≡ lookup k (("u/1", unit_b) ∷ ("u/0", unit_a) ∷ [])
    same_unit k = ground (arith, str_eq_iff "u/0" k, str_eq_iff "u/1" k, differ "u/0" "u/1" refl)

changed_stable_example :
    SameOutcome tools json
      (changed tools json (concat, before))
      (changed tools json (record concat { ctxt = turned concat.ctxt relations_turned }, before))
changed_stable_example = changed_stable tools json concat relations_turned before same_relations

finally-After_example :
    let (r, (c, w)) = finally tools juju enc new_os charm_files rpc 3 (concat, before) in
    After concat r c
finally-After_example = finally-After tools juju enc new_os charm_files rpc 3 concat before

abbrev after : Concatenator × Both
after = (finally tools juju enc new_os charm_files rpc 3 (concat, before)).1

finally-IsKept_example :
    IsKept net codec files (λ p. p) (record { val = "{a b}"; port = 80 }) after.1.0 after.1.1
unfolding finally notify_server ensure_started set_downstream_val started os_service logf state_dir
    call dial_service handle_set set save_state for_each insert lookup itoa set_relation_with_id
    http_port settings
finally-IsKept_example =
    finally-IsKept net codec files (λ p. p) tools rpc (λ w. w.0) (λ w. w.1) rpc-IsServed juju enc
      new_os charm_files 3 concat after.0 before after.1 codec-IsCodec files-IsFiles refl refl

abbrev serving : ConcatServer String
serving = record {
  state_dir = "/s";
  state = record { val = "a"; port = 80 };
  listener = some ":80";
}

serving-On : On (λ l. l) 80 serving.listener
unfolding itoa
serving-On = λ l h. ground arith

set-Settled_example :
    let (r, (s, w)) = set net (record { val = "b"; port = 8080 }) (serving, []) in
    On (λ l. l) s.state.port s.listener × Settled (record { val = "b"; port = 8080 }) serving r s
set-Settled_example =
    set-Settled net (λ l. l) net-IsNetwork (record { val = "b"; port = 8080 }) serving [] serving-On

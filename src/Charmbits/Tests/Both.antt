-- ===== src/Charmbits/Tests/Both.antt =====
-- An example of a charm and its server in one world.
use gocharm.Base.{String, ℕ, ◌≡◌, refl, inl, List, [], true, false, none, some}
use gocharm.Base.{Act, Result, ok, err, panic, pure, for_each, arith}
use gocharm.Base.Dict.{insert}
use gocharm.Base.Decimal.{itoa}
use gocharm.Hook.Context.{Tools, logf}
use gocharm.Hook.Environment.{state_dir}
use gocharm.Hook.Registry.{Unit₀}
use gocharm.Hook.State.{Files}
use gocharm.Charmbits.HttpRelation.{http_port, https_port, tls_cert_pem}
use gocharm.Charmbits.HttpService.Charm.{
  HttpService, changed, changed_with, settle, ensure_started, send_state,
}
use gocharm.Charmbits.HttpService.Charm.Delivered.{IsServed, IsDelivered, load_state-changed}
use gocharm.Charmbits.HttpService.Fields.{ServerState, Server, set_relations}
use gocharm.Charmbits.HttpService.Persisted.{new_server, handle_set, save_state}
use gocharm.Charmbits.HttpService.Server.{
  Setting, start_handler, make_handler, serve_http, restart_handler, set, needs_restart,
}
use gocharm.Charmbits.Service.{OsService, OsServiceParams, os_service}
use gocharm.Charmbits.Service.Call.{Rpc, started, call, dial_service}
use gocharm.Charmbits.Tests.Charms.{enc, json, web}
use gocharm.Charmbits.Tests.Processes.{juju}
use gocharm.Charmbits.Tests.Servers.{
  World, files, files-IsFiles, codec, codec-IsCodec, net, info, no_types, zero_of,
}

-- The server that runs beside the hooks, and the files.
abbrev Both : Type 0
Both = Server ℕ String String × World

abbrev tools : Tools Both
tools = record { run = λ cmd args w. (ok "/r", w); close = pure tt }

abbrev charm_files : Files Both
charm_files = record {
  mkdir_all = λ d. pure tt;
  write_file = λ p c. pure tt;
  read_file = λ p. pure none;
}

abbrev new_os : OsServiceParams → Act Both (OsService Both)
new_os p = pure (record {
  install = pure tt;
  stop_and_remove = pure tt;
  running = pure true;
  stop = pure tt;
  start = pure tt;
  not_installed = some (pure false);
})

abbrev setting : Both → Setting ℕ String String × World
setting (s, w) = (record { server = s; warnings = [] }, w)

abbrev answered : Result Unit₀ × (Setting ℕ String String × World) → Result (List String) × Both
answered (ok _, (s, w)) = (ok s.warnings, (s.server, w))
answered (err e, (s, w)) = (err e, (s.server, w))
answered (panic e, (s, w)) = (panic e, (s.server, w))

abbrev rpc : Rpc Both String ServerState (List String)
rpc = record {
  dial = λ path. pure path;
  call = λ c method p w.
      answered (handle_set codec files (λ p. p) no_types zero_of info net p (setting w));
  close = λ c w. w;
}

answered-ok :
    (o : Result Unit₀ × (Setting ℕ String String × World)) (warnings : List String) (w : Both)
    → answered o ≡ (ok warnings, w)
    → o ≡ (ok tt, (record { server = w.0; warnings = warnings }, w.1))
answered-ok (ok x, (s, v)) warnings w h = ground arith
answered-ok (err e, (s, v)) warnings w h = absurd (ground arith)
answered-ok (panic e, (s, v)) warnings w h = absurd (ground arith)

rpc-IsServed :
    IsServed codec files (λ p. p) no_types zero_of info net tools rpc (λ w. w.0) (λ w. w.1)
rpc-IsServed = record {
  calls = λ c p warnings w w' h.
      answered-ok (handle_set codec files (λ p. p) no_types zero_of info net p (setting w)) warnings
        w' h;
  closes = λ c w. (refl, refl);
  runs = λ cmd args w. (refl, refl);
}

abbrev charm : HttpService
charm = record web { relation_values = [] }

abbrev before : Both
before = (new_server "/s", [])

abbrev after : HttpService × Both
after = (changed juju tools enc new_os json charm_files rpc 3 (charm, before)).1

load_state-changed_example :
    IsDelivered codec files
      (λ p. p)
      no_types
      zero_of
      info
      net
      juju
      tools
      enc
      new_os
      json
      charm_files
      rpc
      3
      (λ w. w.0)
      (λ w. w.1)
      rpc-IsServed
      charm
      ""
      after.1
unfolding changed tls_cert_pem changed_with settle http_port ensure_started started os_service logf
    state_dir send_state call dial_service handle_set set set_relations needs_restart itoa for_each
    save_state insert make_handler restart_handler serve_http start_handler https_port
load_state-changed_example =
    load_state-changed codec files (λ p. p) no_types zero_of info net juju tools enc new_os json
      charm_files rpc 3 (λ w. w.0) (λ w. w.1) rpc-IsServed charm after.0 "" before after.1
      codec-IsCodec files-IsFiles refl refl (refl, inl (ground arith))

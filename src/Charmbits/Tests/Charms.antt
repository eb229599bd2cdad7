-- ===== src/Charmbits/Tests/Charms.antt =====
-- Examples of the charm's side of an HTTP service.
use gocharm.Base.{String, ◌≡◌, ◌≢◌, refl, List, [], ◌∷◌, map, true, false, none, some, Option}
use gocharm.Base.{Act, Result, ok, err, newf, pure, All, for_each, arith, str_eq_iff}
use gocharm.Base.Dict.{lookup}
use gocharm.Hook.Query.{Json}
use gocharm.Charmbits.HttpRelation.{Provider, tls_cert_pem, http_port}
use gocharm.Charmbits.HttpService.Charm.{
  HttpService, changed, changed_with, settle, ensure_started, send_state, refresh, refresh_one,
}
use gocharm.Charmbits.HttpService.Charm.Refreshed.{IsCurrent, field_name, refresh-IsCurrent}
use gocharm.Charmbits.HttpService.Charm.Sent.{IsSettled, certificate, changed-ok}
use gocharm.Charmbits.HttpService.Fields.{ServerState, err_relation_incomplete}
use gocharm.Charmbits.Service.{Encoding, OsService, OsServiceParams, os_service}
use gocharm.Charmbits.Service.Call.{Rpc, started, call, dial_service}
use gocharm.Hook.Context.{logf}
use gocharm.Hook.Environment.{state_dir}
use gocharm.Charmbits.Tests.Processes.{World, juju, tools, files, ctxt, service}

abbrev pub enc : Encoding
enc = record {
  marshal = λ p. ok "p";
  unmarshal = λ s. err (newf "unknown" []);
  encode = λ s. s;
  decode = λ s. ok s;
  sha1_hex = λ s. "0";
}

abbrev os : OsService World
os = record {
  install = pure tt;
  stop_and_remove = pure tt;
  running = pure true;
  stop = pure tt;
  start = pure tt;
  not_installed = some (pure false);
}

abbrev new_os : OsServiceParams → Act World (OsService World)
new_os p = pure os

abbrev pub json : Json
json = record {
  settings = λ s. ok [];
  ids = λ s. ok [];
  text = λ s. ok s;
  int = λ s. err (newf "no number" []);
  bool = λ s. ok true;
}

-- A server that answers with the data of the argument as a warning.
abbrev rpc : Rpc World String ServerState (List String)
rpc = record {
  dial = λ path. pure path;
  call = λ c method p. pure (p.arg_data ∷ []);
  close = λ c w. w;
}

abbrev provider : Provider
provider = record {
  prov = record { values = []; ctxt = ctxt; relation_name = "http" };
  opened_http_port = 80;
  opened_https_port = 0;
  ctxt = ctxt;
  allow_https = false;
}

abbrev pub web : HttpService
web = record {
  ctxt = ctxt;
  svc = record service { installed = true };
  http = provider;
  arg_data = "a";
  started = true;
  relation_values = ("Old", "1") ∷ [];
}

changed-ok_example :
    (cert : String) × (certificate (tls_cert_pem tools json (provider, 0)).0 ≡ some cert)
    × IsSettled juju tools enc new_os json files rpc 3 web cert 0
unfolding changed tls_cert_pem changed_with settle http_port ensure_started started os_service logf
    state_dir send_state call dial_service for_each
changed-ok_example = changed-ok juju tools enc new_os json files rpc 3 web web 0 0 refl

abbrev getters : List (String × Act World (Option String))
getters = ("First", pure (some "a")) ∷ ("Old", λ w. (err err_relation_incomplete, w)) ∷ []

abbrev marshal : Option String → Result String
marshal none = err (newf "no value" [])
marshal (some s) = ok s

refresh-IsCurrent_example :
    let s' = (refresh marshal getters (web, 0)).1.0 in
    All (λ g. IsCurrent marshal g s') getters
    × ((k : String)
        → All (λ n. n ≢ k) (map field_name getters)
        → lookup k s'.relation_values ≡ lookup k web.relation_values)
unfolding refresh refresh_one for_each
refresh-IsCurrent_example =
    refresh-IsCurrent marshal getters web (refresh marshal getters (web, 0)).1.0 0 0
      ((ground (arith, str_eq_iff "Old" "First"), tt), (tt, tt)) refl

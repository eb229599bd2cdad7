-- ===== src/Charmbits/Tests/Processes.antt =====
-- Examples of a service and of a resource.
use Prim.Native.String.{◌++◌}
use gocharm.Base.{String, ℕ, suc, ◌≡◌, ◌≢◌, refl, List, [], ◌∷◌, Bool, true, false, none, some}
use gocharm.Base.{Act, Result, ok, err, newf, pure, ◌>>◌}
use gocharm.Base.Texts.{trim_prefix, trim_prefix-append}
use gocharm.Base.{ap, str_eq, str_eq_iff, ◌&&◌, arith}
use gocharm.Base.Dict.{lookup}
use gocharm.Hook.Context.{Tools, Context, run_tool}
use gocharm.Hook.Environment.{empty_context}
use gocharm.Hook.Juju
use gocharm.Hook.Juju.{Juju, HookKind}
use gocharm.Hook.State.{Files}
use gocharm.Charmbits.Service.{
  Service, ServiceParams, Encoding, OsService, OsServiceParams, service_params, run_server, start,
}
use gocharm.Charmbits.Service.Launch.{IsEncoding, run_server-os_service, start_records}
use gocharm.Charmbits.Service.{os_service, name_of, socket_path}
use gocharm.Hook.Context.{command_name, logf}
use gocharm.Hook.Environment.{state_dir}
use gocharm.Base.Paths.{join_path}
use gocharm.Charmbits.Resource as Resource
use gocharm.Charmbits.Resource.{Digest, Installer, install_or_update, make_hash, get_path}
use gocharm.Charmbits.Resource.Hashes.{install_or_update_records}

-- How often an installer was called.
abbrev pub World : Type 0
World = ℕ

abbrev kind_text : HookKind → String
kind_text Juju.install = "install"
kind_text _ = "start"

abbrev pub juju : Juju
juju = record {
  kind_text = kind_text;
  relation_snippet = λ s. true;
  role_peer = "peer";
  role_requirer = "requirer";
  role_provider = "provider";
  scope_global = "global";
  type_file = "file";
  validate = λ m. none;
  unit_tag = λ u. ok ("unit-" ++ u);
}

abbrev pub tools : Tools World
tools = record { run = λ cmd args w. (ok "/r", w); close = pure tt }

abbrev pub files : Files World
files = record { mkdir_all = λ d. pure tt; write_file = λ p c. pure tt; read_file = λ p. pure none }

abbrev pub ctxt : Context
ctxt = record empty_context {
  has_runner = true;
  registry_name = "root.svc";
  unit = "u/0";
  hook_state_dir = "/state";
}

-- An encoding that knows the services of one argument, on one socket and of one name.
abbrev params : String → ServiceParams
params a = record { socket_path = "@0"; args = a ∷ []; name = "svc" }

abbrev marshal_args : List String → Bool → Result String
marshal_args (a ∷ []) true = ok a
marshal_args _ _ = err (newf "unknown" [])

abbrev enc : Encoding
enc = record {
  marshal = λ p. marshal_args p.args (str_eq p.socket_path "@0" && str_eq p.name "svc");
  unmarshal = λ s. ok (params s);
  encode = λ s. "b:" ++ s;
  decode = λ s. ok (trim_prefix "b:" s);
  sha1_hex = λ s. "0";
}

marshal_args-ok :
    (socket name : String) (args : List String) (s : String)
    → marshal_args args (str_eq socket "@0" && str_eq name "svc") ≡ ok s
    → ok (params s) ≡ ok (record { socket_path = socket; args = args; name = name })
marshal_args-ok socket name [] s h = absurd (ground arith)
marshal_args-ok socket name (a ∷ []) s h =
    ground (arith, str_eq_iff socket "@0", str_eq_iff name "svc")
marshal_args-ok socket name (a ∷ b ∷ args) s h = absurd (ground arith)

enc-IsEncoding : IsEncoding enc
enc-IsEncoding = record {
  base64 = λ s. ap ok (trim_prefix-append "b:" s);
  json = λ p s h. marshal_args-ok p.socket_path p.name p.args s h;
}

abbrev os : OsService World
os = record {
  install = pure tt;
  stop_and_remove = pure tt;
  running = pure true;
  stop = pure tt;
  start = λ w. (ok tt, suc w);
  not_installed = none;
}

abbrev new_os : OsServiceParams → Act World (OsService World)
new_os p = pure os

abbrev pub service : Service
service = record { ctxt = ctxt; service_name = "svc"; installed = false; args = [] }

abbrev answer : String → List String → Act World (List String)
answer socket args = pure (socket ∷ args)

run_server-os_service_example :
    (asked : OsServiceParams) × (given : String) × (dir : String) × (w₁ : World) × (new_os asked w₁
      ≡ (ok os, 0))
    × (asked.args ≡ command_name service.ctxt ∷ given ∷ [])
    × ((state_dir juju service.ctxt w₁).0 ≡ ok dir)
    × ((v : World)
        → run_server enc (λ n. pure tt) answer (given ∷ []) v
          ≡ (pure tt >> answer ("@" ++ enc.sha1_hex (join_path (dir ∷ "service" ∷ []))) ("x" ∷ []))
              v)
unfolding os_service service_params name_of socket_path state_dir logf run_tool
run_server-os_service_example =
    run_server-os_service juju tools enc new_os (λ n. pure tt) answer service ("x" ∷ []) os 0 0
      enc-IsEncoding refl

start_records_example :
    let (r, (s', w')) = start juju tools enc new_os files ("x" ∷ []) (service, 0) in
    (r ≡ ok tt → s' ≡ record service { installed = true; args = "x" ∷ [] })
    × (r ≢ ok tt → s' ≡ service)
start_records_example = start_records juju tools enc new_os files ("x" ∷ []) service 0

abbrev digest : Digest World
digest = record { open_file = λ p. pure 3; copy = λ f. pure "hash"; close = λ f w. w }

abbrev installer : Installer World
installer path w = (ok tt, suc w)

abbrev resources : Resource.Service World
resources = record { ctxt = ctxt; hashes = ("img", "old") ∷ []; installers = [] }

install_or_update_records_example :
    let (r, (s', w')) = install_or_update tools digest "img" installer (resources, 0) in
    ((k : String) → k ≢ "img" → lookup k s'.hashes ≡ lookup k resources.hashes)
    × (r ≡ ok tt → lookup "img" s'.hashes ≡ some "hash")
    × (r ≢ ok tt → s' ≡ resources)
    × (lookup "img" resources.hashes ≡ some "hash" → (s' ≡ resources) × (w' ≡ 0))
unfolding get_path make_hash run_tool
install_or_update_records_example =
    install_or_update_records tools digest "img" installer resources 0 "/r" "hash" 0 0 refl refl

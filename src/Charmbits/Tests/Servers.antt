-- ===== src/Charmbits/Tests/Servers.antt =====
-- Examples of an HTTP service's server: one whose handler takes no relations, and one whose handler
-- takes mongodb sessions.
use gocharm.Base.{String, ℕ, ◌≡◌, refl, List, [], ◌∷◌, Bool, true, false, Option, none, some}
use gocharm.Base.{Act, Result, ok, err, newf, pure, str_eq, str_eq_iff, str_eq_refl}
use gocharm.Base.{◌&&◌, ◌==◌, if◌then◌else◌, arith, inr}
use gocharm.Base.Decimal.{itoa, atoi, atoi-itoa}
use gocharm.Base.Dict.{Dict, lookup, insert, lookup-insert}
use gocharm.Hook.Registry.{Unit₀}
use gocharm.Hook.State.{Files}
use gocharm.Charmbits.HttpService.Fields.{
  ServerState, Server, Field, RegisteredRelation, set_relations,
}
use gocharm.Charmbits.HttpService.Server.{
  HandlerInfo, Network, Setting, start_handler, make_handler, serve_http, restart_handler, set,
  needs_restart,
}
use gocharm.Charmbits.HttpService.Persisted.{
  StateCodec, new_server, zero_state, handle_set, save_state, load_state,
}
use gocharm.Charmbits.HttpService.Listeners.{IsServing, IsClosed, IsServing-of_IsClosed}
use gocharm.Charmbits.HttpService.Consistent.{handle_set-IsServing}
use gocharm.Charmbits.HttpService.Complete.{IsRunning, set-IsRunning}
use gocharm.Charmbits.HttpService.FirstField.{set_relations_rest, rest_of}
use gocharm.Charmbits.HttpService.Restored.{IsFiles, IsCodec, load_state-handle_set}
use gocharm.Charmbits.MongodbRelation.{Mongo}
use gocharm.Charmbits.MongodbRelation.Session.{session_types, nil_session, session_field}

-- The files that there are.
abbrev pub World : Type 0
World = Dict String

abbrev write : String → String → Act World Unit₀
write path content w = (ok tt, insert path content w)

abbrev pub files : Files World
files = record {
  mkdir_all = λ d. pure tt;
  write_file = write;
  read_file = λ p w. (ok (lookup p w), w);
}

pub files-IsFiles : IsFiles files
files-IsFiles = record {
  reads =
      λ path content w w' h. ground (arith, lookup-insert path path content w, str_eq_refl path);
}

abbrev web : ℕ → ServerState
web port = record zero_state { http_port = port; arg_data = "a" }

-- A codec that knows the states with an http port alone.
abbrev no_entries : Dict String → Bool
no_entries [] = true
no_entries (_ ∷ _) = false

abbrev is_web : ServerState → Bool
is_web p =
    p.https_port == 0
    && str_eq p.cert_pem ""
    && str_eq p.arg_data "a"
    && no_entries p.relation_values

abbrev read_web : Option ℕ → Result ServerState
read_web none = err (newf "no number" [])
read_web (some n) = ok (web n)

abbrev pub codec : StateCodec
codec = record {
  marshal = λ p. if is_web p then ok (itoa p.http_port) else err (newf "unknown" []);
  unmarshal = λ s. read_web (atoi s);
}

decodes_web :
    (port https : ℕ) (cert arg : String) (values : Dict String) (s : String)
    → let p = record zero_state {
      http_port = port;
      https_port = https;
      cert_pem = cert;
      arg_data = arg;
      relation_values = values;
    } in
      codec.marshal p ≡ ok s → codec.unmarshal s ≡ ok p
decodes_web port https cert arg [] s h =
    ground (arith, atoi-itoa port, str_eq_iff cert "", str_eq_iff arg "a")
decodes_web port https cert arg (_ ∷ _) s h = absurd (ground arith)

pub codec-IsCodec : IsCodec codec
codec-IsCodec = record {
  decodes =
      λ p s h. decodes_web p.http_port p.https_port p.cert_pem p.arg_data p.relation_values s h;
}

abbrev pub net : Network World String String
net = record {
  listen = λ addr. pure addr;
  serve = λ l h w. w;
  shut = λ l w. w;
  close_handler = λ h w. w;
  key_pair = λ pem. none;
  with_tls = λ pem l. l;
}

abbrev pub info : HandlerInfo World ℕ String String
info = record { relation_type = none; unmarshal_arg = λ s. ok s; run = λ a vs. pure a }

abbrev pub no_types : Dict (RegisteredRelation World ℕ ℕ)
no_types = []

abbrev fresh : Setting ℕ String String
fresh = record { server = new_server "/s"; warnings = [] }

fresh-IsClosed : IsClosed (new_server {Val = ℕ} {Listener = String} {Handler = String} "/s")
fresh-IsClosed = record { handler = refl; http_listener = refl; https_listener = refl }

abbrev pub zero_of : String → ℕ
zero_of kind = 0

abbrev setting_web : Result Unit₀ × (Setting ℕ String String × World)
setting_web = handle_set codec files (λ p. p) no_types zero_of info net (web 80) (fresh, [])

handle_set-IsServing_example :
    (setting_web.1.0.server.state ≡ web 80)
    × IsServing no_types zero_of info net (web 80) setting_web.1.0.server
unfolding handle_set set set_relations restart_handler start_handler make_handler serve_http
    save_state itoa needs_restart insert
handle_set-IsServing_example =
    handle_set-IsServing no_types zero_of info net codec files (λ p. p) (web 80) fresh []
      (IsServing-of_IsClosed no_types zero_of info net zero_state (new_server "/s") fresh-IsClosed)
      (λ e h. cc)

set-IsRunning_example :
    IsRunning (web 80) (set no_types zero_of info net (web 80) (fresh, [])).1.0.server
unfolding set set_relations restart_handler start_handler make_handler serve_http needs_restart
set-IsRunning_example =
    set-IsRunning no_types zero_of info net (web 80) fresh [] (inr fresh-IsClosed) refl refl refl

load_state-handle_set_example :
    load_state codec files (λ p. p) setting_web.1.0.server.state_dir setting_web.1.1
    ≡ (ok (web 80), setting_web.1.1)
unfolding handle_set set set_relations restart_handler start_handler make_handler serve_http
    save_state itoa needs_restart insert
load_state-handle_set_example =
    load_state-handle_set codec files (λ p. p) codec-IsCodec files-IsFiles no_types zero_of info net
      (web 80) fresh setting_web.1.0 [] setting_web.1.1 refl

-- A handler that takes two mongodb sessions, and a mongodb that is there for each URL.
abbrev mongo : Mongo World String
mongo = record { dial = λ url. pure url; close = λ session w. w }

abbrev read_url : String → Result (Option String)
read_url s = ok (some s)

abbrev two_sessions : List Field
two_sessions = session_field "First" ∷ session_field "Second" ∷ []

abbrev sessions : Dict String
sessions = ("First", "a") ∷ ("Second", "b") ∷ []

abbrev no_sessions : Server (Option String) String String
no_sessions = new_server "/s"

set_relations_rest_example :
    rest_of
      (set_relations
        (session_types mongo read_url)
        nil_session
        (some two_sessions)
        (record zero_state { relation_values = sessions })
        (no_sessions, [])).1.0.relation_state
    ≡ some (none ∷ [])
set_relations_rest_example =
    set_relations_rest (session_types mongo read_url) nil_session (session_field "First")
      (session_field "Second" ∷ []) (record zero_state { relation_values = sessions }) no_sessions
      []

abbrev info_one : HandlerInfo World (Option String) String String
info_one = record {
  relation_type = some (session_field "First" ∷ []);
  unmarshal_arg = λ s. ok s;
  run = λ a vs. pure a;
}

abbrev dialled : Setting (Option String) String String
dialled = record {
  server = record no_sessions { relation_state = some (some "a" ∷ []) };
  warnings = [];
}

abbrev web_sessions : ServerState
web_sessions = record (web 80) { relation_values = sessions }

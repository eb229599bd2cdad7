-- ===== src/Charmbits/HttpService/Persisted.antt =====
-- charmbits/httpservice/server.go: the server's calls from outside, and the file that its state is
-- kept in for the next start of the process.
use gocharm.Base.{String, List, [], ◌∷◌, Option, none, some, Act, Result, newf, masked, noted, ok}
use gocharm.Base.{err, panic, ◌>>=◌, ◌>>◌, pure, raise, wrap, outside, own, update}
use gocharm.Base.Dict.{Dict}
use gocharm.Base.Message.{message}
use gocharm.Base.Paths.{join_path}
use gocharm.Hook.Registry.{Unit₀}
use gocharm.Hook.State.{Files}
use gocharm.Charmbits.HttpService.Fields.{ServerState, Server, RegisteredRelation}
use gocharm.Charmbits.HttpService.Server.{HandlerInfo, Network, Setting, set}

-- encoding/json at the type of the state.
pub record StateCodec : Type 0 where
  pub marshal : ServerState → Result String
  pub unmarshal : String → Result ServerState

abbrev pub zero_state : ServerState
zero_state = record {
  http_port = 0;
  https_port = 0;
  cert_pem = "";
  arg_data = "";
  relation_values = [];
}

abbrev pub new_server : {Val Listener Handler : Type 0} → String → Server Val Listener Handler
new_server dir = record {
  handler = none;
  state_dir = dir;
  state = zero_state;
  relation_state = none;
  http_listener = none;
  https_listener = none;
}

unfoldable pub state_path : String → String
state_path dir = join_path (dir ∷ "serverstate.json" ∷ [])

module _ {W : Type 0} (codec : StateCodec) (files : Files W) (dir_of : String → String) where
  -- The directory of the file is filepath.Dir of its path.
  unfoldable pub save_state : String → ServerState → Act W Unit₀
  save_state dir state = do
    content ← wrap masked (λ w. (codec.marshal state, w))
    wrap masked (files.mkdir_all (dir_of (state_path dir)))
    wrap masked (files.write_file (state_path dir) content)

  -- What loadState makes of the file's contents; a file that is not there is the zero state.
  abbrev read_state : Option String → Act W ServerState
  read_state none = pure zero_state
  read_state (some content) =
      wrap (λ e. noted e "cannot unmarshal state %q" (content ∷ []))
        (λ w. (codec.unmarshal content, w))

  unfoldable pub load_state : String → Act W ServerState
  load_state dir = do found ← wrap masked (files.read_file (state_path dir)); read_state found

  module _ {Val Data Arg Listener Handler : Type 0}
      (registered : Dict (RegisteredRelation W Val Data)) (zero_of : String → Val)
      (info : HandlerInfo W Val Arg Handler) (net : Network W Listener Handler) where
    abbrev record_state : ServerState → Setting Val Listener Handler → Setting Val Listener Handler
    record_state p s = record s { server = record s.server { state = p } }

    -- Set: the state counts as the server's also where it could not be put into effect.
    unfoldable pub handle_set : ServerState → Act (Setting Val Listener Handler × W) Unit₀
    handle_set p = do
      set registered zero_of info net p
      update (record_state p)
      s ← own
      outside (wrap (λ e. noted e "cannot save server state" []) (save_state s.server.state_dir p))

    -- startServer, up to the goroutines that wait for the end of the RPC server, which is a
    -- parameter. A warning of this start is only shown.
    unfoldable pub start_server :
        Act W Unit₀ → List String → W → Result (Server Val Listener Handler) × W
    start_server serve_rpc (dir ∷ []) = do
      state ← wrap (λ e. newf "cannot load state: %v" (message e ∷ [])) (load_state dir)
      λ w.
          let (r, (s, w')) =
            set registered zero_of info net state
              (record { server = new_server dir; warnings = [] }, w) in
          elim r [
            | panic e ↦ (panic e, w')
            | err e ↦ (err e, w')
            | ok _ ↦
                (do wrap (λ e. noted e "serve local RPC failed" []) serve_rpc; pure s.server) w'
          ]
    start_server serve_rpc args = raise (newf "need exactly one argument, got %q" [])

-- ===== src/ExampleCharms/Concat/Server.antt =====
-- example-charms/concat/http.go: the server that gives the charm's value over HTTP. The lines that it
-- writes to its own log are left out.
use Prim.Native.String.{◌++◌}
use gocharm.Base.{String, ℕ, List, [], ◌∷◌, not, ◌||◌, Option, none, some}
use gocharm.Base.{if◌then◌else◌, str_eq, ◌==◌, Act, Result, newf, masked, noted, ok, err, panic}
use gocharm.Base.{◌>>=◌, ◌>>◌, pure, throw, wrap, outside, own}
use gocharm.Base.Decimal.{itoa}
use gocharm.Base.Message.{message}
use gocharm.Base.Paths.{join_path}
use gocharm.Hook.Registry.{Unit₀}
use gocharm.Hook.State.{Files}
use gocharm.ExampleCharms.Concat.{ServerState}

pub record ConcatServer (Listener : Type 0) : Type 0 where
  pub state_dir : String
  pub state : ServerState
  pub listener : Option Listener

-- net.Listen over tcp, Close of a listener, and the goroutine that serves what the listener accepts.
pub record Network (W Listener : Type 0) : Type 0 where
  pub listen : String → Act W Listener
  pub close : Listener → W → W
  pub serve : Listener → String → W → W

-- encoding/json at the type of the state.
pub record StateCodec : Type 0 where
  pub marshal : ServerState → Result String
  pub unmarshal : String → Result ServerState

abbrev pub zero_state : ServerState
zero_state = record { val = ""; port = 0 }

abbrev pub new_server : {Listener : Type 0} → String → ConcatServer Listener
new_server dir = record { state_dir = dir; state = zero_state; listener = none }

abbrev pub address : ℕ → String
address port = ":" ++ itoa port

-- What the handler of serveHTTP answers.
pub data Response : Type 0 where
  not_found : Response
  content : String → Response
  bad_request : String → Response

unfoldable pub serve_http : {Listener : Type 0} → ConcatServer Listener → String → String → Response
serve_http svc path method =
    if not (str_eq path "/val")
    then not_found
    else if str_eq method "GET"
    then content svc.state.val
    else bad_request "unsupported method"

unfoldable pub state_path : String → String
state_path dir = join_path (dir ∷ "serverstate.json" ∷ [])

module _ {W Listener : Type 0} (net : Network W Listener) where
  abbrev pub close_listener : Option Listener → W → W
  close_listener none w = w
  close_listener (some l) w = net.close l w

  -- The first part of set: a listener on another port, or on none, is closed.
  abbrev pub close_old : ServerState → ConcatServer Listener × W → ConcatServer Listener × W
  close_old state (s, w) =
      if state.port == 0 || not (state.port == s.state.port)
      then (record s { listener = none }, close_listener s.listener w)
      else (s, w)

  abbrev pub opened : ℕ → Result Listener → Act (ConcatServer Listener × W) Unit₀
  opened port (ok l) (s, w) =
      (ok tt, (record s { listener = some l }, net.serve l (address port) w))
  opened port (err e) s = (err (masked e), s)
  opened port (panic e) s = (panic e, s)

  abbrev pub listen_new : ℕ → Act (ConcatServer Listener × W) Unit₀
  listen_new port (s, w) = let (r, w') = net.listen (address port) w in opened port r (s, w')

  abbrev pub open_missing : Option Listener → ℕ → Act (ConcatServer Listener × W) Unit₀
  open_missing (some l) port s = (ok tt, s)
  open_missing none port s = if port == 0 then (ok tt, s) else listen_new port s

  abbrev pub record_state : ServerState → Act (ConcatServer Listener × W) Unit₀
  record_state state (s, w) = (ok tt, (record s { state = state }, w))

  unfoldable pub set : ServerState → Act (ConcatServer Listener × W) Unit₀
  set state s =
      let (closed, w) = close_old state s in
      (open_missing closed.listener state.port >> record_state state) (closed, w)

  module _ (codec : StateCodec) (files : Files W) (dir_of : String → String) where
    -- The directory of the file is filepath.Dir of its path.
    unfoldable pub save_state : String → ServerState → Act W Unit₀
    save_state dir state = do
      text ← wrap masked (λ w. (codec.marshal state, w))
      wrap masked (files.mkdir_all (dir_of (state_path dir)))
      wrap masked (files.write_file (state_path dir) text)

    abbrev read_state : Option String → Act W ServerState
    read_state none = pure zero_state
    read_state (some text) =
        wrap (λ e. noted e "cannot unmarshal state %q" (text ∷ [])) (λ w. (codec.unmarshal text, w))

    unfoldable pub load_state : String → Act W ServerState
    load_state dir = do found ← wrap masked (files.read_file (state_path dir)); read_state found

    -- Set, which net/rpc calls.
    unfoldable pub handle_set : ServerState → Act (ConcatServer Listener × W) Unit₀
    unfolding set save_state
    handle_set p = do
      wrap (λ e. noted e "canot set server state" []) (set p)
      s ← own
      wrap (λ e. noted e "cannot save server state" []) (outside (save_state s.state_dir s.state))

    -- The end of the process with a message.
    abbrev fatal : {A W' : Type 0} → String → List String → Act W' A
    fatal f args = throw (newf f args)

    abbrev or_fatal : {A W' : Type 0} → String → Act W' A → Act W' A
    or_fatal f m w =
        let (r, w') = m w in
        elim r [ ok a ↦ (ok a, w') | err e ↦ fatal f (message e ∷ []) w' | panic e ↦ (panic e, w') ]

    -- startServer; ServeLocalRPC, which the server is handed to, is a parameter.
    unfoldable pub start_server :
        {C : Type 0} → (ConcatServer Listener → Act W C) → List String → W → Result C × W
    unfolding load_state set
    start_server serve_local_rpc (dir ∷ []) w =
        (do
          state ← or_fatal "cannot load state: %v" (load_state dir)
          λ w₁.
              let (r, (s, w₂)) =
                or_fatal "cannot set initial state: %v" (set state) (new_server dir, w₁) in
              elim r [
                | ok _ ↦ serve_local_rpc s w₂
                | err e ↦ (err e, w₂)
                | panic e ↦ (panic e, w₂)
              ])
          w
    start_server serve_local_rpc args w = fatal "need exactly one argument, got %q" args w

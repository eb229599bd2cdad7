-- ===== src/Charmbits/Service/LocalRpc.antt =====
-- charmbits/service/server.go: the server that answers the calls over the socket. net/rpc, which serves
-- each connection, and the network are parameters; an accepted connection is served by a goroutine.
use gocharm.Base.{String, [], Act, Result, Option, none, some, noted, ok, err, panic}
use gocharm.Base.{◌>>=◌, wrap}
use gocharm.Hook.Registry.{Unit₀}

pub record Sockets (W Listener Conn : Type 0) : Type 0 where
  -- os.Remove, whose error is not looked at
  pub remove : String → W → W
  pub listen_unix : String → Act W Listener
  pub close : Listener → W → W
  pub accept : Listener → Act W Conn
  -- the goroutine of one connection, and that of the loop
  pub serve : Conn → W → W
  pub spawn_run : Listener → W → W

pub record RpcCommand (Listener : Type 0) : Type 0 where
  pub listener : Listener

module _ {W Listener Conn : Type 0} (sockets : Sockets W Listener Conn) where
  -- A socket that is left over is removed first.
  unfoldable pub listen : String → Act W Listener
  listen socket_path w =
      wrap (λ e. noted e "cannot listen on unix socket" []) (sockets.listen_unix socket_path)
        (sockets.remove socket_path w)

  abbrev started : Listener → Act W (RpcCommand Listener)
  started l w = (ok (record { listener = l }), sockets.spawn_run l w)

  unfoldable pub serve_local_rpc : String → Act W (RpcCommand Listener)
  unfolding listen
  serve_local_rpc socket_path = do
    l ← wrap (λ e. noted e "cannot listen on local socket" []) (listen socket_path)
    started l

  unfoldable pub kill : RpcCommand Listener → W → W
  kill c w = sockets.close c.listener w

  -- One turn of run's loop: whether it goes on.
  abbrev pub accepted : Result Conn → W → Option Unit₀ × W
  accepted (ok conn) w = (some tt, sockets.serve conn w)
  accepted (err e) w = (none, w)
  accepted (panic e) w = (none, w)

  unfoldable pub run_turn : RpcCommand Listener → W → Option Unit₀ × W
  run_turn c w = let (r, w') = sockets.accept c.listener w in accepted r w'

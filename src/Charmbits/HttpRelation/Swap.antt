-- ===== src/Charmbits/HttpRelation/Swap.antt =====
-- A configuration that exchanges the http port and the https port.
use gocharm.Base.{ℕ, ◌<◌, ◌≡◌, Bool, false, arith}
use gocharm.Base.{ok, ◌>>◌}
use gocharm.Hook.Context.{Tools, close_port, open_port}
use gocharm.Hook.Query.{Json}
use gocharm.Charmbits.HttpRelation.{
  Provider, http, https, change_port, open_recorded, close_recorded,
}
use gocharm.Charmbits.HttpRelation.Ports.{
  PortTools, IsTracked, is_open-open_port, is_open-close_port,
}

module _ {W : Type 0} {tools : Tools W} {is_open : W → ℕ → Bool} (ports : PortTools tools is_open)
    (json : Json) where
  -- Where both ports are open, the http port and the https port are exchanged, and every tool
  -- succeeds, the provider ends with an http port on record that is not open.
  pub change_port_swapped :
      (p p' : Provider) (w w' : W)
      → IsTracked ports (p, w)
      → 0 < p.opened_http_port
      → 0 < p.opened_https_port
      → (change_port tools json http p.opened_https_port
            >> change_port tools json https p.opened_http_port)
          (p, w)
        ≡ (ok tt, (p', w'))
      → (p'.opened_http_port ≡ p.opened_https_port) × (is_open w' p'.opened_http_port ≡ false)
  unfolding change_port open_recorded close_recorded
  change_port_swapped p p' w w' h a b run =
      let wa = (close_port tools p.ctxt "tcp" p.opened_http_port w).1 in
      let wb = (open_port tools p.ctxt "tcp" p.opened_https_port wa).1 in
      let wc = (close_port tools p.ctxt "tcp" p.opened_https_port wb).1 in
      let differ = h.apart a in
      ground (
        arith,
        is_open-close_port ports p.ctxt p.opened_https_port wb p.opened_https_port,
        is_open-open_port ports p.ctxt p.opened_http_port wc p.opened_https_port,
      )

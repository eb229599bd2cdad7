-- ===== src/Charmbits/HttpRelation/Ports.antt =====
-- The ports that are open, against the ports that the provider has on record.
use Prim.Native.String.{◌++◌}
use gocharm.Base.Decimal.{show_int}
use gocharm.Base.{
  String, ℕ, ◌<◌, ◌≡◌, ◌≢◌, inl, inr, refl, ◌∙◌, List, [], ◌∷◌, Bool, true, false, not,
}
use gocharm.Base.{◌||◌, ◌&&◌, ◌==◌, if◌then◌else◌, arith, Option-cases, none, some}
use gocharm.Base.{Result, ok, err, panic, noted, outside, ignore}
use gocharm.Base.{str_eq, str_eq_iff}
use gocharm.Base.Texts.{sprintf}
use gocharm.Base.Decimal.{itoa}
use gocharm.Base.Int.{ℤ, pos, negsuc}
use gocharm.Hook.Context.{Tools, Context, run_tool, logf, open_port, close_port}
use gocharm.Hook.Query.{Json, run_json, get_config, get_config_int}
use gocharm.Charmbits.HttpRelation.{
  Provider, Field, http, https, valid_port, open_recorded, close_recorded, change_port,
  configure_port,
}

abbrev pub succeeded : {A : Type 0} → Result A → Bool
succeeded (ok _) = true
succeeded (err _) = false
succeeded (panic _) = false

abbrev pub tcp : ℕ → List String
tcp n = (itoa n ++ "/tcp") ∷ []

-- What juju's open-port and close-port do, where they succeed, and that nothing else opens or closes
-- a port.
pub record PortTools {W : Type 0} (tools : Tools W) (is_open : W → ℕ → Bool) : Type 0 where
  pub opens :
      (n : ℕ) (w : W) (q : ℕ)
      → is_open (tools.run "open-port" (tcp n) w).1 q ≡ (
          if succeeded (tools.run "open-port" (tcp n) w).0
          then n == q || is_open w q
          else is_open w q)
  pub closes :
      (n : ℕ) (w : W) (q : ℕ)
      → is_open (tools.run "close-port" (tcp n) w).1 q ≡ (
          if succeeded (tools.run "close-port" (tcp n) w).0
          then not (n == q) && is_open w q
          else is_open w q)
  pub leaves :
      (cmd : String) (args : List String) (w : W) (q : ℕ)
      → cmd ≢ "open-port"
      → cmd ≢ "close-port"
      → is_open (tools.run cmd args w).1 q ≡ is_open w q

-- A port that the code accepts.
pub valid_port_bounds : (z : ℤ) (n : ℕ) → valid_port z ≡ some n → (0 < n) × (n < 65535)
unfolding valid_port
valid_port_bounds (pos m) n h = ground arith
valid_port_bounds (negsuc m) n h = cc

pub differ : (s t : String) → str_eq s t ≡ false → s ≢ t
differ s t h e = cc ((str_eq_iff s t).1 e)

module _ {W : Type 0} {tools : Tools W} {is_open : W → ℕ → Bool}
    (ports : PortTools tools is_open) where
  pub is_open-open_port :
      (ctxt : Context) (n : ℕ) (w : W) (q : ℕ)
      → is_open (open_port tools ctxt "tcp" n w).1 q ≡ (
          if succeeded (open_port tools ctxt "tcp" n w).0
          then n == q || is_open w q
          else is_open w q)
  unfolding open_port
  is_open-open_port ctxt n w q = ground (arith, ports.opens n w q)

  pub is_open-close_port :
      (ctxt : Context) (n : ℕ) (w : W) (q : ℕ)
      → is_open (close_port tools ctxt "tcp" n w).1 q ≡ (
          if succeeded (close_port tools ctxt "tcp" n w).0
          then not (n == q) && is_open w q
          else is_open w q)
  unfolding close_port
  is_open-close_port ctxt n w q = ground (arith, ports.closes n w q)

  is_open-run_tool :
      (ctxt : Context) (cmd : String) (args : List String) (w : W) (q : ℕ)
      → cmd ≢ "open-port"
      → cmd ≢ "close-port"
      → is_open (run_tool tools ctxt cmd args w).1 q ≡ is_open w q
  unfolding run_tool
  is_open-run_tool ctxt cmd args w q a b = ground (arith, ports.leaves cmd args w q a b)

  is_open-get_config_int :
      (json : Json) (ctxt : Context) (key : String) (w : W) (q : ℕ)
      → is_open (get_config_int tools json ctxt key w).1 q ≡ is_open w q
  unfolding get_config_int get_config run_json
  is_open-get_config_int json ctxt key w q = ground (
    arith,
    is_open-run_tool ctxt "config-get" ("--format" ∷ "json" ∷ "--" ∷ key ∷ []) w q
        (differ "config-get" "open-port" refl) (differ "config-get" "close-port" refl),
  )

  is_open-logf :
      (ctxt : Context) (f : String) (args : List String) (w : W) (q : ℕ)
      → is_open (logf tools ctxt f args w).1 q ≡ is_open w q
  unfolding logf
  is_open-logf ctxt f args w q = ground (
    arith,
    is_open-run_tool ctxt "juju-log" (sprintf f args ∷ []) w q (differ "juju-log" "open-port" refl)
        (differ "juju-log" "close-port" refl),
  )

  -- The recorded ports are open, no others are, and the two records are not of one port.
  pub record IsTracked (s : Provider × W) : Type 0 where
    pub exact :
        (q : ℕ) → 0 < q → is_open s.1 q ≡ (s.0.opened_http_port == q || s.0.opened_https_port == q)
    pub apart : 0 < s.0.opened_http_port → s.0.opened_http_port ≢ s.0.opened_https_port

  -- The port that the other record holds.
  abbrev pub other : Field → Provider → ℕ
  other http p = p.opened_https_port
  other https p = p.opened_http_port

  moved :
      (w w' : W) (p : Provider)
      → ((q : ℕ) → is_open w' q ≡ is_open w q)
      → IsTracked (p, w)
      → IsTracked (p, w')
  moved w w' p same h = record { exact = λ q pos_q. same q ∙ h.exact q pos_q; apart = h.apart }

  change_port-IsTracked :
      (json : Json) (field : Field) (n : ℕ) (p : Provider) (w : W)
      → 0 < n
      → n ≢ other field p
      → IsTracked (p, w)
      → IsTracked (change_port tools json field n (p, w)).1
  unfolding change_port open_recorded close_recorded
  change_port-IsTracked json http n p w pos_n clear h = record {
    exact = λ q pos_q. ground (
      arith,
      h.exact q pos_q,
      is_open-close_port p.ctxt p.opened_http_port w q,
      is_open-open_port p.ctxt n (close_port tools p.ctxt "tcp" p.opened_http_port w).1 q,
      is_open-open_port p.ctxt n w q,
    );
    apart = ground arith;
  }
  change_port-IsTracked json https n p w pos_n clear h = record {
    exact = λ q pos_q. ground (
      arith,
      h.exact q pos_q,
      is_open-close_port p.ctxt p.opened_https_port w q,
      is_open-open_port p.ctxt n (close_port tools p.ctxt "tcp" p.opened_https_port w).1 q,
      is_open-open_port p.ctxt n w q,
    );
    apart = ground arith;
  }

  -- configurePort once the configuration is read.
  configured : Json → Field → String → Provider → W → Result ℤ → Result (Unit {0}) × (Provider × W)
  configured json field key p w (ok z) = elim (valid_port z) [
    | none ↦
        outside (ignore (logf tools p.ctxt "ignoring invalid %s %v" (key ∷ show_int z ∷ []))) (p, w)
    | some n ↦ change_port tools json field n (p, w)
  ]
  configured json field key p w (err e) = (err (noted e "cannot get %s" (key ∷ [])), (p, w))
  configured json field key p w (panic e) = (panic e, (p, w))

  configure_port_lem :
      (json : Json) (field : Field) (key : String) (p : Provider) (w : W)
      → configure_port tools json field key (p, w)
        ≡ (let (r, w') = get_config_int tools json p.ctxt key w in configured json field key p w' r)
  unfolding configure_port configured
  configure_port_lem json field key p w = ground arith

  configured-IsTracked :
      (json : Json) (field : Field) (key : String) (p : Provider) (w : W) (r : Result ℤ)
      → ((z : ℤ) (n : ℕ) → r ≡ ok z → valid_port z ≡ some n → n ≢ other field p)
      → IsTracked (p, w)
      → IsTracked (configured json field key p w r).1
  unfolding configured
  configured-IsTracked json field key p w (err e) clear h = h
  configured-IsTracked json field key p w (panic e) clear h = h
  configured-IsTracked json field key p w (ok z) clear h = elim (Option-cases (valid_port z)) [
    | inl v ↦
        rw (v, configured)
          (moved w (ignore (logf tools p.ctxt ignoring (key ∷ show_int z ∷ [])) w).1 p
            (λ q. ground (arith, is_open-logf p.ctxt ignoring (key ∷ show_int z ∷ []) w q)) h)
    | inr (n, v) ↦
        rw (v, configured)
          (change_port-IsTracked json field n p w (valid_port_bounds z n v).0 (clear z n refl v) h)
  ]
    where
      ignoring : String
      ignoring = "ignoring invalid %s %v"

  -- Whatever the tools answer, and also where one fails between the closing of the old port and
  -- the opening of the new one, the recorded ports stay exactly the ones that are open, so long
  -- as the port that is configured is not the one that the other record holds.
  pub configure_port-IsTracked :
      (json : Json) (field : Field) (key : String) (p : Provider) (w : W)
      → ((z : ℤ) (n : ℕ)
          → (get_config_int tools json p.ctxt key w).0 ≡ ok z
          → valid_port z ≡ some n
          → n ≢ other field p)
      → IsTracked (p, w)
      → IsTracked (configure_port tools json field key (p, w)).1
  configure_port-IsTracked json field key p w clear h =
      let (r, w') = get_config_int tools json p.ctxt key w in
      rw configure_port_lem (
        configured-IsTracked json field key p w' r clear
          (moved w w' p (λ q. is_open-get_config_int json p.ctxt key w q) h))

-- ===== src/Charmbits/Tests.antt =====
-- Examples of the components of charms.
pub mod Processes
pub mod Servers
pub mod Charms
mod Both
use Prim.Native.String.{◌++◌}
use mathlib.Core.List.{Perm}
use mathlib.Core.List.Perm as Perms
use text.Mathlib.TextLemmas.{append_cancel_right}
use gocharm.Base.{
  String, ℕ, ◌<◌, ◌≡◌, ◌≢◌, ◌↔◌, refl, inl, inr, Bool-cases, List, [], ◌∷◌, Bool, true, false,
  Option, none, some, arith,
}
use gocharm.Base.{
  Act, Result, ok, err, panic, newf, masked, not, str_eq, str_eq_iff, ◌==◌, ◌||◌, ◌&&◌, for_each,
  pure, ◌>>◌, wrap, if◌then◌else◌,
}
use gocharm.Base.Decimal.{itoa, itoa_inj}
use gocharm.Base.Dict.{Dict, lookup, insert}
use gocharm.Base.Int.{ℤ, pos}
use gocharm.Hook.Context.{Tools, Context, entries, command_name, run_tool, open_port, close_port}
use gocharm.Hook.Environment.{empty_context}
use gocharm.Hook.Juju
use gocharm.Hook.Juju.{Juju, HookKind}
use gocharm.Hook.Query.{Json, get_config_int, get_config, run_json}
use gocharm.Hook.Actions.{settings, set_relation_with_id}
use gocharm.Hook.Registry.{Unit₀}
use gocharm.Hook.State.{Files}
use gocharm.Charmbits.SimpleRelation.{Requirer, strings, keyvals, set_values, relation_joined}
use gocharm.Charmbits.SimpleRelation as Simple
use gocharm.Charmbits.SimpleRelation.Values.{SameMap, reordered, strings_stable}
use gocharm.Charmbits.SimpleRelation.Joined.{relation_joined-set_values}
use gocharm.Charmbits.HttpRelation.{
  Provider, http, https, valid_port, change_port, configure_port, attrs_to_url, open_recorded,
  close_recorded,
}
use gocharm.Charmbits.HttpRelation.Ports.{
  PortTools, differ, IsTracked, configure_port-IsTracked, tcp,
}
use gocharm.Charmbits.HttpRelation.Swap.{change_port_swapped}

-- The ports that are open, by the text that the tools are given for them. Every tool succeeds, and
-- the configured port is 443.
abbrev World : Type 0
World = String → Bool

abbrev is_open : World → ℕ → Bool
is_open w q = w (itoa q ++ "/tcp")

abbrev pub first_of : List String → String
first_of [] = ""
first_of (a ∷ _) = a

abbrev run : String → List String → Act World String
run cmd args w =
    if str_eq cmd "open-port"
    then (ok "", λ t. str_eq (first_of args) t || w t)
    else if str_eq cmd "close-port"
    then (ok "", λ t. not (str_eq (first_of args) t) && w t)
    else (ok "443", w)

abbrev tools : Tools World
tools = record { run = run; close = pure tt }

same_port : (n q : ℕ) → str_eq (itoa n ++ "/tcp") (itoa q ++ "/tcp") ≡ (n == q)
same_port n q = ground (
  arith,
  str_eq_iff (itoa n ++ "/tcp") (itoa q ++ "/tcp"),
  append_cancel_right (itoa n) (itoa q) "/tcp",
  itoa_inj n q,
)

ports : PortTools tools is_open
ports = record {
  opens = λ n w q. rw same_port refl;
  closes = λ n w q. rw same_port refl;
  leaves =
      λ cmd args w q a b. ground (arith, str_eq_iff cmd "open-port", str_eq_iff cmd "close-port");
}

abbrev ctxt : Context
ctxt = record empty_context {
  has_runner = true;
  relation_id = "web:0";
  relation_ids = ("web", "web:0" ∷ []) ∷ [];
}

abbrev json : Json
json = record {
  settings = λ s. ok [];
  ids = λ s. ok [];
  text = λ s. ok s;
  int = λ s. ok (pos 443);
  bool = λ s. ok true;
}

abbrev simple : Simple.Provider
simple = record { values = []; ctxt = ctxt; relation_name = "web" }

-- Both ports are open.
abbrev both : World
both t = str_eq "80/tcp" t || str_eq "443/tcp" t

abbrev provider : Provider
provider = record {
  prov = simple;
  opened_http_port = 80;
  opened_https_port = 443;
  ctxt = ctxt;
  allow_https = true;
}

tracked : IsTracked ports (provider, both)
unfolding itoa
tracked = record {
  exact = λ q pos_q. ground (arith, same_port 80 q, same_port 443 q);
  apart = λ h. ground arith;
}

-- The https port is configured to what it is.
configure_port-IsTracked_example :
    IsTracked ports (configure_port tools json https "https-port" (provider, both)).1
unfolding get_config_int get_config run_json run_tool valid_port
configure_port-IsTracked_example =
    configure_port-IsTracked ports json https "https-port" provider both
      (λ z n got is_port. ground arith) tracked

abbrev vals : Dict String
vals = ("hostname", "h") ∷ ("port", "80") ∷ []

-- What the exchange of the ports leaves.
abbrev exchanged : World
exchanged t =
    str_eq "80/tcp" t
    || (not (str_eq "443/tcp" t) && (str_eq "443/tcp" t || (not (str_eq "80/tcp" t) && both t)))

change_port_swapped_example : (◌≡◌ {A = ℕ} 443 443) × (is_open exchanged 443 ≡ false)
unfolding change_port open_recorded close_recorded open_port close_port run_tool itoa
change_port_swapped_example =
    change_port_swapped ports json provider
      (record provider { opened_http_port = 443; opened_https_port = 80 }) both exchanged tracked
      (ground arith) (ground arith) refl

abbrev unit_a : Dict String
unit_a = ("hostname", "a") ∷ []

abbrev unit_b : Dict String
unit_b = ("hostname", "b") ∷ ("port", "8080") ∷ []

abbrev relations : Dict (Dict (Dict String))
relations = ("web:0", ("u/0", unit_a) ∷ ("u/1", unit_b) ∷ []) ∷ []

abbrev turned : Dict (Dict (Dict String))
turned = ("web:0", ("u/1", unit_b) ∷ ("u/0", unit_a) ∷ []) ∷ []

abbrev requirer : Requirer
requirer = record { ctxt = record ctxt { relations = relations }; relation_name = "web" }

same_units : (id : String) → SameMap (entries (lookup id relations)) (entries (lookup id turned))
unfolding lookup
same_units id = elim (Bool-cases (str_eq "web:0" id)) [
  | inl e ↦ rw e (record { same_keys = Perms.swap "u/1" "u/0" []; same_values = λ k. same_unit k })
  | inr e ↦ rw e (record { same_keys = Perms.refl []; same_values = λ k. refl })
]
  where
    same_unit :
        (k : String)
        → lookup k (("u/0", unit_a) ∷ ("u/1", unit_b) ∷ [])
          ≡ lookup k (("u/1", unit_b) ∷ ("u/0", unit_a) ∷ [])
    same_unit k = ground (arith, str_eq_iff "u/0" k, str_eq_iff "u/1" k, differ "u/0" "u/1" refl)

strings_stable_example :
    strings tools requirer attrs_to_url both
    ≡ strings tools (reordered requirer turned) attrs_to_url both
strings_stable_example = strings_stable tools requirer attrs_to_url turned both same_units

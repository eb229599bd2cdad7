-- ===== src/Cmd/Inspect.antt =====
-- cmd/gocharm/inspect.go: what a charm has registered, as the program that is generated for it writes
-- it out.
use gocharm.Base.{String, List, [], ◌∷◌, if◌then◌else◌, str_eq, Act, Result, newf, noted}
use gocharm.Base.{ok, err, panic, ◌>>=◌, ◌>>◌, pure, raise, wrap}
use gocharm.Base.Dict.{Dict, insert}
use gocharm.Base.Message.{message}
use gocharm.Base.Paths.{join_path}
use gocharm.Cmd.Templates.{inspect_code}
use gocharm.Hook.Juju.{Juju, CharmRelation, CharmOption, ResourceMeta}
use gocharm.Hook.Main.{register_main_hooks}
use gocharm.Hook.Registry.{View, Unit₀, new_registry, charm_info}
use gocharm.Hook.Registry.Declare.{registered_hooks, registered_config, registered_relations}
use gocharm.Hook.Registry.Declare.{registered_resources}
use gocharm.Hook.State.{Files}

-- charm.Meta, as far as the code sets it.
pub record Meta : Type 0 where
  pub name : String
  pub summary : String
  pub description : String
  pub provides : Dict CharmRelation
  pub requires : Dict CharmRelation
  pub resources : Dict ResourceMeta

pub record CharmInfo : Type 0 where
  pub hooks : List String
  pub config : Dict CharmOption
  pub meta : Meta

-- The program behind inspectCode. It makes no map of peers before it writes to it.
unfoldable pub file_relation : Juju → String → CharmRelation → Meta → Result Meta
file_relation juju name rel m =
    if str_eq rel.role juju.role_provider
    then ok (record m { provides = insert name rel m.provides })
    else if str_eq rel.role juju.role_requirer
    then ok (record m { requires = insert name rel m.requires })
    else if str_eq rel.role juju.role_peer
    then panic (newf "assignment to entry in nil map" [])
    else panic (newf "unknown role %q in relation" (rel.role ∷ []))

abbrev pub and_then : Result Meta → (Meta → Result Meta) → Result Meta
and_then (ok m) f = f m
and_then (err e) f = err e
and_then (panic e) f = panic e

unfoldable pub file_relations : Juju → Dict CharmRelation → Meta → Result Meta
unfolding file_relation
file_relations juju [] m = ok m
file_relations juju ((name, rel) ∷ rels) m =
    and_then (file_relation juju name rel m) (file_relations juju rels)

module _ {W : Type 0} where
  -- What the registry says of the charm, but for the relations.
  abbrev pub plain_meta : View W → Meta
  plain_meta v = record {
    name = "";
    summary = (charm_info v).summary;
    description = (charm_info v).description;
    provides = [];
    requires = [];
    resources = registered_resources v;
  }

  abbrev pub with_meta : View W → Result Meta → Result CharmInfo
  with_meta v (ok m) =
      ok (record { hooks = registered_hooks v; config = registered_config v; meta = m })
  with_meta v (err e) = err e
  with_meta v (panic e) = panic e

  unfoldable pub inspect : Juju → View W → Result CharmInfo
  unfolding file_relations charm_info registered_hooks registered_config registered_relations
      registered_resources
  inspect juju v = with_meta v (file_relations juju (registered_relations v) (plain_meta v))

  -- From the registration of the charm's hooks.
  abbrev pub inspect_registered : Juju → Result Unit₀ × View W → Result CharmInfo
  inspect_registered juju (ok _, v) = inspect juju v
  inspect_registered juju (err e, v) = err e
  inspect_registered juju (panic e, v) = panic e

  unfoldable pub inspect_main : Juju → Act (View W) Unit₀ → Result CharmInfo
  inspect_main juju register_hooks =
      inspect_registered juju ((register_hooks >> register_main_hooks juju) new_registry)

-- What runs the Go tool and other programs: os/exec's Run in a directory with an environment, where no
-- environment is the command's own, and its Output; and the decoder of what the generated program
-- writes.
pub record Programs (W : Type 0) : Type 0 where
  pub run : String → List String → String → List String → Act W Unit₀
  pub output : String → List String → Act W String
  pub unmarshal : String → Result CharmInfo

abbrev with_hooks : {W : Type 0} → CharmInfo → List String → Act W CharmInfo
with_hooks info [] = raise (newf "no hooks registered" [])
with_hooks info (h ∷ hs) = pure info

unfoldable pub registered_charm_info :
    {W : Type 0} → Programs W → Files W → String → String → Act W CharmInfo
registered_charm_info programs files pkg temp_dir = do
  let go_file = join_path (temp_dir ∷ "inspect.go" ∷ [])
  let inspect_exe = join_path (temp_dir ∷ "inspect" ∷ [])
  wrap (λ e. noted e "cannot write hook inspection code" [])
      (files.write_file go_file (inspect_code pkg))
  wrap (λ e. noted e "cannot build hook inspection code" [])
      (programs.run "" [] "go" ("build" ∷ "-o" ∷ inspect_exe ∷ go_file ∷ []))
  out ← wrap (λ e. noted e "failed to run inspect" []) (programs.output inspect_exe [])
  info ←
      wrap (λ e. noted e "cannot unmarshal %q" (message e ∷ [])) (λ w. (programs.unmarshal out, w))
  with_hooks info info.hooks

-- ===== src/Hook/Registry.antt =====
-- hook/registry.go: what a charm registers. The methods act on a registry together with the part
-- that it shares with its clones.
pub mod Declare
pub mod Calls
pub mod Effects
pub mod Names
pub mod Additions
pub mod Owners
pub mod Details
use Prim.Native.String.{◌++◌}
use Prim.Native.String as S
use Prim.Native.Char.{code}
use gocharm.Base.{String, ℕ, Option, none, some, List, [], ◌∷◌, ◌++◌ as append, Bool, true, false}
use gocharm.Base.{not, ◌&&◌, ◌||◌, if◌then◌else◌, Act, Result, Error, newf, noted, ok, err, panic}
use gocharm.Base.{◌>>=◌, ◌>>◌, pure, throw, raise, wrap, str_eq, ◌==◌, leb}
use gocharm.Base.Dict.{Dict, lookup, insert, keys}
use gocharm.Base.Texts.{is_empty, contains_rune, cut_prefix, dotted}
use gocharm.Hook.Context.{Context, with_registry_name, entries}
use gocharm.Hook.HookName.{valid_hook_name}
use gocharm.Hook.Juju.{
  Juju, HookKind, CharmRelation, CharmOption, ResourceMeta, relation_eq, option_eq, meta_eq,
}

abbrev pub Unit₀ : Type 0
Unit₀ = Unit {0}

-- A long-running command.
pub record Command (W : Type 0) : Type 0 where
  pub kill : Act W Unit₀
  pub wait : Act W Unit₀

pub record HookFunc (W : Type 0) : Type 0 where
  pub registry_name : String
  pub run : Act W Unit₀

-- A pointer to a value within the mutable state, as far as encoding/json uses it.
pub record Pointer (W : Type 0) : Type 0 where
  pub marshal : W → Result String
  pub unmarshal : String → Act W Unit₀

pub record LocalState (W : Type 0) : Type 0 where
  pub registry_name : String
  pub val : Pointer W

-- The state argument of RegisterContext.
pub data StateArg (W : Type 0) : Type 0 where
  no_state : StateArg W
  not_pointer : String → StateArg W
  pointer : Pointer W → StateArg W

pub record CharmInfo : Type 0 where
  pub name : String
  pub summary : String
  pub description : String

abbrev pub ContextSetter : Type 0 → Type 0
ContextSetter W = Context → Act W Unit₀

abbrev pub CommandFunc : Type 0 → Type 0
CommandFunc W = List String → Act W (Option (Command W))

pub record SharedRegistry (W : Type 0) : Type 0 where
  pub hooks : Dict (List (HookFunc W))
  pub commands : Dict (CommandFunc W)
  pub relations : Dict CharmRelation
  pub resources : Dict ResourceMeta
  pub config : Dict CharmOption
  pub contexts : List (ContextSetter W)
  pub state : List (LocalState W)
  pub charm_info : CharmInfo

pub record Registry : Type 0 where
  pub name : String
  pub has_context : Bool
  pub has_command : Bool
  pub clones : Dict Bool

-- A registry with what it shares.
pub record View (W : Type 0) : Type 0 where
  pub registry : Registry
  pub shared : SharedRegistry W

abbrev pub new_registry : {W : Type 0} → View W
new_registry = record {
  registry = record { name = "root"; has_context = false; has_command = false; clones = [] };
  shared = record {
    hooks = [];
    commands = [];
    relations = [];
    resources = [];
    config = [];
    contexts = [];
    state = [];
    charm_info = record { name = "anon"; summary = ""; description = "" };
  };
}

-- A name that a map of Booleans does not have reads as false.
abbrev pub taken : Option Bool → Bool
taken none = false
taken (some b) = b

module _ {W : Type 0} where
  abbrev modify_shared : (SharedRegistry W → SharedRegistry W) → Act (View W) Unit₀
  modify_shared f v = (ok tt, record v { shared = f v.shared })

  abbrev modify_registry : (Registry → Registry) → Act (View W) Unit₀
  modify_registry f v = (ok tt, record v { registry = f v.registry })

  unfoldable pub set_charm_info : CharmInfo → Act (View W) Unit₀
  set_charm_info info = modify_shared (λ s. record s { charm_info = info })

  unfoldable pub charm_info : View W → CharmInfo
  charm_info v = v.shared.charm_info

  -- The new registry; it shares what its parent shares.
  unfoldable pub clone : String → Act (View W) Registry
  clone name v =
      let r = v.registry in
      if is_empty name || contains_rune name b'.' || contains_rune name b'/'
      then (panic (newf "invalid registry name %q" (name ∷ [])), v)
      else if taken (lookup name r.clones)
      then (panic (newf "registry name %q registered twice" (name ∷ [])), v)
      else (
        ok (record {
          name = dotted r.name name;
          has_context = false;
          has_command = false;
          clones = [];
        }),
        record v { registry = record r { clones = insert name true r.clones } },
      )

  -- r.hooks[name] = append(r.hooks[name], ...)
  abbrev add_hook : String → HookFunc W → SharedRegistry W → SharedRegistry W
  add_hook name h s = record s {
    hooks = insert name (append (entries (lookup name s.hooks)) (h ∷ [])) s.hooks;
  }

  module _ (juju : Juju) where
    unfoldable pub register_hook : String → Act W Unit₀ → Act (View W) Unit₀
    register_hook name f v =
        if not (str_eq name "*") && not (valid_hook_name juju name)
        then (panic (newf "invalid hook name %q" (name ∷ [])), v)
        else modify_shared (add_hook name (record { registry_name = v.registry.name; run = f })) v

  abbrev add_context : ContextSetter W → String → SharedRegistry W → SharedRegistry W
  add_context setter name s = record s {
    contexts = append s.contexts ((λ ctxt. setter (with_registry_name ctxt name)) ∷ []);
  }

  abbrev add_state : String → Pointer W → SharedRegistry W → SharedRegistry W
  add_state name p s = record s {
    state = append s.state (record { registry_name = name; val = p } ∷ []);
  }

  -- The end of RegisterContext, once the setter is registered.
  abbrev keep_state : StateArg W → Act (View W) Unit₀
  keep_state no_state v = (ok tt, v)
  keep_state (not_pointer t) v = (panic (newf "state value is not pointer but type %T" (t ∷ [])), v)
  keep_state (pointer p) v = modify_shared (add_state v.registry.name p) v

  unfoldable pub register_context : ContextSetter W → StateArg W → Act (View W) Unit₀
  register_context setter state v =
      let r = v.registry in
      let v' = record v {
        registry = record r { has_context = true };
        shared = add_context setter r.name v.shared;
      } in
      if r.has_context
      then (panic (newf "RegisterContext called more than once" []), v)
      else keep_state state v'

  unfoldable pub register_command : CommandFunc W → Act (View W) Unit₀
  register_command f v =
      let r = v.registry in
      let s = v.shared in
      if r.has_command
      then (panic (newf "command registered twice on registry %s" (r.name ∷ [])), v)
      else (
        ok tt,
        record {
          registry = record r { has_command = true };
          shared = record s { commands = insert r.name f s.commands };
        },
      )

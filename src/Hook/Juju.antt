-- ===== src/Hook/Juju.antt =====
-- What the hook package takes from the juju packages: the texts of their constants, and their checks.
use gocharm.Base.{String, Option, Bool, true, false, ◌&&◌}
use gocharm.Base.{◌≡◌, ◌↔◌, ℕ, arith, ◌==◌, str_eq, str_eq_iff, Error, Result}

-- hooks.Kind, as far as the code names its values.
pub data HookKind : Type 0 where
  install start config_changed update_status upgrade_charm stop action : HookKind
  collect_metrics meter_status_changed : HookKind
  relation_joined relation_changed relation_departed relation_broken : HookKind

-- charm.Relation
pub record CharmRelation : Type 0 where
  pub name : String
  pub role : String
  pub interface : String
  pub optional : Bool
  pub limit : ℕ
  pub scope : String

-- The default of a configuration option, as far as the code uses it.
pub data Default : Type 0 where
  no_default : Default
  number : ℕ → Default
  words : String → Default

-- charm.Option
pub record CharmOption : Type 0 where
  pub kind : String
  pub description : String
  pub default_value : Default

-- resource.Meta
pub record ResourceMeta : Type 0 where
  pub name : String
  pub kind : String
  pub path : String
  pub description : String

pub record Juju : Type 0 where
  pub kind_text : HookKind → String
  -- the whole text is what the pattern names.RelationSnippet describes
  pub relation_snippet : String → Bool
  pub role_peer : String
  pub role_requirer : String
  pub role_provider : String
  pub scope_global : String
  pub type_file : String
  -- resource.Meta.Validate
  pub validate : ResourceMeta → Option Error
  -- names.NewUnitTag(unit).String(), which panics on a text that is no unit name
  pub unit_tag : String → Result String

-- Go's == on the three structs.
abbrev bool_eq : Bool → Bool → Bool
bool_eq true b = b
bool_eq false true = false
bool_eq false false = true

unfoldable pub relation_eq : CharmRelation → CharmRelation → Bool
relation_eq a b =
    str_eq a.name b.name
    && str_eq a.role b.role
    && str_eq a.interface b.interface
    && bool_eq a.optional b.optional
    && a.limit == b.limit
    && str_eq a.scope b.scope

abbrev default_eq : Default → Default → Bool
default_eq no_default no_default = true
default_eq (number m) (number n) = m == n
default_eq (words s) (words t) = str_eq s t
default_eq _ _ = false

unfoldable pub option_eq : CharmOption → CharmOption → Bool
option_eq a b =
    str_eq a.kind b.kind
    && str_eq a.description b.description
    && default_eq a.default_value b.default_value

unfoldable pub meta_eq : ResourceMeta → ResourceMeta → Bool
meta_eq a b =
    str_eq a.name b.name
    && str_eq a.kind b.kind
    && str_eq a.path b.path
    && str_eq a.description b.description

pub relation_eq_iff : (a b : CharmRelation) → (relation_eq a b ≡ true) ↔ (a ≡ b)
unfolding relation_eq
relation_eq_iff a b = ground (
  arith,
  str_eq_iff a.name b.name,
  str_eq_iff a.role b.role,
  str_eq_iff a.interface b.interface,
  str_eq_iff a.scope b.scope,
)

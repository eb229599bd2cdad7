-- ===== src/Hook/HookName.antt =====
-- hook/registry.go, validHookName: which texts name a hook.
use Prim.Native.String as S
use Prim.Native.Char.{code}
use gocharm.Base.{String, Option, none, some, List, [], ◌∷◌, Bool, true, false, ◌&&◌, ◌||◌}
use gocharm.Base.{if◌then◌else◌, str_eq, ◌==◌, leb, not}
use gocharm.Base.Texts.{is_empty, cut_prefix}
use gocharm.Hook.Juju.{
  Juju, HookKind, install, start, config_changed, update_status, upgrade_charm, stop, action,
  collect_metrics, meter_status_changed, relation_joined, relation_changed, relation_departed,
  relation_broken,
}

-- [a-z]*
all_lower : String → Bool
all_lower S.[] = true
all_lower (S.◌∷◌ c s) = leb b'a' (code c) && leb (code c) b'z' && all_lower s

-- relation-[a-z]+
unfoldable pub is_relation_kind : String → Bool
unfolding all_lower cut_prefix
is_relation_kind s = elim (cut_prefix "relation-" s) [
  | none ↦ false
  | some l ↦ not (is_empty l) && all_lower l
]

abbrev before : S.String → Option (String × String) → Option (String × String)
before c none = none
before c (some (p, k)) = some (S.◌++◌ c p, k)

-- The text in front of the dash before a relation hook's kind, and the kind. The kind has one dash
-- and ends the text, so there is one such dash at most.
unfoldable pub split_relation : String → Option (String × String)
unfolding is_relation_kind
split_relation S.[] = none
split_relation (S.◌∷◌ c s) =
    let later = before (S.◌∷◌ c S.[]) (split_relation s) in
    if code c == b'-' && is_relation_kind s then some ("", s) else later

abbrev pub hook_kinds : List HookKind
hook_kinds =
    install ∷ start ∷ config_changed ∷ update_status ∷ upgrade_charm ∷ stop ∷ action
    ∷ collect_metrics ∷ meter_status_changed ∷ relation_joined ∷ relation_changed
    ∷ relation_departed ∷ relation_broken ∷ []

module _ (juju : Juju) where
  is_kind : List HookKind → String → Bool
  is_kind [] s = false
  is_kind (k ∷ ks) s = str_eq (juju.kind_text k) s || is_kind ks s

  -- hookNames[hooks.Kind(s)]
  unfoldable pub hook_names : String → Bool
  unfolding is_kind
  hook_names s = is_kind hook_kinds s

  -- relationHookPattern.FindStringSubmatch: the optional group and the kind. The group is tried
  -- first.
  unfoldable pub find_submatch : String → Option (String × String)
  unfolding split_relation is_relation_kind
  find_submatch s =
      let alone = if is_relation_kind s then some ("", s) else none in
      elim (split_relation s) [
        | none ↦ alone
        | some (p, k) ↦ if juju.relation_snippet p then some (p, k) else alone
      ]

  unfoldable pub valid_hook_name : String → Bool
  unfolding find_submatch hook_names
  valid_hook_name s = elim (find_submatch s) [
    | none ↦ hook_names s
    | some (p, k) ↦ if is_empty p then false else hook_names k
  ]

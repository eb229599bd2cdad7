-- ===== src/Hook/Query.antt =====
-- hook/hook.go: the methods of a context that read what a hook tool prints as JSON.
use gocharm.Base.{String, List, [], ◌∷◌, Bool}
use gocharm.Base.{Act, Result, masked, noted, ok, err, panic, ◌>>=◌, pure, raise}
use gocharm.Base.{wrap, throw}
use gocharm.Base.Dict.{Dict}
use gocharm.Base.Int.{ℤ}
use gocharm.Hook.Context.{Tools, Context, run_tool}

-- encoding/json at the types that the tools' outputs are read into.
pub record Json : Type 0 where
  pub settings : String → Result (Dict String)
  pub ids : String → Result (List String)
  pub text : String → Result String
  pub int : String → Result ℤ
  pub bool : String → Result Bool

module _ {W A : Type 0} (tools : Tools W) where
  -- What a decoder says, as a step of a call.
  abbrev decoded : Result A → String → Act W A
  decoded (ok a) out = pure a
  decoded (err e) out = raise (noted e "cannot parse command output %q" (out ∷ []))
  decoded (panic e) out = throw e

  unfoldable pub run_json : Context → (String → Result A) → String → List String → Act W A
  run_json ctxt decode cmd args = do
    out ← wrap masked (run_tool tools ctxt cmd args)
    decoded (decode out) out

module _ {W : Type 0} (tools : Tools W) (json : Json) where
  unfoldable pub get_all_relation_unit : Context → String → String → Act W (Dict String)
  get_all_relation_unit ctxt id unit = wrap masked (
      run_json tools ctxt json.settings "relation-get"
        ("-r" ∷ id ∷ "--format" ∷ "json" ∷ "--" ∷ "-" ∷ unit ∷ []))

  unfoldable pub relation_ids : Context → String → Act W (List String)
  relation_ids ctxt name =
      wrap masked
        (run_json tools ctxt json.ids "relation-ids" ("--format" ∷ "json" ∷ "--" ∷ name ∷ []))

  unfoldable pub relation_units : Context → String → Act W (List String)
  relation_units ctxt id =
      wrap masked
        (run_json tools ctxt json.ids "relation-list" ("--format" ∷ "json" ∷ "-r" ∷ id ∷ []))

  -- GetConfig into a variable of the decoder's type, which is zero where the option is not set.
  unfoldable pub get_config : {A : Type 0} → Context → (String → Result A) → String → Act W A
  get_config ctxt decode key =
      wrap (λ e. noted e "cannot get configuration option %q" (key ∷ []))
        (run_json tools ctxt decode "config-get" ("--format" ∷ "json" ∷ "--" ∷ key ∷ []))

  unfoldable pub get_config_string : Context → String → Act W String
  get_config_string ctxt key = wrap masked (get_config ctxt json.text key)

  unfoldable pub get_config_int : Context → String → Act W ℤ
  get_config_int ctxt key = wrap masked (get_config ctxt json.int key)

  unfoldable pub get_config_bool : Context → String → Act W Bool
  get_config_bool ctxt key = wrap masked (get_config ctxt json.bool key)

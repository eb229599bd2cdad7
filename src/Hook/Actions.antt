-- ===== src/Hook/Actions.antt =====
-- hook/hook.go: the methods of a context that change something outside the unit, and the addresses.
use Prim.Native.String.{◌++◌}
use gocharm.Base.{String, List, [], ◌∷◌, Option, none, some, if◌then◌else◌}
use gocharm.Base.{Act, newf, masked, ok, err, panic, ◌>>=◌, ◌>>◌, pure, raise, wrap, cause}
use gocharm.Base.Texts.{trim_space}
use gocharm.Hook.Context.{Tools, Context, run_tool, is_unimplemented_error}

-- The arguments of relation-set for keys and values in turn; `none` is a key with no value.
unfoldable pub settings : List String → Option (List String)
settings [] = some []
settings (k ∷ []) = none
settings (k ∷ v ∷ rest) = elim (settings rest) [
  | none ↦ none
  | some args ↦ some ((k ++ ("=" ++ v)) ∷ args)
]

-- charm statuses
pub data Status : Type 0 where
  maintenance blocked waiting active : Status

abbrev pub status_text : Status → String
status_text maintenance = "maintenance"
status_text blocked = "blocked"
status_text waiting = "waiting"
status_text active = "active"

module _ {W : Type 0} (tools : Tools W) where
  abbrev send : Context → String → Option (List String) → Act W (Unit {0})
  send ctxt id none = raise (newf "invalid key/value count" [])
  send ctxt id (some []) = pure tt
  send ctxt id (some (a ∷ args)) = do
    wrap masked (run_tool tools ctxt "relation-set" ("-r" ∷ id ∷ "--" ∷ a ∷ args))
    pure tt

  unfoldable pub set_relation_with_id : Context → String → List String → Act W (Unit {0})
  set_relation_with_id ctxt id keyvals = send ctxt id (settings keyvals)

  unfoldable pub set_relation : Context → List String → Act W (Unit {0})
  set_relation ctxt keyvals = wrap masked (set_relation_with_id ctxt ctxt.relation_id keyvals)

  unfoldable pub public_address : Context → Act W String
  public_address ctxt = do
    out ← wrap masked (run_tool tools ctxt "unit-get" ("public-address" ∷ []))
    pure (trim_space out)

  unfoldable pub private_address : Context → Act W String
  private_address ctxt = do
    out ← wrap masked (run_tool tools ctxt "unit-get" ("private-address" ∷ []))
    pure (trim_space out)

  -- An error that says that the tool is not there is dropped.
  unfoldable pub set_status : Context → Status → String → Act W (Unit {0})
  set_status ctxt st text w =
      let (r, w') = run_tool tools ctxt "status-set" (status_text st ∷ text ∷ []) w in
      elim r [
        | ok _ ↦ (ok tt, w')
        | err e ↦ (if is_unimplemented_error (cause e) then ok tt else err (masked e), w')
        | panic e ↦ (panic e, w')
      ]

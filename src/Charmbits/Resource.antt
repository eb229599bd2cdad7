-- ===== src/Charmbits/Resource.antt =====
-- charmbits/resource/resources.go: resources that are installed where their contents have changed.
pub mod Hashes
use Prim.Native.String.{◌++◌}
use gocharm.Base.{
  String, ℕ, List, [], ◌∷◌, Option, none, some, Bool, true, false, not, if◌then◌else◌,
}
use gocharm.Base.{
  Act, Result, Error, with_cause, cause, ok, err, panic, ◌>>=◌, ◌>>◌, pure, wrap, outside, own,
  update, str_eq,
}
use gocharm.Base.Dict.{Dict, lookup, insert}
use gocharm.Base.Message.{message}
use gocharm.Base.Texts.{is_empty, sprintf}
use gocharm.Hook.Context.{Tools, Context, run_tool}
use gocharm.Hook.Juju.{Juju}
use gocharm.Hook.Registry.{View, Unit₀}
use gocharm.Hook.Registry.Declare.{register_resource}

-- What an installer does with the path of the resource's file.
abbrev pub Installer : Type 0 → Type 0
Installer W = String → Act W Unit₀

-- `hashes` is the persistent part; a nil map reads as an empty one.
pub record Service (W : Type 0) : Type 0 where
  pub ctxt : Context
  pub hashes : Dict String
  pub installers : Dict (Installer W)

-- errors.Annotatef, which keeps the cause.
abbrev pub annotate : String → List String → Error → Error
annotate f args e = with_cause (cause e) (sprintf f args ++ (": " ++ message e))

-- os.Open, and what io.Copy to a SHA1 hash makes of the file's contents, in base64.
pub record Digest (W : Type 0) : Type 0 where
  pub open_file : String → Act W ℕ
  pub copy : ℕ → Act W String
  pub close : ℕ → W → W

module _ {W : Type 0} where
  -- Service.Reg: the resource goes to the charm's metadata, the installer to the service.
  unfoldable pub reg :
      Juju → String → String → Installer W → Act (View (Service W × W) × Service W) Unit₀
  reg juju name description i (v, s) =
      let (r, v') =
        register_resource juju
          (record { name = name; kind = juju.type_file; path = name; description = description })
          v in
      elim r [
        | ok _ ↦ (ok tt, (v', record s { installers = insert name i s.installers }))
        | err e ↦ (err e, (v', s))
        | panic e ↦ (panic e, (v', s))
      ]

module _ {W : Type 0} (tools : Tools W) (digest : Digest W) where
  unfoldable pub get_path : Context → String → Act W String
  get_path ctxt name =
      wrap (annotate "resource-get of %s failed" (name ∷ []))
        (run_tool tools ctxt "resource-get" (name ∷ []))

  unfoldable pub has : Context → String → Act W Bool
  unfolding get_path
  has ctxt name w =
      let (r, w') = get_path ctxt name w in
      elim r [
        | ok p ↦ (ok (not (is_empty p)), w')
        | err _ ↦ (ok false, w')
        | panic e ↦ (panic e, w')
      ]

  unfoldable pub make_hash : String → Act W String
  make_hash path = do
    f ← wrap (annotate "os.Open failed" []) (digest.open_file path)
    λ w.
        let (r, w') = wrap (annotate "io.Copy failed" []) (digest.copy f) w in
        (r, digest.close f w')

  -- The hash on record is this one.
  abbrev pub unchanged : Option String → String → Bool
  unchanged none h = false
  unchanged (some old) h = str_eq old h

  unfoldable pub install_or_update : String → Installer W → Act (Service W × W) Unit₀
  unfolding get_path make_hash
  install_or_update name i = do
    s ← own
    path ← outside (get_path s.ctxt name)
    hash ← outside (wrap (annotate "creating a hash for %s failed" (name ∷ [])) (make_hash path))
    if unchanged (lookup name s.hashes) hash then pure tt else do
      outside (wrap (annotate "installation of %s failed" (name ∷ [])) (i path))
      update (λ s. record s { hashes = insert name hash s.hashes })

  unfoldable pub update_all : Dict (Installer W) → Act (Service W × W) Unit₀
  unfolding has
  update_all [] = pure tt
  update_all ((name, i) ∷ rest) = do
    s ← own
    there ← outside (has s.ctxt name)
    if there then install_or_update name i else pure tt
    update_all rest

  unfoldable pub update_resources : Act (Service W × W) Unit₀
  update_resources = do s ← own; update_all s.installers

-- ===== src/Charmbits/Service/Launch.antt =====
-- The way of a service's arguments to its start function, and into its persistent state.
use Prim.Native.String.{◌++◌}
use gocharm.Base.{String, ◌≡◌, ◌≢◌, List, [], ◌∷◌, true, arith, refl, ◌∙◌}
use gocharm.Base.Paths.{join_path}
use gocharm.Hook.Environment.{state_dir}
use gocharm.Base.{Act, ok, ◌>>◌, Result-cases, inl, inr, ignore}
use gocharm.Hook.Context.{Tools, Context, command_name, logf}
use gocharm.Hook.Juju.{Juju}
use gocharm.Hook.Registry.{Unit₀}
use gocharm.Hook.State.{Files}
use gocharm.Charmbits.Service.{
  Service, ServiceParams, OsService, OsServiceParams, Encoding, service_params, os_service,
  socket_path, name_of, start, run_server, launch, quoted,
}

-- What is documented of the encodings: decoding gives back what was encoded.
pub record IsEncoding (enc : Encoding) : Type 0 where
  pub base64 : (s : String) → enc.decode (enc.encode s) ≡ ok s
  pub json : (p : ServiceParams) (s : String) → enc.marshal p ≡ ok s → enc.unmarshal s ≡ ok p

state_dir_same :
    {W : Type 0} (juju : Juju) (ctxt : Context) (w w' : W)
    → (state_dir juju ctxt w).0 ≡ (state_dir juju ctxt w').0
unfolding state_dir
state_dir_same juju ctxt w w' = ground arith

module _ {W : Type 0} (juju : Juju) (tools : Tools W) (enc : Encoding)
    (new_service : OsServiceParams → Act W (OsService W)) where
  -- What newService is asked for and the service's program that it starts: where newService is
  -- called with success for the arguments that the charm gave, it was called for a program whose
  -- arguments are the command's name and one more. The program, given that one argument, sets up
  -- the log of the service's name and then calls the start function with the socket path, which
  -- the hash of the state directory gives, and with exactly the charm's arguments. The encodings
  -- decode what they encode.
  pub run_server-os_service :
      {A : Type 0} (logger : String → Act W Unit₀) (f : String → List String → Act W A)
      (s : Service) (args : List String) (os : OsService W) (w w' : W)
      → IsEncoding enc
      → os_service juju tools enc new_service s args w ≡ (ok os, w')
      → (asked : OsServiceParams) × (given : String) × (dir : String) × (w₁ : W) × (new_service
            asked w₁
          ≡ (ok os, w'))
        × (asked.args ≡ command_name s.ctxt ∷ given ∷ [])
        × ((state_dir juju s.ctxt w₁).0 ≡ ok dir)
        × ((v : W)
            → run_server enc logger f (given ∷ []) v
              ≡ (logger asked.name
                    >> f ("@" ++ enc.sha1_hex (join_path (dir ∷ "service" ∷ []))) args)
                  v)
  unfolding os_service service_params socket_path name_of run_server
  run_server-os_service logger f s args os w w' laws h =
      let w₀ = (ignore (logf tools s.ctxt "osService with args: %s" (quoted args ∷ [])) w).1 in
      let w₁ = (name_of juju tools enc new_service s w₀).1 in
      let w₂ = (state_dir juju s.ctxt w₁).1 in
      elim (Result-cases (name_of juju tools enc new_service s w₀).0) [
        | inl (name, e) ↦ elim (Result-cases (state_dir juju s.ctxt w₁).0) [
          | inl (dir, d) ↦
              let p : ServiceParams = record {
                socket_path = "@" ++ enc.sha1_hex (join_path (dir ∷ "service" ∷ []));
                args = args;
                name = name;
              } in
              elim (Result-cases (enc.marshal p)) [
                | inl (content, m) ↦ (
                  service_params juju tools enc new_service s name content,
                  enc.encode content,
                  dir,
                  w₂,
                  ground arith,
                  refl,
                  state_dir_same juju s.ctxt w₂ w₁ ∙ d,
                  λ v. ground (arith, laws.base64 content, laws.json p content m),
                )
                | inr (inl (x, q)) ↦ absurd (ground arith)
                | inr (inr (x, q)) ↦ absurd (ground arith)
              ]
          | inr (inl (x, q)) ↦ absurd (ground arith)
          | inr (inr (x, q)) ↦ absurd (ground arith)
        ]
        | inr (inl (x, q)) ↦ absurd (ground arith)
        | inr (inr (x, q)) ↦ absurd (ground arith)
      ]

  module _ (files : Files W) where
    -- A start that succeeds puts its arguments on record and marks the service as installed; one
    -- that does not succeed leaves the record as it was.
    pub start_records :
        (args : List String) (s : Service) (w : W)
        → let (r, (s', w')) = start juju tools enc new_service files args (s, w) in
          (r ≡ ok tt → s' ≡ record s { installed = true; args = args }) × (r ≢ ok tt → s' ≡ s)
    unfolding start
    start_records args s w =
        elim (Result-cases (launch juju tools enc new_service files s args w).0) [
          | inl (_, e) ↦ (λ good. ground arith, λ bad. ground arith)
          | inr (inl (_, e)) ↦ (λ good. ground arith, λ bad. ground arith)
          | inr (inr (_, e)) ↦ (λ good. ground arith, λ bad. ground arith)
        ]

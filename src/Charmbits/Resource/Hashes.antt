-- ===== src/Charmbits/Resource/Hashes.antt =====
-- The hashes that the resource service keeps, against the files it has installed.
use gocharm.Base.{String, ◌≡◌, ◌≢◌, some, arith}
use gocharm.Base.{ok, str_eq_iff, Option-cases, inl, inr}
use gocharm.Base.Dict.{lookup, lookup-insert}
use gocharm.Hook.Context.{Tools}
use gocharm.Charmbits.Resource.{Service, Installer, Digest, get_path, make_hash, install_or_update}

module _ {W : Type 0} (tools : Tools W) (digest : Digest W) where
  -- Once the path and the hash of a resource are found: the records of the other resources stay,
  -- a success records the hash, an error or a panic changes nothing of the service, and where
  -- the hash is on record already nothing more happens.
  pub install_or_update_records :
      (name : String) (i : Installer W) (s : Service W) (w : W) (path hash : String) (w₁ w₂ : W)
      → get_path tools digest s.ctxt name w ≡ (ok path, w₁)
      → make_hash tools digest path w₁ ≡ (ok hash, w₂)
      → let (r, (s', w')) = install_or_update tools digest name i (s, w) in
        ((k : String) → k ≢ name → lookup k s'.hashes ≡ lookup k s.hashes)
        × (r ≡ ok tt → lookup name s'.hashes ≡ some hash)
        × (r ≢ ok tt → s' ≡ s)
        × (lookup name s.hashes ≡ some hash → (s' ≡ s) × (w' ≡ w₂))
  unfolding install_or_update
  install_or_update_records name i s w path hash w₁ w₂ p h = (
    λ k other. ground (arith, lookup-insert name k hash s.hashes, str_eq_iff name k),
    λ good. elim (Option-cases (lookup name s.hashes)) [
      | inl e ↦ ground (arith, lookup-insert name name hash s.hashes, str_eq_iff name name)
      | inr (old, e) ↦
          ground (
            arith,
            lookup-insert name name hash s.hashes,
            str_eq_iff name name,
            str_eq_iff old hash,
          )
    ],
    λ bad. ground arith,
    λ same. ground (arith, str_eq_iff hash hash),
  )

-- ===== src/Cmd/Removed.antt =====
-- cmd/gocharm/main.go: what is removed from the destination, and when.
use gocharm.Base.{String, ◌≡◌, refl, List, [], ◌∷◌, Bool, true, false, not, ◌||◌, ◌&&◌}
use gocharm.Base.{str_eq, some, arith, Error, ok, err, masked, wrap}
use gocharm.Base.{for_each, Bool-cases, if◌then◌else◌, inl, inr, newf}
use gocharm.Base.Paths.{join_path}
use gocharm.Base.Texts.{has_prefix, has_suffix}
use gocharm.Cmd.Destination.{
  Tree, is_allowed, is_hidden, autogenerated, check_names, can_clean, clean_destination,
}

-- The names that the command makes in a charm's directory.
abbrev pub is_made : String → Bool
is_made name =
    str_eq name "assets"
    || str_eq name "bin"
    || str_eq name "compile"
    || str_eq name "config.yaml"
    || str_eq name "dependencies.tsv"
    || str_eq name "hooks"
    || str_eq name "metadata.yaml"
    || str_eq name "pkg"
    || str_eq name "README.md"
    || str_eq name "revision"
    || str_eq name "src"

is_allowed-is_made : (name : String) → is_allowed name ≡ is_made name
unfolding is_allowed
is_allowed-is_made name = ground arith

module _ {W : Type 0} (tree : Tree W) where
  -- A name that may be in the destination: a hidden one, or one of those that the command makes,
  -- which has made it itself if it is a YAML file.
  abbrev pub may_be_there : String → W → String → Bool
  may_be_there dir w name =
      has_prefix "." name
      || (is_made name
          && (not (has_suffix ".yaml" (join_path (dir ∷ name ∷ [])))
              || tree.begins_with (join_path (dir ∷ name ∷ []))
                  "# This file is automatically generated. Do not edit.\n" w))

  abbrev pub all_may : String → W → List String → Bool
  all_may dir w [] = true
  all_may dir w (name ∷ names) = may_be_there dir w name && all_may dir w names

  -- The paths of the names that are not hidden.
  abbrev pub visible : String → List String → List String
  visible dir [] = []
  visible dir (name ∷ names) =
      let rest = visible dir names in
      if has_prefix "." name then rest else join_path (dir ∷ name ∷ []) ∷ rest

  check_names-visible :
      (dir : String) (names : List String) (w : W)
      → all_may dir w names ≡ true
      → check_names tree dir names w ≡ (ok (visible dir names), w)
  unfolding check_names is_hidden autogenerated
  check_names-visible dir [] w h = refl
  check_names-visible dir (name ∷ names) w h =
      ground (arith, check_names-visible dir names w, is_allowed-is_made name)

  check_names-err :
      (dir : String) (names : List String) (w : W)
      → all_may dir w names ≡ false
      → (e : Error) × (check_names tree dir names w ≡ (err e, w))
  unfolding check_names is_hidden autogenerated
  check_names-err dir [] w h = absurd (ground arith)
  check_names-err dir (name ∷ names) w h = elim (Bool-cases (may_be_there dir w name)) [
    | inl fine ↦
        let (e, refused) = check_names-err dir names w (ground arith) in
        (e, ground (arith, is_allowed-is_made name))
    | inr odd ↦ elim (Bool-cases (is_allowed name)) [
      | inl there ↦ (
        newf "non-autogenerated file %q" (join_path (dir ∷ name ∷ []) ∷ []),
        ground (arith, is_allowed-is_made name),
      )
      | inr other ↦ (
        newf "unexpected file %q found in %s" (name ∷ dir ∷ []),
        ground (arith, is_allowed-is_made name),
      )
    ]
  ]

  -- Where the destination can be read: if each name in it is hidden, or is one that the command
  -- makes and, for a YAML file, begins with the comment that the command writes, then exactly
  -- the names that are not hidden are removed, in order, up to an error. If a single name is not
  -- so, nothing is removed and the result is an error.
  pub clean_destination-visible :
      (dir : String) (names : List String) (w w₁ : W)
      → tree.read_dir dir w ≡ (ok (some names), w₁)
      → (all_may dir w₁ names ≡ true
          → clean_destination tree dir w
            ≡ for_each (λ p. wrap masked (tree.remove_all p)) (visible dir names) w₁)
        × (all_may dir w₁ names ≡ false
            → (e : Error) × (clean_destination tree dir w ≡ (err e, w₁)))
  unfolding clean_destination can_clean
  clean_destination-visible dir names w w₁ h = (
    λ fine. ground (arith, check_names-visible dir names w₁ fine),
    λ odd. let (e, refused) = check_names-err dir names w₁ odd in (masked e, ground arith),
  )

-- ===== src/Cmd/Copied.antt =====
-- cmd/gocharm/main.go: the files that are removed from the destination and copied to it.
use Prim.Native.String.{◌++◌}
use gocharm.Base.{String, ◌≡◌, ◌≢◌, ◌⊎◌, inl, inr, refl, sym, ap, ◌∙◌, subst, List, [], ◌∷◌}
use gocharm.Base.{
  Bool, Option, none, some, true, false, arith, ok, In, All, for_each, wrap, masked, noted,
}
use gocharm.Base.{if◌then◌else◌, pure, Bool-cases, Act, str_eq, str_eq_iff, Result-cases}
use gocharm.Base.Inversion.{bind-ok, wrap-ok}
use gocharm.Base.Paths.{join_path}
use gocharm.Base.Texts.{has_prefix}
use gocharm.Hook.State.{Files}
use gocharm.Cmd.Destination.{
  Tree, Build, can_clean, check_names, clean_destination, copy_name, is_hidden,
}

-- A path that is the other or below it.
abbrev pub IsBelow : String → String → Type 0
IsBelow p q = (p ≡ q) ⊎ (has_prefix (p ++ "/") q ≡ true)

-- A file system, by the texts that its files hold: what a call that succeeds does to its own file, and
-- that no call touches files elsewhere.
pub record IsDisk {W : Type 0} (tree : Tree W) (files : Files W)
    (file_of : W → String → Option String) : Type 0 where
  pub reads : (p : String) (w : W) → files.read_file p w ≡ (ok (file_of w p), w)
  pub writes :
      (p c : String) (w w' : W) → files.write_file p c w ≡ (ok tt, w') → file_of w' p ≡ some c
  pub makes : (d q : String) (w : W) → file_of (files.mkdir_all d w).1 q ≡ file_of w q
  pub lists : (d q : String) (w : W) → file_of (tree.read_dir d w).1 q ≡ file_of w q
  pub stats : (p q : String) (w : W) → file_of (tree.stat p w).1 q ≡ file_of w q
  pub there : (p c : String) (w : W) → file_of w p ≡ some c → (tree.stat p w).0 ≢ ok false
  pub removes :
      (p q : String) (w : W) → ¬ (IsBelow p q) → file_of (tree.remove_all p w).1 q ≡ file_of w q
  pub copies :
      (a b c : String) (w w' : W)
      → file_of w a ≡ some c
      → tree.copy a b w ≡ (ok tt, w')
      → file_of w' b ≡ some c
  pub keeps :
      (a b q : String) (w : W) → ¬ (IsBelow b q) → file_of (tree.copy a b w).1 q ≡ file_of w q

-- The revision of the charm that is built in `t` is away from what is removed from the destination and
-- from what is copied there, and the names that are copied are away from the destination's revision.
pub record IsApart {W : Type 0} (tree : Tree W) (names : List String) (t dest : String)
    : Type 0 where
  pub removed :
      (n : String) (ns : List String) (w w' : W)
      → tree.read_dir dest w ≡ (ok (some ns), w')
      → In n ns
      → ¬ (IsBelow (join_path (dest ∷ n ∷ [])) (join_path (t ∷ "revision" ∷ [])))
  pub sources :
      (n : String)
      → In n names
      → ¬ (IsBelow (join_path (dest ∷ n ∷ [])) (join_path (t ∷ "revision" ∷ [])))
  pub targets :
      (n : String)
      → In n names
      → n ≢ "revision"
      → ¬ (IsBelow (join_path (dest ∷ n ∷ [])) (join_path (dest ∷ "revision" ∷ [])))

module _ {W : Type 0} (tree : Tree W) (files : Files W) (file_of : W → String → Option String)
    (disk : IsDisk tree files file_of) where
  check_names-same :
      (dir : String) (names : List String) (w : W) → (check_names tree dir names w).1 ≡ w
  unfolding check_names
  check_names-same dir [] w = refl
  check_names-same dir (n ∷ names) w = ground (arith, check_names-same dir names w)

  pub can_clean-keeps : (dir q : String) (w : W) → file_of (can_clean tree dir w).1 q ≡ file_of w q
  unfolding can_clean
  can_clean-keeps dir q w =
      let w₁ = (tree.read_dir dir w).1 in
      elim (Result-cases (tree.read_dir dir w).0) [
        | inl (none, e) ↦ ground (arith, disk.lists dir q w)
        | inl (some ns, e) ↦ ground (arith, disk.lists dir q w, check_names-same dir ns w₁)
        | inr (inl (x, e)) ↦ ground (arith, disk.lists dir q w)
        | inr (inr (x, e)) ↦ ground (arith, disk.lists dir q w)
      ]

  removed_keeps :
      (q : String) (ps : List String) (w w' : W)
      → All (λ p. ¬ (IsBelow p q)) ps
      → for_each (λ p. wrap masked (tree.remove_all p)) ps w ≡ (ok tt, w')
      → file_of w' q ≡ file_of w q
  unfolding for_each
  removed_keeps q [] w w' away h = ground arith
  removed_keeps q (p ∷ ps) w w' away h =
      let (_, w₁, first, rest) =
        bind-ok (wrap masked (tree.remove_all p))
          (λ _. for_each (λ p. wrap masked (tree.remove_all p)) ps) w w' tt h in
      let gone = wrap-ok masked (tree.remove_all p) w w₁ tt first in
      let same : file_of w₁ q ≡ file_of w q =
        subst (λ v. file_of v q ≡ file_of w q) (ap (λ r. r.1) gone) (disk.removes p q w away.0) in
      removed_keeps q ps w₁ w' away.1 rest ∙ same

  -- What is removed lies in the directory.
  checked_away :
      (dir q : String) (names ps : List String) (w w' : W)
      → ((n : String) → In n names → ¬ (IsBelow (join_path (dir ∷ n ∷ [])) q))
      → check_names tree dir names w ≡ (ok ps, w')
      → (w ≡ w') × All (λ p. ¬ (IsBelow p q)) ps
  unfolding check_names
  checked_away dir q [] ps w w' away h =
      let bare : ps ≡ [] = ground arith in
      (ground arith, subst (All (λ p. ¬ (IsBelow p q))) (sym bare) tt)
  checked_away dir q (n ∷ names) ps w w' away h =
      elim (Result-cases (check_names tree dir names w).0) [
        | inl (rest, e) ↦
            let same : check_names tree dir names w ≡ (ok rest, w') = ground arith in
            let (still, far) = checked_away dir q names rest w w' (λ n i. away n (inr i)) same in
            let p = join_path (dir ∷ n ∷ []) in
            elim (Bool-cases (is_hidden n)) [
              | inl hidden ↦
                  let kept : rest ≡ ps = ground arith in
                  (still, subst (All (λ p. ¬ (IsBelow p q))) kept far)
              | inr seen ↦
                  let more : p ∷ rest ≡ ps = ground arith in
                  (still, subst (All (λ p. ¬ (IsBelow p q))) more (away n (inl refl), far))
            ]
        | inr (inl (x, e)) ↦ absurd (ground arith)
        | inr (inr (x, e)) ↦ absurd (ground arith)
      ]

  module _ (build : Build W) (base_of : String → String) (repo : String) (keep : Bool)
      (names : List String) (t dest c : String) where
    abbrev source : String
    source = join_path (t ∷ "revision" ∷ [])

    abbrev target : String
    target = join_path (dest ∷ "revision" ∷ [])

    copied_one :
        (n : String) (w w' : W)
        → copy_name tree files build base_of repo keep names t dest n w ≡ (ok tt, w')
        → ¬ (IsBelow (join_path (dest ∷ n ∷ [])) source)
        → (n ≢ "revision" → ¬ (IsBelow (join_path (dest ∷ n ∷ [])) target))
        → file_of w source ≡ some c
        → (file_of w' source ≡ some c)
          × (n ≡ "revision" → file_of w' target ≡ some c)
          × (n ≢ "revision" → file_of w' target ≡ file_of w target)
    copied_one n w w' h far apart e =
        let a = join_path (t ∷ n ∷ []) in
        let b = join_path (dest ∷ n ∷ []) in
        let copying = wrap (λ e. noted e "cannot copy to final destination" []) (tree.copy a b) in
        let (there, w₁, found, h₁) =
          bind-ok (wrap masked (tree.stat a)) (λ there. if there then copying else pure tt) w w' tt
            h in
        let seen = wrap-ok masked (tree.stat a) w w₁ there found in
        let same : (q : String) → file_of w₁ q ≡ file_of w q =
          λ q. subst (λ v. file_of v q ≡ file_of w q) (ap (λ r. r.1) seen) (disk.stats a q w) in
        elim (Bool-cases there) [
          | inl is_there ↦
              let ran : tree.copy a b w₁ ≡ (ok tt, w') =
                wrap-ok (λ e. noted e "cannot copy to final destination" []) (tree.copy a b) w₁ w'
                  tt (ground arith) in
              let kept : (q : String) → ¬ (IsBelow b q) → file_of w' q ≡ file_of w₁ q = λ q out.
                subst (λ v. file_of v q ≡ file_of w₁ q) (ap (λ r. r.1) ran)
                  (disk.keeps a b q w₁ out) in
              (
                kept source far ∙ same source ∙ e,
                λ is.
                    subst (λ n. file_of w' (join_path (dest ∷ n ∷ [])) ≡ some c) is
                      (disk.copies a b c w₁ w'
                        (same a
                          ∙ subst (λ n. file_of w (join_path (t ∷ n ∷ [])) ≡ some c) (sym is) e)
                        ran),
                λ not. kept target (apart not) ∙ same target,
              )
          | inr missing ↦
              let stay : w₁ ≡ w' = ground arith in
              let all : (q : String) → file_of w' q ≡ file_of w q =
                λ q. subst (λ v. file_of v q ≡ file_of w q) stay (same q) in
              (
                all source ∙ e,
                λ is. absurd (
                    disk.there a c w
                      (subst (λ n. file_of w (join_path (t ∷ n ∷ [])) ≡ some c) (sym is) e)
                      (ap (λ r. r.0) seen ∙ ap ok missing)),
                λ not. all target,
              )
        ]

    pub copied :
        (l : List String) (w w' : W)
        → for_each (copy_name tree files build base_of repo keep names t dest) l w ≡ (ok tt, w')
        → ((n : String) → In n l → ¬ (IsBelow (join_path (dest ∷ n ∷ [])) source))
        → ((n : String) → In n l → n ≢ "revision" → ¬ (IsBelow (join_path (dest ∷ n ∷ [])) target))
        → file_of w source ≡ some c
        → In "revision" l ⊎ (file_of w target ≡ some c)
        → file_of w' target ≡ some c
    unfolding for_each
    copied [] w w' h far apart e (inl bad) = absurd bad
    copied [] w w' h far apart e (inr done) = ground arith
    copied (n ∷ l) w w' h far apart e i =
        let (_, w₁, first, rest) =
          bind-ok (copy_name tree files build base_of repo keep names t dest n)
            (λ _. for_each (copy_name tree files build base_of repo keep names t dest) l) w w' tt
            h in
        let (kept, hit, miss) = copied_one n w w₁ first (far n (inl refl)) (apart n (inl refl)) e in
        copied l w₁ w' rest (λ n i. far n (inr i)) (λ n i. apart n (inr i)) kept
          (elim (Bool-cases (str_eq n "revision")) [
            | inl is ↦ inr (hit ((str_eq_iff n "revision").0 is))
            | inr not ↦
                let other : n ≢ "revision" = λ is. ground (arith, str_eq_iff n "revision") in
                elim i [
                  | inl (inl is) ↦ absurd (other is)
                  | inl (inr later) ↦ inl later
                  | inr done ↦ inr (miss other ∙ done)
                ]
          ])

    abbrev names_of : Option (List String) → Act W (List String)
    names_of none = pure []
    names_of (some ns) = check_names tree dest ns

    listed_away :
        (found : Option (List String)) (ps : List String) (w w₁ w₂ : W)
        → IsApart tree names t dest
        → tree.read_dir dest w ≡ (ok found, w₁)
        → names_of found w₁ ≡ (ok ps, w₂)
        → (w₁ ≡ w₂) × All (λ p. ¬ (IsBelow p source)) ps
    listed_away none ps w w₁ w₂ away read h =
        let bare : ps ≡ [] = ground arith in
        (ground arith, subst (All (λ p. ¬ (IsBelow p source))) (sym bare) tt)
    listed_away (some ns) ps w w₁ w₂ away read h =
        checked_away dest source ns ps w₁ w₂ (λ n i. away.removed n ns w w₁ read i) h

    pub cleaned_keeps :
        (w w' : W)
        → IsApart tree names t dest
        → clean_destination tree dest w ≡ (ok tt, w')
        → file_of w' source ≡ file_of w source
    unfolding clean_destination can_clean
    cleaned_keeps w w' away h =
        let (ps, w₁, first, rest) =
          bind-ok (wrap masked (can_clean tree dest))
            (λ paths. for_each (λ p. wrap masked (tree.remove_all p)) paths) w w' tt h in
        let checked = wrap-ok masked (can_clean tree dest) w w₁ ps first in
        let (found, w₂, read, h₁) =
          bind-ok (wrap masked (tree.read_dir dest)) names_of w w₁ ps checked in
        let seen = wrap-ok masked (tree.read_dir dest) w w₂ found read in
        let (still, far) = listed_away found ps w w₂ w₁ away seen h₁ in
        removed_keeps source ps w₁ w' far rest
        ∙ ap (λ v. file_of v source) (sym still)
        ∙ subst (λ v. file_of v source ≡ file_of w source) (ap (λ r. r.1) seen)
            (disk.lists dest source w)

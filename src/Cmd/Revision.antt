-- ===== src/Cmd/Revision.antt =====
-- cmd/gocharm/main.go: the revision, from one run of the command to the next.
use gocharm.Base.{String, ℕ, ◌+◌, ◌<◌, ◌≤◌, ◌≡◌, inl, inr, refl, ap, ◌∙◌, subst, List, [], ◌∷◌}
use gocharm.Base.{Bool, Option, some, true, arith, ok, In, for_each, wrap, masked, noted}
use gocharm.Base.{Bool-cases, Act, ◌>>=◌, ◌>>◌}
use gocharm.Base.Decimal.{itoa, atoi-itoa, atoi-digits_only, parse_int-itoa}
use gocharm.Base.Inversion.{bind-ok, wrap-ok}
use gocharm.Base.Paths.{join_path}
use gocharm.Base.Texts.{trim_space-digits_only}
use gocharm.Hook.Registry.{Unit₀}
use gocharm.Hook.State.{Files}
use gocharm.Cmd.Destination.{
  Tree, Build, Package, read_revision, write_revision, revision_path, is_allowed, can_clean,
  clean_destination, replace_charm, main1, finish, copy_name, next_revision,
}
use gocharm.Cmd.Copied.{IsBelow, IsDisk, IsApart, can_clean-keeps, copied, cleaned_keeps}

-- What comes before the build leaves the destination's revision alone, and finds the package in a
-- directory of the charm's name.
pub record IsTool {W : Type 0} (build : Build W) (base_of : String → String)
    (file_of : W → String → Option String) (charm target : String) : Type 0 where
  pub getwd : (w : W) → file_of (build.getwd w).1 target ≡ file_of w target
  pub install : (p : String) (w : W) → file_of (build.install p w).1 target ≡ file_of w target
  pub import_pkg :
      (p cwd : String) (w w' : W) (pkg : Package)
      → build.import_pkg p cwd w ≡ (ok pkg, w')
      → (base_of pkg.dir ≡ charm) × (file_of w' target ≡ file_of w target)

module _ {W : Type 0} (tree : Tree W) (files : Files W) (file_of : W → String → Option String)
    (disk : IsDisk tree files file_of) where
  -- The revision depends on its file alone, and reading it changes nothing.
  read_revision-same :
      (dir : String) (v w : W)
      → file_of v (join_path (dir ∷ "revision" ∷ []))
        ≡ file_of w (join_path (dir ∷ "revision" ∷ []))
      → ((read_revision files dir v).0 ≡ (read_revision files dir w).0)
        × ((read_revision files dir v).1 ≡ v)
  unfolding read_revision revision_path
  read_revision-same dir v w e =
      let target = join_path (dir ∷ "revision" ∷ []) in
      ground (arith, disk.reads target v, disk.reads target w)

  read_revision-itoa :
      (dir : String) (n : ℕ) (w : W)
      → n ≤ 9223372036854775807
      → file_of w (join_path (dir ∷ "revision" ∷ [])) ≡ some (itoa n)
      → read_revision files dir w ≡ (ok (some n), w)
  unfolding read_revision revision_path
  read_revision-itoa dir n w small e =
      let trimmed = trim_space-digits_only (itoa n) (atoi-digits_only n (itoa n) (atoi-itoa n)) in
      ground
        (arith, trimmed, parse_int-itoa n small, disk.reads (join_path (dir ∷ "revision" ∷ [])) w)

module _ {W : Type 0} (tree : Tree W) (files : Files W) (file_of : W → String → Option String)
    (disk : IsDisk tree files file_of) (build : Build W) (base_of : String → String) (repo : String)
    (keep : Bool) (names : List String) where
  replaced :
      (pkg : Package) (dest temp : String) (rev : ℕ) (w w' : W)
      → IsApart tree names (join_path (temp ∷ "charm" ∷ [])) dest
      → rev < 9223372036854775807
      → ((n : String) → is_allowed n ≡ true → In n names)
      → replace_charm tree files build base_of repo keep names pkg dest temp (some rev) w
        ≡ (ok tt, w')
      → file_of w' (join_path (dest ∷ "revision" ∷ [])) ≡ some (itoa (rev + 1))
  unfolding replace_charm write_revision revision_path is_allowed
  replaced pkg dest temp rev w w' away small all h =
      let t = join_path (temp ∷ "charm" ∷ []) in
      let source = join_path (t ∷ "revision" ∷ []) in
      let copy_all = for_each (copy_name tree files build base_of repo keep names t dest) names in
      let making : Act W Unit₀ = wrap masked (files.mkdir_all dest) >> copy_all in
      let cleaning : Act W Unit₀ = wrap masked (clean_destination tree dest) >> making in
      let writing = next_revision tree files build base_of repo keep names t (some rev) in
      let (_, w₁, _, h₁) =
        bind-ok (wrap masked (build.build_charm pkg t temp)) (λ _. writing >> cleaning) w w' tt h in
      let (_, w₂, wrote, h₂) = bind-ok writing (λ _. cleaning) w₁ w' tt h₁ in
      let (_, w₃, cleaned, h₃) =
        bind-ok (wrap masked (clean_destination tree dest)) (λ _. making) w₂ w' tt h₂ in
      let (_, w₄, made, h₄) =
        bind-ok (wrap masked (files.mkdir_all dest)) (λ _. copy_all) w₃ w' tt h₃ in
      let write : files.write_file source (itoa (rev + 1)) w₁ ≡ (ok tt, w₂) = ground arith in
      let make = wrap-ok masked (files.mkdir_all dest) w₃ w₄ tt made in
      let there : file_of w₄ source ≡ some (itoa (rev + 1)) =
        subst (λ v. file_of v source ≡ file_of w₃ source) (ap (λ r. r.1) make)
          (disk.makes dest source w₃)
        ∙ cleaned_keeps tree files file_of disk build base_of repo keep names t dest
            (itoa (rev + 1)) w₂ w₃ away
            (wrap-ok masked (clean_destination tree dest) w₂ w₃ tt cleaned)
        ∙ disk.writes source (itoa (rev + 1)) w₁ w₂ write in
      copied tree files file_of disk build base_of repo keep names t dest (itoa (rev + 1)) names w₄
        w' h₄ away.sources away.targets there (inl (all "revision" refl))

  -- The end of the temporary directory.
  finish-ok :
      (temp q : String) (m : Act W Unit₀) (w w' : W)
      → ¬ (IsBelow temp q)
      → finish tree files build base_of repo keep names temp m w ≡ (ok tt, w')
      → (m w ≡ (ok tt, (m w).1)) × (file_of w' q ≡ file_of (m w).1 q)
  finish-ok temp q m w w' away h =
      let kept = disk.removes temp q (m w).1 away in
      elim (Bool-cases keep) [ inl e ↦ ground arith | inr e ↦ ground (arith, kept) ]

  after :
      {A : Type 0} (q : String) (m : Act W A) (w w' : W) (a : A)
      → file_of (m w).1 q ≡ file_of w q
      → m w ≡ (ok a, w')
      → file_of w' q ≡ file_of w q
  after q m w w' a kept h = subst (λ v. file_of v q ≡ file_of w q) (ap (λ r. r.1) h) kept

  abbrev built : Package → String → Option ℕ → String → Act W Unit₀
  built pkg d found temp =
      finish tree files build base_of repo keep names temp
        (replace_charm tree files build base_of repo keep names pkg d temp found)

  abbrev made : Package → String → Option ℕ → Act W Unit₀
  made pkg d found =
      wrap (λ e. noted e "cannot make temporary directory" []) tree.temp_dir >>= built pkg d found

  abbrev known : Package → String → Act W Unit₀
  known pkg d = wrap (λ e. noted e "cannot read revision" []) (read_revision files d) >>= made pkg d

  -- What main1 does once it has the package.
  abbrev checked : Package → String → Act W Unit₀
  checked pkg d =
      wrap (λ e. noted e "cannot clean destination directory" []) (can_clean tree d)
      >>= (λ _. known pkg d)

  checked-ok :
      (pkg : Package) (dest : String) (rev : ℕ) (w w' : W)
      → ((temp : String) (w w' : W)
          → tree.temp_dir w ≡ (ok temp, w')
          → IsApart tree names (join_path (temp ∷ "charm" ∷ [])) dest
            × ¬ (IsBelow temp (join_path (dest ∷ "revision" ∷ []))))
      → ((n : String) → is_allowed n ≡ true → In n names)
      → rev < 9223372036854775807
      → (read_revision files dest w).0 ≡ ok (some rev)
      → checked pkg dest w ≡ (ok tt, w')
      → file_of w' (join_path (dest ∷ "revision" ∷ [])) ≡ some (itoa (rev + 1))
  checked-ok pkg dest rev w w' apart all small before h =
      let target = join_path (dest ∷ "revision" ∷ []) in
      let (_, w₁, e₁, h₁) =
        bind-ok (wrap (λ e. noted e "cannot clean destination directory" []) (can_clean tree dest))
          (λ _. known pkg dest) w w' tt h in
      let (found, w₂, e₂, h₂) =
        bind-ok (wrap (λ e. noted e "cannot read revision" []) (read_revision files dest))
          (made pkg dest) w₁ w' tt h₁ in
      let (temp, w₃, e₃, h₃) =
        bind-ok (wrap (λ e. noted e "cannot make temporary directory" []) tree.temp_dir)
          (built pkg dest found) w₂ w' tt h₂ in
      let clean =
        after target (can_clean tree dest) w w₁ _
          (can_clean-keeps tree files file_of disk dest target w)
          (wrap-ok _ (can_clean tree dest) w w₁ _ e₁) in
      let (alike, _) = read_revision-same tree files file_of disk dest w₁ w clean in
      let seen = wrap-ok _ (read_revision files dest) w₁ w₂ found e₂ in
      let same : found ≡ some rev = ground arith in
      let (near, far) = apart temp w₂ w₃ (wrap-ok _ tree.temp_dir w₂ w₃ temp e₃) in
      let replacing = replace_charm tree files build base_of repo keep names pkg dest temp in
      let ended : built pkg dest (some rev) temp w₃ ≡ (ok tt, w') =
        subst (λ f. built pkg dest f temp w₃ ≡ (ok tt, w')) same h₃ in
      let (ran, kept) = finish-ok temp target (replacing (some rev)) w₃ w' far ended in
      kept ∙ replaced pkg dest temp rev w₃ (replacing (some rev) w₃).1 near small all ran

  -- From one run of the command to the next: where the destination has a revision below the
  -- highest number of 64 bits and the command ends with success, the destination has the next
  -- revision. The names that are copied are all of those that are allowed, in any order; files
  -- hold what was written or copied to them and are not touched by calls on other paths; what
  -- comes before the build finds the package in a directory of the charm's name; and the
  -- revision that is built lies away from the destination, as the destination's own does from
  -- the temporary directory and from the other names.
  pub main1-read_revision :
      (charm pkg_path : String) (rev : ℕ) (w w' : W)
      → IsTool build base_of file_of charm
          (join_path (join_path (repo ∷ charm ∷ []) ∷ "revision" ∷ []))
      → ((temp : String) (w w' : W)
          → tree.temp_dir w ≡ (ok temp, w')
          → IsApart tree names (join_path (temp ∷ "charm" ∷ [])) (join_path (repo ∷ charm ∷ []))
            × ¬ (IsBelow temp (join_path (join_path (repo ∷ charm ∷ []) ∷ "revision" ∷ []))))
      → ((n : String) → is_allowed n ≡ true → In n names)
      → rev < 9223372036854775807
      → read_revision files (join_path (repo ∷ charm ∷ [])) w ≡ (ok (some rev), w)
      → main1 tree files build base_of repo keep names pkg_path w ≡ (ok tt, w')
      → read_revision files (join_path (repo ∷ charm ∷ [])) w' ≡ (ok (some (rev + 1)), w')
  unfolding main1
  main1-read_revision charm pkg_path rev w w' tool apart all small before h =
      let dest = join_path (repo ∷ charm ∷ []) in
      let target = join_path (dest ∷ "revision" ∷ []) in
      let imported : String → Act W Unit₀ = λ cwd.
        wrap (λ e. noted e "cannot import %q" (pkg_path ∷ [])) (build.import_pkg pkg_path cwd)
        >>= (λ pkg. checked pkg (join_path (repo ∷ base_of pkg.dir ∷ []))) in
      let installed : String → Act W Unit₀ = λ cwd.
        wrap (λ e. noted e "cannot install %q" (pkg_path ∷ [])) (build.install pkg_path)
        >> imported cwd in
      let (cwd, w₁, e₁, h₁) =
        bind-ok (wrap (λ e. noted e "cannot get current directory" []) build.getwd) installed w w'
          tt h in
      let (_, w₂, e₂, h₂) =
        bind-ok (wrap (λ e. noted e "cannot install %q" (pkg_path ∷ [])) (build.install pkg_path))
          (λ _. imported cwd) w₁ w' tt h₁ in
      let (pkg, w₃, e₃, h₃) =
        bind-ok
          (wrap (λ e. noted e "cannot import %q" (pkg_path ∷ [])) (build.import_pkg pkg_path cwd))
          (λ pkg. checked pkg (join_path (repo ∷ base_of pkg.dir ∷ []))) w₂ w' tt h₂ in
      let got =
        after target build.getwd w w₁ cwd (tool.getwd w) (wrap-ok _ build.getwd w w₁ cwd e₁) in
      let put =
        after target (build.install pkg_path) w₁ w₂ tt (tool.install pkg_path w₁)
          (wrap-ok _ (build.install pkg_path) w₁ w₂ tt e₂) in
      let (named, found) =
        tool.import_pkg pkg_path cwd w₂ w₃ pkg
          (wrap-ok _ (build.import_pkg pkg_path cwd) w₂ w₃ pkg e₃) in
      let (alike, _) = read_revision-same tree files file_of disk dest w₃ w (found ∙ put ∙ got) in
      let here : checked pkg dest w₃ ≡ (ok tt, w') =
        subst (λ n. checked pkg (join_path (repo ∷ n ∷ [])) w₃ ≡ (ok tt, w')) named h₃ in
      read_revision-itoa tree files file_of disk dest (rev + 1) w' (omega arith)
        (checked-ok pkg dest rev w₃ w' apart all small (alike ∙ ap (λ r. r.0) before) here)

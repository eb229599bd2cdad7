-- ===== src/Cmd/LocalPath.antt =====
-- cmd/gocharm/gocharm.go: where a module is, by where one of its packages is.
use Prim.Native.String.{◌++◌}
use Prim.Native.String as S
use text.Mathlib.TextLemmas.{nil-append, cons-append}
use gocharm.Base.{
  String, ◌+◌, ◌-◌, ◌≡◌, refl, ap, ◌∙◌, ok, arith, str_eq, str_eq_iff, leb, true, Bool-cases, inl,
  inr,
}
use gocharm.Cmd.Build.{length, take, get_local_path_to_go_module}

length-append : (s t : String) → length (s ++ t) ≡ length s + length t
length-append S.[] t = rw nil-append (omega arith)
length-append (S.◌∷◌ c s) t = rw cons-append (omega (arith, length-append s t))

take-append : (s t : String) → take (length s) (s ++ t) ≡ s
take-append S.[] t = refl
take-append (S.◌∷◌ c s) t = rw cons-append (ap (S.◌∷◌ c) (take-append s t))

length-nil : (s : String) → length s ≡ 0 → s ≡ S.[]
length-nil S.[] h = refl
length-nil (S.◌∷◌ c s) h = absurd (omega (arith, h))

append-nil : (s : String) → s ++ S.[] ≡ s
append-nil S.[] = nil-append S.[]
append-nil (S.◌∷◌ c s) = cons-append c s S.[] ∙ ap (S.◌∷◌ c) (append-nil s)

-- Of a package below its module, found at the same place below the module's directory, the
-- command computes that directory.
pub get_local_path_to_go_module-append :
    (module_path tail root : String)
    → get_local_path_to_go_module module_path (module_path ++ tail) (root ++ tail) ≡ ok root
unfolding get_local_path_to_go_module
get_local_path_to_go_module-append module_path tail root =
    let local = root ++ tail in
    let import_path = module_path ++ tail in
    let m = length-append module_path tail in
    let l = length-append root tail in
    let left : length local - (length import_path - length module_path) ≡ length root =
      omega (arith, m, l) in
    let fits : leb (length module_path) (length import_path) ≡ true = ground (arith, m) in
    let inside : leb (length import_path - length module_path) (length local) ≡ true =
      ground (arith, m, l) in
    elim (Bool-cases (str_eq module_path import_path)) [
      | inl same ↦
          let nil : tail ≡ S.[] =
            length-nil tail
              (omega (arith, m, ap length ((str_eq_iff module_path import_path).0 same))) in
          rw same (ap (λ t. ok (root ++ t)) nil ∙ ap ok (append-nil root))
      | inr other ↦
          rw (other, fits, inside)
            (ap (λ n. ok (take n local)) left ∙ ap ok (take-append root tail))
    ]

-- ===== src/Cmd/Setenv.antt =====
-- cmd/gocharm/gocharm.go: an entry of the environment that the build is given.
use Prim.Native.Char.{code}
use Prim.Native.String as S
use gocharm.Base.{String, ◌≡◌, refl, List, [], ◌∷◌, true, Option, some}
use gocharm.Base.{none, ◌==◌, if◌then◌else◌, arith, newf, Result, ok, panic}
use gocharm.Base.{inl, inr}
use text.Mathlib.TextEquality.{Char-path}
use gocharm.Base.{Option-cases}
use gocharm.Base.Texts.{has_prefix, cut_prefix}

-- `entry[0 : i+1]`, where `i` is the place of the first "=".
unfoldable pub key_prefix : String → Option String
key_prefix S.[] = none
key_prefix (S.◌∷◌ c s) =
    let rest = key_prefix s in
    if code c == b'='
    then some (S.◌∷◌ c S.[])
    else elim rest [ none ↦ none | some p ↦ some (S.◌∷◌ c p) ]

-- The loop over the environment, and the append behind it.
unfoldable pub replace_first : String → String → List String → List String
replace_first prefix entry [] = entry ∷ []
replace_first prefix entry (e ∷ env) =
    let rest = replace_first prefix entry env in
    if has_prefix prefix e then entry ∷ env else e ∷ rest

unfoldable pub setenv : List String → String → Result (List String)
setenv env entry = elim (key_prefix entry) [
  | none ↦ panic (newf "no = in environment entry" [])
  | some prefix ↦ ok (replace_first prefix entry env)
]

-- The first entry of a variable, given by its name with the "=" behind it.
abbrev pub entry_of : String → List String → Option String
entry_of key [] = none
entry_of key (e ∷ env) = if has_prefix key e then some e else entry_of key env

key_prefix-has_prefix :
    (p s : String) → key_prefix p ≡ some p → has_prefix p s ≡ true → key_prefix s ≡ some p
unfolding key_prefix has_prefix cut_prefix
key_prefix-has_prefix S.[] s k h = absurd (ground arith)
key_prefix-has_prefix (S.◌∷◌ c p) S.[] k h = absurd (ground arith)
key_prefix-has_prefix (S.◌∷◌ c p) (S.◌∷◌ d s) k h = elim (Option-cases (key_prefix p)) [
  | inl missing ↦ ground (arith, Char-path d c)
  | inr (q, e) ↦ ground (arith, Char-path d c, key_prefix-has_prefix p s)
]

has_prefix-key_prefix :
    (s p : String) → key_prefix s ≡ some p → (has_prefix p s ≡ true) × (key_prefix p ≡ some p)
unfolding key_prefix has_prefix cut_prefix
has_prefix-key_prefix S.[] p h = absurd (ground arith)
has_prefix-key_prefix (S.◌∷◌ c s) p h = elim (Option-cases (key_prefix s)) [
  | inl missing ↦ ground arith
  | inr (q, e) ↦ ground (arith, has_prefix-key_prefix s q e)
]

entry_of-replace_first :
    (entry key p : String) (env : List String)
    → key_prefix entry ≡ some p
    → key_prefix key ≡ some key
    → entry_of key (replace_first p entry env)
      ≡ (if has_prefix key entry then some entry else entry_of key env)
unfolding replace_first
entry_of-replace_first entry key p [] h k = refl
entry_of-replace_first entry key p (e ∷ env) h k = ground (
  arith,
  has_prefix-key_prefix entry p h,
  key_prefix-has_prefix key e k,
  key_prefix-has_prefix key entry k,
  key_prefix-has_prefix p e,
  entry_of-replace_first entry key p env h k,
)

-- Where setenv does not panic: a later look-up of the entry's own variable finds the entry, and
-- one of any other variable finds what it found before.
pub entry_of-setenv :
    (env after : List String) (entry key : String)
    → setenv env entry ≡ ok after
    → key_prefix key ≡ some key
    → entry_of key after ≡ (if has_prefix key entry then some entry else entry_of key env)
unfolding setenv
entry_of-setenv env after entry key h k = elim (Option-cases (key_prefix entry)) [
  | inl none_there ↦ absurd (ground arith)
  | inr (p, there) ↦ ground (arith, entry_of-replace_first entry key p env there k)
]

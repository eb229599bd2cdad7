-- ===== src/Base/Sort.antt =====
-- sort.Strings: texts in ascending order. Go compares bytes; on UTF-8 that is the order of the code
-- points.
use Prim.Native.Char.{code}
use Prim.Native.String.{String}
use Prim.Native.String as S
use mathlib.Core.Path.{◌≡◌, refl, ap₂, ◌∙◌}
use mathlib.Core.Logic.{inl, inr, ∥∥₁_elim}
use mathlib.Core.Bool.{Bool, true, false}
use mathlib.Core.List.{List, [], ◌∷◌}
use native.Mathlib.Omega.{arith}
use mathlib.Core.List.{Perm, Permᴰ}
use text.Mathlib.TextEquality.{Char-path}
use mathlib.Core.HLevel.{hedberg}
use gocharm.Base.Tests.{str_eq, str_eq_iff, ◌==◌, ltb, if◌then◌else◌, Bool-cases}
use gocharm.Base.Lists.{All}

unfoldable pub le : String → String → Bool
le S.[] t = true
le (S.◌∷◌ c s) S.[] = false
le (S.◌∷◌ c s) (S.◌∷◌ d t) =
    if ltb (code c) (code d) then true else if code c == code d then le s t else false

pub le_total : (s t : String) → le s t ≡ false → le t s ≡ true
unfolding le
le_total S.[] t h = cc
le_total (S.◌∷◌ c s) S.[] h = refl
le_total (S.◌∷◌ c s) (S.◌∷◌ d t) h = ground (arith, le_total s t)

pub le_trans : (s t u : String) → le s t ≡ true → le t u ≡ true → le s u ≡ true
unfolding le
le_trans S.[] t u h k = refl
le_trans (S.◌∷◌ c s) S.[] u h k = cc
le_trans (S.◌∷◌ c s) (S.◌∷◌ d t) S.[] h k = cc
le_trans (S.◌∷◌ c s) (S.◌∷◌ d t) (S.◌∷◌ e u) h k = ground (arith, le_trans s t u)

pub le_antisymm : (s t : String) → le s t ≡ true → le t s ≡ true → s ≡ t
unfolding le
le_antisymm S.[] S.[] h k = refl
le_antisymm S.[] (S.◌∷◌ d t) h k = cc
le_antisymm (S.◌∷◌ c s) S.[] h k = cc
le_antisymm (S.◌∷◌ c s) (S.◌∷◌ d t) h k = ground (arith, Char-path c d, le_antisymm s t)

unfoldable pub insert_sorted : String → List String → List String
insert_sorted s [] = s ∷ []
insert_sorted s (t ∷ ts) = if le s t then s ∷ t ∷ ts else t ∷ insert_sorted s ts

unfoldable pub sort : List String → List String
unfolding insert_sorted
sort [] = []
sort (s ∷ ss) = insert_sorted s (sort ss)

abbrev pub IsSorted : List String → Type 0
IsSorted [] = Unit
IsSorted (s ∷ ss) = All (λ t. le s t ≡ true) ss × IsSorted ss

All-insert_sorted :
    (P : String → Type 0) (s : String) (ts : List String)
    → P s
    → All P ts
    → All P (insert_sorted s ts)
unfolding insert_sorted
All-insert_sorted P s [] h k = (h, tt)
All-insert_sorted P s (t ∷ ts) h k = elim (Bool-cases (le s t)) [
  | inl e ↦ rw e (h, k)
  | inr e ↦ rw e (k.0, All-insert_sorted P s ts h k.1)
]

All-mono :
    (s t : String) (ts : List String)
    → le s t ≡ true
    → All (λ u. le t u ≡ true) ts
    → All (λ u. le s u ≡ true) ts
All-mono s t [] h k = tt
All-mono s t (u ∷ us) h k = (le_trans s t u h k.0, All-mono s t us h k.1)

insert_sorted-IsSorted :
    (s : String) (ts : List String) → IsSorted ts → IsSorted (insert_sorted s ts)
unfolding insert_sorted
insert_sorted-IsSorted s [] h = (tt, tt)
insert_sorted-IsSorted s (t ∷ ts) h = elim (Bool-cases (le s t)) [
  | inl e ↦ rw e ((e, All-mono s t ts e h.0), h)
  | inr e ↦ rw e (
    All-insert_sorted (λ u. le t u ≡ true) s ts (le_total s t e) h.0,
    insert_sorted-IsSorted s ts h.1,
  )
]

pub sort-IsSorted : (ss : List String) → IsSorted (sort ss)
unfolding sort
sort-IsSorted [] = tt
sort-IsSorted (s ∷ ss) = insert_sorted-IsSorted s (sort ss) (sort-IsSorted ss)

-- The order in which two texts are put in does not show.
insert_sorted_comm :
    (s t : String) (us : List String)
    → insert_sorted s (insert_sorted t us) ≡ insert_sorted t (insert_sorted s us)
unfolding insert_sorted
insert_sorted_comm s t [] = ground (arith, le_total s t, le_antisymm s t)
insert_sorted_comm s t (u ∷ us) = ground (
  arith,
  insert_sorted_comm s t us,
  le_total s t,
  le_antisymm s t,
  le_trans s t u,
  le_trans t s u,
  le_total s u,
  le_total t u,
)

sort-permᴰ : {ss ts : List String} → Permᴰ ss ts → sort ss ≡ sort ts
unfolding sort
sort-permᴰ Permᴰ.nil = refl
sort-permᴰ (Permᴰ.cons e p) = ap₂ insert_sorted e (sort-permᴰ p)
sort-permᴰ (Permᴰ.swap {a} {b} {l} e f) =
    insert_sorted_comm a b (sort l) ∙ ap₂ (λ x y. insert_sorted x (insert_sorted y (sort l))) f e
sort-permᴰ (Permᴰ.trans p q) = sort-permᴰ p ∙ sort-permᴰ q

String-discrete : Discrete String
String-discrete s t = elim (Bool-cases (str_eq s t)) [
  | inl e ↦ yes ((str_eq_iff s t).0 e)
  | inr n ↦ no (λ p. cc ((str_eq_iff s t).1 p))
]

texts_set : IsSet (List String)
texts_set = hlevel (hedberg String-discrete)

-- Sorting shows nothing of the order that the texts came in.
pub sort-perm : (ss ts : List String) → Perm ss ts → sort ss ≡ sort ts
sort-perm ss ts p = ∥∥₁_elim p (texts_set _ _) sort-permᴰ

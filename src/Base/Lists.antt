-- ===== src/Base/Lists.antt =====
-- Lists measured by native numbers, and predicates on lists.
use Prim.Native.Nat.{ℕ, suc, ◌+◌}
use Prim.Native.String.{String}
use mathlib.Core.Path.{◌≡◌, refl, sym, ap, subst, ◌∙◌}
use mathlib.Core.Logic.{◌≢◌, ◌⊎◌, inl, inr}
use mathlib.Core.List.{List, [], ◌∷◌, ◌++◌, map}
use native.Mathlib.Omega.{arith}

module _ {ℓ} {A : Type ℓ} where
  abbrev pub length : List A → ℕ
  length [] = 0
  length (x ∷ xs) = suc (length xs)

  pub length-append : (xs ys : List A) → length (xs ++ ys) ≡ length xs + length ys
  length-append [] ys = omega arith
  length-append (x ∷ xs) ys = omega (arith, length-append xs ys)

abbrev pub All {ℓ κ} : {A : Type ℓ} → (A → Type κ) → List A → Type κ
All P [] = Unit
All P (x ∷ xs) = P x × All P xs

-- Membership with its position kept.
abbrev pub In : {A : Type 0} → A → List A → Type 0
In a [] = ⊥
In a (x ∷ xs) = (x ≡ a) ⊎ In a xs

pub All-append {ℓ κ} :
    {A : Type ℓ} (P : A → Type κ) (xs ys : List A) → All P xs → All P ys → All P (xs ++ ys)
All-append P [] ys hx hy = hy
All-append P (x ∷ xs) ys hx hy = (hx.0, All-append P xs ys hx.1 hy)

-- No entry stands twice.
abbrev pub Distinct : {A : Type 0} → List A → Type 0
Distinct [] = Unit
Distinct (x ∷ xs) = All (λ y. y ≢ x) xs × Distinct xs

pub In-append_left : {A : Type 0} (a : A) (xs ys : List A) → In a xs → In a (xs ++ ys)
In-append_left a [] ys h = absurd h
In-append_left a (x ∷ xs) ys (inl e) = inl e
In-append_left a (x ∷ xs) ys (inr h) = inr (In-append_left a xs ys h)

pub In-append_right : {A : Type 0} (a : A) (xs ys : List A) → In a ys → In a (xs ++ ys)
In-append_right a [] ys h = h
In-append_right a (x ∷ xs) ys h = inr (In-append_right a xs ys h)

pub In-append_cases : {A : Type 0} (a : A) (xs ys : List A) → In a (xs ++ ys) → In a xs ⊎ In a ys
In-append_cases a [] ys h = inr h
In-append_cases a (x ∷ xs) ys (inl e) = inl (inl e)
In-append_cases a (x ∷ xs) ys (inr h) = elim (In-append_cases a xs ys h) [
  | inl l ↦ inl (inr l)
  | inr r ↦ inr r
]

-- A predicate holds of all entries when it holds of each one that is in the list.
pub All-of_In {κ} :
    {A : Type 0} (P : A → Type κ) (xs : List A) → ((a : A) → In a xs → P a) → All P xs
All-of_In P [] h = tt
All-of_In P (x ∷ xs) h = (h x (inl refl), All-of_In P xs (λ a i. h a (inr i)))

pub All-at {κ} : {A : Type 0} (P : A → Type κ) {a : A} (xs : List A) → All P xs → In a xs → P a
All-at P [] h i = absurd i
All-at P (x ∷ xs) h (inl e) = subst P e h.0
All-at P (x ∷ xs) h (inr i) = All-at P xs h.1 i

pub In-map : {A B : Type 0} (f : A → B) (a : A) (xs : List A) → In a xs → In (f a) (map f xs)
In-map f a [] h = absurd h
In-map f a (x ∷ xs) (inl e) = inl (ap f e)
In-map f a (x ∷ xs) (inr h) = inr (In-map f a xs h)

-- Entries with the same image are the same entry, where no image stands twice.
pub Distinct-inj :
    {A B : Type 0} (f : A → B) {a b : A} (xs : List A)
    → Distinct (map f xs)
    → In a xs
    → In b xs
    → f a ≡ f b
    → a ≡ b
Distinct-inj f [] d i j e = absurd i
Distinct-inj f (x ∷ xs) d (inl p) (inl q) e = sym p ∙ q
Distinct-inj f (x ∷ xs) d (inl p) (inr j) e =
    absurd (All-at (λ y. y ≢ f x) (map f xs) d.0 (In-map f _ xs j) (sym e ∙ ap f (sym p)))
Distinct-inj f (x ∷ xs) d (inr i) (inl q) e =
    absurd (All-at (λ y. y ≢ f x) (map f xs) d.0 (In-map f _ xs i) (e ∙ ap f (sym q)))
Distinct-inj f (x ∷ xs) d (inr i) (inr j) e = Distinct-inj f xs d.1 i j e

pub Distinct-snoc :
    {A : Type 0} (a : A) (xs : List A) → Distinct xs → All (λ x. x ≢ a) xs → Distinct (xs ++ a ∷ [])
Distinct-snoc a [] d h = (tt, tt)
Distinct-snoc a (x ∷ xs) d h =
    (All-append (λ y. y ≢ x) xs (a ∷ []) d.0 (λ e. h.0 (sym e), tt), Distinct-snoc a xs d.1 h.1)

pub All-map :
    {A : Type 0} {f : A → String} {n : String} (xs : List A)
    → ((x : A) → In x xs → f x ≢ n)
    → All (λ y. y ≢ n) (map f xs)
All-map [] h = tt
All-map (x ∷ xs) h = (h x (inl refl), All-map xs (λ a i. h a (inr i)))

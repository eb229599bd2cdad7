-- ===== src/Base/Inversion.antt =====
-- What a call that succeeds says of the calls that it is made of.
use gocharm.Base.{◌≡◌, arith, Act, Error, ok, ◌>>=◌, wrap, for_each, Result-cases, List, [], ◌∷◌}
use gocharm.Base.{inl, inr}

module _ {W A B : Type 0} where
  pub bind-ok :
      (m : Act W A) (f : A → Act W B) (w w' : W) (b : B)
      → (m >>= f) w ≡ (ok b, w')
      → (a : A) × (w₁ : W) × (m w ≡ (ok a, w₁)) × (f a w₁ ≡ (ok b, w'))
  bind-ok m f w w' b h = elim (Result-cases (m w).0) [
    | inl (a, e) ↦ (a, (m w).1, ground arith, ground arith)
    | inr (inl (x, e)) ↦ absurd (ground arith)
    | inr (inr (x, e)) ↦ absurd (ground arith)
  ]

pub wrap-ok :
    {W A : Type 0} (f : Error → Error) (m : Act W A) (w w' : W) (a : A)
    → wrap f m w ≡ (ok a, w')
    → m w ≡ (ok a, w')
wrap-ok f m w w' a h = ground arith

-- One step for each element in turn, from one world to another.
abbrev pub Each : {W A : Type 0} → (A → W → W → Type 0) → List A → W → W → Type 0
Each P [] w w' = w ≡ w'
Each {W} P (x ∷ xs) w w' = (w₁ : W) × P x w w₁ × Each P xs w₁ w'

-- Calls in turn that succeed are calls that each succeed.
pub for_each-Each :
    {W A : Type 0} (f : A → Act W (Unit {0})) (P : A → W → W → Type 0)
    → ((x : A) (w w₁ : W) → f x w ≡ (ok tt, w₁) → P x w w₁)
    → (xs : List A) (w w' : W) → for_each f xs w ≡ (ok tt, w')
    → Each P xs w w'
unfolding for_each
for_each-Each f P step [] w w' h = ground arith
for_each-Each f P step (x ∷ xs) w w' h =
    let (_, w₁, first, rest) = bind-ok (f x) (λ _. for_each f xs) w w' tt h in
    (w₁, step x w w₁ first, for_each-Each f P step xs w₁ w' rest)

-- ===== src/Base/Effect.antt =====
-- A Go call on mutable state `W`: it returns a value, returns an error, or panics. What was written
-- before an error or a panic stays written, so the state comes back in every case.
use Prim.Native.String.{String}
use mathlib.Core.Path.{◌≡◌, refl}
use mathlib.Core.Logic.{◌⊎◌, inl, inr}
use mathlib.Core.List.{List, [], ◌∷◌}

-- An error value says how the code made it: `newf` by a format and its arguments, `sentinel` as one
-- of the exported error variables, `with_cause` as an error that shows another as its cause, `masked`
-- and `noted` by a wrapping that hides the cause of the error below it.
pub data Error : Type 0 where
  newf : String → List String → Error
  sentinel : String → Error
  with_cause : Error → String → Error
  masked : Error → Error
  noted : Error → String → List String → Error

-- errgo.Cause
abbrev pub cause : Error → Error
cause (with_cause c s) = c
cause e = e

pub data Result (A : Type 0) : Type 0 where
  ok : A → Result A
  err : Error → Result A
  panic : Error → Result A

abbrev pub Act : Type 0 → Type 0 → Type 0
Act W A = W → Result A × W

module _ {W A : Type 0} where
  abbrev pub pure : A → Act W A
  pure a w = (ok a, w)

  abbrev pub raise : Error → Act W A
  raise e w = (err e, w)

  abbrev pub throw : Error → Act W A
  throw e w = (panic e, w)

  -- The wrapper that a returned error gets; a panic passes through.
  abbrev pub wrap : (Error → Error) → Act W A → Act W A
  wrap f m w =
      let (r, w') = m w in
      elim r [ ok a ↦ (ok a, w') | err e ↦ (err (f e), w') | panic e ↦ (panic e, w') ]

module _ {W A B : Type 0} where
  infixl 5 ◌>>=◌ ◌>>◌
  abbrev pub ◌>>=◌ : Act W A → (A → Act W B) → Act W B
  ◌>>=◌ m f w =
      let (r, w') = m w in elim r [ ok a ↦ f a w' | err e ↦ (err e, w') | panic e ↦ (panic e, w') ]

  abbrev pub ◌>>◌ : Act W A → Act W B → Act W B
  m >> k = m >>= λ _. k

-- A call whose error the code does not look at.
abbrev pub ignore : {W A : Type 0} → Act W A → Act W (Unit {0})
ignore m w = let (r, w') = m w in elim r [ panic e ↦ (panic e, w') | _ ↦ (ok tt, w') ]

-- The methods of a component act on its own state `S` beside the rest, `W`.
module _ {S W : Type 0} where
  abbrev pub outside : {A : Type 0} → Act W A → Act (S × W) A
  outside m (s, w) = let (r, w') = m w in (r, (s, w'))

  abbrev pub own : Act (S × W) S
  own (s, w) = (ok s, (s, w))

  abbrev pub update : (S → S) → Act (S × W) (Unit {0})
  update f (s, w) = (ok tt, (f s, w))

-- `for _, x := range xs { if err := f(x); err != nil { return err } }`
unfoldable pub for_each : {W A : Type 0} → (A → Act W (Unit {0})) → List A → Act W (Unit {0})
for_each f [] = pure tt
for_each f (x ∷ xs) = f x >> for_each f xs

pub Result-cases :
    {A : Type 0} (r : Result A)
    → ((a : A) × (r ≡ ok a)) ⊎ ((e : Error) × (r ≡ err e)) ⊎ ((e : Error) × (r ≡ panic e))
Result-cases (ok a) = inl (a, refl)
Result-cases (err e) = inr (inl (e, refl))
Result-cases (panic e) = inr (inr (e, refl))

-- ===== src/Hooktest/Runner/Recorded.antt =====
-- hook/hooktest/hooktest.go: which of a charm's calls of hook tools a test sees.
use gocharm.Base.{String, ◌≡◌, refl, sym, ap, List, [], ◌∷◌, ◌++◌ as append, Bool}
use gocharm.Base.{
  Option, none, some, if◌then◌else◌, str_eq, ◌||◌, Act, Result, ok, err, panic, arith,
}
use gocharm.Base.{Bool-cases, inl, inr}
use mathlib.Core.List.{append-nil, append_assoc}
use gocharm.Hooktest.Runner.{Setup, Marshal, Runner, run, log_call, config_get, unit_get}
use gocharm.Hooktest.Runner.{marshalled, run_with}

-- The hook tools that the runner answers by itself.
abbrev pub answered : String → Bool
answered cmd = str_eq cmd "juju-log" || str_eq cmd "config-get" || str_eq cmd "unit-get"

abbrev pub other_calls : List (String × List String) → List (List String)
other_calls [] = []
other_calls ((cmd, args) ∷ calls) =
    let rest = other_calls calls in if answered cmd then rest else (cmd ∷ args) ∷ rest

module _ {V W : Type 0} (marshal : Marshal V) (setup : Setup V W) where
  -- The calls one after another, whatever comes of each.
  abbrev pub replay : List (String × List String) → Runner × W → Runner × W
  replay [] s = s
  replay ((cmd, args) ∷ calls) s = replay calls (run marshal setup cmd args s).1

  log_call-recorded :
      (args : List String) (s : Runner × W)
      → (log_call marshal setup args s).1.0.recorded ≡ s.0.recorded
  log_call-recorded [] s = refl
  log_call-recorded (x ∷ []) s = refl
  log_call-recorded (x ∷ y ∷ l) s = refl

  marshalled-recorded :
      (r : Result String) (s : Runner × W)
      → (marshalled marshal setup r s).1.0.recorded ≡ s.0.recorded
  marshalled-recorded (ok t) s = refl
  marshalled-recorded (err e) s = refl
  marshalled-recorded (panic e) s = refl

  config_get-recorded :
      (args : List String) (s : Runner × W)
      → (config_get marshal setup args s).1.0.recorded ≡ s.0.recorded
  config_get-recorded [] s = marshalled-recorded _ s
  config_get-recorded (a ∷ []) s = marshalled-recorded _ s
  config_get-recorded (a ∷ b ∷ []) s = marshalled-recorded _ s
  config_get-recorded (a ∷ b ∷ c ∷ []) s = marshalled-recorded _ s
  config_get-recorded (a ∷ b ∷ c ∷ d ∷ l) s = marshalled-recorded _ s

  unit_get-recorded :
      (args : List String) (s : Runner × W)
      → (unit_get marshal setup args s).1.0.recorded ≡ s.0.recorded
  unit_get-recorded [] s = refl
  unit_get-recorded (x ∷ []) s = ground arith
  unit_get-recorded (x ∷ y ∷ l) s = refl

  record_call-recorded :
      (f : Option (String → List String → Act W String)) (cmd : String) (args : List String)
      (s : Runner × W)
      → (run_with marshal setup f cmd args s).1.0 ≡ s.0
  record_call-recorded none cmd args s = refl
  record_call-recorded (some f) cmd args s = refl

  run-recorded :
      (cmd : String) (args : List String) (s : Runner × W)
      → (run marshal setup cmd args s).1.0.recorded
        ≡ (if answered cmd then s.0.recorded else append s.0.recorded ((cmd ∷ args) ∷ []))
  unfolding run
  run-recorded cmd args (r, w) =
      let r' = record r { recorded = append r.recorded ((cmd ∷ args) ∷ []) } in
      elim (Bool-cases (str_eq cmd "juju-log")) [
        | inl e ↦ rw e (log_call-recorded args (r, w))
        | inr e ↦ elim (Bool-cases (str_eq cmd "config-get")) [
          | inl f ↦ rw (e, f) (config_get-recorded args (r, w))
          | inr f ↦ elim (Bool-cases (str_eq cmd "unit-get")) [
            | inl g ↦ rw (e, f, g) (unit_get-recorded args (r, w))
            | inr g ↦
                rw (e, f, g)
                  (ap (λ (x : Runner). x.recorded)
                    (record_call-recorded setup.run_func cmd args (r', w)))
          ]
        ]
      ]

  -- After any hook tool calls on the runner, whatever comes of each, the record has grown by
  -- exactly those that are neither juju-log nor config-get nor unit-get, with their arguments
  -- and in their order.
  pub replay-recorded :
      (calls : List (String × List String)) (s : Runner × W)
      → (replay calls s).0.recorded ≡ append s.0.recorded (other_calls calls)
  replay-recorded [] s = sym (append-nil s.0.recorded)
  replay-recorded ((cmd, args) ∷ calls) s =
      let before = s.0.recorded in
      ground (
        arith,
        replay-recorded calls (run marshal setup cmd args s).1,
        run-recorded cmd args s,
        append_assoc before ((cmd ∷ args) ∷ []) (other_calls calls),
      )

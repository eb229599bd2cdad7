-- ===== src/Charmbits/HttpService/Charm/Refreshed.antt =====
-- charmbits/httpservice/service.go: the data of the relation fields, after the hook function that
-- newHandlerInfo registers.
use gocharm.Base.{String, ◌≡◌, ◌≢◌, ◌∙◌, ◌⊎◌, inl, inr, List, [], ◌∷◌, map, some}
use gocharm.Base.{none, true, false, arith, Act, Result, Error, ok, err, cause}
use gocharm.Base.{Bool-cases, Result-cases, for_each, All, Distinct, str_eq_iff}
use gocharm.Base.{str_eq_refl}
use gocharm.Base.Dict.{lookup, insert, erase, lookup-insert, lookup-erase}
use gocharm.Base.Inversion.{bind-ok}
use gocharm.Base.Texts.{is_empty}
use gocharm.Charmbits.HttpService.Charm.{HttpService, store_value, refresh_one, refresh}
use gocharm.Charmbits.HttpService.Fields.{is_incomplete}

-- Nothing but the data of a field is changed.
KeepsOthers : String → HttpService → HttpService → Type 0
KeepsOthers name s s' =
    (k : String) → name ≢ k → lookup k s'.relation_values ≡ lookup k s.relation_values

put_lookup :
    (name content : String) (s s' : HttpService)
    → s'.relation_values ≡ insert name content s.relation_values
    → lookup name s'.relation_values ≡ some content
put_lookup name content s s' e =
    ground (arith, lookup-insert name name content s.relation_values, str_eq_refl name)

drop_lookup :
    (name : String) (s s' : HttpService)
    → s'.relation_values ≡ erase name s.relation_values
    → lookup name s'.relation_values ≡ none
drop_lookup name s s' e = ground (arith, lookup-erase name name s.relation_values, str_eq_refl name)

abbrev pub field_name : {W Val : Type 0} → String × Act W Val → String
field_name g = g.0

module _ {W Val : Type 0} (marshal : Val → Result String) where
  -- The data on record of a field is what its value has marshalled to, and there is none where the
  -- relation is incomplete.
  abbrev pub IsCurrent : String × Act W Val → HttpService → Type 0
  IsCurrent (name, getter) s =
      ((e : Error) × (w w' : W) × (getter w ≡ (err e, w'))
        × (is_incomplete (cause e) ≡ true)
        × (lookup name s.relation_values ≡ none))
      ⊎ ((val : Val) × (content : String) × (w w' : W) × (getter w ≡ (ok val, w'))
          × (marshal val ≡ ok content)
          × (is_empty content ≡ false)
          × (lookup name s.relation_values ≡ some content))

  store_value-ok :
      (name content : String) (val : Val) (s s' : HttpService) (w w' : W)
      → marshal val ≡ ok content
      → store_value marshal name val (s, w) ≡ (ok tt, (s', w'))
      → (is_empty content ≡ false) × (s'.relation_values ≡ insert name content s.relation_values)
  store_value-ok name content val s s' w w' m h = ground arith

  refresh_one-ok :
      (name : String) (getter : Act W Val) (s s' : HttpService) (w w' : W)
      → refresh_one marshal (name, getter) (s, w) ≡ (ok tt, (s', w'))
      → IsCurrent (name, getter) s' × KeepsOthers name s s'
  unfolding refresh_one KeepsOthers
  refresh_one-ok name getter s s' w w' h =
      let w₁ = (getter w).1 in
      elim (Result-cases (getter w).0) [
        | inl (val, e) ↦ elim (Result-cases (marshal val)) [
          | inl (content, m) ↦
              let (full, put) = store_value-ok name content val s s' w₁ w' m (ground arith) in
              (
                inr (val, content, w, w₁, ground arith, m, full, put_lookup name content s s' put),
                λ k other.
                    ground
                      (arith, lookup-insert name k content s.relation_values, str_eq_iff name k),
              )
          | inr (inl (x, m)) ↦ absurd (ground arith)
          | inr (inr (x, m)) ↦ absurd (ground arith)
        ]
        | inr (inl (x, e)) ↦ elim (Bool-cases (is_incomplete (cause x))) [
          | inl gone ↦
              let dropped : s'.relation_values ≡ erase name s.relation_values = ground arith in
              (
                inl (x, w, w₁, ground arith, gone, drop_lookup name s s' dropped),
                λ k other. ground (arith, lookup-erase name k s.relation_values, str_eq_iff name k),
              )
          | inr bad ↦ absurd (ground arith)
        ]
        | inr (inr (x, e)) ↦ absurd (ground arith)
      ]

  IsCurrent-kept :
      (g : String × Act W Val) (s s' : HttpService)
      → lookup g.0 s'.relation_values ≡ lookup g.0 s.relation_values
      → IsCurrent g s
      → IsCurrent g s'
  IsCurrent-kept g s s' same (inl (e, w, w', got, gone, none_there)) =
      inl (e, w, w', got, gone, same ∙ none_there)
  IsCurrent-kept g s s' same (inr (val, content, w, w', got, m, full, there)) =
      inr (val, content, w, w', got, m, full, same ∙ there)

  -- In whatever order Go goes through the map of the getters, where the fields have different
  -- names: after the hook function has succeeded, the data of each field is what the value that
  -- its getter returned has marshalled to, which is not empty, or there is none where the getter
  -- found the relation incomplete; and other data is unchanged.
  pub refresh-IsCurrent :
      (getters : List (String × Act W Val)) (s s' : HttpService) (w w' : W)
      → Distinct (map field_name getters)
      → refresh marshal getters (s, w) ≡ (ok tt, (s', w'))
      → All (λ g. IsCurrent g s') getters
        × ((k : String)
            → All (λ n. n ≢ k) (map field_name getters)
            → lookup k s'.relation_values ≡ lookup k s.relation_values)
  unfolding refresh for_each KeepsOthers
  refresh-IsCurrent [] s s' w w' d h = (tt, λ k a. ground arith)
  refresh-IsCurrent (g ∷ gs) s s' w w' d h =
      let (_, (s₁, w₁), first, rest) =
        bind-ok (refresh_one marshal g) (λ _. refresh marshal gs) (s, w) (s', w') tt h in
      let (current, kept) = refresh_one-ok g.0 g.1 s s₁ w w₁ first in
      let (all_current, others) = refresh-IsCurrent gs s₁ s' w₁ w' d.1 rest in
      (
        (IsCurrent-kept g s₁ s' (others g.0 d.0) current, all_current),
        λ k a. others k a.1 ∙ kept k a.0,
      )

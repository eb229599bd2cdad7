-- ===== src/Charmbits/SimpleRelation/Values.antt =====
-- What the requirer sees does not show the order of Go's maps.
use mathlib.Core.List.{Perm}
use mathlib.Core.Path.{ap₂}
use gocharm.Base.{String, ◌≡◌, refl, ap, ◌∙◌, List, [], ◌∷◌}
use gocharm.Base.{◌>>=◌, Act, Result}
use gocharm.Base.Dict.{Dict, lookup, keys}
use gocharm.Base.Sort.{sort, sort-perm}
use gocharm.Hook.Context.{Tools, entries, logf}
use gocharm.Charmbits.SimpleRelation.{
  Requirer, values, one_provider, convert_one, convert_all, strings,
}

-- Two association lists of one map: the same keys in some order, and the same values.
pub record SameMap {V : Type 0} (m n : Dict V) : Type 0 where
  pub same_keys : Perm (keys m) (keys n)
  pub same_values : (k : String) → lookup k m ≡ lookup k n

module _ {W : Type 0} (tools : Tools W) (req : Requirer)
    (convert : Dict String → Result String) where
  convert_all-same :
      (m n : Dict (Dict String)) (ids : List String)
      → ((k : String) → lookup k m ≡ lookup k n)
      → convert_all tools req convert m ids ≡ convert_all tools req convert n ids
  unfolding convert_all
  convert_all-same m n [] h = refl
  convert_all-same m n (id ∷ ids) h =
      ap₂ (convert_one tools req convert id) (h id) (convert_all-same m n ids h)

-- The requirer that sees other association lists of the same relation data.
abbrev pub reordered : Requirer → Dict (Dict (Dict String)) → Requirer
reordered req rel = record req { ctxt = record req.ctxt { relations = rel } }

module _ {W : Type 0} (tools : Tools W) (req : Requirer) (convert : Dict String → Result String)
    (rel : Dict (Dict (Dict String))) where
  -- The conversion reads the relation data from its argument alone.
  convert_all-reordered :
      (m : Dict (Dict String)) (ids : List String)
      → convert_all tools req convert m ids ≡ convert_all tools (reordered req rel) convert m ids
  unfolding convert_all logf
  convert_all-reordered m [] = refl
  convert_all-reordered m (id ∷ ids) =
      ap (convert_one tools req convert id (lookup id m)) (convert_all-reordered m ids)

  abbrev strings_of : Requirer → List String → Act W (List String)
  strings_of r ids = do
    units ← one_provider tools r ids
    convert_all tools r convert units (sort (keys units))

  strings_of-reordered :
      (ids : List String) (w : W)
      → ((id : String) → SameMap (entries (lookup id req.ctxt.relations)) (entries (lookup id rel)))
      → strings_of req ids w ≡ strings_of (reordered req rel) ids w
  unfolding convert_all logf sort
  strings_of-reordered [] w h = ap (λ f. f w) (convert_all-reordered [] (sort []))
  strings_of-reordered (id ∷ []) w h =
      let m = entries (lookup id req.ctxt.relations) in
      let n = entries (lookup id rel) in
      ap (λ f. f w)
        (ap (convert_all tools req convert m) (sort-perm (keys m) (keys n) (h id).same_keys)
          ∙ convert_all-same tools req convert m n (sort (keys n)) (h id).same_values
          ∙ convert_all-reordered n (sort (keys n)))
  strings_of-reordered (a ∷ b ∷ ids) w h = refl

  -- Whatever the order in which Go goes through the map of units, Strings makes the same calls
  -- of the log and returns the same list.
  pub strings_stable :
      (w : W)
      → ((id : String) → SameMap (entries (lookup id req.ctxt.relations)) (entries (lookup id rel)))
      → strings tools req convert w ≡ strings tools (reordered req rel) convert w
  unfolding strings values
  strings_stable w h =
      strings_of-reordered (entries (lookup req.relation_name req.ctxt.relation_ids)) w h

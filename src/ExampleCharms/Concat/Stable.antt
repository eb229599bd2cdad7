-- ===== src/ExampleCharms/Concat/Stable.antt =====
-- example-charms/concat/runhook.go: the charm's value does not show the order of Go's maps.
use mathlib.Core.Path.{ap₂}
use gocharm.Base.{
  String, ◌≡◌, refl, ap, ◌∙◌, List, [], ◌∷◌, ◌++◌ as append, map, Result, ok, err, panic,
}
use gocharm.Charmbits.HttpRelation.{http_port}
use gocharm.Base.{outside, update, ◌>>=◌, masked, wrap, Act, arith}
use gocharm.Base.Dict.{Dict, lookup, keys}
use gocharm.Base.Sort.{sort, sort-perm}
use gocharm.Charmbits.SimpleRelation.Values.{SameMap}
use gocharm.Hook.Context.{Tools, Context, entries, run_tool}
use gocharm.Hook.Query.{Json, get_config_string, get_config, run_json}
use gocharm.ExampleCharms.Concat.{Concatenator, relation_vals, upstream_vals, joined, changed, text}

vals_of : Dict (Dict String) → List String → List String
vals_of units ids = map (λ id. text (lookup "val" (entries (lookup id units)))) ids

vals_same :
    (m n : Dict (Dict String)) (ids : List String)
    → ((k : String) → lookup k m ≡ lookup k n)
    → vals_of m ids ≡ vals_of n ids
unfolding vals_of
vals_same m n [] h = refl
vals_same m n (id ∷ ids) h =
    ap₂ (λ o l. text (lookup "val" (entries o)) ∷ l) (h id) (vals_same m n ids h)

relation_vals_stable : (m n : Dict (Dict String)) → SameMap m n → relation_vals m ≡ relation_vals n
unfolding relation_vals vals_of
relation_vals_stable m n h =
    ap (vals_of m) (sort-perm (keys m) (keys n) h.same_keys)
    ∙ vals_same m n (sort (keys n)) h.same_values

-- The same relation data in other association lists.
abbrev pub SameRelations : Dict (Dict (Dict String)) → Dict (Dict (Dict String)) → Type 0
SameRelations r q = (id : String) → SameMap (entries (lookup id r)) (entries (lookup id q))

upstream_vals_stable :
    (r q : Dict (Dict (Dict String))) (ids : List String)
    → SameRelations r q
    → upstream_vals r ids ≡ upstream_vals q ids
unfolding upstream_vals
upstream_vals_stable r q [] h = refl
upstream_vals_stable r q (id ∷ ids) h =
    ap₂ append (relation_vals_stable (entries (lookup id r)) (entries (lookup id q)) (h id))
      (upstream_vals_stable r q ids h)

abbrev pub turned : Context → Dict (Dict (Dict String)) → Context
turned ctxt q = record ctxt { relations = q }

joined_stable :
    (ctxt : Context) (q : Dict (Dict (Dict String))) (local : String)
    → SameRelations ctxt.relations q
    → joined ctxt local ≡ joined (turned ctxt q) local
unfolding joined
joined_stable ctxt q local h =
    ground (
      arith,
      upstream_vals_stable ctxt.relations q (entries (lookup "upstream" ctxt.relation_ids)) h,
    )

module _ {W : Type 0} (tools : Tools W) (json : Json) where
  abbrev pub SameOutcome :
      Result (Unit {0}) × (Concatenator × W) → Result (Unit {0}) × (Concatenator × W) → Type 0
  SameOutcome x y = (x.0 ≡ y.0) × (x.1.0.new_state ≡ y.1.0.new_state) × (x.1.1 ≡ y.1.1)

  abbrev new_val : String → Act (Concatenator × W) (Unit {0})
  new_val local =
      update (λ c. record c {
        new_state = record { val = joined c.ctxt local; port = http_port c.http };
      })

  read_stable :
      (r : Result String) (c : Concatenator) (q : Dict (Dict (Dict String))) (w : W)
      → SameRelations c.ctxt.relations q
      → SameOutcome
          ((outside (λ v. (r, v)) >>= new_val) (c, w))
          ((outside (λ v. (r, v)) >>= new_val) (record c { ctxt = turned c.ctxt q }, w))
  read_stable (ok local) c q w h = (
    refl,
    ap (λ v. record { val = v; port = http_port c.http }) (joined_stable c.ctxt q local h),
    refl,
  )
  read_stable (err e) c q w h = (refl, refl, refl)
  read_stable (panic e) c q w h = (refl, refl, refl)

  -- Whatever the order in which Go goes through the maps of units, the concat charm's changed
  -- has the same result, the same calls and the same new state.
  pub changed_stable :
      (c : Concatenator) (q : Dict (Dict (Dict String))) (w : W)
      → SameRelations c.ctxt.relations q
      → SameOutcome
          (changed tools json (c, w))
          (changed tools json (record c { ctxt = turned c.ctxt q }, w))
  unfolding changed get_config_string get_config run_json run_tool
  changed_stable c q w h =
      let (r, w') = wrap masked (get_config_string tools json c.ctxt "val") w in
      read_stable r c q w' h

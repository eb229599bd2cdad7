-- ===== src/Hook/Registry/Names.antt =====
-- The names of the registries that calls of Clone make.
use gocharm.Base.{String, ◌≡◌, ◌≢◌, ◌⊎◌, inl, inr, refl, sym, ap, subst, ◌∙◌, true, false}
use gocharm.Base.{List, [], ◌∷◌, ◌++◌, map, In, All-map, Distinct, Distinct-snoc, Distinct-inj}
use gocharm.Base.{In-append_left, In-append_right, In-append_cases}
use mathlib.Core.List.{map-append, append_assoc, append-nil}
use gocharm.Base.Dict.{lookup}
use gocharm.Base.Texts.{contains_rune, dotted, dotted_inj, no_dot}
use gocharm.Hook.Juju.{Juju}
use gocharm.Hook.Registry.{View, Registry, SharedRegistry, taken, new_registry, clone}
use gocharm.Hook.Registry.Effects.{Keeps, Keeps-refl, perform-Keeps, perform-Created}
use gocharm.Hook.Registry.Calls.{Call, perform, at, Reach, start, call}

abbrev pub name_of : Registry → String
name_of r = r.name

abbrev Origin : List Registry → Registry → Type 0
Origin rs q =
    (q.name ≡ "root")
    ⊎ ((p : Registry) × (c : String) × In p rs
        × (contains_rune c b'.' ≡ false)
        × (taken (lookup c p.clones) ≡ true)
        × (q.name ≡ dotted p.name c))

-- Names differ, and each but the root's is that of a registry joined to a name it has cloned.
pub record IsNamed (rs : List Registry) : Type 0 where
  pub distinct : Distinct (map name_of rs)
  pub origin : (q : Registry) → In q rs → Origin rs q

module _ (after : List Registry) (r r' : Registry) (k : Keeps r r') where
  map-replace :
      (before : List Registry)
      → map name_of (before ++ r' ∷ after) ≡ map name_of (before ++ r ∷ after)
  map-replace [] = ap (λ n. n ∷ map name_of after) k.name
  map-replace (b ∷ before) = ap (λ l. b.name ∷ l) (map-replace before)

  pub forward :
      (before : List Registry) (p : Registry)
      → In p (before ++ r ∷ after)
      → (p' : Registry) × In p' (before ++ r' ∷ after) × Keeps p p'
  forward [] p (inl e) = (r', inl refl, subst (λ x. Keeps x r') e k)
  forward [] p (inr i) = (p, inr i, Keeps-refl p)
  forward (b ∷ before) p (inl e) = (p, inl e, Keeps-refl p)
  forward (b ∷ before) p (inr i) = let (p', i', k') = forward before p i in (p', inr i', k')

  backward :
      (before : List Registry) (q : Registry)
      → In q (before ++ r' ∷ after)
      → (p : Registry) × In p (before ++ r ∷ after) × (q.name ≡ p.name)
  backward [] q (inl e) = (r, inl refl, subst (λ x. x.name ≡ r.name) e k.name)
  backward [] q (inr i) = (q, inr i, refl)
  backward (b ∷ before) q (inl e) = (q, inl e, refl)
  backward (b ∷ before) q (inr i) = let (p, i', e) = backward before q i in (p, inr i', e)

  replace-IsNamed :
      (before : List Registry) → IsNamed (before ++ r ∷ after) → IsNamed (before ++ r' ∷ after)
  replace-IsNamed before h = record {
    distinct = rw (map-replace before) h.distinct;
    origin = λ q i.
        let (p, j, e) = backward before q i in
        elim (h.origin p j) [
          | inl root ↦ inl (e ∙ root)
          | inr (o, c, io, plain, used, named) ↦
              let (o', io', ko) = forward before o io in
              inr (
                o',
                c,
                io',
                plain,
                ko.clones c used,
                e ∙ named ∙ ap (λ n. dotted n c) (sym ko.name),
              )
        ];
  }

root_plain : contains_rune "root" b'.' ≡ false
unfolding contains_rune
root_plain = refl

module _ (rs : List Registry) (h : IsNamed rs) where
  -- No registry has the name of a clone that its parent has not made before.
  fresh :
      (r : Registry) (c : String)
      → In r rs
      → contains_rune c b'.' ≡ false
      → taken (lookup c r.clones) ≡ false
      → (x : Registry) → In x rs
      → x.name ≡ dotted r.name c
      → ⊥
  fresh r c ir plain unused x ix e = elim (h.origin x ix) [
    | inl root ↦ no_dot "root" r.name c root_plain (sym root ∙ e)
    | inr (p, d, ip, plain', used, named) ↦
        let (pn, dc) = dotted_inj p.name r.name d c plain' plain (sym named ∙ e) in
        let same = Distinct-inj name_of rs h.distinct ip ir pn in
        cc (
          ap (λ (y : Registry). taken (lookup c y.clones)) same,
          ap (λ y. taken (lookup y p.clones)) dc,
        )
  ]

  snoc-IsNamed :
      (q : Registry)
      → Origin rs q
      → ((x : Registry) → In x rs → x.name ≢ q.name)
      → IsNamed (rs ++ q ∷ [])
  snoc-IsNamed q o new = record {
    distinct = rw map-append (Distinct-snoc q.name (map name_of rs) h.distinct (All-map rs new));
    origin = λ x i. elim (In-append_cases x rs (q ∷ []) i) [
      | inl old ↦ widen x (h.origin x old)
      | inr (inl e) ↦ subst (λ y. Origin (rs ++ q ∷ []) y) e (widen q o)
      | inr (inr bad) ↦ absurd bad
    ];
  }
    where
      widen : (x : Registry) → Origin rs x → Origin (rs ++ q ∷ []) x
      widen x (inl root) = inl root
      widen x (inr (p, c, ip, plain, used, named)) =
          inr (p, c, In-append_left p rs (q ∷ []) ip, plain, used, named)

perform-IsNamed :
    {W : Type 0} (juju : Juju) (before after : List Registry) (r : Registry) (s : SharedRegistry W)
    (c : Call W)
    → IsNamed (before ++ r ∷ after)
    → IsNamed (
        before
        ++ (perform juju c (at juju r s)).1.registry ∷ (after ++ (perform juju c (at juju r s)).0))
perform-IsNamed juju before after r s c h =
    let r' = (perform juju c (at juju r s)).1.registry in
    let k = perform-Keeps juju c r s in
    let kept = replace-IsNamed after r r' k before h in
    elim (perform-Created juju c r s) [
      | inl none_made ↦ rw none_made (rw append-nil kept)
      | inr (q, name, made, clone) ↦ rw made (
          subst IsNamed (append_assoc before (r' ∷ after) (q ∷ [])) (
            snoc-IsNamed (before ++ r' ∷ after) kept q
              (inr (
                r',
                name,
                In-append_right r' before (r' ∷ after) (inl refl),
                clone.plain,
                clone.noted,
                clone.named ∙ ap (λ n. dotted n name) (sym k.name),
              ))
              λ x ix e.
                let (y, iy, yn) = backward after r r' k before x ix in
                fresh (before ++ r ∷ after) h r name
                  (In-append_right r before (r ∷ after) (inl refl)) clone.plain clone.unused y iy
                  (sym yn ∙ e ∙ clone.named)))
    ]

-- Whatever is registered on a new registry and on the clones made from it, and in whatever
-- order, no two of the registries have the same name, and each but the root's is named after a
-- registry and a dot-free name that this one has cloned.
pub Reach-IsNamed :
    {W : Type 0} (juju : Juju) {rs : List Registry} {s : SharedRegistry W}
    → Reach juju rs s
    → IsNamed rs
Reach-IsNamed {W} juju (start v e) =
    subst (λ (x : View W). IsNamed (x.registry ∷ [])) (sym e)
      (record { distinct = (tt, tt); origin = λ q i. root_origin q i })
  where
    root_origin :
        (q : Registry)
        → In q ((new_registry {W = W}).registry ∷ [])
        → Origin ((new_registry {W = W}).registry ∷ []) q
    root_origin q (inl p) = inl (ap name_of (sym p))
    root_origin q (inr bad) = absurd bad
Reach-IsNamed juju (call before after r s c reach) =
    perform-IsNamed juju before after r s c (Reach-IsNamed juju reach)

-- ===== src/Fingerprint/Merge/Tables.antt =====
-- What a merge does to the tables of a fingerprint: its sources, entitlements and products.
use mathlib.Core.Path.{subst}
use mathlib.Core.List.{map-append}
use quipucords.Prelude.{
  String, ◌≡◌, refl, sym, ◌∙◌, ap, Bool, true, false, not, ◌&&◌, ◌||◌, Option, none, some, List, [],
  ◌∷◌, ◌++◌, map, contains, arith, string_eq, ◌==◌, Bool-cases, Option-cases, inl, inr,
  contains-append, ◌⊎◌,
}
use quipucords.Prelude.Dict.{Dict, lookup, insert, lookup-insert}
use text.Mathlib.TextEquality.{eq_iff}
use quipucords.Fingerprint.Model.{
  ok, SourceRef, Entitlement, Product, is_absent, ok_injective, err≢ok, >>=-ok_parts,
}
use quipucords.Fingerprint.Merge.{
  merge_sources, unique_entitlements, unique_entitlement_id, merge_entitlements, or_empty,
  merge_each_product, replace_product,
}

abbrev pub or_else {ℓ} : {A : Type ℓ} → Option A → Option A → Option A
or_else none b = b
or_else (some a) _ = some a

-- The merged sources are those of both; the first fingerprint's entry stands where both have one.
pub lookup-merge_sources :
    (k : String) (m p : Dict String SourceRef)
    → lookup k (merge_sources m p) ≡ or_else (lookup k p) (lookup k m)
unfolding merge_sources
lookup-merge_sources k [] p = ground arith
lookup-merge_sources k ((j, s) ∷ m) p = ground (
  arith,
  eq_iff j k,
  lookup-insert j k s p,
  lookup-merge_sources k m p,
  lookup-merge_sources k m (insert j s p),
)

abbrev pub ids : List Entitlement → List String
ids = map unique_entitlement_id

-- No text occurs twice.
abbrev pub Distinct : List String → Type 0
Distinct [] = Unit
Distinct (x ∷ xs) = (contains x xs ≡ false) × Distinct xs

ids-unique_entitlements :
    (i : String) (seen : List String) (es : List Entitlement)
    → contains i (ids (unique_entitlements seen es))
      ≡ (contains i (ids es) && not (contains i seen))
unfolding unique_entitlements
ids-unique_entitlements i seen [] = refl
ids-unique_entitlements i seen (e ∷ es) =
    let j = unique_entitlement_id e in
    elim (Bool-cases (contains j seen)) [
      | inl old ↦ rw old (ground (arith, eq_iff j i, ids-unique_entitlements i seen es))
      | inr new ↦ rw new (ground (arith, eq_iff j i, ids-unique_entitlements i (j ∷ seen) es))
    ]

Distinct-unique_entitlements :
    (seen : List String) (es : List Entitlement) → Distinct (ids (unique_entitlements seen es))
unfolding unique_entitlements
Distinct-unique_entitlements seen [] = tt
Distinct-unique_entitlements seen (e ∷ es) =
    let j = unique_entitlement_id e in
    elim (Bool-cases (contains j seen)) [
      | inl old ↦ rw old (Distinct-unique_entitlements seen es)
      | inr new ↦ rw new (
        ground (arith, eq_iff j j, ids-unique_entitlements j (j ∷ seen) es),
        Distinct-unique_entitlements (j ∷ seen) es,
      )
    ]

and_true : (b : Bool) → (b && true) ≡ b
and_true true = refl
and_true false = refl

-- Where the second fingerprint has entitlements, the merged list has those of both: exactly their
-- ids, each once.
pub merge_entitlements_union :
    (e : Entitlement) (es : List Entitlement) (p : Option (List Entitlement)) (i : String)
    → let merged = or_empty (merge_entitlements (some (e ∷ es)) p) in
      (contains i (ids merged) ≡ (contains i (ids (or_empty p)) || contains i (ids (e ∷ es))))
      × Distinct (ids merged)
unfolding merge_entitlements
merge_entitlements_union e es p i =
    let all = or_empty p ++ (e ∷ es) in
    (
      ids-unique_entitlements i [] all
          ∙ ap (λ b. b && true)
              (ap (contains i) (map-append unique_entitlement_id (or_empty p) (e ∷ es))
                ∙ contains-append i (ids (or_empty p)) (ids (e ∷ es)))
          ∙ and_true _,
      Distinct-unique_entitlements [] all,
    )

-- What becomes of a product: it is there, and is another only if it was absent and that one is not.
abbrev pub Kept : Product → Product → Type 0
Kept y z = (z ≡ y) ⊎ ((is_absent y.presence ≡ true) × (is_absent z.presence ≡ false))

Kept-trans : (x y z : Product) → Kept x y → Kept y z → Kept x z
Kept-trans x y z a (inl e) = subst (Kept x) (sym e) a
Kept-trans x y z (inl e) (inr b) =
    inr (sym (ap (λ (t : Product). is_absent t.presence) e) ∙ b.0, b.1)
Kept-trans x y z (inr a) (inr b) = inr (a.0, b.1)

replace_product-keeps :
    (x : Product) (d d' : Dict String Product) (n : String) (y : Product)
    → replace_product (lookup x.name d) x d ≡ ok d'
    → lookup n d ≡ some y
    → (z : Product) × (lookup n d' ≡ some z) × Kept y z
replace_product-keeps x d d' n y h e = elim (Option-cases (lookup x.name d)) [
  | inl gone ↦ absurd (err≢ok (sym (ap (λ o. replace_product o x d) gone) ∙ h))
  | inr (w, found) ↦
      let same = ok_injective (sym (ap (λ o. replace_product o x d) found) ∙ h) in
      elim (Bool-cases (is_absent w.presence && not (is_absent x.presence) && x.name == n)) [
        | inl new ↦ (
          x,
          subst (λ t. lookup n t ≡ some x) same (ground (arith, lookup-insert x.name n x d)),
          inr (ground (arith, eq_iff x.name n)),
        )
        | inr old ↦ (
          y,
          subst (λ t. lookup n t ≡ some y) same (ground (arith, lookup-insert x.name n x d)),
          inl refl,
        )
      ]
]

-- However the loop over the products ends well, each product that the first fingerprint had is
-- still there under its name, and is another one only if it was absent and that one is not.
pub merge_each_product-keeps :
    (xs : List Product) (d d' : Dict String Product) (n : String) (y : Product)
    → merge_each_product xs d ≡ ok d'
    → lookup n d ≡ some y
    → (z : Product) × (lookup n d' ≡ some z) × Kept y z
unfolding merge_each_product
merge_each_product-keeps [] d d' n y h e =
    (y, subst (λ t. lookup n t ≡ some y) (ok_injective h) e, inl refl)
merge_each_product-keeps (x ∷ xs) d d' n y h e =
    let (d₁, h₁, h₂) =
      >>=-ok_parts (replace_product (lookup x.name d) x d) (λ t. merge_each_product xs t) h in
    let (z, found, kept) = replace_product-keeps x d d₁ n y h₁ e in
    let (z', found', kept') = merge_each_product-keeps xs d₁ d' n z h₂ found in
    (z', found', Kept-trans y z z' kept kept')

-- ===== src/Fingerprint/Merge/Defined.antt =====
-- The steps of a merge raise nothing where the metadata and the products that they read are there.
use quipucords.Prelude.{
  String, ◌≡◌, refl, sym, ◌∙◌, ap, true, false, not, ◌&&◌, ◌||◌, Option, none, some, is_some, List,
  [], ◌∷◌, map, contains, arith, string_eq, if◌then◌else◌, Option-cases, inl, inr, All,
}
use mathlib.Core.Path.{subst}
use text.Mathlib.TextEquality.{eq_iff}
use quipucords.Prelude.Dict.{Dict, lookup, has_key, insert, lookup-insert, values}
use quipucords.Fingerprint.Model.{
  ◌>>=◌, ok, Fingerprint, Product, is_table, ok_injective, err≢ok, is_absent, Entitlement,
}
use quipucords.Fingerprint.Merge.{
  set_fact, merge_facts, by_name, replace_product, merge_each_product, merge_products, or_empty,
  get, merge_entitlements,
}
use quipucords.Fingerprint.Merge.Facts.{merge_facts-cons, merge_facts-missing}

pub All-of_contains :
    (P : String → Type 0) (ks : List String)
    → ((k : String) → contains k ks ≡ true → P k)
    → All P ks
All-of_contains P [] h = tt
All-of_contains P (k ∷ ks) h =
    (h k (ground (arith, eq_iff k k)), All-of_contains P ks (λ j e. h j (ground arith)))

pub merge_facts-ok :
    (ks : List String) (m p : Fingerprint)
    → All (λ k. has_key k m.metadata ≡ true) ks
    → (q : Fingerprint) × (merge_facts ks m p ≡ ok q)
unfolding merge_facts
merge_facts-ok [] m p h = (p, refl)
merge_facts-ok (k ∷ ks) m p h = elim (Option-cases (lookup k m.metadata)) [
  | inl e ↦ cc (sym (ap is_some e) ∙ h.0)
  | inr (md, e) ↦
      let (q, done) =
        merge_facts-ok ks m (set_fact k m (record p { metadata = insert k md p.metadata })) h.1 in
      (q, merge_facts-cons k ks m p md e ∙ done)
]

pub set_fact-tables :
    (k : String) (m p : Fingerprint)
    → is_table k ≡ false
    → ((set_fact k m p).products ≡ p.products) × ((set_fact k m p).entitlements ≡ p.entitlements)
set_fact-tables k m p plain = ground arith

pub set_fact-plain :
    (j k : String) (m p : Fingerprint)
    → is_table k ≡ true
    → is_table j ≡ false
    → lookup k (set_fact j m p).facts ≡ lookup k p.facts
set_fact-plain j k m p t plain =
    ground (arith, eq_iff j k, lookup-insert j k (get j m.facts) p.facts)

-- Facts are added with no change to the tables.
pub merge_facts-tables :
    (ks : List String) (m p q : Fingerprint)
    → All (λ k. is_table k ≡ false) ks
    → merge_facts ks m p ≡ ok q
    → (q.products ≡ p.products) × (q.entitlements ≡ p.entitlements)
unfolding merge_facts
merge_facts-tables [] m p q h e =
    subst (λ (t : Fingerprint). (t.products ≡ p.products) × (t.entitlements ≡ p.entitlements))
      (ok_injective e) (refl, refl)
merge_facts-tables (k ∷ ks) m p q h e = elim (Option-cases (lookup k m.metadata)) [
  | inl gone ↦ absurd (err≢ok (sym (merge_facts-missing k ks m p gone) ∙ e))
  | inr (md, found) ↦
      let p₁ = record p { metadata = insert k md p.metadata } in
      let rest =
        merge_facts-tables ks m (set_fact k m p₁) q h.1
          (sym (merge_facts-cons k ks m p md found) ∙ e) in
      let kept = set_fact-tables k m p₁ h.0 in (rest.0 ∙ kept.0, rest.1 ∙ kept.1)
]

-- A name of a table is no fact after facts were added.
pub merge_facts-plain :
    (ks : List String) (k : String) (m p q : Fingerprint)
    → is_table k ≡ true
    → All (λ j. is_table j ≡ false) ks
    → merge_facts ks m p ≡ ok q
    → lookup k q.facts ≡ lookup k p.facts
unfolding merge_facts
merge_facts-plain [] k m p q t h e =
    subst (λ (u : Fingerprint). lookup k u.facts ≡ lookup k p.facts) (ok_injective e) refl
merge_facts-plain (j ∷ ks) k m p q t h e = elim (Option-cases (lookup j m.metadata)) [
  | inl gone ↦ absurd (err≢ok (sym (merge_facts-missing j ks m p gone) ∙ e))
  | inr (md, found) ↦
      let p₁ = record p { metadata = insert j md p.metadata } in
      merge_facts-plain ks k m (set_fact j m p₁) q t h.1
        (sym (merge_facts-cons j ks m p md found) ∙ e)
      ∙ set_fact-plain j k m p₁ t h.0
]

pub has_key-by_name :
    (n : String) (ys : List Product) (d : Dict String Product)
    → has_key n (by_name ys d) ≡ (contains n (map (λ (y : Product). y.name) ys) || has_key n d)
has_key-by_name n [] d = refl
has_key-by_name n (y ∷ ys) d =
    has_key-by_name n ys (insert y.name y d) ∙ ground (arith, lookup-insert y.name n y d)

abbrev pub replaced : Product → Product → Dict String Product → Dict String Product
replaced y x d = if is_absent y.presence && not (is_absent x.presence) then insert x.name x d else d

pub All-replaced :
    (y x : Product) (d : Dict String Product) (xs : List Product)
    → All (λ t. has_key t.name d ≡ true) xs
    → All (λ t. has_key t.name (replaced y x d) ≡ true) xs
All-replaced y x d [] h = tt
All-replaced y x d (t ∷ ts) h =
    (ground (arith, h.0, lookup-insert x.name t.name x d), All-replaced y x d ts h.1)

pub merge_each_product-ok :
    (xs : List Product) (d : Dict String Product)
    → All (λ x. has_key x.name d ≡ true) xs
    → (d' : Dict String Product) × (merge_each_product xs d ≡ ok d')
unfolding merge_each_product
merge_each_product-ok [] d h = (d, refl)
merge_each_product-ok (x ∷ xs) d h = elim (Option-cases (lookup x.name d)) [
  | inl e ↦ cc (sym (ap is_some e) ∙ h.0)
  | inr (y, e) ↦
      let (d', done) = merge_each_product-ok xs (replaced y x d) (All-replaced y x d xs h.1) in
      (d', ap (λ o. replace_product o x d >>= λ t. merge_each_product xs t) e ∙ done)
]

pub All-weaken {ℓ} :
    {A : Type ℓ} (P Q : A → Type 0) → ((x : A) → P x → Q x) → (xs : List A) → All P xs → All Q xs
All-weaken P Q f [] h = tt
All-weaken P Q f (x ∷ xs) h = (f x h.0, All-weaken P Q f xs h.1)

pub named :
    (t : Product) (ys : List Product)
    → contains t.name (map (λ (y : Product). y.name) ys) ≡ true
    → has_key t.name (by_name ys []) ≡ true
named t ys e = has_key-by_name t.name ys [] ∙ ap (λ b. b || false) e

pub merge_products-ok :
    (m p : Option (List Product))
    → is_some p ≡ true
    → All (λ x. contains x.name (map (λ (y : Product). y.name) (or_empty p)) ≡ true) (or_empty m)
    → (r : Option (List Product)) × (merge_products m p ≡ ok r) × (is_some r ≡ true)
unfolding merge_products
merge_products-ok none p s h = (p, refl, s)
merge_products-ok (some []) p s h = (p, refl, s)
merge_products-ok (some (x ∷ xs)) none s h = cc
merge_products-ok (some (x ∷ xs)) (some ys) s h =
    let (d, done) =
      merge_each_product-ok (x ∷ xs) (by_name ys [])
        (All-weaken _ _ (λ t e. named t ys e) (x ∷ xs) h) in
    (some (values d), rw done, refl)

pub merge_entitlements-some :
    (m p : Option (List Entitlement)) → is_some p ≡ true → is_some (merge_entitlements m p) ≡ true
unfolding merge_entitlements
merge_entitlements-some none p h = h
merge_entitlements-some (some []) p h = h
merge_entitlements-some (some (e ∷ es)) p h = refl

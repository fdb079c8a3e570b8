-- ===== src/Fingerprint/Merge/Facts.antt =====
-- What a merge does to the facts and to their metadata.
use mathlib.Core.Path.{subst}
use text.Mathlib.TextEquality.{eq_iff}
use quipucords.Prelude.{
  String, ◌≡◌, inl, inr, refl, sym, ◌∙◌, ap, Bool, true, false, not, ◌&&◌, ◌||◌, Option, none, some,
  List, [], ◌∷◌, ◌==◌, string_eq, if◌then◌else◌, contains, arith, contains-append, contains-select,
  Bool-cases, Option-cases,
}
use quipucords.Prelude.Dict.{lookup, has_key, insert, lookup-insert, contains-keys}
use quipucords.Fingerprint.Model.{
  ok, err, ◌>>=◌, key_error, Meta, Fingerprint, entitlements_key, products_key, is_table,
  >>=-ok_parts, ok_injective, err≢ok,
}
use quipucords.Fingerprint.Merge.{
  ReverseKeys, reverse_keys, has_sudo, null_at, keys_to_add, missing_tables, get, set_fact,
  merge_facts, merge_products, merge_in_order, merge_fingerprint, add_with,
}

-- Whether the second fingerprint's value of a fact is taken: the first lacks the fact, or the
-- caller reverses the priority, or both have it and either the first's value alone is `None` or
-- the second's alone was read with sudo.
abbrev pub takes : Option ReverseKeys → Fingerprint → Fingerprint → String → Bool
takes rev p m k =
    has_key k m.facts && not (has_key k p.facts)
    || (contains k (reverse_keys rev)
        || has_key k p.facts
          && (has_key k m.facts
              && (null_at k p && not (null_at k m) || not (has_sudo k p) && has_sudo k m)))

pub set_fact-facts :
    (j k : String) (m p : Fingerprint)
    → is_table k ≡ false
    → lookup k (set_fact j m p).facts ≡ (if j == k then some (get k m.facts) else lookup k p.facts)
set_fact-facts j k m p plain = ground (
  arith,
  eq_iff j k,
  eq_iff j entitlements_key,
  eq_iff j products_key,
  eq_iff k entitlements_key,
  eq_iff k products_key,
  lookup-insert j k (get k m.facts) p.facts,
  lookup-insert j k (get j m.facts) p.facts,
)

set_fact-metadata : (j : String) (m p : Fingerprint) → (set_fact j m p).metadata ≡ p.metadata
set_fact-metadata j m p = ground arith

abbrev with_metadata : String → Meta → Fingerprint → Fingerprint
with_metadata j md p = record p { metadata = insert j md p.metadata }

pub merge_facts-cons :
    (j : String) (ks : List String) (m p : Fingerprint) (md : Meta)
    → lookup j m.metadata ≡ some md
    → merge_facts (j ∷ ks) m p ≡ merge_facts ks m (set_fact j m (with_metadata j md p))
unfolding merge_facts
merge_facts-cons j ks m p md e = ap (λ o. add_with o j m p >>= λ p₁. merge_facts ks m p₁) e

pub merge_facts-missing :
    (j : String) (ks : List String) (m p : Fingerprint)
    → lookup j m.metadata ≡ none
    → merge_facts (j ∷ ks) m p ≡ err (key_error j)
unfolding merge_facts
merge_facts-missing j ks m p e = ap (λ o. add_with o j m p >>= λ p₁. merge_facts ks m p₁) e

merge_facts-nil : (m p q : Fingerprint) → merge_facts [] m p ≡ ok q → p ≡ q
unfolding merge_facts
merge_facts-nil m p q h = ok_injective h

-- One fact and its metadata are the same in both.
abbrev Same : String → Fingerprint → Fingerprint → Type 0
Same k p q = (lookup k q.facts ≡ lookup k p.facts) × (lookup k q.metadata ≡ lookup k p.metadata)

if_or {ℓ} :
    {A : Type ℓ} (a b : Bool) (x z : A)
    → (if b then x else if a then x else z) ≡ (if a || b then x else z)
if_or true true x z = refl
if_or true false x z = refl
if_or false b x z = refl

add-metadata :
    (j k : String) (m p : Fingerprint) (md : Meta)
    → lookup j m.metadata ≡ some md
    → lookup k (set_fact j m (with_metadata j md p)).metadata
      ≡ (if j == k then lookup k m.metadata else lookup k p.metadata)
add-metadata j k m p md e =
    ap (lookup k) (set_fact-metadata j m (with_metadata j md p))
    ∙ lookup-insert j k md p.metadata
    ∙ elim (Bool-cases (j == k)) [
      | inl same ↦ rw same (sym e ∙ ap (λ i. lookup i m.metadata) ((eq_iff j k).0 same))
      | inr other ↦ rw other
    ]

-- Each key that is added has the second's value and the second's metadata; any other fact has the
-- first's.
pub merge_facts-lookup :
    (ks : List String) (k : String) (m p q : Fingerprint)
    → is_table k ≡ false
    → merge_facts ks m p ≡ ok q
    → (lookup k q.facts ≡ (if contains k ks then some (get k m.facts) else lookup k p.facts))
      × (lookup k q.metadata ≡ (if contains k ks then lookup k m.metadata else lookup k p.metadata))
merge_facts-lookup [] k m p q plain h =
    subst (λ r. Same k p r) (merge_facts-nil m p q h) (refl, refl)
merge_facts-lookup (j ∷ ks) k m p q plain h = elim (Option-cases (lookup j m.metadata)) [
  | inl e ↦ absurd (err≢ok (sym (merge_facts-missing j ks m p e) ∙ h))
  | inr (md, e) ↦
      let p₁ = with_metadata j md p in
      let rest =
        merge_facts-lookup ks k m (set_fact j m p₁) q plain
          (sym (merge_facts-cons j ks m p md e) ∙ h) in
      (
        rest.0
            ∙ ap (λ l. if contains k ks then some (get k m.facts) else l)
                (set_fact-facts j k m p₁ plain)
            ∙ if_or (j == k) (contains k ks) _ _,
        rest.1
            ∙ ap (λ l. if contains k ks then lookup k m.metadata else l) (add-metadata j k m p md e)
            ∙ if_or (j == k) (contains k ks) _ _,
      )
]

-- What a merge leaves of a fact and its metadata: both are the second's, or both the first's.
pub record Settled (taken : Bool) (k : String) (p m q : Fingerprint) : Type 0 where
  pub fact : lookup k q.facts ≡ (if taken then some (get k m.facts) else lookup k p.facts)
  pub metadata : lookup k q.metadata ≡ (if taken then lookup k m.metadata else lookup k p.metadata)

contains-missing_tables :
    (p m : Fingerprint) (k : String) → is_table k ≡ false → contains k (missing_tables p m) ≡ false
unfolding missing_tables
contains-missing_tables p m k plain = ground (
  arith,
  eq_iff entitlements_key k,
  eq_iff k entitlements_key,
  eq_iff products_key k,
  eq_iff k products_key,
)

pub contains-keys_to_add :
    (rev : Option ReverseKeys) (p m : Fingerprint) (k : String)
    → contains k (missing_tables p m) ≡ false
    → contains k (keys_to_add rev p m) ≡ takes rev p m k
unfolding keys_to_add
contains-keys_to_add rev p m k plain = simp (contains-append, contains-select, contains-keys, plain)

-- The keys to add may be walked in any order, and a key more than once.
abbrev pub IsOrderOf : List String → List String → Type 0
IsOrderOf keys order = (k : String) → contains k order ≡ contains k keys

-- What a merge that succeeds makes of a fact, in whatever order it walks the keys to add: the second
-- fingerprint's value where that is to be taken, else the first's, each with its own metadata.
pub merge_in_order-Settled :
    (rev : Option ReverseKeys) (p m r : Fingerprint) (order : List String) (k : String)
    → IsOrderOf (keys_to_add rev p m) order
    → is_table k ≡ false
    → merge_in_order order p m ≡ ok r
    → Settled (takes rev p m k) k p m r
merge_in_order-Settled rev p m r order k ordered plain h =
    let (q, merged, h₁) = >>=-ok_parts (merge_facts order m p) _ h in
    let (products, _, h₂) = >>=-ok_parts (merge_products m.products q.products) _ h₁ in
    let settled = merge_facts-lookup order k m p q plain merged in
    let same = ordered k ∙ contains-keys_to_add rev p m k (contains-missing_tables p m k plain) in
    subst (λ b. Settled b k p m r) same
      (subst (λ f. Settled (contains k order) k p m f) (ok_injective h₂)
        (record { fact = settled.0; metadata = settled.1 }))

pub merge_fingerprint-Settled :
    (rev : Option ReverseKeys) (p m r : Fingerprint) (k : String)
    → is_table k ≡ false
    → merge_fingerprint rev p m ≡ ok r
    → Settled (takes rev p m k) k p m r
unfolding merge_fingerprint
merge_fingerprint-Settled rev p m r k plain h =
    merge_in_order-Settled rev p m r (keys_to_add rev p m) k (λ j. refl) plain h

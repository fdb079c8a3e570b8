-- ===== src/Fingerprint/Merge/Total.antt =====
-- When a merge raises nothing, and what it keeps of a well-formed fingerprint.
use quipucords.Json.{Value, is_null}
use mathlib.Core.Bool.{false≢true}
use quipucords.Prelude.{
  String, ◌≡◌, ◌≢◌, refl, sym, ◌∙◌, ap, Bool, true, false, Option, none, some, is_some, List, [],
  map, contains, arith, string_eq, if◌then◌else◌, Bool-cases, inl, inr, All,
}
use mathlib.Core.Path.{subst}
use quipucords.Prelude.Dict.{lookup, has_key}
use quipucords.Fingerprint.Model.{◌>>=◌, ok, Fingerprint, Product, is_table, global_id_key}
use quipucords.Fingerprint.Merge.{
  ReverseKeys, reverse_keys, null_at, keys_to_add, missing_tables, merge_facts, merge_products,
  or_empty, merge_fingerprint, get, merge_sources, merge_entitlements,
}
use quipucords.Fingerprint.Merge.Facts.{
  takes, Settled, contains-keys_to_add, merge_fingerprint-Settled,
}
use quipucords.Fingerprint.Merge.Defined.{
  All-of_contains, merge_facts-ok, merge_facts-tables, merge_facts-plain, merge_products-ok,
  merge_entitlements-some,
}

-- A fingerprint as the methods that process facts build it: each fact but the global id has its
-- metadata, the global id has none and is no `None`, no fact is named like a table, and both
-- optional tables are there.
pub record IsWellFormed (fp : Fingerprint) : Type 0 where
  pub covered :
      (k : String) → has_key k fp.facts ≡ true → k ≢ global_id_key → has_key k fp.metadata ≡ true
  pub id_bare : has_key global_id_key fp.metadata ≡ false
  pub id_set : null_at global_id_key fp ≡ false
  pub plain : (k : String) → is_table k ≡ true → has_key k fp.facts ≡ false
  pub with_entitlements : is_some fp.entitlements ≡ true
  pub with_products : is_some fp.products ≡ true

-- The products of the second have names that the first knows.
abbrev pub Named : Fingerprint → Fingerprint → Type 0
Named p m =
    All (λ x. contains x.name (map (λ (y : Product). y.name) (or_empty p.products)) ≡ true)
      (or_empty m.products)

abbrev null_in : Option Value → Bool
null_in o = elim o [ none ↦ false | some v ↦ is_null v ]

abbrev finished : Fingerprint → Fingerprint → Option (List Product) → Fingerprint
finished m q products = record q {
  sources = merge_sources m.sources q.sources;
  entitlements = merge_entitlements m.entitlements q.entitlements;
  products = products;
}

merge_fingerprint-parts :
    (rev : Option ReverseKeys) (p m q : Fingerprint) (products : Option (List Product))
    → merge_facts (keys_to_add rev p m) m p ≡ ok q
    → merge_products m.products q.products ≡ ok products
    → merge_fingerprint rev p m ≡ ok (finished m q products)
unfolding merge_fingerprint
merge_fingerprint-parts rev p m q products h h' =
    ap (λ x. x >>= λ q'. merge_products m.products q'.products >>= λ o. ok (finished m q' o)) h
    ∙ ap (λ x. x >>= λ o. ok (finished m q o)) h'

module _ (rev : Option ReverseKeys) (p m : Fingerprint) (no_reverse : reverse_keys rev ≡ [])
    (wp : IsWellFormed p) (wm : IsWellFormed m)
    (same_id : has_key global_id_key m.facts ≡ has_key global_id_key p.facts)
    (names : Named p m) where
  no_tables : (k : String) → contains k (missing_tables p m) ≡ false
  unfolding missing_tables
  no_tables k = ground (arith, wp.with_entitlements, wp.with_products)

  takes_has : (k : String) → takes rev p m k ≡ true → has_key k m.facts ≡ true
  takes_has k h = ground (arith, no_reverse)

  takes_id : takes rev p m global_id_key ≡ false
  takes_id = ground (arith, no_reverse, same_id, wp.id_set, wm.id_bare)

  added_covered :
      (k : String)
      → contains k (keys_to_add rev p m) ≡ true
      → (has_key k m.metadata ≡ true) × (is_table k ≡ false)
  added_covered k h =
      let taken = sym (contains-keys_to_add rev p m k (no_tables k)) ∙ h in
      let has = takes_has k taken in
      (
        wm.covered k has (λ e. false≢true (sym takes_id ∙ ap (takes rev p m) (sym e) ∙ taken)),
        elim (Bool-cases (is_table k)) [
          | inl t ↦ absurd (false≢true (sym (wm.plain k t) ∙ has))
          | inr f ↦ f
        ],
      )

  merge_ok :
      (r : Fingerprint) × (merge_fingerprint rev p m ≡ ok r)
      × ((k : String) → is_table k ≡ true → has_key k r.facts ≡ false)
      × (is_some r.entitlements ≡ true)
      × (is_some r.products ≡ true)
  unfolding merge_fingerprint
  merge_ok =
      let ks = keys_to_add rev p m in
      let covered =
        All-of_contains (λ k. has_key k m.metadata ≡ true) ks (λ k e. (added_covered k e).0) in
      let plain = All-of_contains (λ k. is_table k ≡ false) ks (λ k e. (added_covered k e).1) in
      let (q, done) = merge_facts-ok ks m p covered in
      let tables = merge_facts-tables ks m p q plain done in
      let names' =
        subst
          (λ o.
            All
              (λ (x : Product). contains x.name (map (λ (y : Product). y.name) (or_empty o)) ≡ true)
              (or_empty m.products))
          (sym tables.0) names in
      let (products, done', some') =
        merge_products-ok m.products q.products (ap is_some tables.0 ∙ wp.with_products) names' in
      (
        finished m q products,
        merge_fingerprint-parts rev p m q products done done',
        λ k t. ap is_some (merge_facts-plain ks k m p q t plain done) ∙ wp.plain k t,
        merge_entitlements-some m.entitlements q.entitlements
            (ap is_some tables.1 ∙ wp.with_entitlements),
        some',
      )

  kept_covered :
      (r : Fingerprint) (k : String)
      → Settled (takes rev p m k) k p m r
      → has_key k r.facts ≡ true
      → k ≢ global_id_key
      → has_key k r.metadata ≡ true
  kept_covered r k settled h ne = elim (Bool-cases (takes rev p m k)) [
    | inl t ↦
        ap is_some
          (settled.metadata ∙ ap (λ b. if b then lookup k m.metadata else lookup k p.metadata) t)
        ∙ wm.covered k (takes_has k t) ne
    | inr f ↦
        ap is_some
          (settled.metadata ∙ ap (λ b. if b then lookup k m.metadata else lookup k p.metadata) f)
        ∙ wp.covered k
            (sym (
                ap is_some
                  (settled.fact ∙ ap (λ b. if b then some (get k m.facts) else lookup k p.facts) f))
              ∙ h)
            ne
  ]

  -- Two well-formed fingerprints merge without an exception, and into a well-formed one, where no
  -- priority is reversed, both or neither carry a global id, and the second's products have names
  -- that the first has.
  pub merge_fingerprint-IsWellFormed :
      (r : Fingerprint) × (merge_fingerprint rev p m ≡ ok r) × IsWellFormed r
  merge_fingerprint-IsWellFormed =
      let (r, done, plain, entitlements, products) = merge_ok in
      let settled =
        λ (k : String) (e : is_table k ≡ false). merge_fingerprint-Settled rev p m r k e done in
      let at_id = settled global_id_key refl in
      let id_facts =
        at_id.fact
        ∙ ap (λ b. if b then some (get global_id_key m.facts) else lookup global_id_key p.facts)
            takes_id in
      let id_metadata =
        at_id.metadata
        ∙ ap (λ b. if b then lookup global_id_key m.metadata else lookup global_id_key p.metadata)
            takes_id in
      (
        r,
        done,
        record {
          covered = λ k h ne. elim (Bool-cases (is_table k)) [
            | inl t ↦ absurd (false≢true (sym (plain k t) ∙ h))
            | inr f ↦ kept_covered r k (settled k f) h ne
          ];
          id_bare = ap is_some id_metadata ∙ wp.id_bare;
          id_set = ap null_in id_facts ∙ wp.id_set;
          plain = plain;
          with_entitlements = entitlements;
          with_products = products;
        },
      )

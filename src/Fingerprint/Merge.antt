-- ===== src/Fingerprint/Merge.antt =====
-- `_merge_fingerprint` (quipucords/fingerprinter/runner.py), part by part. Both arguments are deep
-- copies in the source, so values serve. The keys to add are a set there, which is walked in no
-- fixed order: `merge_in_order` takes the order, and `merge_fingerprint` walks them as they are listed.
pub mod Facts
pub mod Defined
pub mod Reverse
pub mod Tables
pub mod Origins
pub mod Total
use Prim.Native.String.{◌++◌ as concat}
use quipucords.Prelude.{
  String, Bool, false, not, ◌&&◌, ◌||◌, Option, none, some, is_some, List, [], ◌∷◌, ◌++◌, ◌==◌,
  string_eq, if◌then◌else◌, select, contains,
}
use quipucords.Prelude.Dict.{Dict, lookup, has_key, insert, keys, values}
use quipucords.Json.{Value, null, is_null, truthy}
use quipucords.Fingerprint.Model.{
  Result, ok, err, ◌>>=◌, key_error, attribute_error, SourceRef, Entitlement, Product, is_absent,
  Fingerprint, entitlements_key, products_key, Meta,
}

-- `reverse_priority_keys`: only a `set` is looked at; a tuple or another collection is not.
pub data ReverseKeys : Type 0 where
  as_set : List String → ReverseKeys
  as_tuple : List String → ReverseKeys

-- `reverse_priority_keys is not None and isinstance(reverse_priority_keys, set)`
abbrev pub reverse_keys : Option ReverseKeys → List String
reverse_keys (some (as_set ks)) = ks
reverse_keys _ = []

-- `fp.get(META_DATA_KEY, {}).get(key, {}).get("has_sudo", False)`
abbrev pub has_sudo : String → Fingerprint → Bool
has_sudo k fp = elim (lookup k fp.metadata) [ none ↦ false | some m ↦ truthy m.has_sudo ]

abbrev pub null_at : String → Fingerprint → Bool
null_at k fp = elim (lookup k fp.facts) [ none ↦ false | some v ↦ is_null v ]

-- Whether a key of both gives way: its value is `None` and the other's is not, or only the other
-- was read with sudo.
abbrev pub yields : Fingerprint → Fingerprint → String → Bool
yields p m k =
    has_key k m.facts && (null_at k p && not (null_at k m) || not (has_sudo k p) && has_sudo k m)

-- The optional tables that only the second has: they are keys to add like any other.
unfoldable pub missing_tables : Fingerprint → Fingerprint → List String
missing_tables p m =
    (if is_some m.entitlements && not (is_some p.entitlements) then entitlements_key ∷ [] else [])
    ++ (if is_some m.products && not (is_some p.products) then products_key ∷ [] else [])

-- `keys_to_add_list`
unfoldable pub keys_to_add : Option ReverseKeys → Fingerprint → Fingerprint → List String
keys_to_add rev p m =
    select (λ k. not (has_key k p.facts)) (keys m.facts)
    ++ (missing_tables p m ++ (reverse_keys rev ++ select (yields p m) (keys p.facts)))

-- `d.get(key)`
abbrev pub get : String → Dict String Value → Value
get k d = elim (lookup k d) [ none ↦ null | some v ↦ v ]

-- `priority_fingerprint[fact_key] = to_merge_fingerprint.get(fact_key)`
abbrev pub set_fact : String → Fingerprint → Fingerprint → Fingerprint
set_fact k m p =
    if k == entitlements_key
    then record p { entitlements = m.entitlements }
    else if k == products_key
    then record p { products = m.products }
    else record p { facts = insert k (get k m.facts) p.facts }

-- One round of the loop that merges facts, given the metadata that the second has of the key.
abbrev pub add_with : Option Meta → String → Fingerprint → Fingerprint → Result Fingerprint
add_with none k m p = err (key_error k)
add_with (some md) k m p = ok (set_fact k m (record p { metadata = insert k md p.metadata }))

abbrev pub add_fact : String → Fingerprint → Fingerprint → Result Fingerprint
add_fact k m p = add_with (lookup k m.metadata) k m p

unfoldable pub merge_facts : List String → Fingerprint → Fingerprint → Result Fingerprint
merge_facts [] m p = ok p
merge_facts (k ∷ ks) m p = add_fact k m p >>= λ p'. merge_facts ks m p'

-- `if source not in priority_sources.keys(): ...`, for each source.
unfoldable pub merge_sources : Dict String SourceRef → Dict String SourceRef → Dict String SourceRef
merge_sources [] p = p
merge_sources ((k, s) ∷ m) p = merge_sources m (if has_key k p then p else insert k s p)

abbrev or_underscore : Option String → String
or_underscore none = "_"
or_underscore (some s) = s

-- `f"{entitlement.get('name', '_')}:" + f"{entitlement.get('entitlement_id', '_')}"`
unfoldable pub unique_entitlement_id : Entitlement → String
unique_entitlement_id e =
    concat (or_underscore e.name) (concat ":" (or_underscore e.entitlement_id))

-- The loop that removes duplicate entitlements, over the ids seen so far.
unfoldable pub unique_entitlements : List String → List Entitlement → List Entitlement
unique_entitlements seen [] = []
unique_entitlements seen (e ∷ es) =
    let i = unique_entitlement_id e in
    let kept = e ∷ unique_entitlements (i ∷ seen) es in
    let skipped = unique_entitlements seen es in if contains i seen then skipped else kept

abbrev pub or_empty {ℓ} : {A : Type ℓ} → Option (List A) → List A
or_empty none = []
or_empty (some xs) = xs

unfoldable pub merge_entitlements :
    Option (List Entitlement) → Option (List Entitlement) → Option (List Entitlement)
unfolding unique_entitlements
merge_entitlements m p = elim (or_empty m) [
  | [] ↦ p
  | e ∷ es ↦ some (unique_entitlements [] (or_empty p ++ (e ∷ es)))
]

abbrev pub by_name : List Product → Dict String Product → Dict String Product
by_name [] d = d
by_name (x ∷ xs) d = by_name xs (insert x.name x d)

-- One round of the loop over the products to merge, given what the first fingerprint has of the
-- name: `merge_prod.get(...)` fails where the name is new.
abbrev pub replace_product :
    Option Product → Product → Dict String Product → Result (Dict String Product)
replace_product none x d = err attribute_error
replace_product (some y) x d =
    ok (if is_absent y.presence && not (is_absent x.presence) then insert x.name x d else d)

unfoldable pub merge_each_product :
    List Product → Dict String Product → Result (Dict String Product)
merge_each_product [] d = ok d
merge_each_product (x ∷ xs) d =
    replace_product (lookup x.name d) x d >>= λ d'. merge_each_product xs d'

unfoldable pub merge_products :
    Option (List Product) → Option (List Product) → Result (Option (List Product))
unfolding merge_each_product
merge_products m p = elim (or_empty m) [
  | [] ↦ ok p
  | x ∷ xs ↦ elim p [
    | none ↦ ok m
    | some ys ↦ merge_each_product (x ∷ xs) (by_name ys []) >>= λ d. ok (some (values d))
  ]
]

-- The loop over the keys to add, in this order, and what follows it.
abbrev pub merge_in_order : List String → Fingerprint → Fingerprint → Result Fingerprint
merge_in_order order p m = merge_facts order m p >>= λ q.
    merge_products m.products q.products >>= λ products. ok (record q {
      sources = merge_sources m.sources q.sources;
      entitlements = merge_entitlements m.entitlements q.entitlements;
      products = products;
    })

unfoldable pub merge_fingerprint :
    Option ReverseKeys → Fingerprint → Fingerprint → Result Fingerprint
merge_fingerprint rev p m = merge_in_order (keys_to_add rev p m) p m

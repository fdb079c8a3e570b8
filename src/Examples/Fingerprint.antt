-- ===== src/Examples/Fingerprint.antt =====
-- Two fingerprints of one system, merged.
use text.Mathlib.TextEquality.{eq_iff}
use quipucords.Prelude.{
  String, ◌≡◌, refl, sym, Bool, true, false, none, some, [], ◌∷◌, arith, ◌==◌, string_eq,
  Bool-cases, inl, inr, nat_eq,
}
use mathlib.Core.Path.{subst}
use quipucords.Prelude.Dict.{lookup, has_key}
use quipucords.Json.{int, str, null, bool, key_eq}
use quipucords.Fingerprint.Model.{
  Result, ok, err, Meta, Entitlement, Product, present, absent, Fingerprint, is_table,
  entitlements_key, products_key,
}
use quipucords.Fingerprint.Merge.{
  merge_fingerprint, as_tuple, as_set, merge_facts, keys_to_add, missing_tables, merge_products,
}
use quipucords.Fingerprint.Merge.Facts.{Settled, takes, merge_in_order-Settled}
use quipucords.Fingerprint.Merge.Reverse.{reverse_needs_set}
use quipucords.Fingerprint.Merge.Total.{IsWellFormed, merge_fingerprint-IsWellFormed}

abbrev pub or_default {ℓ} : {A : Type ℓ} → A → Result A → A
or_default d (ok a) = a
or_default d (err e) = d

abbrev meta_of : String → Bool → Meta
meta_of source sudo = record {
  server_id = "s";
  source_name = source;
  source_type = "network";
  raw_fact_key = "raw";
  has_sudo = bool sudo;
}

abbrev pub rhel : Product
rhel = record { name = "rhel"; presence = some absent; details = null }

abbrev entitlement : Entitlement
entitlement = record { name = some "e"; entitlement_id = none; metadata = meta_of "a" false }

-- Read without sudo.
abbrev pub first : Fingerprint
first = record {
  facts = ("cpu_count", int 4) ∷ ("bios_uuid", str "u") ∷ [];
  metadata = ("cpu_count", meta_of "a" false) ∷ ("bios_uuid", meta_of "a" false) ∷ [];
  sources = ("s+a", record { server_id = "s"; source_type = "network"; source_name = "a" }) ∷ [];
  entitlements = some [];
  products = some (rhel ∷ []);
}

-- The same system, with another count, read with sudo.
abbrev pub second : Fingerprint
second = record {
  facts = ("cpu_count", int 8) ∷ ("bios_uuid", str "u") ∷ [];
  metadata = ("cpu_count", meta_of "b" true) ∷ ("bios_uuid", meta_of "b" true) ∷ [];
  sources = ("s+b", record { server_id = "s"; source_type = "network"; source_name = "b" }) ∷ [];
  entitlements = some (entitlement ∷ []);
  products = some (record rhel { presence = some present } ∷ []);
}

abbrev PlainKeys : String → Type 0
PlainKeys k = has_key k first.facts ≡ false

not_named : (k : String) → is_table k ≡ true → PlainKeys k
not_named k h = elim (Bool-cases (k == entitlements_key)) [
  | inl e ↦ subst PlainKeys (sym ((eq_iff k entitlements_key).0 e)) refl
  | inr e ↦ elim (Bool-cases (k == products_key)) [
    | inl e' ↦ subst PlainKeys (sym ((eq_iff k products_key).0 e')) refl
    | inr e' ↦ ground arith
  ]
]

first-IsWellFormed : IsWellFormed first
first-IsWellFormed = record {
  covered = λ k h ne. ground arith;
  id_bare = refl;
  id_set = refl;
  plain = not_named;
  with_entitlements = refl;
  with_products = refl;
}

second-IsWellFormed : IsWellFormed second
second-IsWellFormed = record {
  covered = λ k h ne. ground arith;
  id_bare = refl;
  id_set = refl;
  plain = λ k h. ground (arith, not_named k h);
  with_entitlements = refl;
  with_products = refl;
}

merge_fingerprint-IsWellFormed_example :
    (r : Fingerprint) × (merge_fingerprint none first second ≡ ok r) × IsWellFormed r
merge_fingerprint-IsWellFormed_example =
    merge_fingerprint-IsWellFormed none first second refl first-IsWellFormed second-IsWellFormed
      refl (refl, tt)

abbrev merged : Fingerprint
merged = or_default first (merge_fingerprint none first second)

merge_in_order-Settled_example :
    Settled (takes none first second "cpu_count") "cpu_count" first second merged
unfolding merge_fingerprint merge_facts keys_to_add missing_tables merge_products
merge_in_order-Settled_example =
    merge_in_order-Settled none first second merged (keys_to_add none first second) "cpu_count"
      (λ j. refl) refl refl

abbrev with_tuple : Fingerprint
with_tuple = or_default second (merge_fingerprint (some (as_tuple ("cpu_count" ∷ []))) second first)

abbrev with_set : Fingerprint
with_set = or_default second (merge_fingerprint (some (as_set ("cpu_count" ∷ []))) second first)

reverse_needs_set_example :
    (lookup "cpu_count" with_tuple.facts ≡ some (int 8))
    × (lookup "cpu_count" with_set.facts ≡ some (int 4))
unfolding merge_fingerprint merge_facts keys_to_add missing_tables merge_products
reverse_needs_set_example =
    reverse_needs_set ("cpu_count" ∷ []) second first with_tuple with_set "cpu_count" refl refl refl
      refl refl refl refl

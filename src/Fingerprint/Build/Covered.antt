-- ===== src/Fingerprint/Build/Covered.antt =====
-- Fingerprints that are built fact by fact are well-formed.
use quipucords.Prelude.{
  String, ◌≡◌, ◌≢◌, refl, sym, ◌∙◌, ap, true, false, some, List, [], ◌∷◌, All, arith, string_eq,
  ◌==◌, Bool-cases, inl, inr,
}
use quipucords.Prelude.Dict.{has_key, lookup-insert}
use mathlib.Core.Bool.{false≢true}
use quipucords.Fingerprint.Merge.{null_at}
use text.Mathlib.TextEquality.{eq_iff}
use mathlib.Core.Path.{subst}
use quipucords.Json.{Value}
use quipucords.Products.Values.{Facts}
use quipucords.Facts.Deepget.{deepget}
use quipucords.Fingerprint.Model.{
  ok, ok_injective, >>=-ok_parts, Fingerprint, is_table, global_id_key, Entitlement, Product,
}
use quipucords.Fingerprint.Merge.Total.{IsWellFormed}
use quipucords.Fingerprint.Sources.{Source}
use quipucords.Fingerprint.Build.{
  put_fact, metadata_of, Addition, add_fact_to_fingerprint, add_facts, blank, actual_fact_value,
}

-- A key that a method may add: no table, and not the id that matching uses.
abbrev pub IsPlain : Addition → Type 0
IsPlain a = (is_table a.fingerprint_key ≡ false) × (global_id_key ≢ a.fingerprint_key)

-- Facts and metadata have the same keys, none of them a table or the id.
record Matched (fp : Fingerprint) : Type 0 where
  same : (k : String) → has_key k fp.metadata ≡ has_key k fp.facts
  no_id : has_key global_id_key fp.facts ≡ false
  plain : (k : String) → is_table k ≡ true → has_key k fp.facts ≡ false

put_fact-Matched :
    (s : Source) (facts : Facts) (a : Addition) (v : Value) (fp : Fingerprint)
    → IsPlain a
    → Matched fp
    → Matched (put_fact s facts a v fp)
put_fact-Matched s facts a v fp h m = record {
  same = λ k. ground (
    arith,
    m.same k,
    lookup-insert a.fingerprint_key k v fp.facts,
    lookup-insert a.fingerprint_key k (metadata_of s facts a) fp.metadata,
  );
  no_id = ground (
    arith,
    m.no_id,
    lookup-insert a.fingerprint_key global_id_key v fp.facts,
    eq_iff a.fingerprint_key global_id_key,
  );
  plain = λ k t. elim (Bool-cases (a.fingerprint_key == k)) [
    | inl e ↦ absurd (false≢true (sym h.0 ∙ ap is_table ((eq_iff a.fingerprint_key k).0 e) ∙ t))
    | inr e ↦ ground (arith, m.plain k t, lookup-insert a.fingerprint_key k v fp.facts)
  ];
}

add_facts-Matched :
    (s : Source) (facts : Facts) (xs : List Addition) (fp made : Fingerprint)
    → All IsPlain xs
    → Matched fp
    → add_facts s facts xs fp ≡ ok made
    → Matched made
unfolding add_facts add_fact_to_fingerprint
add_facts-Matched s facts [] fp made h m run = subst Matched (ok_injective run) m
add_facts-Matched s facts (a ∷ xs) fp made h m run =
    let r = >>=-ok_parts (add_fact_to_fingerprint s facts a fp) _ run in
    let v = >>=-ok_parts (actual_fact_value a.provided (deepget facts a.raw_fact_key)) _ r.1 in
    add_facts-Matched s facts xs r.0 made h.1
      (subst Matched (ok_injective v.2) (put_fact-Matched s facts a v.0 fp h.0 m)) r.2

null_none :
    (fp : Fingerprint) → has_key global_id_key fp.facts ≡ false → null_at global_id_key fp ≡ false
null_none fp h = ground arith

-- A fingerprint that is built from nothing by adding facts, none of them named like a table or like
-- the id for matching, and then given its entitlements and products, is well-formed.
pub add_facts-IsWellFormed :
    (s : Source) (facts : Facts) (xs : List Addition) (made : Fingerprint)
    (entitlements : List Entitlement) (products : List Product)
    → All IsPlain xs
    → add_facts s facts xs (blank s) ≡ ok made
    → IsWellFormed (record made { entitlements = some entitlements; products = some products })
add_facts-IsWellFormed s facts xs made es ps h run =
    let m =
      add_facts-Matched s facts xs (blank s) made h
        (record { same = λ k. refl; no_id = refl; plain = λ k t. refl }) run in
    record {
      covered = λ k has ne. m.same k ∙ has;
      id_bare = m.same global_id_key ∙ m.no_id;
      id_set = null_none made m.no_id;
      plain = m.plain;
      with_entitlements = refl;
      with_products = refl;
    }

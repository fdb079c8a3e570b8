-- ===== src/Fingerprint/Build.antt =====
-- `_add_fact_to_fingerprint` (quipucords/fingerprinter/runner.py). A call gives a value or a formatter,
-- one of them; the source asserts that. A computed value may have raised an exception before the call.
pub mod Covered
use quipucords.Prelude.{String, none, some, List, [], ◌∷◌, string_eq, false}
use quipucords.Prelude.Dict.{insert, lookup}
use quipucords.Json.{Value, bool}
use quipucords.Fingerprint.Model.{Meta, Fingerprint, Result, ok, ◌>>=◌}
use quipucords.Fingerprint.Sources.{Source, source_entry, type_name}
use quipucords.Products.Values.{Facts}
use quipucords.Facts.Deepget.{deepget}

-- `fact_value` or `fact_formatter`.
pub data Provided : Type 0 where
  fact_value : Result Value → Provided
  fact_formatter : (Value → Result Value) → Provided

-- The arguments of a call, but for the source, the facts and the fingerprint.
pub record Addition : Type 0 where
  pub raw_fact_key : String
  pub fingerprint_key : String
  pub provided : Provided

abbrev pub actual_fact_value : Provided → Value → Result Value
actual_fact_value (fact_value v) raw = v
actual_fact_value (fact_formatter f) raw = f raw

-- `raw_fact.get("user_has_sudo", False)`
abbrev user_has_sudo : Facts → Value
user_has_sudo facts = elim (lookup "user_has_sudo" facts) [ some v ↦ v | none ↦ bool false ]

abbrev pub metadata_of : Source → Facts → Addition → Meta
metadata_of s facts a = record {
  server_id = s.server_id;
  source_name = s.source_name;
  source_type = type_name s.source_type;
  raw_fact_key = a.raw_fact_key;
  has_sudo = user_has_sudo facts;
}

abbrev pub put_fact : Source → Facts → Addition → Value → Fingerprint → Fingerprint
put_fact s facts a v fp = record fp {
  facts = insert a.fingerprint_key v fp.facts;
  metadata = insert a.fingerprint_key (metadata_of s facts a) fp.metadata;
}

unfoldable pub add_fact_to_fingerprint :
    Source → Facts → Addition → Fingerprint → Result Fingerprint
add_fact_to_fingerprint s facts a fp =
    actual_fact_value a.provided (deepget facts a.raw_fact_key) >>= λ v.
    ok (put_fact s facts a v fp)

-- The calls that a method makes one after another.
unfoldable pub add_facts : Source → Facts → List Addition → Fingerprint → Result Fingerprint
unfolding add_fact_to_fingerprint
add_facts s facts [] fp = ok fp
add_facts s facts (a ∷ rest) fp = add_fact_to_fingerprint s facts a fp >>= add_facts s facts rest

-- `fingerprint = {META_DATA_KEY: {}}`, with the source that `_process_source` adds.
abbrev pub blank : Source → Fingerprint
blank s = record {
  facts = [];
  metadata = [];
  sources = source_entry s;
  entitlements = none;
  products = none;
}

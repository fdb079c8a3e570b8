-- ===== src/Facts/Rows.antt =====
-- The two ways in which the methods of quipucords/fingerprinter/runner.py add a fact, as arguments of
-- `_add_fact_to_fingerprint`.
use quipucords.Prelude.{String}
use quipucords.Json.{Value}
use quipucords.Fingerprint.Model.{Result}
use quipucords.Fingerprint.Build.{Addition, fact_value, fact_formatter}

abbrev pub formatted : String → String → (Value → Result Value) → Addition
formatted raw key formatter = record {
  raw_fact_key = raw;
  fingerprint_key = key;
  provided = fact_formatter formatter;
}

abbrev pub computed : String → String → Result Value → Addition
computed raw key value = record {
  raw_fact_key = raw;
  fingerprint_key = key;
  provided = fact_value value;
}

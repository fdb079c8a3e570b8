-- ===== src/Examples/Sources.antt =====
-- Fingerprints made of the facts of one source.
use quipucords.Prelude.{◌≡◌, refl, true, List, [], ◌∷◌, string_eq, ◌+◌, nat_eq, All}
use quipucords.Json.{int, str, bool, key_eq}
use quipucords.Fingerprint.Model.{ok, Fingerprint}
use quipucords.Fingerprint.Sources.{
  Source, network, FactProcessor, FingerprintMap, empty_map, process_source, process_facts, collect,
  is_known,
}
use quipucords.Fingerprint.Sources.Collected.{
  Made, useful, process_source-Made, size, all_useful, collect-size,
}
use quipucords.Fingerprint.Build.{Addition, fact_value, fact_formatter, add_facts, blank}
use quipucords.Products.Values.{Facts}
use quipucords.Examples.Fingerprint.{or_default, first}

abbrev network_source : Source
network_source = record {
  server_id = "s";
  source_type = network;
  source_name = "a";
  facts = (("cpu_count", int 4) ∷ []) ∷ (("cpu_count", int 8) ∷ []) ∷ [];
}

abbrev processor : FactProcessor
processor s fact = ok (record first { facts = fact })

abbrev processed : List Fingerprint
processed = or_default [] (process_source processor network_source)

process_source-Made_example :
    Made processor network_source (useful network network_source.facts) processed
unfolding process_source process_facts
process_source-Made_example = process_source-Made processor network_source processed refl

abbrev collected : FingerprintMap
collected = or_default empty_map (collect processor (network_source ∷ []) empty_map)

collect-size_example :
    All (λ (s : Source). is_known s.source_type ≡ true) (network_source ∷ [])
    × (size collected ≡ size empty_map + all_useful (network_source ∷ []))
unfolding collect process_source process_facts
collect-size_example = collect-size processor (network_source ∷ []) empty_map collected refl

abbrev additions : List Addition
additions =
    record {
      raw_fact_key = "cpu_count";
      fingerprint_key = "cpu_count";
      provided = fact_formatter (λ v. ok v);
    }
    ∷ record {
      raw_fact_key = "virt_what";
      fingerprint_key = "infrastructure_type";
      provided = fact_value (ok (str "unknown"));
    }
    ∷ []

abbrev raw : Facts
raw = ("cpu_count", int 4) ∷ ("user_has_sudo", bool true) ∷ []

abbrev built : Fingerprint
built = or_default first (add_facts network_source raw additions (blank network_source))

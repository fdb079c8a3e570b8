-- ===== src/Examples/Matching.antt =====
-- The example's fingerprints, freed of duplicates and matched.
use quipucords.Prelude.{
  ℕ, String, ◌≡◌, refl, true, false, none, List, [], ◌∷◌, ◌++◌, ◌==◌, string_eq, if◌then◌else◌, ◌+◌,
  nat_eq, any,
}
use quipucords.Prelude.Dict.{Dict, values}
use quipucords.Json.{int, key_eq, str_key, Key}
use quipucords.Fingerprint.Model.{Fingerprint}
use quipucords.Fingerprint.Merge.{
  merge_fingerprint, merge_facts, keys_to_add, missing_tables, merge_products,
}
use quipucords.Fingerprint.Dedup.{Seen, dedupe, see_all, remove_duplicates}
use quipucords.Fingerprint.Dedup.Origins.{remove_duplicates-comes_from}
use quipucords.Fingerprint.Merge.Origins.{comes_from}
use quipucords.Fingerprint.Dedup.Unique.{Sorted, dedupe-Sorted}
use quipucords.Fingerprint.Matching.{
  Index, Halves, Matched, index_all, no_index, match_all, merge_matching,
}
use quipucords.Fingerprint.Matching.Indexing.{Indexed, tagged, index_all-Indexed}
use quipucords.Fingerprint.Matching.Leftover.{Passed, match_all-Passed}
use quipucords.Fingerprint.Matching.Pass.{Paired, merge_matching-Paired}
use quipucords.Examples.Fingerprint.{or_default, first, second}

abbrev third : Fingerprint
third = record first { facts = ("cpu_count", int 2) ∷ [] }

abbrev deduped : List Fingerprint
deduped = or_default [] (dedupe "bios_uuid" false (first ∷ third ∷ second ∷ []))

dedupe-Sorted_example :
    (s : Seen) × Sorted "bios_uuid" (first ∷ third ∷ second ∷ []) s
    × (deduped ≡ s.no_id ++ values s.unique)
unfolding dedupe see_all merge_fingerprint merge_facts keys_to_add missing_tables merge_products
dedupe-Sorted_example =
    dedupe-Sorted "bios_uuid" false (first ∷ third ∷ second ∷ []) deduped refl refl

abbrev without_duplicates : List Fingerprint
without_duplicates =
    or_default [] (remove_duplicates ("bios_uuid" ∷ []) true (first ∷ third ∷ second ∷ []))

remove_duplicates-comes_from_example :
    any (comes_from "s+b") without_duplicates ≡ any (comes_from "s+b") (first ∷ third ∷ second ∷ [])
unfolding remove_duplicates dedupe see_all merge_fingerprint merge_facts keys_to_add missing_tables
    merge_products
remove_duplicates-comes_from_example =
    remove_duplicates-comes_from ("bios_uuid" ∷ []) true (first ∷ third ∷ second ∷ [])
      without_duplicates "s+b" refl

abbrev uuid4 : ℕ → String
uuid4 n = if n == 0 then "i0" else if n == 1 then "i1" else "i2"

abbrev index : Index
index = or_default no_index (index_all uuid4 0 "bios_uuid" (first ∷ third ∷ []) no_index)

index_all-Indexed_example : Indexed "bios_uuid" (tagged uuid4 0 (first ∷ third ∷ [])) index
unfolding index_all
index_all-Indexed_example = index_all-Indexed uuid4 0 "bios_uuid" (first ∷ third ∷ []) index refl

-- One candidate under two keys, of which the base has one.
abbrev candidates : Dict Key Fingerprint
candidates = (str_key "m", second) ∷ (str_key "n", second) ∷ []

abbrev at_start : Matched
at_start = record {
  base = (str_key "m", first) ∷ [];
  matches = [];
  no_match = [];
  number_merged = 0;
}

abbrev passed : Matched
passed = or_default at_start (match_all none candidates at_start)

match_all-Passed_example : Passed candidates at_start passed
unfolding match_all merge_fingerprint merge_facts keys_to_add missing_tables merge_products
match_all-Passed_example =
    match_all-Passed none candidates at_start passed (refl, (refl, tt)) (refl, tt) refl

abbrev nothing : Halves
nothing = record { number_merged = 0; base = []; candidates = [] }

abbrev halves : Halves
halves =
    or_default nothing
      (merge_matching uuid4 0 none "bios_uuid" (first ∷ third ∷ []) "bios_uuid" (second ∷ []))

merge_matching-Paired_example :
    (base : Index) × (candidates : Index) × Indexed "bios_uuid"
      (tagged uuid4 0 (first ∷ third ∷ []))
      base
    × Indexed "bios_uuid" (tagged uuid4 (0 + 2) (second ∷ [])) candidates
    × Paired base candidates halves
unfolding merge_matching remove_duplicates dedupe see_all merge_fingerprint merge_facts keys_to_add
    missing_tables merge_products
merge_matching-Paired_example =
    merge_matching-Paired uuid4 0 none "bios_uuid" "bios_uuid" (first ∷ third ∷ []) (second ∷ [])
      halves refl

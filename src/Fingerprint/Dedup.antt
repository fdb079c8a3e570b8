-- ===== src/Fingerprint/Dedup.antt =====
-- `_remove_duplicate_fingerprints` (quipucords/fingerprinter/runner.py).
pub mod Unique
pub mod Origins
use quipucords.Prelude.{
  ℕ, String, Bool, true, false, Option, none, some, List, [], ◌∷◌, ◌++◌, map, string_eq,
  if◌then◌else◌,
}
use quipucords.Prelude.Dict.{Dict, lookup, insert, erase, values}
use quipucords.Json.{Value, truthy, Key, hash_key, key_eq}
use quipucords.Fingerprint.Model.{Result, ok, err, ◌>>=◌, type_error, Fingerprint}
use quipucords.Fingerprint.Merge.{get, merge_fingerprint}

-- `unique_dict` and `no_global_id_list`.
pub record Seen : Type 0 where
  pub unique : Dict Key Fingerprint
  pub no_id : List Fingerprint

-- One round of the inner loop for a fingerprint with an id: it is merged into the one already seen.
abbrev pub see_key : Key → Fingerprint → Seen → Result Seen
see_key k fp s = elim (lookup k s.unique) [
  | none ↦ ok (record s { unique = insert k fp s.unique })
  | some existing ↦ merge_fingerprint none existing fp >>= λ merged.
      ok (record s { unique = insert k merged s.unique })
]

abbrev pub see : String → Fingerprint → Seen → Result Seen
see id_key fp s =
    let v = get id_key fp.facts in
    if truthy v
    then elim (hash_key v) [ none ↦ err type_error | some k ↦ see_key k fp s ]
    else ok (record s { no_id = s.no_id ++ (fp ∷ []) })

unfoldable pub see_all : String → List Fingerprint → Seen → Result Seen
see_all id_key [] s = ok s
see_all id_key (fp ∷ fps) s = see id_key fp s >>= λ s'. see_all id_key fps s'

abbrev pub strip : String → Fingerprint → Fingerprint
strip id_key fp = record fp { facts = erase id_key fp.facts }

abbrev pub nothing_seen : Seen
nothing_seen = record { unique = []; no_id = [] }

-- One round of the outer loop.
unfoldable pub dedupe : String → Bool → List Fingerprint → Result (List Fingerprint)
dedupe id_key remove_key fps = see_all id_key fps nothing_seen >>= λ s.
    let result_list = s.no_id ++ values s.unique in
    ok (if remove_key then map (strip id_key) result_list else result_list)

unfoldable pub dedupe_by : List String → Bool → List Fingerprint → Result (List Fingerprint)
dedupe_by [] remove_key fps = ok fps
dedupe_by (k ∷ ks) remove_key fps = dedupe k remove_key fps >>= λ fps'. dedupe_by ks remove_key fps'

unfoldable pub remove_duplicates : List String → Bool → List Fingerprint → Result (List Fingerprint)
unfolding dedupe_by
remove_duplicates id_keys remove_key fps = elim fps [
  | [] ↦ ok []
  | fp ∷ rest ↦ dedupe_by id_keys remove_key (fp ∷ rest)
]

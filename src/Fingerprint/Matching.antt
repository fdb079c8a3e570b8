-- ===== src/Fingerprint/Matching.antt =====
-- Matching the fingerprints of two lists by a key of each (quipucords/fingerprinter/runner.py):
-- `_create_index_for_fingerprints`, `_merge_matching_fingerprints` and
-- `_merge_fingerprints_from_source_types`. `uuid4 n` is the n-th id that `uuid.uuid4` gives.
pub mod Growth
pub mod Indexing
pub mod Leftover
pub mod Pass
use quipucords.Prelude.{
  ℕ, suc, ◌+◌, String, Bool, true, false, Option, none, some, is_some, List, [], ◌∷◌, ◌++◌,
  string_eq, if◌then◌else◌, length,
}
use quipucords.Prelude.Dict.{Dict, lookup, has_key, insert, erase, values}
use quipucords.Json.{Value, str, arr, elements, truthy, Key, hash_key, key_eq}
use quipucords.Fingerprint.Model.{Result, ok, err, ◌>>=◌, type_error, Fingerprint, global_id_key}
use quipucords.Fingerprint.Merge.{ReverseKeys, get, merge_fingerprint}
use quipucords.Fingerprint.Dedup.{remove_duplicates}

-- `result_by_key` and `key_not_found_list`.
pub record Index : Type 0 where
  pub by_key : Dict Key Fingerprint
  pub no_key : List Fingerprint

-- One key: the first fingerprint with it wins.
abbrev pub index_key : Value → Fingerprint → Dict Key Fingerprint → Result (Dict Key Fingerprint)
index_key v fp d = elim (hash_key v) [
  | none ↦ err type_error
  | some k ↦ ok (if has_key k d then d else insert k fp d)
]

-- "value is list so explode"
unfoldable pub index_keys :
    List Value → Fingerprint → Dict Key Fingerprint → Result (Dict Key Fingerprint)
index_keys [] fp d = ok d
index_keys (v ∷ vs) fp d = index_key v fp d >>= λ d'. index_keys vs fp d'

abbrev pub index_value : Value → Fingerprint → Dict Key Fingerprint → Result (Dict Key Fingerprint)
index_value (arr vs) fp d = index_keys (elements vs) fp d
index_value v fp d = index_key v fp d

abbrev pub index_one : String → Fingerprint → Index → Result Index
index_one id_key fp x =
    let v = get id_key fp.facts in
    let found = index_value v fp x.by_key >>= λ d. ok (record x { by_key = d }) in
    if truthy v then found else ok (record x { no_key = x.no_key ++ (fp ∷ []) })

-- `value_dict[FINGERPRINT_GLOBAL_ID_KEY] = str(uuid.uuid4())`
abbrev pub tag : String → Fingerprint → Fingerprint
tag i fp = record fp { facts = insert global_id_key (str i) fp.facts }

-- The loop over the fingerprints, the n-th of which gets the n-th new id.
unfoldable pub index_all : (ℕ → String) → ℕ → String → List Fingerprint → Index → Result Index
unfolding index_keys
index_all uuid4 n id_key [] x = ok x
index_all uuid4 n id_key (fp ∷ fps) x =
    index_one id_key (tag (uuid4 n) fp) x >>= λ x'. index_all uuid4 (suc n) id_key fps x'

-- `base_dict`, `base_match_list`, `candidate_no_match_list` and `number_merged`.
pub record Matched : Type 0 where
  pub base : Dict Key Fingerprint
  pub matches : List Fingerprint
  pub no_match : List Fingerprint
  pub number_merged : ℕ

-- One round of the loop over the candidates: `base_dict.pop(...)`, then merge or put aside.
abbrev pub match_one : Option ReverseKeys → Key → Fingerprint → Matched → Result Matched
match_one rev k candidate s = elim (lookup k s.base) [
  | none ↦ ok (record s { no_match = s.no_match ++ (candidate ∷ []) })
  | some base ↦ merge_fingerprint rev base candidate >>= λ merged. ok (record s {
    base = erase k s.base;
    matches = s.matches ++ (merged ∷ []);
    number_merged = s.number_merged + 1;
  })
]

unfoldable pub match_all : Option ReverseKeys → Dict Key Fingerprint → Matched → Result Matched
match_all rev [] s = ok s
match_all rev ((k, candidate) ∷ rest) s =
    match_one rev k candidate s >>= λ s'. match_all rev rest s'

-- `number_merged, base_result_list, candidate_no_match_list`
pub record Halves : Type 0 where
  pub number_merged : ℕ
  pub base : List Fingerprint
  pub candidates : List Fingerprint

abbrev pub no_index : Index
no_index = record { by_key = []; no_key = [] }

-- `_merge_matching_fingerprints`, with the ids from `n` on.
unfoldable pub merge_matching :
    (ℕ → String)
    → ℕ
    → Option ReverseKeys
    → String
    → List Fingerprint
    → String
    → List Fingerprint
    → Result Halves
unfolding index_all match_all
merge_matching uuid4 n rev base_key base_list candidate_key candidate_list =
    index_all uuid4 n base_key base_list no_index >>= λ base.
    index_all uuid4 (n + length base_list) candidate_key candidate_list no_index >>= λ candidates.
    match_all rev candidates.by_key
      (record { base = base.by_key; matches = []; no_match = []; number_merged = 0 })
    >>= λ s.
        remove_duplicates (global_id_key ∷ []) true (base.no_key ++ (s.matches ++ values s.base))
        >>= λ base_result.
            remove_duplicates (global_id_key ∷ []) true (candidates.no_key ++ s.no_match)
            >>= λ candidate_result. ok (record {
              number_merged = s.number_merged;
              base = base_result;
              candidates = candidate_result;
            })

-- The loop over the pairs of keys: what is left of the candidates is tried by the next pair.
unfoldable pub merge_by_pairs :
    (ℕ → String) → ℕ → Option ReverseKeys → List (String × String) → Halves → Result Halves
unfolding merge_matching
merge_by_pairs uuid4 n rev [] h = ok h
merge_by_pairs uuid4 n rev ((base_key, candidate_key) ∷ pairs) h =
    merge_matching uuid4 n rev base_key h.base candidate_key h.candidates >>= λ h'.
    merge_by_pairs uuid4 (n + length h.base + length h.candidates) rev pairs
      (record h' { number_merged = h.number_merged + h'.number_merged })

-- `_merge_fingerprints_from_source_types`
unfoldable pub merge_source_types :
    (ℕ → String)
    → ℕ
    → Option ReverseKeys
    → List (String × String)
    → List Fingerprint
    → List Fingerprint
    → Result (ℕ × List Fingerprint)
unfolding merge_by_pairs
merge_source_types uuid4 n rev pairs base_list merge_list = elim merge_list [
  | [] ↦ ok (0, base_list)
  | m ∷ ms ↦ elim base_list [
    | [] ↦ ok (0, m ∷ ms)
    | b ∷ bs ↦
        merge_by_pairs uuid4 n rev pairs
          (record { number_merged = 0; base = b ∷ bs; candidates = m ∷ ms })
        >>= λ h. ok (h.number_merged, h.base ++ h.candidates)
  ]
]

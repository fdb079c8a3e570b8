-- ===== src/Fingerprint/Matching/Pass.antt =====
-- A pass over one pair of keys as a whole: two indexes, one walk over the candidates, and the
-- removal of what the walk has doubled.
use quipucords.Json.{key_eq}
use quipucords.Prelude.{
  ℕ, ◌+◌, String, ◌≡◌, sym, ◌∙◌, ap, true, Option, List, [], ◌∷◌, ◌++◌, length, arith,
}
use quipucords.Prelude.Dict.{values}
use quipucords.Fingerprint.Model.{>>=-ok_parts, ok, Fingerprint, ok_injective, global_id_key}
use quipucords.Fingerprint.Merge.{ReverseKeys}
use quipucords.Fingerprint.Dedup.{remove_duplicates}
use quipucords.Fingerprint.Matching.{
  Index, Matched, Halves, index_all, no_index, match_all, merge_matching,
}
use quipucords.Fingerprint.Matching.Indexing.{Indexed, tagged, index_all-Indexed}
use quipucords.Fingerprint.Matching.Leftover.{shared, unshared, match_all-Passed}

-- What a pass gives, told by the indexes of the base and of the candidates.
pub record Paired (base candidates : Index) (h : Halves) : Type 0 where
  pub merged : h.number_merged ≡ length (shared base.by_key candidates.by_key)
  pub left :
      remove_duplicates
        (global_id_key ∷ [])
        true
        (candidates.no_key ++ values (unshared base.by_key candidates.by_key))
      ≡ ok h.candidates

zero_plus : (n : ℕ) → 0 + n ≡ n
zero_plus n = omega arith

-- A pass over a pair of keys that raises nothing counts the keys that both lists carry, and gives
-- back as candidates those without a key and those under a key that no base fingerprint carries,
-- less the doubles.
pub merge_matching-Paired :
    (uuid4 : ℕ → String) (n : ℕ) (rev : Option ReverseKeys) (base_key candidate_key : String)
    (base_list candidate_list : List Fingerprint) (h : Halves)
    → merge_matching uuid4 n rev base_key base_list candidate_key candidate_list ≡ ok h
    → (base : Index) × (candidates : Index) × Indexed base_key (tagged uuid4 n base_list) base
      × Indexed candidate_key (tagged uuid4 (n + length base_list) candidate_list) candidates
      × Paired base candidates h
unfolding merge_matching
merge_matching-Paired uuid4 n rev base_key candidate_key base_list candidate_list h e =
    let (base, indexed, e₁) = >>=-ok_parts (index_all uuid4 n base_key base_list no_index) _ e in
    let (candidates, indexed', e₂) =
      >>=-ok_parts (index_all uuid4 (n + length base_list) candidate_key candidate_list no_index) _
        e₁ in
    let b = index_all-Indexed uuid4 n base_key base_list base indexed in
    let c =
      index_all-Indexed uuid4 (n + length base_list) candidate_key candidate_list candidates
        indexed' in
    let start : Matched = record {
      base = base.by_key;
      matches = [];
      no_match = [];
      number_merged = 0;
    } in
    let (s, matched, e₃) = >>=-ok_parts (match_all rev candidates.by_key start) _ e₂ in
    let passed = match_all-Passed rev candidates.by_key start s c.dict b.dict matched in
    let (base_result, removed, e₄) =
      >>=-ok_parts
        (remove_duplicates (global_id_key ∷ []) true (base.no_key ++ (s.matches ++ values s.base)))
        _ e₃ in
    let (candidate_result, removed', e₅) =
      >>=-ok_parts (remove_duplicates (global_id_key ∷ []) true (candidates.no_key ++ s.no_match)) _
        e₄ in
    (
      base,
      candidates,
      b,
      c,
      record {
        merged =
            sym (ap (λ (t : Halves). t.number_merged) (ok_injective e₅))
            ∙ passed.merged
            ∙ zero_plus _;
        left =
            ap (λ l. remove_duplicates (global_id_key ∷ []) true (candidates.no_key ++ l))
              (sym passed.left)
            ∙ removed'
            ∙ ap (λ (t : Halves). ok t.candidates) (ok_injective e₅);
      },
    )

-- ===== src/Fingerprint/Merge/Origins.antt =====
-- The sources that a merged fingerprint comes from.
use quipucords.Prelude.{
  String, ◌≡◌, refl, sym, ◌∙◌, ap, Bool, ◌||◌, Option, none, some, is_some, List, [], ◌∷◌, arith,
  string_eq, Option-cases, inl, inr,
}
use quipucords.Prelude.Dict.{lookup, has_key, insert}
use quipucords.Json.{key_eq}
use quipucords.Fingerprint.Model.{ok, >>=-ok_parts, ok_injective, err≢ok, Fingerprint}
use quipucords.Fingerprint.Merge.{
  ReverseKeys, merge_fingerprint, merge_facts, merge_products, keys_to_add, set_fact,
}
use quipucords.Fingerprint.Merge.Facts.{merge_facts-cons, merge_facts-missing}
use quipucords.Fingerprint.Merge.Tables.{lookup-merge_sources, or_else}

-- Whether a fingerprint names a source.
abbrev pub comes_from : String → Fingerprint → Bool
comes_from k fp = has_key k fp.sources

set_fact-sources : (k : String) (m p : Fingerprint) → (set_fact k m p).sources ≡ p.sources
set_fact-sources k m p = ground arith

merge_facts-sources :
    (ks : List String) (m p q : Fingerprint) → merge_facts ks m p ≡ ok q → q.sources ≡ p.sources
unfolding merge_facts
merge_facts-sources [] m p q e = ap (λ (t : Fingerprint). t.sources) (sym (ok_injective e))
merge_facts-sources (k ∷ ks) m p q e = elim (Option-cases (lookup k m.metadata)) [
  | inl gone ↦ absurd (err≢ok (sym (merge_facts-missing k ks m p gone) ∙ e))
  | inr (md, found) ↦
      let p₁ = record p { metadata = insert k md p.metadata } in
      merge_facts-sources ks m (set_fact k m p₁) q (sym (merge_facts-cons k ks m p md found) ∙ e)
      ∙ set_fact-sources k m p₁
]

or_else_some {ℓ} : {A : Type ℓ} (a b : Option A) → is_some (or_else a b) ≡ (is_some a || is_some b)
or_else_some none b = refl
or_else_some (some a) b = refl

-- A merge comes from the sources of both.
pub merge-comes_from :
    (rev : Option ReverseKeys) (k : String) (p m r : Fingerprint)
    → merge_fingerprint rev p m ≡ ok r
    → comes_from k r ≡ (comes_from k p || comes_from k m)
unfolding merge_fingerprint
merge-comes_from rev k p m r e =
    let (q, facts, e₁) = >>=-ok_parts (merge_facts (keys_to_add rev p m) m p) _ e in
    let (products, _, e₂) = >>=-ok_parts (merge_products m.products q.products) _ e₁ in
    ap (comes_from k) (sym (ok_injective e₂))
    ∙ ap is_some (lookup-merge_sources k m.sources q.sources)
    ∙ ap (λ d. is_some (or_else (lookup k d) (lookup k m.sources)))
        (merge_facts-sources (keys_to_add rev p m) m p q facts)
    ∙ or_else_some (lookup k p.sources) (lookup k m.sources)

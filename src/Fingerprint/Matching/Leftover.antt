-- ===== src/Fingerprint/Matching/Leftover.antt =====
-- Which candidates a pass over a pair of keys merges and which it leaves over.
use mathlib.Core.Path.{subst}
use mathlib.Core.Bool.{false≢true}
use quipucords.Prelude.{
  ℕ, suc, length-append, ◌+◌, ◌≡◌, refl, sym, ◌∙◌, ap, Bool, false, not, Option, none, some,
  is_some, List, [], ◌∷◌, ◌++◌, arith, string_eq, if◌then◌else◌, Bool-cases, Option-cases, inl, inr,
  select, ◌==◌, length, append_assoc, append_nil,
}
use quipucords.Prelude.Dict.{
  Dict, lookup, has_key, values, IsDict, erase-IsDict, erase, lookup-erase_self, lookup-erase_ne,
}
use quipucords.Json.{Key, key_eq}
use quipucords.Fingerprint.Model.{◌>>=◌, >>=-ok_parts, ok, Result, Fingerprint, ok_injective}
use quipucords.Fingerprint.Merge.{merge_fingerprint, ReverseKeys}
use quipucords.Fingerprint.Matching.{Matched, match_one, match_all}

-- The entries of the candidates under keys that the base has, and under keys that it lacks.
abbrev pub shared : Dict Key Fingerprint → Dict Key Fingerprint → Dict Key Fingerprint
shared base = select (λ c. has_key c.0 base)

abbrev pub unshared : Dict Key Fingerprint → Dict Key Fingerprint → Dict Key Fingerprint
unshared base = select (λ c. not (has_key c.0 base))

-- What a pass over the candidates makes of a state.
pub record Passed (candidates : Dict Key Fingerprint) (s s' : Matched) : Type 0 where
  pub left : s'.no_match ≡ s.no_match ++ values (unshared s.base candidates)
  pub merged : s'.number_merged ≡ s.number_merged + length (shared s.base candidates)
  pub found : length s'.matches ≡ length s.matches + length (shared s.base candidates)
  pub kept : (k : Key) → lookup k s'.base ≡ (if has_key k candidates then none else lookup k s.base)
  pub dict : IsDict s'.base

-- Entries under other keys are shared with the base as before when a key is popped.
shared-erase :
    (k : Key) (base cs : Dict Key Fingerprint)
    → has_key k cs ≡ false
    → (shared (erase k base) cs ≡ shared base cs) × (unshared (erase k base) cs ≡ unshared base cs)
shared-erase k base [] h = (refl, refl)
shared-erase k base ((j, c) ∷ cs) h =
    let ne = λ (e : k ≡ j). false≢true (
      sym h
      ∙ ap (λ b. is_some (if b then some c else lookup k cs)) ((key_eq.beq_iff j k).1 (sym e))) in
    let same = lookup-erase_ne k j base ne in
    let later : (shared (erase k base) cs ≡ shared base cs)
        × (unshared (erase k base) cs ≡ unshared base cs) =
      elim (Bool-cases (j == k)) [
        | inl y ↦ absurd (ne (sym ((key_eq.beq_iff j k).0 y)))
        | inr n ↦
            shared-erase k base cs
              (sym (ap (λ b. is_some (if b then some c else lookup k cs)) n) ∙ h)
      ] in
    (
      rw same (ap (λ l. if has_key j base then (j, c) ∷ l else l) later.0),
      rw same (ap (λ l. if not (has_key j base) then (j, c) ∷ l else l) later.1),
    )

abbrev when : Bool → Key → Fingerprint → Dict Key Fingerprint → Dict Key Fingerprint
when b k c cs = if b then (k, c) ∷ cs else cs

abbrev pop : Fingerprint → Option Fingerprint → Option Fingerprint → Bool → Option Fingerprint
pop c there base q = if is_some (if q then some c else there) then none else base

abbrev joined_to : Key → Fingerprint → Matched → Matched
joined_to k merged s = record s {
  base = erase k s.base;
  matches = s.matches ++ (merged ∷ []);
  number_merged = s.number_merged + 1;
}

abbrev turn : Option ReverseKeys → Key → Fingerprint → Matched → Option Fingerprint → Result Matched
turn rev k c s o = elim o [
  | none ↦ ok (record s { no_match = s.no_match ++ (c ∷ []) })
  | some base ↦ merge_fingerprint rev base c >>= λ merged. ok (joined_to k merged s)
]

one_more {ℓ} : {A : Type ℓ} (n : ℕ) (xs : List A) → n + 1 + length xs ≡ n + suc (length xs)
one_more n xs = omega arith

popped :
    (cs : Dict Key Fingerprint) (j : Key) {o : Option Fingerprint}
    → o ≡ none
    → (if has_key j cs then none else o) ≡ none
popped cs j h = ground (arith, h)

-- A pass over the candidates pops the entries under the keys that both have, merges as many, and
-- leaves over exactly the entries under keys that the base lacks, whatever else they carry.
pub match_all-Passed :
    (rev : Option ReverseKeys) (cs : Dict Key Fingerprint) (s s' : Matched)
    → IsDict cs
    → IsDict s.base
    → match_all rev cs s ≡ ok s'
    → Passed cs s s'
unfolding match_all
match_all-Passed rev [] s s' d b e = subst (Passed [] s) (ok_injective e) (record {
  left = sym (append_nil _);
  merged = omega arith;
  found = omega arith;
  kept = λ k. refl;
  dict = b;
})
match_all-Passed rev ((k, c) ∷ cs) s s' d b e = elim (Option-cases (lookup k s.base)) [
  | inl lacks ↦
      let s₁ = record s { no_match = s.no_match ++ (c ∷ []) } in
      let rest =
        match_all-Passed rev cs s₁ s' d.1 b
          (sym (ap (λ o. turn rev k c s o >>= λ t. match_all rev cs t) lacks) ∙ e) in
      record {
        left =
            rest.left
            ∙ append_assoc s.no_match (c ∷ []) _
            ∙ ap (λ o. s.no_match ++ values (when (not (is_some o)) k c (unshared s.base cs)))
                (sym lacks);
        merged =
            rest.merged
            ∙ ap (λ o. s.number_merged + length (when (is_some o) k c (shared s.base cs)))
                (sym lacks);
        found =
            rest.found
            ∙ ap (λ o. length s.matches + length (when (is_some o) k c (shared s.base cs)))
                (sym lacks);
        kept = λ j. elim (Bool-cases (k == j)) [
          | inl y ↦
              let kj : k ≡ j = (key_eq.beq_iff k j).0 y in
              rest.kept j
              ∙ popped cs j (ap (λ i. lookup i s.base) (sym kj) ∙ lacks)
              ∙ ap (pop c (lookup j cs) (lookup j s.base)) (sym y)
          | inr n ↦ rest.kept j ∙ ap (pop c (lookup j cs) (lookup j s.base)) (sym n)
        ];
        dict = rest.dict;
      }
  | inr (p, has) ↦
      let (m, merged, done) = >>=-ok_parts (match_one rev k c s) _ e in
      let (r, joined, done') =
        >>=-ok_parts (merge_fingerprint rev p c) _ (sym (ap (turn rev k c s) has) ∙ merged) in
      let s₁ = joined_to k r s in
      let rest =
        match_all-Passed rev cs s₁ s' d.1 (erase-IsDict k s.base b)
          (ap (match_all rev cs) (ok_injective done') ∙ done) in
      let (same, other) = shared-erase k s.base cs d.0 in
      record {
        left =
            rest.left
            ∙ ap (λ l. s.no_match ++ values l) other
            ∙ ap (λ o. s.no_match ++ values (when (not (is_some o)) k c (unshared s.base cs)))
                (sym has);
        merged =
            rest.merged
            ∙ ap (λ l. s.number_merged + 1 + length l) same
            ∙ one_more s.number_merged (shared s.base cs)
            ∙ ap (λ o. s.number_merged + length (when (is_some o) k c (shared s.base cs)))
                (sym has);
        found =
            rest.found
            ∙ ap (λ l. length (s.matches ++ (r ∷ [])) + length l) same
            ∙ ap (λ n. n + length (shared s.base cs)) (length-append s.matches (r ∷ []))
            ∙ one_more (length s.matches) (shared s.base cs)
            ∙ ap (λ o. length s.matches + length (when (is_some o) k c (shared s.base cs)))
                (sym has);
        kept = λ j. elim (Bool-cases (k == j)) [
          | inl y ↦
              let kj : k ≡ j = (key_eq.beq_iff k j).0 y in
              rest.kept j
              ∙ popped cs j
                  (ap (λ i. lookup i (erase k s.base)) (sym kj) ∙ lookup-erase_self k s.base b)
              ∙ ap (pop c (lookup j cs) (lookup j s.base)) (sym y)
          | inr n ↦
              rest.kept j
              ∙ ap (λ o. if has_key j cs then none else o)
                  (lookup-erase_ne k j s.base (λ y. false≢true (sym n ∙ (key_eq.beq_iff k j).1 y)))
              ∙ ap (pop c (lookup j cs) (lookup j s.base)) (sym n)
        ];
        dict = rest.dict;
      }
]

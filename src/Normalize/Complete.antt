-- ===== src/Normalize/Complete.antt =====
-- A class whose fields are listed after those they depend on always normalizes all of them.
use quipucords.Prelude.{
  String, ◌≡◌, refl, sym, ◌∙◌, ap, Bool, true, false, Option, none, some, List, [], ◌∷◌, ◌++◌, all,
  All, string_eq, contains, contains-append, append_assoc, append_nil, is_some, arith, Option-cases,
  inl, inr,
}
use mathlib.Core.Path.{subst}
use mathlib.Core.Bool.{false≢true}
use quipucords.Prelude.Dict.{Dict, lookup, insert, keys, contains-keys}
use quipucords.Fingerprint.Model.{Result, ok, err, ◌>>=◌, key_error}
use quipucords.Products.Values.{Facts}
use quipucords.Normalize.{
  NormalizedResult, Call, Outcome, crashed, plain, wrapped, FactMapper, Fields, dependency_values,
  get_raw_fact_keys, check_raw_fact_keys, dependency_keys, finish, sorted_keys, normalize_fact,
  Normalized, Normalizer, put_result, normalize_loop, normalize, call_of, validate,
}

-- Each field's dependencies are among the names before it, and its own name is not.
abbrev pub IsOrdered : List String → Fields → Type 0
IsOrdered seen [] = Unit
IsOrdered seen ((name, mapper) ∷ rest) =
    (All (λ d. contains d seen ≡ true) mapper.dependencies)
    × (contains name seen ≡ false)
    × IsOrdered (seen ++ (name ∷ [])) rest

-- A field reports only raw facts that it may use.
abbrev pub IsHonest : Fields → FactMapper → Type 0
IsHonest fields mapper =
    (c : Call) (r : NormalizedResult)
    → mapper.normalizer_func c ≡ wrapped r
    → check_raw_fact_keys fields mapper r.raw_fact_keys ≡ ok true

module _ {V : Type 0} where
  pub keys-insert_fresh :
      (k : String) (v : V) (d : Dict String V)
      → contains k (keys d) ≡ false
      → keys (insert k v d) ≡ keys d ++ (k ∷ [])
  keys-insert_fresh k v [] h = refl
  keys-insert_fresh k v ((j, w) ∷ d) h = ground (arith, keys-insert_fresh k v d)

  found :
      (k : String) (d : Dict String V)
      → contains k (keys d) ≡ true
      → (v : V) × (lookup k d ≡ some v)
  found k d h = elim (Option-cases (lookup k d)) [
    | inr there ↦ there
    | inl missing ↦ absurd (false≢true (sym (ap is_some missing) ∙ sym (contains-keys k d) ∙ h))
  ]

dependency_values_there :
    (facts : Facts) (ds : List String)
    → All (λ d. contains d (keys facts) ≡ true) ds
    → (vs : Facts) × (dependency_values facts ds ≡ ok vs)
dependency_values_there facts [] h = ([], refl)
dependency_values_there facts (d ∷ ds) h =
    let v = found d facts h.0 in
    let rest = dependency_values_there facts ds h.1 in
    (
      (d, v.0) ∷ rest.0,
      ap
            (λ o. elim o [
              | none ↦ err (key_error d)
              | some w ↦ dependency_values facts ds >>= λ r. ok ((d, w) ∷ r)
            ])
            v.1
          ∙ ap (λ r. r >>= λ q. ok ((d, v.0) ∷ q)) rest.1,
    )

dependency_keys_there :
    (fields : Fields) (ds : List String)
    → All (λ d. contains d (keys fields) ≡ true) ds
    → (ks : List String) × (dependency_keys fields ds ≡ ok ks)
dependency_keys_there fields [] h = ([], refl)
dependency_keys_there fields (d ∷ ds) h =
    let m = found d fields h.0 in
    let rest = dependency_keys_there fields ds h.1 in
    (
      m.0.raw_fact_keys ++ rest.0,
      ap
            (λ o. elim o [
              | none ↦ err (key_error d)
              | some w ↦ dependency_keys fields ds >>= λ r. ok (w.raw_fact_keys ++ r)
            ])
            m.1
          ∙ ap (λ r. r >>= λ q. ok (m.0.raw_fact_keys ++ q)) rest.1,
    )

finish_there :
    (fields : Fields) (mapper : FactMapper) (o : Outcome)
    → All (λ d. contains d (keys fields) ≡ true) mapper.dependencies
    → ((r : NormalizedResult)
        → o ≡ wrapped r
        → check_raw_fact_keys fields mapper r.raw_fact_keys ≡ ok true)
    → (r : NormalizedResult) × (finish fields mapper o ≡ ok r)
unfolding get_raw_fact_keys
finish_there fields mapper crashed there honest = (_, refl)
finish_there fields mapper (plain v) there honest =
    let ks = dependency_keys_there fields mapper.dependencies there in
    (
      _,
      ap
          (λ q. (q >>= λ more. ok (sorted_keys mapper more)) >>= λ js. ok (
            validate mapper.validators
              (record { value = v; raw_fact_keys = some js; has_error = false })))
          ks.1,
    )
finish_there fields mapper (wrapped r) there honest =
    (_, ap (λ q. q >>= λ fine. ok (validate mapper.validators r)) (honest r refl))

normalize_fact_there :
    (fields : Fields) (raw facts : Facts) (mapper : FactMapper)
    → All (λ d. contains d (keys facts) ≡ true) mapper.dependencies
    → All (λ d. contains d (keys fields) ≡ true) mapper.dependencies
    → IsHonest fields mapper
    → (r : NormalizedResult) × (normalize_fact fields raw facts mapper ≡ ok r)
unfolding normalize_fact
normalize_fact_there fields raw facts mapper here there honest =
    let vs = dependency_values_there facts mapper.dependencies here in
    let c = call_of raw mapper.raw_fact_keys vs.0 in
    let r = finish_there fields mapper (mapper.normalizer_func c) there (λ q e. honest c q e) in
    (
      r.0,
      ap
            (λ x. x >>= λ kwargs.
              finish fields mapper
                (mapper.normalizer_func (call_of raw mapper.raw_fact_keys kwargs)))
            vs.1
          ∙ r.1,
    )

-- What the loop has done when it ends.
record IsDone (names : List String) (ran : Normalized × Result Bool) : Type 0 where
  returned : ran.1 ≡ ok true
  all_facts : keys ran.0.facts ≡ names
  all_metadata : keys ran.0.metadata ≡ names

All-seen :
    (names ds seen : List String)
    → All (λ d. contains d seen ≡ true) ds
    → All (λ d. contains d (seen ++ names) ≡ true) ds
All-seen names [] seen h = tt
All-seen names (d ∷ ds) seen h =
    (ground (arith, contains-append d seen names, h.0), All-seen names ds seen h.1)

normalize_loop-IsDone :
    (n : Normalizer) (rest : Fields) (st : Normalized) (seen : List String)
    → keys st.facts ≡ seen
    → keys st.metadata ≡ seen
    → keys n.fields ≡ seen ++ keys rest
    → IsOrdered seen rest
    → All (λ p. IsHonest n.fields p.1) rest
    → IsDone (seen ++ keys rest) (normalize_loop n rest st)
unfolding normalize_loop
normalize_loop-IsDone n [] st seen f m all ordered honest = record {
  returned = refl;
  all_facts = f ∙ sym (append_nil seen);
  all_metadata = m ∙ sym (append_nil seen);
}
normalize_loop-IsDone n ((name, mapper) ∷ rest) st seen f m all ordered honest =
    let here =
      subst (λ ks. All (λ d. contains d ks ≡ true) mapper.dependencies) (sym f) ordered.0 in
    let there =
      subst (λ ks. All (λ d. contains d ks ≡ true) mapper.dependencies) (sym all)
        (All-seen (name ∷ keys rest) mapper.dependencies seen ordered.0) in
    let r = normalize_fact_there n.fields n.raw_facts st.facts mapper here there honest.0 in
    let fresh = ordered.1 in
    let st' = put_result n name r.0 st in
    let f' : keys st'.facts ≡ seen ++ (name ∷ []) =
      keys-insert_fresh name r.0.value st.facts (ap (contains name) f ∙ fresh)
      ∙ ap (λ l. l ++ (name ∷ [])) f in
    let m' : keys st'.metadata ≡ seen ++ (name ∷ []) =
      keys-insert_fresh name _ st.metadata (ap (contains name) m ∙ fresh)
      ∙ ap (λ l. l ++ (name ∷ [])) m in
    let assoc : (seen ++ (name ∷ [])) ++ keys rest ≡ seen ++ (name ∷ keys rest) =
      append_assoc seen (name ∷ []) (keys rest) in
    let done =
      normalize_loop-IsDone n rest st' (seen ++ (name ∷ [])) f' m' (all ∙ sym assoc) ordered.2
        honest.1 in
    subst (IsDone (seen ++ (name ∷ keys rest)))
      (sym (
        ap
          (λ x. elim x [
            | err e ↦ (st, err e)
            | ok q ↦ normalize_loop n rest (put_result n name q st)
          ])
          r.1))
      (subst (λ l. IsDone l (normalize_loop n rest st')) assoc done)

-- Every field is normalized, and has its metadata, in the order of the class.
pub record IsComplete (n : Normalizer) (ran : Option Normalized × Result Facts) : Type 0 where
  pub facts : Facts
  pub returned : ran.1 ≡ ok facts
  pub all_facts : keys facts ≡ keys n.fields

-- If each field comes after those that it depends on and reports only raw facts that it may use, the
-- first call of `normalize` raises no exception, whatever the raw facts are and whichever of the
-- functions fail, and it returns a value for every field, in the order of the class.
pub normalize-IsComplete :
    (n : Normalizer)
    → IsOrdered [] n.fields
    → All (λ p. IsHonest n.fields p.1) n.fields
    → IsComplete n (normalize n none)
unfolding normalize
normalize-IsComplete n ordered honest =
    let done =
      normalize_loop-IsDone n n.fields (record { facts = []; metadata = [] }) [] refl refl refl
        ordered honest in
    record {
      facts = (normalize_loop n n.fields (record { facts = []; metadata = [] })).0.facts;
      returned =
          ap
            (λ q. q >>= λ b.
              ok (normalize_loop n n.fields (record { facts = []; metadata = [] })).0.facts)
            done.returned;
      all_facts = done.all_facts;
    }

-- ===== src/Normalize.antt =====
-- `BaseNormalizer` and `FactMapper` (quipucords/scanner/normalizer.py): facts that are computed in the
-- order in which a class lists them, each from raw facts and from facts computed before. The functions
-- that a class passes in are values; an exception of theirs is an outcome.
pub mod Complete
pub mod ClassBody
use quipucords.Prelude.{
  String, Bool, true, false, not, Option, none, some, List, [], ◌∷◌, ◌++◌, map, all, ◌==◌,
  string_eq, if◌then◌else◌, contains,
}
use quipucords.Prelude.Dict.{Dict, lookup, insert, has_key, keys}
use quipucords.Text.{sorted}
use quipucords.Json.{Value, null}
use quipucords.Fingerprint.Model.{Result, ok, err, ◌>>=◌, key_error, assertion_error, value_error}
use quipucords.Products.Values.{Facts, get}
use quipucords.Products.Versions.{add_to_set}

-- `raw_fact_keys` is `None` for a fact that failed.
pub record NormalizedResult : Type 0 where
  pub value : Value
  pub raw_fact_keys : Option (List String)
  pub has_error : Bool

-- What a normalizer function is called with.
pub record Call : Type 0 where
  pub args : List Value
  pub kwargs : Facts

-- An exception, a plain value, or a `NormalizedResult`.
pub data Outcome : Type 0 where
  crashed : Outcome
  plain : Value → Outcome
  wrapped : NormalizedResult → Outcome

-- A validator raises an exception (`none`) or judges a value.
pub record FactMapper : Type 0 where
  pub raw_fact_keys : List String
  pub normalizer_func : Call → Outcome
  pub validators : List (Value → Option Bool)
  pub dependencies : List String

abbrev pub Fields : Type 0
Fields = Dict String FactMapper

-- `_ensure_dependencies_exist`
abbrev pub dependencies_exist : List String → Fields → Bool
dependencies_exist deps fields = all (λ d. has_key d fields) deps

-- `__set_name__`: a field that is redefined keeps its place.
unfoldable pub set_name : String → FactMapper → Fields → Result Fields
set_name name mapper fields =
    if dependencies_exist mapper.dependencies fields
    then ok (insert name mapper fields)
    else err value_error

-- The body of a class, on top of the fields that it inherits.
unfoldable pub class_body : List (String × FactMapper) → Fields → Result Fields
class_body [] fields = ok fields
class_body ((name, mapper) ∷ rest) fields = set_name name mapper fields >>= class_body rest

-- `{dep: self._normalized[dep] for dep in field.dependencies}`
abbrev pub dependency_values : Facts → List String → Result Facts
dependency_values facts [] = ok []
dependency_values facts (d ∷ ds) = elim (lookup d facts) [
  | none ↦ err (key_error d)
  | some v ↦ dependency_values facts ds >>= λ rest. ok ((d, v) ∷ rest)
]

abbrev with_raw : Facts → List String → Facts → Facts
with_raw raw [] kwargs = kwargs
with_raw raw (k ∷ ks) kwargs = with_raw raw ks (insert k (get k raw) kwargs)

-- One raw fact is an argument by position, several are arguments by name.
abbrev pub call_of : Facts → List String → Facts → Call
call_of raw (k ∷ []) kwargs = record { args = get k raw ∷ []; kwargs = kwargs }
call_of raw ks kwargs = record { args = []; kwargs = with_raw raw ks kwargs }

abbrev pub failed : NormalizedResult
failed = record { value = null; raw_fact_keys = none; has_error = true }

abbrev pub validate : List (Value → Option Bool) → NormalizedResult → NormalizedResult
validate [] r = r
validate (v ∷ vs) r =
    let rest = validate vs r in
    elim (v r.value) [ none ↦ failed | some false ↦ failed | some true ↦ rest ]

abbrev add_all : List String → List String → List String
add_all [] done = done
add_all (k ∷ ks) done = add_all ks (add_to_set k done)

abbrev pub dependency_keys : Fields → List String → Result (List String)
dependency_keys fields [] = ok []
dependency_keys fields (d ∷ ds) = elim (lookup d fields) [
  | none ↦ err (key_error d)
  | some mapper ↦ dependency_keys fields ds >>= λ rest. ok (mapper.raw_fact_keys ++ rest)
]

abbrev pub sorted_keys : FactMapper → List String → List String
sorted_keys mapper more = sorted (add_all (mapper.raw_fact_keys ++ more) [])

-- `_get_raw_fact_keys`: the raw facts of a field and of the fields it depends on.
unfoldable pub get_raw_fact_keys : Fields → FactMapper → Result (List String)
get_raw_fact_keys fields mapper =
    dependency_keys fields mapper.dependencies >>= λ more. ok (sorted_keys mapper more)

-- `_check_raw_fact_keys_for_fact`
unfoldable pub check_raw_fact_keys : Fields → FactMapper → Option (List String) → Result Bool
check_raw_fact_keys fields mapper none = ok true
check_raw_fact_keys fields mapper (some []) = ok true
check_raw_fact_keys fields mapper (some (k ∷ ks)) = get_raw_fact_keys fields mapper >>= λ allowed.
    elim (all (λ j. contains j allowed) (k ∷ ks)) [ true ↦ ok true | false ↦ err assertion_error ]

abbrev pub finish : Fields → FactMapper → Outcome → Result NormalizedResult
finish fields mapper crashed = ok failed
finish fields mapper (plain v) = get_raw_fact_keys fields mapper >>= λ ks.
    ok (
      validate mapper.validators (record { value = v; raw_fact_keys = some ks; has_error = false }))
finish fields mapper (wrapped r) =
    check_raw_fact_keys fields mapper r.raw_fact_keys >>= λ fine. ok (validate mapper.validators r)

unfoldable pub normalize_fact : Fields → Facts → Facts → FactMapper → Result NormalizedResult
normalize_fact fields raw facts mapper = dependency_values facts mapper.dependencies >>= λ kwargs.
    finish fields mapper (mapper.normalizer_func (call_of raw mapper.raw_fact_keys kwargs))

pub record FactMetadata : Type 0 where
  pub raw_fact_keys : Option (List String)
  pub source_type : String
  pub server_id : Option String
  pub has_error : Bool

-- `_normalized` and `_metadata`.
pub record Normalized : Type 0 where
  pub facts : Facts
  pub metadata : Dict String FactMetadata

-- A normalizer: its class and what it was made with.
pub record Normalizer : Type 0 where
  pub source_type : String
  pub fields : Fields
  pub raw_facts : Facts
  pub server_id : Option String

abbrev pub put_result : Normalizer → String → NormalizedResult → Normalized → Normalized
put_result n name r st = record {
  facts = insert name r.value st.facts;
  metadata =
      insert name
        (record {
          raw_fact_keys = r.raw_fact_keys;
          source_type = n.source_type;
          server_id = n.server_id;
          has_error = r.has_error;
        })
        st.metadata;
}

-- The loop: where it is left by an exception, what has been computed stays.
unfoldable pub normalize_loop : Normalizer → Fields → Normalized → Normalized × Result Bool
normalize_loop n [] st = (st, ok true)
normalize_loop n ((name, mapper) ∷ rest) st =
    elim (normalize_fact n.fields n.raw_facts st.facts mapper) [
      | err e ↦ (st, err e)
      | ok r ↦ normalize_loop n rest (put_result n name r st)
    ]

-- `normalize`; its state is `none` before the first call.
unfoldable pub normalize : Normalizer → Option Normalized → Option Normalized × Result Facts
normalize n (some st) = (some st, ok st.facts)
normalize n none =
    let ran = normalize_loop n n.fields (record { facts = []; metadata = [] }) in
    (some ran.0, ran.1 >>= λ done. ok ran.0.facts)

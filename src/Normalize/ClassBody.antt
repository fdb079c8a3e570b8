-- ===== src/Normalize/ClassBody.antt =====
-- The body of a normalizer class lists its fields after those that they depend on.
use quipucords.Prelude.{
  String, ◌≡◌, refl, sym, ◌∙◌, ap, Bool, true, false, List, [], ◌∷◌, ◌++◌, All, string_eq, contains,
  append_assoc, append_nil, arith, Bool-cases, inl, inr, if◌then◌else◌,
}
use mathlib.Core.Path.{subst}
use quipucords.Prelude.Dict.{insert, keys, contains-keys}
use quipucords.Fingerprint.Model.{Result, ok, err, >>=-ok_parts, ok_injective, err≢ok, value_error}
use quipucords.Normalize.{FactMapper, Fields, set_name, class_body, dependencies_exist}
use quipucords.Normalize.Complete.{IsOrdered, keys-insert_fresh}

-- No name of the body is one that is there already, or comes twice.
abbrev pub AreNew : List String → List (String × FactMapper) → Type 0
AreNew seen [] = Unit
AreNew seen ((name, mapper) ∷ rest) =
    (contains name seen ≡ false) × AreNew (seen ++ (name ∷ [])) rest

insert_fresh :
    (k : String) (m : FactMapper) (fields : Fields)
    → contains k (keys fields) ≡ false
    → insert k m fields ≡ fields ++ ((k, m) ∷ [])
insert_fresh k m [] h = refl
insert_fresh k m ((j, w) ∷ fields) h = ground (arith, insert_fresh k m fields)

IsOrdered-append :
    (seen : List String) (fields : Fields) (k : String) (m : FactMapper)
    → IsOrdered seen fields
    → All (λ d. contains d (seen ++ keys fields) ≡ true) m.dependencies
    → contains k (seen ++ keys fields) ≡ false
    → IsOrdered seen (fields ++ ((k, m) ∷ []))
IsOrdered-append seen [] k m h deps fresh = (
  subst (λ l. All (λ d. contains d l ≡ true) m.dependencies) (append_nil seen) deps,
  ap (contains k) (sym (append_nil seen)) ∙ fresh,
  tt,
)
IsOrdered-append seen ((j, w) ∷ fields) k m h deps fresh =
    let assoc : seen ++ (j ∷ keys fields) ≡ (seen ++ (j ∷ [])) ++ keys fields =
      sym (append_assoc seen (j ∷ []) (keys fields)) in
    (
      h.0,
      h.1,
      IsOrdered-append (seen ++ (j ∷ [])) fields k m h.2
          (subst (λ l. All (λ d. contains d l ≡ true) m.dependencies) assoc deps)
          (ap (contains k) (sym assoc) ∙ fresh),
    )

exist-All :
    (ds : List String) (fields : Fields)
    → dependencies_exist ds fields ≡ true
    → All (λ d. contains d (keys fields) ≡ true) ds
exist-All [] fields h = tt
exist-All (d ∷ ds) fields h =
    (ground (arith, contains-keys d fields), exist-All ds fields (ground arith))

set_step : String → FactMapper → Fields → Bool → Result Fields
set_step name mapper fields exist =
    if exist then ok (insert name mapper fields) else err value_error

-- A field is only accepted when its dependencies are there.
set_name-exist :
    (name : String) (mapper : FactMapper) (fields made : Fields)
    → set_name name mapper fields ≡ ok made
    → (dependencies_exist mapper.dependencies fields ≡ true) × (insert name mapper fields ≡ made)
unfolding set_name set_step
set_name-exist name mapper fields made run =
    elim (Bool-cases (dependencies_exist mapper.dependencies fields)) [
      | inl exist ↦ (exist, ok_injective (sym (ap (set_step name mapper fields) exist) ∙ run))
      | inr missing ↦ absurd (err≢ok (sym (ap (set_step name mapper fields) missing) ∙ run))
    ]

-- A class body whose names are new, each different from those before it in the body and from those of
-- the class below, and that is accepted, keeps each field after those that it depends on, on top of a
-- class where this holds.
pub class_body-IsOrdered :
    (body : List (String × FactMapper)) (fields made : Fields)
    → IsOrdered [] fields
    → AreNew (keys fields) body
    → class_body body fields ≡ ok made
    → IsOrdered [] made
unfolding class_body
class_body-IsOrdered [] fields made h new run = subst (IsOrdered []) (ok_injective run) h
class_body-IsOrdered ((name, mapper) ∷ rest) fields made h new run =
    let r = >>=-ok_parts (set_name name mapper fields) _ run in
    let e = set_name-exist name mapper fields r.0 r.1 in
    let next : IsOrdered [] r.0 =
      subst (IsOrdered []) (sym (insert_fresh name mapper fields new.0) ∙ e.1) (
        IsOrdered-append [] fields name mapper h (exist-All mapper.dependencies fields e.0)
          new.0) in
    class_body-IsOrdered rest r.0 made next
      (subst (λ l. AreNew l rest) (sym (keys-insert_fresh name mapper fields new.0) ∙ ap keys e.1)
        new.1)
      r.2

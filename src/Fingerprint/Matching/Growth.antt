-- ===== src/Fingerprint/Matching/Growth.antt =====
-- What one fingerprint adds to an index by key.
use mathlib.Core.Path.{subst}
use quipucords.Prelude.{
  ◌≡◌, sym, ◌∙◌, ap, Bool, true, false, ◌||◌, Option, none, some, is_some, List, [], ◌∷◌, arith,
  string_eq, if◌then◌else◌, Option-cases, inl, inr, any, ◌==◌,
}
use quipucords.Prelude.Dict.{Dict, lookup, has_key, insert, lookup-insert, IsDict, insert-IsDict}
use quipucords.Json.{Value, Key, hash_key, key_eq, elements, arr}
use quipucords.Fingerprint.Model.{
  >>=-ok_parts, ok, err, Result, type_error, Fingerprint, ok_injective, err≢ok,
}
use quipucords.Fingerprint.Matching.{index_key, index_keys, index_value}

-- The values under which a fingerprint is indexed: the elements of a list, or the value itself.
abbrev pub exploded : Value → List Value
exploded (arr vs) = elements vs
exploded v = v ∷ []

abbrev pub is_key : Option Key → Key → Bool
is_key o k = elim o [ none ↦ false | some j ↦ j == k ]

abbrev pub is_at : Key → Value → Bool
is_at k v = is_key (hash_key v) k

abbrev pub first_of : Option Fingerprint → Option Fingerprint → Option Fingerprint
first_of none o = o
first_of (some t) o = some t

-- The entry of a key, where the fingerprint is put under the key if none is there yet.
abbrev pub entry_of : Key → Dict Key Fingerprint → Fingerprint → Bool → Option Fingerprint
entry_of k d fp b = first_of (lookup k d) (if b then some fp else none)

-- How an index of keys grows by the values of a fingerprint.
pub record Grown (fp : Fingerprint) (vs : List Value) (d d' : Dict Key Fingerprint) : Type 0 where
  pub dict : IsDict d'
  pub entry : (k : Key) → lookup k d' ≡ entry_of k d fp (any (is_at k) vs)

abbrev pub at : Fingerprint → Dict Key Fingerprint → Option Key → Result (Dict Key Fingerprint)
at fp d o = elim o [
  | none ↦ err type_error
  | some k ↦ ok (if has_key k d then d else insert k fp d)
]

pub put-IsDict :
    (k : Key) (fp : Fingerprint) (d : Dict Key Fingerprint)
    → IsDict d
    → IsDict (if has_key k d then d else insert k fp d)
put-IsDict k fp d h = elim (has_key k d) as (λ b. IsDict (if b then d else insert k fp d)) [
  | true ↦ h
  | false ↦ insert-IsDict k fp d h
]

pub put_entry :
    (k j : Key) (fp : Fingerprint) (d : Dict Key Fingerprint)
    → lookup j (if has_key k d then d else insert k fp d) ≡ entry_of j d fp (k == j || false)
put_entry k j fp d = ground (arith, key_eq.beq_iff k j, lookup-insert k j fp d)

pub or_false : (b : Bool) → (b || false) ≡ b
or_false b = ground arith

pub chosen :
    (k : Key) (fp : Fingerprint) (d : Dict Key Fingerprint) → lookup k d ≡ entry_of k d fp false
chosen k fp d = ground arith

pub chained :
    (o : Option Fingerprint) (fp : Fingerprint) (a b : Bool)
    → first_of (first_of o (if a then some fp else none)) (if b then some fp else none)
      ≡ first_of o (if a || b then some fp else none)
chained o fp a b = ground arith

pub index_key-Grown :
    (v : Value) (fp : Fingerprint) (d d' : Dict Key Fingerprint)
    → IsDict d
    → index_key v fp d ≡ ok d'
    → Grown fp (v ∷ []) d d'
index_key-Grown v fp d d' h e = elim (Option-cases (hash_key v)) [
  | inl bad ↦ absurd (err≢ok (sym (ap (at fp d) bad) ∙ e))
  | inr (k, good) ↦
      subst (Grown fp (v ∷ []) d) (ok_injective (sym (ap (at fp d) good) ∙ e)) (record {
        dict = put-IsDict k fp d h;
        entry =
            λ j. put_entry k j fp d ∙ ap (λ o. entry_of j d fp (is_key o j || false)) (sym good);
      })
]

pub index_keys-Grown :
    (vs : List Value) (fp : Fingerprint) (d d' : Dict Key Fingerprint)
    → IsDict d
    → index_keys vs fp d ≡ ok d'
    → Grown fp vs d d'
unfolding index_keys
index_keys-Grown [] fp d d' h e =
    subst (Grown fp [] d) (ok_injective e) (record { dict = h; entry = λ k. chosen k fp d })
index_keys-Grown (v ∷ vs) fp d d' h e =
    let (d₁, one, rest) = >>=-ok_parts (index_key v fp d) _ e in
    let first = index_key-Grown v fp d d₁ h one in
    let later = index_keys-Grown vs fp d₁ d' first.dict rest in
    record {
      dict = later.dict;
      entry = λ k.
          later.entry k
          ∙ ap (λ o. first_of o (if any (is_at k) vs then some fp else none))
              (first.entry k ∙ ap (λ b. entry_of k d fp b) (or_false (is_at k v)))
          ∙ chained (lookup k d) fp (is_at k v) (any (is_at k) vs);
    }

pub index_value-Grown :
    (v : Value) (fp : Fingerprint) (d d' : Dict Key Fingerprint)
    → IsDict d
    → index_value v fp d ≡ ok d'
    → Grown fp (exploded v) d d'
index_value-Grown (arr vs) fp d d' h e = index_keys-Grown (elements vs) fp d d' h e
index_value-Grown v fp d d' h e = index_key-Grown v fp d d' h e

pub entry_some :
    (o : Option Fingerprint) (fp : Fingerprint) (b : Bool)
    → is_some (first_of o (if b then some fp else none)) ≡ (is_some o || b)
entry_some o fp b = ground arith

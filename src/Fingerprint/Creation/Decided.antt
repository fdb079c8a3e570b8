-- ===== src/Fingerprint/Creation/Decided.antt =====
-- Which date the loop over the raw dates ends with.
use quipucords.Prelude.{
  String, ◌≡◌, ◌≢◌, refl, sym, ◌∙◌, ap, Bool, true, false, Option, none, some, List, [], ◌∷◌,
  string_eq, All, arith, Option-cases, Bool-cases, inl, inr,
}
use mathlib.Core.Path.{subst}
use quipucords.Prelude.Dict.{Dict, lookup, erase, lookup-erase_ne}
use quipucords.Json.{Value, null, is_null, truthy, bool, int, float, str, arr, obj}
use quipucords.Fingerprint.Model.{
  Result, ok, err, ◌>>=◌, >>=-ok_parts, ok_injective, err≢ok, type_error, Meta, Fingerprint,
}
use quipucords.Products.Values.{get}
use quipucords.Facts.Formatters.{Builtins}
use quipucords.Facts.Dates.{multi_format_dateparse}
use quipucords.Fingerprint.Creation.{Dated, see_date, see_dates, pop_key, logged}

abbrev pub Keys : Type 0
Keys = List (String × List String)

-- The last of the keys that has a value.
abbrev pub last_dated : Dict String Value → Keys → Option (String × List String)
last_dated facts [] = none
last_dated facts ((k, patterns) ∷ keys) = elim (last_dated facts keys) [
  | some found ↦ some found
  | none ↦ elim (is_null (get k facts)) [ true ↦ none | false ↦ some (k, patterns) ]
]

-- What the loop ends with, given the key that counts: its date as it is read, and its metadata.
abbrev pub Decided : Builtins → Fingerprint → Option (String × List String) → Dated → Dated → Type 0
Decided b fp none d e = (e.date ≡ d.date) × (e.date_metadata ≡ d.date_metadata)
Decided b fp (some (k, patterns)) d e =
    (multi_format_dateparse b (get k fp.facts) patterns ≡ ok e.date)
    × (e.date_metadata ≡ lookup k fp.metadata)

-- A key is in none of the keys.
abbrev pub IsFresh : String → Keys → Type 0
IsFresh k = All (λ p. k ≢ p.0)

abbrev pub AreDistinct : Keys → Type 0
AreDistinct [] = Unit
AreDistinct ((k, patterns) ∷ keys) = IsFresh k keys × AreDistinct keys

last_dated-erase :
    (k : String) (facts : Dict String Value) (keys : Keys)
    → IsFresh k keys
    → last_dated (erase k facts) keys ≡ last_dated facts keys
last_dated-erase k facts [] h = refl
last_dated-erase k facts ((j, patterns) ∷ keys) h =
    ground (arith, last_dated-erase k facts keys h.1, lookup-erase_ne k j facts h.0)

logged_same :
    (m : Option Meta) (value date result : Value) → logged m value date ≡ ok result → date ≡ result
logged_same (some m) value date result h = ok_injective h
logged_same none value null result h = elim (Bool-cases (truthy value)) [
  | inl t ↦
      absurd (err≢ok (sym (ap (λ x. elim x [ true ↦ err type_error | false ↦ ok null ]) t) ∙ h))
  | inr f ↦ ok_injective (sym (ap (λ x. elim x [ true ↦ err type_error | false ↦ ok null ]) f) ∙ h)
]
logged_same none value (bool x) result h = ok_injective h
logged_same none value (int x) result h = ok_injective h
logged_same none value (float x) result h = ok_injective h
logged_same none value (str x) result h = ok_injective h
logged_same none value (arr x) result h = ok_injective h
logged_same none value (obj x) result h = ok_injective h

-- The key, if its value is there.
abbrev if_there : Value → String → List String → Option (String × List String)
if_there value k patterns = elim (is_null value) [ true ↦ none | false ↦ some (k, patterns) ]

see_step : Builtins → String → List String → Dated → Bool → Result Dated
see_step b k patterns d missing = elim missing [
  | true ↦ ok (record d { rest = pop_key k d.rest })
  | false ↦
      multi_format_dateparse b (get k d.rest.facts) patterns
      >>= logged (lookup k d.rest.metadata) (get k d.rest.facts)
      >>= λ date. ok (record {
        rest = pop_key k d.rest;
        date = date;
        date_metadata = lookup k d.rest.metadata;
      })
]

pub see_date-Decided :
    (b : Builtins) (k : String) (patterns : List String) (d e : Dated)
    → see_date b k patterns d ≡ ok e
    → (e.rest ≡ pop_key k d.rest) × Decided b d.rest (if_there (get k d.rest.facts) k patterns) d e
unfolding see_date see_step
see_date-Decided b k patterns d e run =
    let value = get k d.rest.facts in
    let decides : Bool → Type 0 =
      λ c. Decided b d.rest (elim c [ true ↦ none | false ↦ some (k, patterns) ]) d e in
    elim (Bool-cases (is_null value)) [
      | inl missing ↦
          let same = ok_injective (sym (ap (see_step b k patterns d) missing) ∙ run) in
          (
            sym (ap (λ (x : Dated). x.rest) same),
            subst decides (sym missing) (
              sym (ap (λ (x : Dated). x.date) same),
              sym (ap (λ (x : Dated). x.date_metadata) same),
            ),
          )
      | inr there ↦
          let r =
            >>=-ok_parts
              (multi_format_dateparse b value patterns >>= logged (lookup k d.rest.metadata) value)
              _ (sym (ap (see_step b k patterns d) there) ∙ run) in
          let q = >>=-ok_parts (multi_format_dateparse b value patterns) _ r.1 in
          let same = ok_injective r.2 in
          let date =
            logged_same (lookup k d.rest.metadata) value q.0 r.0 q.2
            ∙ ap (λ (x : Dated). x.date) same in
          (
            sym (ap (λ (x : Dated). x.rest) same),
            subst decides (sym there)
                (q.1 ∙ ap {A = Value} ok date, sym (ap (λ (x : Dated). x.date_metadata) same)),
          )
    ]

pick : Bool → String → List String → Option (String × List String) → Option (String × List String)
pick missing i p o = elim o [
  | some found ↦ some found
  | none ↦ elim missing [ true ↦ none | false ↦ some (i, p) ]
]

fresh_dated :
    (j : String) (facts : Dict String Value) (keys : Keys) (k : String) (patterns : List String)
    → IsFresh j keys
    → last_dated facts keys ≡ some (k, patterns)
    → j ≢ k
unfolding pick
fresh_dated j facts [] k patterns h found = cc found
fresh_dated j facts ((i, p) ∷ keys) k patterns h found =
    elim (Option-cases (last_dated facts keys)) [
      | inr (a, e) ↦
          fresh_dated j facts keys k patterns h.1
            (e ∙ sym (ap (pick (is_null (get i facts)) i p) e) ∙ found)
      | inl e ↦ elim (Bool-cases (is_null (get i facts))) [
        | inl missing ↦ cc (found, e, missing)
        | inr there ↦ λ same.
            let q =
              sym (ap (pick (is_null (get i facts)) i p) e ∙ ap (λ m. pick m i p none) there)
              ∙ found in
            h.0 (same ∙ ap (λ o. elim o [ some x ↦ x.0 | none ↦ k ]) (sym q))
      ]
    ]

later-Decided :
    (b : Builtins) (fp : Fingerprint) (o : Option (String × List String)) (d d' e : Dated)
    → e.date ≡ d'.date
    → e.date_metadata ≡ d'.date_metadata
    → Decided b fp o d d'
    → Decided b fp o d e
later-Decided b fp none d d' e p q h = (p ∙ h.0, q ∙ h.1)
later-Decided b fp (some (k, patterns)) d d' e p q h = (h.0 ∙ ap {A = Value} ok (sym p), q ∙ h.1)

-- A key seen before the one that counts changes nothing for it.
carry-Decided :
    (b : Builtins) (j : String) (o : Option (String × List String)) (keys : Keys) (d d' e : Dated)
    → IsFresh j keys
    → last_dated d.rest.facts keys ≡ o
    → d'.rest ≡ pop_key j d.rest
    → Decided b d'.rest o d' e
    → (patterns : List String) → Decided b d.rest (if_there (get j d.rest.facts) j patterns) d d'
    → Decided b d.rest
        (elim o [ some found ↦ some found | none ↦ if_there (get j d.rest.facts) j patterns ])
        d
        e
carry-Decided b j (some (k, q)) keys d d' e fresh counts rest h patterns seen =
    let ne : j ≢ k = fresh_dated j d.rest.facts keys k q fresh counts in
    (
      ap (λ v. multi_format_dateparse b v q)
            (ap (λ o. elim o [ some v ↦ v | none ↦ null ])
                (sym (lookup-erase_ne j k d.rest.facts ne))
              ∙ ap (λ (x : Fingerprint). get k x.facts) (sym rest))
          ∙ h.0,
      h.1
          ∙ ap (λ (x : Fingerprint). lookup k x.metadata) rest
          ∙ lookup-erase_ne j k d.rest.metadata ne,
    )
carry-Decided b j none keys d d' e fresh counts rest h patterns seen =
    later-Decided b d.rest (if_there (get j d.rest.facts) j patterns) d d' e h.0 h.1 seen

pub see_dates-Decided :
    (b : Builtins) (keys : Keys) (d e : Dated)
    → AreDistinct keys
    → see_dates b keys d ≡ ok e
    → Decided b d.rest (last_dated d.rest.facts keys) d e
unfolding see_dates
see_dates-Decided b [] d e h run = (
  ap {B = Value} (λ (x : Dated). x.date) (sym (ok_injective run)),
  ap (λ (x : Dated). x.date_metadata) (sym (ok_injective run)),
)
see_dates-Decided b ((j, patterns) ∷ keys) d e h run =
    let r = >>=-ok_parts (see_date b j patterns d) _ run in
    let seen = see_date-Decided b j patterns d r.0 r.1 in
    let same : last_dated r.0.rest.facts keys ≡ last_dated d.rest.facts keys =
      ap (λ (x : Fingerprint). last_dated x.facts keys) seen.0
      ∙ last_dated-erase j d.rest.facts keys h.0 in
    carry-Decided b j (last_dated d.rest.facts keys) keys d r.0 e h.0 refl seen.0
      (subst (λ o. Decided b r.0.rest o r.0 e) same (see_dates-Decided b keys r.0 e h.1 r.2))
      patterns seen.1

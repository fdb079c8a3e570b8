-- ===== src/Products/Values.antt =====
-- What the detection of products does with values of facts, whose types it mostly takes for granted:
-- a value of another type raises an exception. `product_entitlement_found` and
-- `generate_raw_fact_members` (quipucords/fingerprinter/utils.py), and `default_getter`
-- (quipucords/utils/__init__.py).
use Prim.Native.String.{◌++◌ as text_append}
use quipucords.Prelude.{
  String, Bool, true, false, Option, none, some, List, [], ◌∷◌, map, any, ◌==◌, string_eq, select,
}
use quipucords.Prelude.Dict.{Dict, lookup, has_key}
use quipucords.Text.{codes, occurs, join, sorted}
use quipucords.Json.{Value, null, str, arr, obj, Members, no_members, member, truthy, elements}
use quipucords.Fingerprint.Model.{Result, ok, err, ◌>>=◌, attribute_error, type_error}

-- The facts of one system.
abbrev pub Facts : Type 0
Facts = Dict String Value

abbrev or_null : Option Value → Value
or_null none = null
or_null (some v) = v

-- `facts.get(key)`
abbrev pub get : String → Facts → Value
get k facts = or_null (lookup k facts)

-- `default_getter(facts, key, default)`
abbrev pub default_getter : Facts → String → Value → Value
default_getter facts k default = elim (get k facts) [ null ↦ default | v ↦ v ]

abbrev pub members : Members → Dict String Value
members no_members = []
members (member k v fs) = (k, v) ∷ members fs

-- `value.items()`
abbrev pub items : Value → Result (Dict String Value)
items (obj fs) = ok (members fs)
items _ = err attribute_error

abbrev pub characters : String → List Value
characters String.[] = []
characters (String.◌∷◌ c s) = str (String.◌∷◌ c "") ∷ characters s

-- `for x in value`
abbrev pub iterate : Value → Result (List Value)
iterate (arr vs) = ok (elements vs)
iterate (obj fs) = ok (map (λ p. str p.0) (members fs))
iterate (str s) = ok (characters s)
iterate _ = err type_error

-- `value.get(key)`, with the given value for a missing key.
abbrev pub get_member : String → Value → Value → Result Value
get_member k default (obj fs) = elim (lookup k (members fs)) [ some v ↦ ok v | none ↦ ok default ]
get_member k default _ = err attribute_error

-- `prefix + value`
abbrev pub text_plus : String → Value → Result String
text_plus start (str s) = ok (text_append start s)
text_plus start _ = err type_error

abbrev is_text : String → Value → Bool
is_text s (str t) = s == t
is_text s _ = false

-- `text in value`
abbrev pub text_in : String → Value → Result Bool
text_in s (str t) = ok (occurs (codes s) (codes t))
text_in s (arr vs) = ok (any (is_text s) (elements vs))
text_in s (obj fs) = ok (has_key s (members fs))
text_in s _ = err type_error

-- Whether a name mentions a product; a name that is null does not.
abbrev pub name_mentions : String → Value → Result Bool
name_mentions product null = ok false
name_mentions product name = text_in product name

abbrev pub any_entitlement : String → List Value → Result Bool
any_entitlement product [] = ok false
any_entitlement product (entitlement ∷ rest) =
    get_member "name" (str "") entitlement >>= name_mentions product >>= λ found. elim found [
      | true ↦ ok true
      | false ↦ any_entitlement product rest
    ]

unfoldable pub product_entitlement_found : Value → String → Result Bool
product_entitlement_found entitlements product = elim (truthy entitlements) [
  | true ↦ iterate entitlements >>= any_entitlement product
  | false ↦ ok false
]

-- The keys with a value that counts as true, in the order of the alphabet; `none` if there are none.
unfoldable pub generate_raw_fact_members : Dict String Bool → Option String
generate_raw_fact_members facts =
    elim (select (λ k. elim (lookup k facts) [ some b ↦ b | none ↦ false ])
      (sorted (map (λ p. p.0) facts))) [ [] ↦ none | k ∷ ks ↦ some (join "/" (k ∷ ks)) ]

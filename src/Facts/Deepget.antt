-- ===== src/Facts/Deepget.antt =====
-- `deepget` (quipucords/utils/deepget.py). Its data is the dict of a system's raw facts, and what it
-- looks into from there are dicts and lists. `int(key)` is modelled for the digits of ASCII.
use Prim.Native.Char.{code}
use quipucords.Prelude.{
  ℕ, zero, suc, ◌*◌, ◌+◌, ◌-◌, String, Bool, true, false, not, ◌&&◌, Option, none, some, List, [],
  ◌∷◌, ◌==◌, nat_eq, string_eq, ltb, length, if◌then◌else◌,
}
use quipucords.Prelude.Dict.{lookup}
use quipucords.Text.{codes, strip, push}
use quipucords.Json.{Value, null, arr, obj, elements}
use quipucords.Products.Values.{Facts, members}

abbrev underscore : ℕ
underscore = 95

-- `path.split("__")`
abbrev pub split_keys : String → List String
split_keys String.[] = "" ∷ []
split_keys (String.◌∷◌ c String.[]) = String.◌∷◌ c "" ∷ []
split_keys (String.◌∷◌ c (String.◌∷◌ d s)) =
    if code c == underscore && code d == underscore
    then "" ∷ split_keys s
    else push c (split_keys (String.◌∷◌ d s))

-- An index as `int` reads it: from the start, or from the end for a negative number.
pub data Index : Type 0 where
  from_start : ℕ → Index
  from_end : ℕ → Index

abbrev is_digit : ℕ → Bool
is_digit c = not (ltb c 48) && ltb c 58

-- Digits, with single underscores between them; the flag says whether a digit came right before.
abbrev digits : List ℕ → Bool → ℕ → Option ℕ
digits [] after_digit n = if after_digit then some n else none
digits (c ∷ cs) after_digit n =
    let next = digits cs true (n * 10 + (c - 48)) in
    let skip = digits cs false n in
    if is_digit c then next else if c == underscore && after_digit then skip else none

abbrev signed : List ℕ → Option Index
signed [] = none
signed (c ∷ cs) =
    if c == 45
    then elim (digits cs false 0) [
      | none ↦ none
      | some n ↦ some (if n == 0 then from_start 0 else from_end n)
    ]
    else elim (digits (if c == 43 then cs else c ∷ cs) false 0) [
      | none ↦ none
      | some n ↦ some (from_start n)
    ]

-- `int(key)`; `none` for a `ValueError`.
abbrev pub int_of_key : String → Option Index
int_of_key key = signed (codes (strip key))

abbrev element_at : ℕ → List Value → Value
element_at n [] = null
element_at zero (v ∷ vs) = v
element_at (suc n) (v ∷ vs) = element_at n vs

-- `data[index]` of a list, or `None` where the index is out of range.
abbrev pub index_list : Option Index → List Value → Value
index_list none vs = null
index_list (some (from_start n)) vs = element_at n vs
index_list (some (from_end n)) vs =
    if ltb (length vs) n then null else element_at (length vs - n) vs

-- `_get_item` of a dict or a list.
abbrev pub get_item : Value → String → Value
get_item (obj fs) key = elim (lookup key (members fs)) [ some v ↦ v | none ↦ null ]
get_item (arr vs) key = index_list (int_of_key key) (elements vs)
get_item _ key = null

-- Whether a value can be looked into and is no text.
abbrev pub is_nested : Value → Bool
is_nested (obj fs) = true
is_nested (arr vs) = true
is_nested _ = false

unfoldable pub get_nested_item : Value → List String → Value
get_nested_item v [] = v
get_nested_item v (key ∷ []) = get_item v key
get_nested_item v (key ∷ next ∷ keys) =
    let item = get_item v key in
    let inner = get_nested_item item (next ∷ keys) in if is_nested item then inner else null

-- The first key is looked up among the facts.
abbrev fact_item : Facts → String → Value
fact_item facts key = elim (lookup key facts) [ some v ↦ v | none ↦ null ]

abbrev pub deepget_keys : Facts → List String → Value
deepget_keys facts [] = null
deepget_keys facts (key ∷ []) = fact_item facts key
deepget_keys facts (key ∷ next ∷ keys) =
    let item = fact_item facts key in
    if is_nested item then get_nested_item item (next ∷ keys) else null

unfoldable pub deepget : Facts → String → Value
deepget facts path = deepget_keys facts (split_keys path)

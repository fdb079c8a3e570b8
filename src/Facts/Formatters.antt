-- ===== src/Facts/Formatters.antt =====
-- quipucords/fingerprinter/formatters.py, `convert_to_bool_or_none` (quipucords/api/common/util.py),
-- `strip_prefix` and `strip_suffix` (quipucords/fingerprinter/utils.py), and
-- quipucords/scanner/openshift/formatters.py. What Python makes of a float or of a whole list or dict
-- as a text or a number is a parameter; so is the reading of dates.
use Prim.Native.Char.{Char, code}
use quipucords.Prelude.{
  ℕ, zero, suc, ◌-◌, ◌*◌, String, Bool, true, false, not, ◌||◌, ◌&&◌, Option, List, [], ◌∷◌, ◌==◌,
  nat_eq, string_eq, ltb, length, if◌then◌else◌, all,
}
use quipucords.Prelude.Dict.{has_key}
use quipucords.Text.{codes, begins, occurs, lower_codes, strip, drop_chars, join}
use quipucords.Json.{
  Value, null, bool, int, float, str, arr, obj, Elements, no_elements, element, elements,
}
use quipucords.Fingerprint.Model.{
  Result, ok, err, ◌>>=◌, attribute_error, type_error, overflow_error,
}
use quipucords.Products.Values.{get_member, iterate, items}

-- What a conversion to a number gives: the number, `TypeError`, `ValueError` or `OverflowError`.
pub data Conversion : Type 0 where
  converted : ℕ → Conversion
  wrong_type wrong_value too_large : Conversion

-- What the formatters use of Python: `str` of a value that is no text, `float`, `int`, the product of
-- a value and a number, and `datetime.strptime(text, pattern).date()`.
pub record Builtins : Type 0 where
  pub text_of : Value → String
  pub float_of : Value → Conversion
  pub int_of : Value → Conversion
  pub multiply : Value → ℕ → Result Value
  pub strptime : String → String → Option Value

abbrev nth_char : ℕ → String → Char → Char
nth_char n String.[] c = c
nth_char zero (String.◌∷◌ d s) c = d
nth_char (suc n) (String.◌∷◌ d s) c = nth_char n s c

abbrev lower_char : Char → Char
lower_char c =
    if not (ltb (code c) 65) && ltb (code c) 91
    then nth_char (code c - 65) "abcdefghijklmnopqrstuvwxyz" c
    else c

-- `text.lower()`
abbrev pub lower_text : String → String
lower_text String.[] = ""
lower_text (String.◌∷◌ c s) = String.◌∷◌ (lower_char c) (lower_text s)

abbrev lower_all : Elements → Result Elements
lower_all no_elements = ok no_elements
lower_all (element (str s) vs) = lower_all vs >>= λ ws. ok (element (str (lower_text s)) ws)
lower_all (element v vs) = err attribute_error

unfoldable pub format_mac_addresses : Value → Result Value
format_mac_addresses (arr vs) = lower_all vs >>= λ ws. ok (arr ws)
format_mac_addresses v = ok v

unfoldable pub is_redhat_from_vm_os : Value → Result Value
is_redhat_from_vm_os null = ok (bool false)
is_redhat_from_vm_os (str s) = ok (
    bool (
      not (s == "")
      && (occurs (codes "red hat enterprise linux") (lower_codes s)
          || occurs (codes "rhel") (lower_codes s))))
is_redhat_from_vm_os _ = err attribute_error

abbrev gigabyte : ℕ
gigabyte = 1073741824

unfoldable pub gigabytes_to_bytes : Builtins → Value → Result Value
gigabytes_to_bytes b null = ok null
gigabytes_to_bytes b (int n) = ok (int (n * gigabyte))
gigabytes_to_bytes b v = b.multiply v gigabyte

unfoldable pub convert_architecture : Value → Result Value
convert_architecture (str s) = ok (str (if s == "amd64" then "x86_64" else s))
convert_architecture (arr vs) = err type_error
convert_architecture (obj fs) = err type_error
convert_architecture v = ok v

abbrev text_or_null : String → Value
text_or_null s = if s == "" then null else str s

unfoldable pub str_or_none : Builtins → Value → Result Value
str_or_none b null = ok null
str_or_none b (str s) = ok (text_or_null (strip s))
str_or_none b v = ok (str (strip (b.text_of v)))

abbrev float_result : Conversion → Result Value
float_result (converted n) = ok (float n)
float_result too_large = err overflow_error
float_result _ = ok null

-- Only `ValueError` and `TypeError` are suppressed.
unfoldable pub float_or_none : Builtins → Value → Result Value
float_or_none b v = float_result (b.float_of v)

abbrev int_result : Conversion → Result Value
int_result (converted n) = ok (int n)
int_result too_large = err overflow_error
int_result _ = ok null

abbrev int_of_float : Builtins → Value → Result Value
int_of_float b null = ok null
int_of_float b v = int_result (b.int_of v)

abbrev int_or_float : Builtins → Value → Conversion → Result Value
int_or_float b v wrong_value = float_result (b.float_of v) >>= int_of_float b
int_or_float b v c = int_result c

unfoldable pub int_or_none : Builtins → Value → Result Value
int_or_none b v = int_or_float b v (b.int_of v)

unfoldable pub list_or_none : Value → Result Value
list_or_none (arr vs) = ok (arr vs)
list_or_none _ = ok null

unfoldable pub dict_or_none : Value → Result Value
dict_or_none (obj fs) = ok (obj fs)
dict_or_none _ = ok null

abbrev is_dict : Value → Bool
is_dict (obj fs) = true
is_dict _ = false

unfoldable pub list_of_dicts : Value → Result Value
list_of_dicts (arr vs) = ok (arr (if all is_dict (elements vs) then vs else no_elements))
list_of_dicts _ = ok (arr no_elements)

-- No value of JSON is a `datetime` or a `date`.
unfoldable pub date_or_none : Value → Result Value
date_or_none _ = ok null

abbrev lower_is : String → String → Bool
lower_is word s =
    length (codes word) == length (lower_codes s) && begins (codes word) (lower_codes s)

-- `is_boolean`
abbrev pub is_boolean : Value → Bool
is_boolean (bool b) = true
is_boolean (str s) = lower_is "true" s || lower_is "false" s
is_boolean _ = false

unfoldable pub convert_to_bool_or_none : Value → Result Value
convert_to_bool_or_none (bool b) = ok (bool b)
convert_to_bool_or_none (str s) = ok (if is_boolean (str s) then bool (lower_is "true" s) else null)
convert_to_bool_or_none _ = ok null

abbrev first_chars : ℕ → String → String
first_chars n String.[] = ""
first_chars zero (String.◌∷◌ c s) = ""
first_chars (suc n) (String.◌∷◌ c s) = String.◌∷◌ c (first_chars n s)

-- `text.endswith(end)`
abbrev pub ends : String → String → Bool
ends end s =
    not (ltb (length (codes s)) (length (codes end)))
    && drop_chars (length (codes s) - length (codes end)) s == end

-- `string[: -len(suffix)]` is empty for an empty suffix.
unfoldable pub strip_suffix : String → String → String
strip_suffix s suffix =
    if ends suffix s
    then (if suffix == "" then "" else first_chars (length (codes s) - length (codes suffix)) s)
    else s

unfoldable pub strip_prefix : String → String → String
strip_prefix s start =
    if begins (codes start) (codes s) then drop_chars (length (codes start)) s else s

abbrev mentions_ip : Value → Result Bool
mentions_ip (str s) = ok (occurs (codes "ip") (lower_codes s))
mentions_ip _ = err attribute_error

abbrev ip_loop : List Value → Result Elements
ip_loop [] = ok no_elements
ip_loop (address ∷ rest) = get_member "type" null address >>= mentions_ip >>= elim [
  | false ↦ ip_loop rest
  | true ↦ get_member "address" null address >>= λ a. ip_loop rest >>= λ vs. ok (element a vs)
]

unfoldable pub extract_ip_addresses : Value → Result Value
extract_ip_addresses addresses = iterate addresses >>= ip_loop >>= λ vs. ok (arr vs)

abbrev roles_in : Value → List (String × String) → Result (List String)
roles_in labels [] = ok []
roles_in labels ((label, role) ∷ rest) = items labels >>= λ d.
    roles_in labels rest >>= λ roles. ok (if has_key label d then role ∷ roles else roles)

unfoldable pub infer_node_role : Value → Result Value
infer_node_role labels =
    roles_in labels (
      ("node-role.kubernetes.io/worker", "worker")
      ∷ ("node-role.kubernetes.io/master", "master")
      ∷ ("node-role.kubernetes.io/control-plane", "control-plane")
      ∷ [])
    >>= λ roles. ok (str (join "/" roles))

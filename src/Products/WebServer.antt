-- ===== src/Products/WebServer.antt =====
-- `get_version` and `detect_jboss_ws` (quipucords/fingerprinter/jboss_web_server.py). The patterns
-- are written out as functions that take a text apart from its start.
use Prim.Native.String.{◌++◌ as text_append}
use Prim.Native.Char.{code}
use quipucords.Prelude.{
  ℕ, String, Bool, true, false, not, ◌||◌, ◌&&◌, Option, none, some, List, [], ◌∷◌, ◌++◌, ◌==◌,
  string_eq, nat_eq, ltb, length, if◌then◌else◌,
}
use quipucords.Prelude.Dict.{Dict, lookup}
use quipucords.Text.{codes, begins, occurs, drop_chars}
use quipucords.Json.{Value, null, str, arr, obj, truthy, no_members, member}
use quipucords.Fingerprint.Model.{
  Result, ok, err, ◌>>=◌, attribute_error, type_error, Presence, absent, present, potential,
  Product,
}
use quipucords.Fingerprint.Sources.{Source}
use quipucords.Products.Values.{
  Facts, get, iterate, product_entitlement_found, generate_raw_fact_members,
}
use quipucords.Products.Eap.{product_metadata, texts}

abbrev pub jws_product : String
jws_product = "JBoss Web Server"

abbrev pub jws_classifications : Dict String String
jws_classifications =
    ("Apache/2.2.10 (Unix)Apache Tomcat/5.5.23", "EWS 1.0.0")
    ∷ ("Apache/2.2.14 (Unix)Apache Tomcat/5.5.28", "EWS 1.0.1")
    ∷ ("Apache/2.2.17 (Unix)Apache Tomcat/5.5.33", "EWS 1.0.2")
    ∷ ("Apache/2.2.22 (Unix)Apache Tomcat/6.0.35", "EWS 2.0.0")
    ∷ ("Apache/2.2.22 (Unix)Apache Tomcat/6.0.37", "EWS 2.0.1")
    ∷ ("Apache/2.2.26 (Unix)Apache Tomcat/6.0.41", "EWS 2.1.x")
    ∷ []

-- The rest of a text that starts with another.
abbrev without_prefix : String → String → Option String
without_prefix start s =
    if begins (codes start) (codes s) then some (drop_chars (length (codes start)) s) else none

abbrev is_digit : ℕ → Bool
is_digit c = not (ltb c 48) && ltb c 58

abbrev is_digit_or_dot : ℕ → Bool
is_digit_or_dot c = is_digit c || c == 46

-- The longest start of a text with characters of one kind, and the rest.
abbrev span : (ℕ → Bool) → String → String × String
span p String.[] = ("", "")
span p (String.◌∷◌ c s) =
    let rest = span p s in
    if p (code c) then (String.◌∷◌ c rest.0, rest.1) else ("", String.◌∷◌ c s)

-- `[...]+` followed by a given rest, which does not start with a character of the class.
abbrev one_or_more : (ℕ → Bool) → String → Option (String × String)
one_or_more p s = let r = span p s in if r.0 == "" then none else some r

abbrev server_prefix : String
server_prefix = "Red Hat JBoss Web Server - Version "

-- `JWS_GA_PATTERN`
abbrev pub ga_version : String → Option String
ga_version s = elim (without_prefix server_prefix s) [
  | none ↦ none
  | some rest ↦ elim (one_or_more is_digit_or_dot rest) [
    | none ↦ none
    | some r ↦ if r.1 == " GA" then some (text_append "JWS " r.0) else none
  ]
]

abbrev patch_of : String → String → Option String
patch_of major rest = elim (one_or_more is_digit rest) [
  | none ↦ none
  | some r ↦
      if r.1 == ""
      then some (text_append "JWS " (text_append major (text_append "." r.0)))
      else none
]

-- `JWS_PATCH_PATTERN`
abbrev pub patch_version : String → Option String
patch_version s = elim (without_prefix server_prefix s) [
  | none ↦ none
  | some rest ↦ elim (one_or_more is_digit_or_dot rest) [
    | none ↦ none
    | some r ↦ elim (without_prefix " SP" r.1) [ none ↦ none | some more ↦ patch_of r.0 more ]
  ]
]

-- `JWS_UNIT_NAME_PATTERN`
abbrev pub unit_version : String → Option String
unit_version s = elim (without_prefix "jws" s) [
  | none ↦ none
  | some rest ↦ elim (one_or_more is_digit rest) [
    | none ↦ none
    | some r ↦ if r.1 == "" then some (text_append "JWS " (text_append r.0 ".x.x")) else none
  ]
]

abbrev or_else : Option String → Option String → Option String
or_else none b = b
or_else (some a) b = some a

-- `version.replace("_", " ", 1)` of a version that starts with `JWS_3`.
abbrev underscore_version : String → Option String
underscore_version s =
    if begins (codes "JWS_3") (codes s) then some (text_append "JWS " (drop_chars 4 s)) else none

-- What one raw version is called, if it is known.
unfoldable pub standard_version : Value → Result (Option String)
standard_version (str s) = ok (
    or_else (lookup s jws_classifications) (
      or_else (underscore_version s)
        (or_else (ga_version s) (or_else (patch_version s) (unit_version s)))))
standard_version (arr vs) = err type_error
standard_version (obj fs) = err type_error
standard_version _ = err attribute_error

abbrev version_loop : List Value → Result (List String)
version_loop [] = ok []
version_loop (v ∷ vs) = standard_version v >>= λ name.
    version_loop vs >>= λ names. ok (elim name [ some n ↦ n ∷ names | none ↦ names ])

unfoldable pub get_jws_version : Value → Result (List String)
get_jws_version null = ok []
get_jws_version raw_versions = iterate raw_versions >>= version_loop

-- The presence and the facts that speak for it, as the tests of the source change them.
pub record Signs : Type 0 where
  pub presence : Presence
  pub raw_facts : Dict String Bool

-- `raw_facts[key] = value`, with a presence; only for a key that is not there yet.
abbrev note : Presence → String → Value → Signs → Signs
note p key v s = record { presence = p; raw_facts = s.raw_facts ++ ((key, truthy v) ∷ []) }

abbrev version_presence : List String → Presence → Presence
version_presence [] p = p
version_presence (v ∷ vs) p = if occurs (codes "EWS") (codes v) then potential else present

abbrev note_version : List String → Value → Signs → Signs
note_version [] v s = s
note_version (n ∷ ns) v s = note (version_presence (n ∷ ns) s.presence) "jws_version" v s

abbrev note_if : Bool → Presence → String → Value → Signs → Signs
note_if true p key v s = note p key v s
note_if false p key v s = s

unfoldable pub jws_signs : Facts → Bool → List String → Signs
jws_signs facts entitled version =
    let fact : String → Value = λ key. get key facts in
    note_if (truthy (fact "jws_has_cert")) present "jws_has_cert" (fact "jws_has_cert") (
      note_if (truthy (fact "jws_installed_with_rpm")) present "jws_installed_with_rpm"
        (fact "jws_installed_with_rpm")
        (note_version version (fact "jws_version") (
          note_if (truthy (fact "jws_has_eula_txt_file")) potential "jws_has_eula_txt_file"
            (fact "jws_has_eula_txt_file")
            (note_if entitled potential "subman_consumed" (fact "subman_consumed")
              (record { presence = absent; raw_facts = [] })))))

abbrev pub jws_of : Source → List String → Signs → Product
jws_of s version signs = record {
  name = jws_product;
  presence = some signs.presence;
  details = obj (
      member "version" (arr (texts version)) (
        member "metadata" (product_metadata s (generate_raw_fact_members signs.raw_facts))
          no_members));
}

unfoldable pub detect_jboss_ws : Source → Facts → Result Product
detect_jboss_ws s facts = get_jws_version (get "jws_version" facts) >>= λ version.
    product_entitlement_found (get "subman_consumed" facts) jws_product >>= λ entitled.
    ok (jws_of s version (jws_signs facts entitled version))

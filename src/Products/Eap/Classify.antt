-- ===== src/Products/Eap/Classify.antt =====
-- What single facts say about JBoss EAP (quipucords/fingerprinter/jboss_eap.py): their presence, the
-- versions that they name, or both. A set is a list without repetitions.
use quipucords.Prelude.{
  String, Bool, true, false, not, ◌||◌, ◌&&◌, Option, none, some, List, [], ◌∷◌, ◌==◌, string_eq,
  if◌then◌else◌,
}
use quipucords.Prelude.Dict.{Dict, lookup, values}
use quipucords.Text.{codes, begins, occurs, lower_codes, strip, splitlines, after}
use quipucords.Json.{Value, null, str, truthy, obj, arr}
use quipucords.Fingerprint.Model.{
  Result, ok, err, ◌>>=◌, attribute_error, type_error, Presence, absent, present, potential,
  unknown,
}
use quipucords.Products.Values.{items, iterate, get_member, text_plus, product_entitlement_found}
use quipucords.Products.Versions.{add_to_set}

abbrev pub eap_classifications : Dict String String
eap_classifications =
    ("JBoss_4_0_0", "JBossAS-4")
    ∷ ("JBoss_4_0_1_SP1", "JBossAS-4")
    ∷ ("JBoss_4_0_2", "JBossAS-4")
    ∷ ("JBoss_4_0_3_SP1", "JBossAS-4")
    ∷ ("JBoss_4_0_4_GA", "JBossAS-4")
    ∷ ("Branch_4_0", "JBossAS-4")
    ∷ ("JBoss_4_2_0_GA", "JBossAS-4")
    ∷ ("JBoss_4_2_1_GA", "JBossAS-4")
    ∷ ("JBoss_4_2_2_GA", "JBossAS-4")
    ∷ ("JBoss_4_2_3_GA", "JBossAS-4")
    ∷ ("JBoss_5_0_0_GA", "JBossAS-5")
    ∷ ("JBoss_5_0_1_GA", "JBossAS-5")
    ∷ ("JBoss_5_1_0_GA", "JBossAS-5")
    ∷ ("JBoss_6.0.0.Final", "JBossAS-6")
    ∷ ("JBoss_6.1.0.Final", "JBossAS-6")
    ∷ ("1.0.1.GA", "JBossAS-7")
    ∷ ("1.0.2.GA", "JBossAS-7")
    ∷ ("1.1.1.GA", "JBossAS-7")
    ∷ ("1.2.0.CR1", "JBossAS-7")
    ∷ ("1.2.0.Final", "WildFly-8")
    ∷ ("1.2.2.Final", "WildFly-8")
    ∷ ("1.2.4.Final", "WildFly-8")
    ∷ ("1.3.0.Beta3", "WildFly-8")
    ∷ ("1.3.0.Final", "WildFly-8")
    ∷ ("1.3.3.Final", "WildFly-8")
    ∷ ("1.3.4.Final", "WildFly-9")
    ∷ ("1.4.2.Final", "WildFly-9")
    ∷ ("1.4.3.Final", "WildFly-9")
    ∷ ("1.4.4.Final", "WildFly-10")
    ∷ ("1.5.0.Final", "WildFly-10")
    ∷ ("1.5.1.Final", "WildFly-10")
    ∷ ("1.5.2.Final", "WildFly-10")
    ∷ ("1.6.0.Final", "WildFly-11")
    ∷ ("1.6.1.Final", "WildFly-11")
    ∷ ("1.7.0.Final", "WildFly-12")
    ∷ ("JBPAPP_4_2_0_GA", "4.2")
    ∷ ("JBPAPP_4_2_0_GA_C", "4.2")
    ∷ ("JBPAPP_4_3_0_GA", "4.3")
    ∷ ("JBPAPP_4_3_0_GA_C", "4.3")
    ∷ ("JBPAPP_5_0_0_GA", "5.0.0")
    ∷ ("JBPAPP_5_0_1", "5.0.1")
    ∷ ("JBPAPP_5_1_0", "5.1.0")
    ∷ ("JBPAPP_5_1_1", "5.1.1")
    ∷ ("JBPAPP_5_1_2", "5.1.2")
    ∷ ("JBPAPP_5_2_0", "5.2.0")
    ∷ ("1.1.2.GA-redhat-1", "6.0.0")
    ∷ ("1.1.3.GA-redhat-1", "6.0.1")
    ∷ ("1.2.0.Final-redhat-1", "6.1.0")
    ∷ ("1.2.2.Final-redhat-1", "6.1.1")
    ∷ ("1.3.0.Final-redhat-2", "6.2.0")
    ∷ ("1.3.3.Final-redhat-1", "6.3.0")
    ∷ ("1.3.4.Final-redhat-1", "6.3")
    ∷ ("1.3.5.Final-redhat-1", "6.3")
    ∷ ("1.3.6.Final-redhat-1", "6.4.0")
    ∷ ("1.3.7.Final-redhat-1", "6.4")
    ∷ ("1.4.4.Final-redhat-1", "7.0")
    ∷ ("1.5.1.Final-redhat-1", "7.0.0")
    ∷ ("1.5.4.Final-redhat-1", "7.0")
    ∷ ("1.6.0.Final-redhat-1", "7.1.0")
    ∷ ("1.8.6.Final-redhat-00001", "7.2.0")
    ∷ ("1.9.1.Final-redhat-00001", "7.3.0")
    ∷ []

-- `EAP_CLASSIFICATIONS.get(version)`; a list or a dict cannot be looked up.
abbrev pub classification_of : Value → Result (Option String)
classification_of (str v) = ok (lookup v eap_classifications)
classification_of (arr vs) = err type_error
classification_of (obj fs) = err type_error
classification_of _ = ok none

abbrev or_unknown_release : Option String → String → String
or_unknown_release (some c) unknown_release = c
or_unknown_release none unknown_release = unknown_release

abbrev jar_version_loop : List Value → List String → Result (List String)
jar_version_loop [] versions = ok versions
jar_version_loop (version_data ∷ rest) versions =
    get_member "version" null version_data >>= λ version.
    text_plus "Unknown-Release: " version >>= λ unknown_release. classification_of version >>= λ c.
    jar_version_loop rest (add_to_set (or_unknown_release c unknown_release) versions)

unfoldable pub classify_jar_versions : Value → Result (List String)
classify_jar_versions jar_versions = elim (truthy jar_versions) [
  | true ↦ iterate jar_versions >>= λ vs. jar_version_loop vs []
  | false ↦ ok []
]

abbrev pub is_eap : Option String → Bool
is_eap (some c) = begins (codes "EAP") (codes c)
is_eap none = false

abbrev pub any_eap : List Value → Result Presence
any_eap [] = ok unknown
any_eap (version ∷ rest) =
    classification_of version >>= λ c. elim (is_eap c) [ true ↦ ok present | false ↦ any_eap rest ]

unfoldable pub versions_eap_presence : Value → Result Presence
versions_eap_presence jar_versions = elim (truthy jar_versions) [
  | true ↦ items jar_versions >>= λ vs. any_eap (values vs)
  | false ↦ ok unknown
]

abbrev class_loop : List Value → List String → Result (List String)
class_loop [] classes = ok classes
class_loop (version ∷ rest) classes = classification_of version >>= elim [
  | some c ↦ class_loop rest (add_to_set c classes)
  | none ↦ text_plus "Unknown-Release: " version >>= λ u. class_loop rest (add_to_set u classes)
]

unfoldable pub classify_versions : Value → Result (List String)
classify_versions versions = items versions >>= λ vs. class_loop (values vs) []

abbrev pub eap_product : String
eap_product = "JBoss EAP"

unfoldable pub find_eap_entitlement : Value → Result Presence
find_eap_entitlement entitlements = elim (truthy entitlements) [
  | true ↦ product_entitlement_found entitlements eap_product >>= λ found.
      ok (if found then potential else unknown)
  | false ↦ ok absent
]

abbrev any_truthy : List Value → Bool
any_truthy [] = false
any_truthy (v ∷ vs) = truthy v || any_truthy vs

unfoldable pub any_value_true : Value → Result Presence
any_value_true value = items value >>= λ vs. ok (if any_truthy (values vs) then present else absent)

abbrev strip_value : Value → Result String
strip_value (str s) = ok (strip s)
strip_value _ = err attribute_error

abbrev version_txt_loop : List Value → List String → Result (List String)
version_txt_loop [] versions = ok versions
version_txt_loop (version ∷ rest) versions = elim (truthy version) [
  | true ↦ strip_value version >>= λ s. version_txt_loop rest (add_to_set s versions)
  | false ↦ version_txt_loop rest versions
]

unfoldable pub process_version_txt : Value → Result (List String)
process_version_txt value = items value >>= λ vs. version_txt_loop (values vs) []

-- Whether a classification is EAP rather than WildFly or JBossAS.
abbrev pub verify_classification : String → Bool
verify_classification c =
    if occurs (codes "wildfly") (lower_codes c) || occurs (codes "jbossas") (lower_codes c)
    then false
    else true

abbrev pub implementation_version : String
implementation_version = "Implementation-Version:"

-- The classification that a line of a manifest names.
abbrev line_classification : String → Option String
line_classification line =
    if occurs (codes implementation_version) (codes line)
    then lookup (strip (after implementation_version line)) eap_classifications
    else none

-- The classification that a `jar -version` string names.
abbrev jar_classification : String → Option String
jar_classification version = lookup (strip (after "version" version)) eap_classifications

abbrev any_verified : (String → Option String) → List String → Bool
any_verified find [] = false
any_verified find (line ∷ lines) =
    elim (find line) [ some c ↦ not (c == "") && verify_classification c | none ↦ false ]
    || any_verified find lines

abbrev add_found : (String → Option String) → List String → List String → List String
add_found find [] versions = versions
add_found find (line ∷ lines) versions =
    add_found find lines (elim (find line) [ some c ↦ add_to_set c versions | none ↦ versions ])

-- The lines of a manifest; a value that is no text is only warned about.
abbrev manifest_lines : Value → List String
manifest_lines (str s) = splitlines s
manifest_lines _ = []

-- A `jar -version` string as its only line.
abbrev jar_lines : Value → List String
jar_lines (str s) = s ∷ []
jar_lines _ = []

abbrev any_present : (String → Option String) → (Value → List String) → List Value → Bool
any_present find lines [] = false
any_present find lines (v ∷ vs) = any_verified find (lines v) || any_present find lines vs

abbrev all_versions :
    (String → Option String) → (Value → List String) → List Value → List String → List String
all_versions find lines [] versions = versions
all_versions find lines (v ∷ vs) versions =
    all_versions find lines vs (add_found find (lines v) versions)

unfoldable pub is_eap_manifest_version : Value → Result Presence
is_eap_manifest_version value = items value >>= λ vs.
    ok (if any_present line_classification manifest_lines (values vs) then present else absent)

unfoldable pub get_eap_manifest_version : Value → Result (List String)
get_eap_manifest_version value =
    items value >>= λ vs. ok (all_versions line_classification manifest_lines (values vs) [])

unfoldable pub is_eap_jar_version : Value → Result Presence
is_eap_jar_version value = items value >>= λ vs.
    ok (if any_present jar_classification jar_lines (values vs) then present else absent)

unfoldable pub get_eap_jar_version : Value → Result (List String)
get_eap_jar_version value =
    items value >>= λ vs. ok (all_versions jar_classification jar_lines (values vs) [])

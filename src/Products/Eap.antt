-- ===== src/Products/Eap.antt =====
-- `detect_jboss_eap` (quipucords/fingerprinter/jboss_eap.py): the table of facts, and the loop that
-- gathers from them the presence, the versions and the facts that speak for the presence.
pub mod Classify
pub mod Strongest
pub mod Manifest
use quipucords.Prelude.{
  ℕ, String, ◌≡◌, refl, Bool, true, false, not, ◌||◌, ◌&&◌, Option, none, some, List, [], ◌∷◌, ◌++◌,
  map, ◌==◌, string_eq, nat_eq, ltb, if◌then◌else◌, select, is_some,
}
use quipucords.Text.{codes, begins, lower_codes, join}
use quipucords.Json.{
  Value, null, str, arr, obj, truthy, Elements, no_elements, element, no_members, member,
}
use quipucords.Fingerprint.Model.{
  Result, ok, err, ◌>>=◌, Presence, absent, present, potential, unknown, Product,
}
use quipucords.Fingerprint.Sources.{Source, type_name}
use quipucords.Products.Values.{Facts, get}
use quipucords.Products.Versions.{add_to_set, version_aware_dedup}
use quipucords.Products.Eap.Classify.{
  any_value_true, classify_jar_versions, process_version_txt, is_eap_manifest_version,
  get_eap_manifest_version, is_eap_jar_version, get_eap_jar_version, versions_eap_presence,
  classify_versions, find_eap_entitlement, eap_product,
}

-- A literal presence, or a function of the fact's value.
pub data PresenceRule : Type 0 where
  literal : Presence → PresenceRule
  computed : (Value → Result Presence) → PresenceRule

-- An entry of `FACTS`.
pub record FactRule : Type 0 where
  pub name : String
  pub presence : PresenceRule
  pub version : Option (Value → Result (List String))

abbrev only : String → PresenceRule → FactRule
only n p = record { name = n; presence = p; version = none }

abbrev both : String → PresenceRule → (Value → Result (List String)) → FactRule
both n p v = record { name = n; presence = p; version = some v }

unfoldable pub eap_facts : List FactRule
eap_facts =
    only "jboss_eap_running_paths" (literal potential)
    ∷ only "jboss_eap_id_jboss" (literal potential)
    ∷ only "jboss_eap_common_files" (literal potential)
    ∷ only "jboss_processes" (literal potential)
    ∷ only "jboss_eap_packages" (literal present)
    ∷ only "jboss_eap_locate_jboss_modules_jar" (literal potential)
    ∷ only "jboss_eap_systemctl_unit_files" (literal potential)
    ∷ only "jboss_eap_chkconfig" (literal potential)
    ∷ only "eap_home_ls" (computed any_value_true)
    ∷ both "jboss_eap_jar_ver" (literal present) classify_jar_versions
    ∷ both "jboss_eap_run_jar_ver" (literal present) classify_jar_versions
    ∷ both "eap_home_version_txt" (computed any_value_true) process_version_txt
    ∷ only "eap_home_readme_txt" (literal absent)
    ∷ both "eap_home_jboss_modules_manifest" (computed is_eap_manifest_version)
        get_eap_manifest_version
    ∷ both "eap_home_jboss_modules_version" (computed is_eap_jar_version) get_eap_jar_version
    ∷ only "eap5_home_version_txt" (computed any_value_true)
    ∷ only "eap5_home_readme_html" (computed any_value_true)
    ∷ both "eap5_home_run_jar_manifest" (computed versions_eap_presence) classify_versions
    ∷ only "subman_consumed" (computed find_eap_entitlement)
    ∷ only "entitlements" (computed find_eap_entitlement)
    ∷ []

-- `call_or_value`
abbrev pub call_or_value : PresenceRule → Value → Result Presence
call_or_value (literal p) v = ok p
call_or_value (computed f) v = f v

-- The index in `PRESENCE_ORDER`.
abbrev pub order_index : Presence → ℕ
order_index unknown = 0
order_index absent = 1
order_index potential = 2
order_index present = 3

abbrev pub presence_ge : Presence → Presence → Bool
presence_ge a b = not (ltb (order_index a) (order_index b))

abbrev pub same_presence : Presence → Presence → Bool
same_presence a b = order_index a == order_index b

-- The variables of the loop.
pub record Detection : Type 0 where
  pub presence : Presence
  pub versions : List String
  pub raw_facts : List String

-- A fact's presence is weighed against that of the facts before it.
unfoldable pub weigh : String → Presence → Detection → Detection
weigh fact new_presence d =
    if not (presence_ge d.presence new_presence)
    then record d { presence = new_presence; raw_facts = fact ∷ [] }
    else if same_presence d.presence new_presence && not (same_presence d.presence unknown)
    then record d { raw_facts = d.raw_facts ++ (fact ∷ []) }
    else d

abbrev add_versions : List String → List String → List String
add_versions [] versions = versions
add_versions (v ∷ vs) versions = add_versions vs (add_to_set v versions)

abbrev new_versions : Option (Value → Result (List String)) → Value → Result (List String)
new_versions none v = ok []
new_versions (some f) v = f v

unfoldable pub detect_loop : Facts → List FactRule → Detection → Result Detection
detect_loop facts [] d = ok d
detect_loop facts (rule ∷ rules) d = elim (truthy (get rule.name facts)) [
  | false ↦ detect_loop facts rules d
  | true ↦ call_or_value rule.presence (get rule.name facts) >>= λ p.
      new_versions rule.version (get rule.name facts) >>= λ vs.
      let weighed = weigh rule.name p d in
      detect_loop facts rules (record weighed { versions = add_versions vs weighed.versions })
]

-- What the loop starts with.
abbrev pub undetected : Detection
undetected = record { presence = absent; versions = []; raw_facts = [] }

abbrev is_community : String → Bool
is_community v =
    begins (codes "wildfly") (lower_codes v) || begins (codes "jbossas") (lower_codes v)

abbrev pub texts : List String → Elements
texts [] = no_elements
texts (t ∷ ts) = element (str t) (texts ts)

-- The metadata of a product.
abbrev pub product_metadata : Source → Option String → Value
product_metadata s raw = obj (
    member "server_id" (str s.server_id) (
      member "source_name" (str s.source_name) (
        member "source_type" (str (type_name s.source_type))
          (member "raw_fact_key" (elim raw [ some r ↦ str r | none ↦ null ]) no_members))))

abbrev joined : List String → Option String
joined [] = none
joined (f ∷ fs) = some (join "/" (f ∷ fs))

abbrev null_if_empty : List String → Bool
null_if_empty [] = true
null_if_empty (v ∷ vs) = false

-- The presence that the product ends with: versions of the community's products alone rule it out.
unfoldable pub final_presence : Detection → Presence
final_presence d =
    if not (null_if_empty d.versions)
      && null_if_empty (select (λ v. not (is_community v)) d.versions)
    then absent
    else d.presence

abbrev version_member : List String → Value → Value
version_member [] metadata = obj (member "metadata" metadata no_members)
version_member (v ∷ vs) metadata = obj (
    member "version"
      (arr (texts (version_aware_dedup (select (λ u. not (is_community u)) (v ∷ vs)))))
      (member "metadata" metadata no_members))

abbrev pub eap_of : Source → Detection → Product
eap_of s d = record {
  name = eap_product;
  presence = some (final_presence d);
  details = version_member d.versions (product_metadata s (joined d.raw_facts));
}

unfoldable pub detect_jboss_eap : Source → Facts → Result Product
detect_jboss_eap s facts = detect_loop facts eap_facts undetected >>= λ d. ok (eap_of s d)

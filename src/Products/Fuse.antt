-- ===== src/Products/Fuse.antt =====
-- `detect_jboss_fuse` (quipucords/fingerprinter/jboss_fuse.py). The versions found are a set in the
-- source; here they are a list without repetitions. A version that is no text raises `TypeError`
-- either when it is put into the set or when it is classified.
use quipucords.Prelude.{
  String, Bool, true, false, ◌||◌, ◌&&◌, Option, none, some, List, [], ◌∷◌, ◌++◌, string_eq, any,
}
use quipucords.Prelude.Dict.{Dict, lookup, values}
use Prim.Native.String.{◌++◌ as text_append}
use quipucords.Json.{Value, str, arr, obj, truthy, elements, no_elements, no_members, member}
use quipucords.Fingerprint.Model.{
  Result, ok, err, ◌>>=◌, key_error, type_error, Presence, absent, present, potential, Product,
}
use quipucords.Fingerprint.Sources.{Source}
use quipucords.Products.Values.{
  Facts, get, default_getter, items, iterate, members, product_entitlement_found,
  generate_raw_fact_members,
}
use quipucords.Products.Versions.{add_to_set}
use quipucords.Products.Eap.{product_metadata, texts}

abbrev pub fuse_product : String
fuse_product = "JBoss Fuse"

abbrev pub fuse_classifications : Dict String String
fuse_classifications =
    ("redhat-630187", "Fuse-6.3.0")
    ∷ ("redhat-621084", "Fuse-6.2.1")
    ∷ ("redhat-620133", "Fuse-6.2.0")
    ∷ ("redhat-611412", "Fuse-6.1.1")
    ∷ ("redhat-610379", "Fuse-6.1.0")
    ∷ ("redhat-60024", "Fuse-6.0.0")
    ∷ []

-- `dictionary["version"]`
abbrev version_item : Value → Result Value
version_item (obj fs) = elim (lookup "version" (members fs)) [
  | some v ↦ ok v
  | none ↦ err (key_error "version")
]
version_item _ = err type_error

abbrev version_items : List Value → Result (List Value)
version_items [] = ok []
version_items (d ∷ ds) = version_item d >>= λ v. version_items ds >>= λ vs. ok (v ∷ vs)

abbrev flatten : List Value → Result (List Value)
flatten [] = ok []
flatten (v ∷ vs) = iterate v >>= λ xs. flatten vs >>= λ ys. ok (xs ++ ys)

unfoldable pub get_fuse_version : Value → Result (List Value)
get_fuse_version eap_version = iterate eap_version >>= version_items >>= flatten

-- What can be added to a list.
abbrev list_of : Value → Result (List Value)
list_of (arr vs) = ok (elements vs)
list_of _ = err type_error

-- The versions of one component: from the regular scan, from EAP homes, from extended products.
pub record Component : Type 0 where
  pub regular : List Value
  pub on_eap : List Value
  pub extended : List Value

abbrev empty_list : Value
empty_list = arr no_elements

unfoldable pub component : Facts → String → String → String → Result Component
component facts regular_key eap_key extended_key =
    get_fuse_version (default_getter facts eap_key empty_list) >>= λ eap.
    list_of (default_getter facts regular_key empty_list) >>= λ regular.
    list_of (default_getter facts extended_key empty_list) >>= λ extended.
    ok (record { regular = regular; on_eap = eap; extended = extended })

abbrev pub all_of : Component → List Value
all_of c = c.regular ++ (c.on_eap ++ c.extended)

abbrev pub filled {ℓ} : {A : Type ℓ} → List A → Bool
filled [] = false
filled (x ∷ xs) = true

-- `home and any(home.values())`
abbrev pub home_found : Value → Result Bool
home_found home = elim (truthy home) [
  | true ↦ items home >>= λ vs. ok (any truthy (values vs))
  | false ↦ ok false
]

abbrev text_set : List Value → List String → Result (List String)
text_set [] done = ok done
text_set (str s ∷ vs) done = text_set vs (add_to_set s done)
text_set (v ∷ vs) done = err type_error

abbrev fuse_version_name : String → String
fuse_version_name v = elim (lookup v fuse_classifications) [
  | some c ↦ c
  | none ↦ text_append "Unknown-Release: " v
]

abbrev classified : List String → List String
classified [] = []
classified (v ∷ vs) = fuse_version_name v ∷ classified vs

abbrev details_of : List String → Value → Value
details_of [] metadata = obj (member "metadata" metadata no_members)
details_of (v ∷ vs) metadata =
    obj (member "version" (arr (texts (v ∷ vs))) (member "metadata" metadata no_members))

-- What the branches decide: the presence, the facts that speak for it, and the versions.
pub record Verdict : Type 0 where
  pub presence : Presence
  pub raw_facts : Option String
  pub versions : List String

abbrev verdict : Presence → Option String → List String → Verdict
verdict p raw vs = record { presence = p; raw_facts = raw; versions = vs }

-- Fuse is not found installed: what units and entitlements say.
unfoldable pub judge_traces : Facts → Result Verdict
judge_traces facts =
    let systemctl_files = truthy (get "jboss_fuse_systemctl_unit_files" facts) in
    let chkconfig = truthy (get "jboss_fuse_chkconfig" facts) in
    elim (systemctl_files || chkconfig) [
      | true ↦ ok (
          verdict potential
            (generate_raw_fact_members (
              ("jboss_fuse_systemctl_unit_files", systemctl_files)
              ∷ ("jboss_fuse_chkconfig", chkconfig)
              ∷ []))
            [])
      | false ↦
          product_entitlement_found (default_getter facts "subman_consumed" empty_list) fuse_product
          >>= elim [
            | true ↦ ok (verdict potential (some "subman_consumed") [])
            | false ↦
                product_entitlement_found (default_getter facts "entitlements" empty_list)
                  fuse_product
                >>= elim [
                  | true ↦ ok (verdict potential (some "entitlements") [])
                  | false ↦ ok (verdict absent none [])
                ]
          ]
    ]

-- Fuse is installed: the facts that show it.
unfoldable pub installed_facts : Bool → Bool → Component → Component → Component → Dict String Bool
installed_facts on_eap on_karaf activemq camel cxf =
    ("eap_home_bin", on_eap)
    ∷ ("karaf_home_bin_fuse", on_karaf)
    ∷ ("jboss_activemq_ver", filled activemq.extended)
    ∷ ("jboss_camel_ver", filled camel.extended)
    ∷ ("jboss_cxf_ver", filled cxf.extended)
    ∷ ("fuse_activemq_version", filled activemq.regular)
    ∷ ("fuse_camel_version", filled camel.regular)
    ∷ ("fuse_cxf_version", filled cxf.regular)
    ∷ ("jboss_fuse_on_eap_activemq_ver", filled activemq.on_eap)
    ∷ ("jboss_fuse_on_eap_camel_ver", filled camel.on_eap)
    ∷ ("jboss_fuse_on_eap_cxf_ver", filled cxf.on_eap)
    ∷ []

unfoldable pub judge_fuse : Facts → Bool → Bool → Component → Component → Component → Result Verdict
judge_fuse facts on_eap on_karaf activemq camel cxf =
    let every = filled (all_of activemq) && filled (all_of camel) && filled (all_of cxf) in
    elim (every || on_eap || on_karaf) [
      | true ↦ text_set (all_of activemq ++ (all_of camel ++ all_of cxf)) [] >>= λ versions. ok (
          verdict present
            (generate_raw_fact_members (installed_facts on_eap on_karaf activemq camel cxf))
            (classified versions))
      | false ↦ judge_traces facts
    ]

unfoldable pub fuse_verdict : Facts → Result Verdict
fuse_verdict facts =
    component facts "fuse_activemq_version" "jboss_fuse_on_eap_activemq_ver" "jboss_activemq_ver"
    >>= λ activemq.
        component facts "fuse_camel_version" "jboss_fuse_on_eap_camel_ver" "jboss_camel_ver"
        >>= λ camel.
            component facts "fuse_cxf_version" "jboss_fuse_on_eap_cxf_ver" "jboss_cxf_ver"
            >>= λ cxf. home_found (get "eap_home_bin" facts) >>= λ on_eap.
                home_found (get "karaf_home_bin_fuse" facts) >>= λ on_karaf.
                judge_fuse facts on_eap on_karaf activemq camel cxf

unfoldable pub detect_jboss_fuse : Source → Facts → Result Product
detect_jboss_fuse s facts = fuse_verdict facts >>= λ v. ok (record {
  name = fuse_product;
  presence = some v.presence;
  details = details_of v.versions (product_metadata s v.raw_facts);
})

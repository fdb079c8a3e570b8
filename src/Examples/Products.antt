-- ===== src/Examples/Products.antt =====
-- Products and their versions, found from facts.
use quipucords.Prelude.{
  String, ◌≡◌, ◌≢◌, refl, not, ◌&&◌, some, List, [], ◌∷◌, any, contains, string_eq, ◌==◌,
}
use quipucords.Json.{Value, str, obj, member, no_members}
use quipucords.Fingerprint.Model.{ok, present, Product}
use quipucords.Fingerprint.Sources.{Source, network}
use quipucords.Products.Values.{Facts}
use quipucords.Products.Versions.{version_aware_dedup, version_aware_dedup-keeps, starts}
use quipucords.Products.Eap.{
  Detection, detect_jboss_eap, detect_loop, weigh, eap_facts, eap_of, final_presence,
}
use quipucords.Products.Eap.Classify.{
  any_value_true, is_eap_jar_version, get_eap_jar_version, versions_eap_presence,
}
use quipucords.Products.Eap.Strongest.{IsStrongest, detect_jboss_eap-IsStrongest}
use quipucords.Products.Eap.Manifest.{versions_eap_presence_never}
use quipucords.Examples.Fingerprint.{or_default, rhel}

abbrev versions : List String
versions = "7.0.0" ∷ "6.4" ∷ "7.0" ∷ []

version_aware_dedup-keeps_example :
    contains "7.0" (version_aware_dedup versions)
    ≡ (contains "7.0" versions && not (any (λ w. starts "7.0" w && not (w == "7.0")) versions))
version_aware_dedup-keeps_example = version_aware_dedup-keeps "7.0" versions

less_precise_dropped : version_aware_dedup versions ≡ "6.4" ∷ "7.0.0" ∷ []
unfolding version_aware_dedup
less_precise_dropped = refl

abbrev pub scanned : Source
scanned = record { server_id = "s"; source_type = network; source_name = "a"; facts = [] }

-- Running paths, a home that holds EAP, and the version that its jar has.
abbrev eap_host : Facts
eap_host =
    ("jboss_eap_running_paths", str "/opt/eap")
    ∷ ("eap_home_ls", obj (member "/opt/eap" (str "bin") no_members))
    ∷ (
      "eap_home_jboss_modules_version",
      obj (member "/opt/eap" (str "JBoss Modules version 1.4.4.Final-redhat-1") no_members),
    )
    ∷ []

abbrev eap_found : Product
eap_found = or_default rhel (detect_jboss_eap scanned eap_host)

detect_jboss_eap-IsStrongest_example :
    (d : Detection) × (eap_found ≡ eap_of scanned d) × IsStrongest eap_host eap_facts d
unfolding detect_jboss_eap detect_loop weigh eap_facts any_value_true is_eap_jar_version
    get_eap_jar_version
detect_jboss_eap-IsStrongest_example = detect_jboss_eap-IsStrongest scanned eap_host eap_found refl

eap_is_present : eap_found.presence ≡ some present
unfolding detect_jboss_eap detect_loop weigh eap_facts final_presence any_value_true
    is_eap_jar_version get_eap_jar_version
eap_is_present = refl

-- The manifest of EAP 6.0.0.
abbrev manifest : Value
manifest = obj (member "/opt/jboss" (str "1.1.2.GA-redhat-1") no_members)

versions_eap_presence_never_example : versions_eap_presence manifest ≢ ok present
versions_eap_presence_never_example = versions_eap_presence_never manifest

-- ===== src/Examples/Facts.antt =====
-- Raw facts of a host and of a hypervisor, and dates.
use quipucords.Prelude.{◌≡◌, refl, true, false, none, some, [], ◌∷◌, ◌==◌, string_eq, if◌then◌else◌}
use quipucords.Json.{null, bool, int, str, arr, obj, element, no_elements, member, no_members}
use quipucords.Fingerprint.Model.{err, type_error, Fingerprint, Meta}
use quipucords.Fingerprint.Merge.Total.{IsWellFormed}
use quipucords.Fingerprint.Sources.{Source, satellite}
use quipucords.Fingerprint.Build.{add_facts, add_fact_to_fingerprint}
use quipucords.Fingerprint.Creation.{
  compute_system_creation_time, see_dates, see_date, creation_key,
}
use quipucords.Fingerprint.Creation.Latest.{IsDated, compute_system_creation_time-IsDated}
use quipucords.Products.Values.{Facts, get, product_entitlement_found}
use quipucords.Products.Eap.{detect_jboss_eap, detect_loop, weigh, eap_facts}
use quipucords.Products.Fuse.{
  detect_jboss_fuse, fuse_verdict, judge_fuse, judge_traces, component, get_fuse_version,
}
use quipucords.Products.WebServer.{detect_jboss_ws, get_jws_version, jws_signs}
use quipucords.Products.Eap.Classify.{find_eap_entitlement}
use quipucords.Facts.Deepget.{deepget, get_nested_item}
use quipucords.Facts.Formatters.{
  Builtins, converted, wrong_type, wrong_value, str_or_none, int_or_none, float_or_none,
  list_or_none, format_mac_addresses, strip_suffix,
}
use quipucords.Facts.Dates.{multi_format_dateparse}
use quipucords.Facts.Satellite.{
  satellite_additions, redhat_rows, infrastructure_row, registration_time, last_checkin,
}
use quipucords.Facts.Process.{
  process_facts_for_datasource, process_satellite_fact, add_entitlements_to_fingerprint,
  add_products_to_fingerprint,
}
use quipucords.Facts.Process.WellFormed.{process_facts_for_datasource-IsWellFormed}
use quipucords.Examples.Fingerprint.{or_default, first}

role_found :
    deepget
      (("system_purpose_json", obj (member "role" (str "server") no_members)) ∷ [])
      "system_purpose_json__role"
    ≡ str "server"
unfolding deepget get_nested_item
role_found = refl

-- Numbers are read from integers only, dates from one text.
abbrev python : Builtins
python = record {
  text_of = λ v. "?";
  float_of = λ v. elim v [ int n ↦ converted n | _ ↦ wrong_value ];
  int_of = λ v. elim v [ int n ↦ converted n | null ↦ wrong_type | _ ↦ wrong_value ];
  multiply = λ v n. err type_error;
  strptime = λ text pattern. if text == "2024-04-01" then some (str "2024-04-01") else none;
}

abbrev hypervisor : Facts
hypervisor =
    ("hostname", str "virt-who-host-1")
    ∷ ("os_name", str "RedHat Enterprise Linux")
    ∷ ("cores", int 4)
    ∷ ("is_virtualized", bool false)
    ∷ ("entitlements", arr (element (obj (member "name" (str "JBoss EAP") no_members)) no_elements))
    ∷ []

abbrev from_satellite : Source
from_satellite = record {
  server_id = "s";
  source_type = satellite;
  source_name = "a";
  facts = hypervisor ∷ [];
}

abbrev made : Fingerprint
made = or_default first (process_facts_for_datasource python from_satellite hypervisor)

process_facts_for_datasource-IsWellFormed_example : IsWellFormed made
unfolding process_facts_for_datasource process_satellite_fact add_facts add_fact_to_fingerprint
    add_entitlements_to_fingerprint add_products_to_fingerprint satellite_additions redhat_rows
    infrastructure_row registration_time last_checkin deepget get_nested_item str_or_none
    int_or_none float_or_none list_or_none format_mac_addresses detect_jboss_eap detect_loop weigh
    eap_facts product_entitlement_found detect_jboss_fuse fuse_verdict judge_fuse judge_traces
    component get_fuse_version detect_jboss_ws get_jws_version jws_signs find_eap_entitlement
process_facts_for_datasource-IsWellFormed_example =
    process_facts_for_datasource-IsWellFormed python from_satellite hypervisor made refl

infrastructure_is_hypervisor : get "infrastructure_type" made.facts ≡ str "hypervisor"
unfolding process_facts_for_datasource process_satellite_fact add_facts add_fact_to_fingerprint
    add_entitlements_to_fingerprint add_products_to_fingerprint satellite_additions redhat_rows
    infrastructure_row registration_time last_checkin deepget get_nested_item str_or_none
    int_or_none float_or_none list_or_none format_mac_addresses detect_jboss_eap detect_loop weigh
    eap_facts product_entitlement_found detect_jboss_fuse fuse_verdict judge_fuse judge_traces
    component get_fuse_version detect_jboss_ws get_jws_version jws_signs find_eap_entitlement
infrastructure_is_hypervisor = refl

abbrev date_meta : Meta
date_meta = record {
  server_id = "s";
  source_name = "a";
  source_type = "network";
  raw_fact_key = "date_machine_id";
  has_sudo = bool true;
}

-- A date that can be read, and a more accurate one that cannot.
abbrev with_dates : Fingerprint
with_dates = record first {
  facts = ("date_anaconda_log", str "2024-04-01") ∷ ("date_machine_id", str "yesterday") ∷ [];
  metadata = ("date_anaconda_log", date_meta) ∷ ("date_machine_id", date_meta) ∷ [];
}

abbrev dated : Fingerprint
dated = or_default first (compute_system_creation_time python with_dates)

compute_system_creation_time-IsDated_example :
    IsDated python with_dates "date_machine_id" ("%Y-%m-%d" ∷ []) dated
unfolding compute_system_creation_time see_dates see_date multi_format_dateparse strip_suffix
compute_system_creation_time-IsDated_example =
    compute_system_creation_time-IsDated python with_dates dated "date_machine_id" ("%Y-%m-%d" ∷ [])
      date_meta (refl, (refl, tt)) refl refl refl

-- The date that could be read is lost.
readable_date_lost : get creation_key dated.facts ≡ null
unfolding compute_system_creation_time see_dates see_date multi_format_dateparse strip_suffix
readable_date_lost = refl

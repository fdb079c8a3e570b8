-- ===== src/Reports/Aggregate.antt =====
-- `_aggregate_from_system_fingerprints` and `_aggregate_from_inspect_results`
-- (quipucords/api/aggregate_report/model.py). Of a fingerprint, a missing text is empty and a missing
-- number is 0, since the code only tests whether they count as true. Cores are counted in whole numbers.
pub mod Totals
pub mod RawFacts
pub mod Caching
pub mod Current
pub mod Tally
pub mod Steps
pub mod Refinement
use Prim.Native.Nat.{◌/◌}
use quipucords.Prelude.{
  ℕ, zero, suc, ◌+◌, String, Bool, true, false, not, ◌||◌, ◌&&◌, Option, none, some, List, [], ◌∷◌,
  ◌++◌, ◌==◌, nat_eq, string_eq, if◌then◌else◌, length, select, contains, any, map,
}
use quipucords.Prelude.Dict.{Dict, lookup, insert, values}
use quipucords.Fingerprint.Model.{Product, Presence, present}
use quipucords.Products.Versions.{add_to_set}
use quipucords.Products.Eap.{same_presence}
use quipucords.Reports.Dates.{average_date}

pub record SystemFingerprint : Type 0 where
  pub name : String
  pub os_name : String
  pub os_version : String
  pub source_types : List String
  pub is_redhat : Bool
  pub infrastructure_type : String
  pub cpu_count : ℕ
  pub cpu_core_count : ℕ
  pub cpu_socket_count : ℕ
  pub system_creation_date : Option ℕ
  pub products : List Product
  pub has_system_purpose : Bool
  pub has_redhat_certs : Bool
  pub vm_cluster : String
  pub virtual_host_uuid : String

-- The counters, and the three collections that the loop fills beside them.
pub record Aggregated : Type 0 where
  pub instances_not_redhat : ℕ
  pub instances_virtual : ℕ
  pub instances_physical : ℕ
  pub instances_hypervisor : ℕ
  pub instances_unknown : ℕ
  pub missing_cpu_core_count : ℕ
  pub missing_cpu_socket_count : ℕ
  pub missing_name : ℕ
  pub missing_system_creation_date : ℕ
  pub missing_system_purpose : ℕ
  pub missing_pem_files : ℕ
  pub jboss_eap_cores_virtual : ℕ
  pub jboss_eap_cores_physical : ℕ
  pub jboss_eap_instances : ℕ
  pub jboss_ws_cores_virtual : ℕ
  pub jboss_ws_cores_physical : ℕ
  pub jboss_ws_instances : ℕ
  pub socket_pairs : ℕ
  pub openshift_cores : ℕ
  pub os_by_name_and_version : Dict String (Dict String ℕ)
  pub system_creation_dates : List ℕ
  pub vmware_vms_by_host : Dict String (List String)

-- A report before anything is counted.
unfoldable pub new_aggregated : Aggregated
new_aggregated = record {
  instances_not_redhat = 0;
  instances_virtual = 0;
  instances_physical = 0;
  instances_hypervisor = 0;
  instances_unknown = 0;
  missing_cpu_core_count = 0;
  missing_cpu_socket_count = 0;
  missing_name = 0;
  missing_system_creation_date = 0;
  missing_system_purpose = 0;
  missing_pem_files = 0;
  jboss_eap_cores_virtual = 0;
  jboss_eap_cores_physical = 0;
  jboss_eap_instances = 0;
  jboss_ws_cores_virtual = 0;
  jboss_ws_cores_physical = 0;
  jboss_ws_instances = 0;
  socket_pairs = 0;
  openshift_cores = 0;
  os_by_name_and_version = [];
  system_creation_dates = [];
  vmware_vms_by_host = [];
}

abbrev pub has_source : String → SystemFingerprint → Bool
has_source t fp = contains t fp.source_types

-- Found as Red Hat, or by OpenShift or Satellite.
abbrev pub is_counted : SystemFingerprint → Bool
is_counted fp = fp.is_redhat || has_source "openshift" fp || has_source "satellite" fp

abbrev is_present : Option Presence → Bool
is_present none = false
is_present (some q) = same_presence q present

-- `product_presences.get(name, False)`: of two products with one name the later counts.
abbrev pub product_present : String → Bool → List Product → Bool
product_present name found [] = found
product_present name found (p ∷ ps) =
    product_present name (if p.name == name then is_present p.presence else found) ps

abbrev bump : Bool → ℕ → ℕ
bump b n = if b then n + 1 else n

abbrev pub cores_if : Bool → SystemFingerprint → ℕ
cores_if b fp = if b then fp.cpu_core_count else 0

abbrev pub is_kind : String → SystemFingerprint → Bool
is_kind kind fp = fp.infrastructure_type == kind

-- The branches on the type of infrastructure.
unfoldable pub count_infrastructure : SystemFingerprint → Aggregated → Aggregated
count_infrastructure fp a =
    let eap = product_present "JBoss EAP" false fp.products in
    let ws = product_present "JBoss Web Server" false fp.products in
    let b =
      if is_kind "virtualized" fp
      then record a {
        instances_virtual = a.instances_virtual + 1;
        jboss_eap_cores_virtual = a.jboss_eap_cores_virtual + cores_if eap fp;
        jboss_ws_cores_virtual = a.jboss_ws_cores_virtual + cores_if ws fp;
      }
      else if is_kind "bare_metal" fp
      then record a {
        instances_physical = a.instances_physical + 1;
        jboss_eap_cores_physical = a.jboss_eap_cores_physical + cores_if eap fp;
        jboss_ws_cores_physical = a.jboss_ws_cores_physical + cores_if ws fp;
      }
      else if is_kind "hypervisor" fp
      then record a { instances_hypervisor = a.instances_hypervisor + 1 }
      else record a { instances_unknown = a.instances_unknown + 1 } in
    record b {
      jboss_eap_instances = bump eap b.jboss_eap_instances;
      jboss_ws_instances = bump ws b.jboss_ws_instances;
    }

abbrev is_zero : ℕ → Bool
is_zero n = n == 0

abbrev dated : SystemFingerprint → Bool
dated fp = elim fp.system_creation_date [ none ↦ false | some d ↦ true ]

abbrev pub add_date : Option ℕ → List ℕ → List ℕ
add_date none dates = dates
add_date (some d) dates = dates ++ (d ∷ [])

-- The facts that are missing, before the branches.
unfoldable pub count_missing : SystemFingerprint → Aggregated → Aggregated
count_missing fp a = record a {
  missing_cpu_core_count =
      bump (is_zero fp.cpu_core_count && (has_source "network" fp || has_source "satellite" fp))
        a.missing_cpu_core_count;
  missing_cpu_socket_count = bump (is_zero fp.cpu_socket_count) a.missing_cpu_socket_count;
  missing_name = bump (fp.name == "") a.missing_name;
  missing_system_creation_date = bump (not (dated fp)) a.missing_system_creation_date;
  system_creation_dates = add_date fp.system_creation_date a.system_creation_dates;
}

-- `vmware_vms_by_host[cluster].append(host)`, with an empty list for a new cluster.
abbrev append_host : String → String → Dict String (List String) → Dict String (List String)
append_host cluster host d =
    insert cluster ((elim (lookup cluster d) [ some hosts ↦ hosts | none ↦ [] ]) ++ (host ∷ [])) d

-- What follows the branches: `ceil(sockets / 2)`, and what the types of source bring.
unfoldable pub count_by_source : SystemFingerprint → Aggregated → Aggregated
count_by_source fp a = record a {
  socket_pairs = a.socket_pairs + (fp.cpu_socket_count + 1) / 2;
  missing_system_purpose =
      bump (has_source "network" fp && not fp.has_system_purpose) a.missing_system_purpose;
  missing_pem_files = bump (has_source "network" fp && not fp.has_redhat_certs) a.missing_pem_files;
  openshift_cores = a.openshift_cores + (if has_source "openshift" fp then fp.cpu_count else 0);
  vmware_vms_by_host =
      if has_source "vcenter" fp && not (fp.vm_cluster == "") && not (fp.virtual_host_uuid == "")
      then append_host fp.vm_cluster fp.virtual_host_uuid a.vmware_vms_by_host
      else a.vmware_vms_by_host;
}

abbrev pub or_unknown : String → String
or_unknown s = if s == "" then "unknown" else s

-- `os_by_name_and_version` is a `defaultdict` of `defaultdict(int)`.
abbrev pub versions_of : String → Dict String (Dict String ℕ) → Dict String ℕ
versions_of name d = elim (lookup name d) [ some versions ↦ versions | none ↦ [] ]

abbrev pub count_in : String → Dict String ℕ → ℕ
count_in version versions = elim (lookup version versions) [ some k ↦ k | none ↦ 0 ]

-- `os_by_name_and_version[name][version] += 1`
unfoldable pub count_os :
    String → String → Dict String (Dict String ℕ) → Dict String (Dict String ℕ)
count_os name version d =
    let versions = versions_of name d in
    insert name (insert version (count_in version versions + 1) versions) d

unfoldable pub count_fingerprint : SystemFingerprint → Aggregated → Aggregated
count_fingerprint fp a0 =
    let a = record a0 {
      os_by_name_and_version =
          count_os (or_unknown fp.os_name) (or_unknown fp.os_version) a0.os_by_name_and_version;
    } in
    if is_counted fp
    then count_by_source fp (count_infrastructure fp (count_missing fp a))
    else record a { instances_not_redhat = a.instances_not_redhat + 1 }

unfoldable pub count_fingerprints : List SystemFingerprint → Aggregated → Aggregated
count_fingerprints [] a = a
count_fingerprints (fp ∷ fps) a = count_fingerprints fps (count_fingerprint fp a)

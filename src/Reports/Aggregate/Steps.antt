-- ===== src/Reports/Aggregate/Steps.antt =====
-- What one system adds to each counter (quipucords/api/aggregate_report/model.py).
use quipucords.Prelude.{String, ◌+◌, ◌≡◌, [], ◌∷◌, ◌++◌, append_nil, nat_eq, arith, string_eq}
use quipucords.Reports.Aggregate.{
  SystemFingerprint, Aggregated, or_unknown, has_source, count_infrastructure, count_missing,
  count_by_source, count_fingerprint,
}
use quipucords.Reports.Aggregate.Tally.{
  is_virtual, is_physical, is_hypervisor, is_other, has_product, one_if, amount_if, cores, vcpus,
  pairs, any_system, both, lacks_cores, lacks_sockets, lacks_name, lacks_date, lacks_purpose,
  lacks_certs, is_uncounted, dates_of, os_count, one_os, os_count-count_os,
}

pub virtual_step :
    (fp : SystemFingerprint) (a : Aggregated)
    → (count_fingerprint fp a).instances_virtual ≡ a.instances_virtual + one_if is_virtual fp
unfolding count_fingerprint count_infrastructure count_missing count_by_source
virtual_step fp a = ground arith

pub physical_step :
    (fp : SystemFingerprint) (a : Aggregated)
    → (count_fingerprint fp a).instances_physical ≡ a.instances_physical + one_if is_physical fp
unfolding count_fingerprint count_infrastructure count_missing count_by_source
physical_step fp a = ground arith

pub hypervisor_step :
    (fp : SystemFingerprint) (a : Aggregated)
    → (count_fingerprint fp a).instances_hypervisor
      ≡ a.instances_hypervisor + one_if is_hypervisor fp
unfolding count_fingerprint count_infrastructure count_missing count_by_source
hypervisor_step fp a = ground arith

pub other_step :
    (fp : SystemFingerprint) (a : Aggregated)
    → (count_fingerprint fp a).instances_unknown ≡ a.instances_unknown + one_if is_other fp
unfolding count_fingerprint count_infrastructure count_missing count_by_source
other_step fp a = ground arith

pub eap_step :
    (fp : SystemFingerprint) (a : Aggregated)
    → (count_fingerprint fp a).jboss_eap_instances
      ≡ a.jboss_eap_instances + one_if (has_product "JBoss EAP") fp
unfolding count_fingerprint count_infrastructure count_missing count_by_source
eap_step fp a = ground arith

pub ws_step :
    (fp : SystemFingerprint) (a : Aggregated)
    → (count_fingerprint fp a).jboss_ws_instances
      ≡ a.jboss_ws_instances + one_if (has_product "JBoss Web Server") fp
unfolding count_fingerprint count_infrastructure count_missing count_by_source
ws_step fp a = ground arith

pub eap_virtual_step :
    (fp : SystemFingerprint) (a : Aggregated)
    → (count_fingerprint fp a).jboss_eap_cores_virtual
      ≡ a.jboss_eap_cores_virtual + amount_if (both is_virtual (has_product "JBoss EAP")) cores fp
unfolding count_fingerprint count_infrastructure count_missing count_by_source
eap_virtual_step fp a = ground arith

pub eap_physical_step :
    (fp : SystemFingerprint) (a : Aggregated)
    → (count_fingerprint fp a).jboss_eap_cores_physical
      ≡ a.jboss_eap_cores_physical + amount_if (both is_physical (has_product "JBoss EAP")) cores fp
unfolding count_fingerprint count_infrastructure count_missing count_by_source
eap_physical_step fp a = ground arith

pub ws_virtual_step :
    (fp : SystemFingerprint) (a : Aggregated)
    → (count_fingerprint fp a).jboss_ws_cores_virtual
      ≡ a.jboss_ws_cores_virtual
        + amount_if (both is_virtual (has_product "JBoss Web Server")) cores fp
unfolding count_fingerprint count_infrastructure count_missing count_by_source
ws_virtual_step fp a = ground arith

pub ws_physical_step :
    (fp : SystemFingerprint) (a : Aggregated)
    → (count_fingerprint fp a).jboss_ws_cores_physical
      ≡ a.jboss_ws_cores_physical
        + amount_if (both is_physical (has_product "JBoss Web Server")) cores fp
unfolding count_fingerprint count_infrastructure count_missing count_by_source
ws_physical_step fp a = ground arith

pub socket_pairs_step :
    (fp : SystemFingerprint) (a : Aggregated)
    → (count_fingerprint fp a).socket_pairs ≡ a.socket_pairs + amount_if any_system pairs fp
unfolding count_fingerprint count_infrastructure count_missing count_by_source
socket_pairs_step fp a = ground arith

pub openshift_step :
    (fp : SystemFingerprint) (a : Aggregated)
    → (count_fingerprint fp a).openshift_cores
      ≡ a.openshift_cores + amount_if (has_source "openshift") vcpus fp
unfolding count_fingerprint count_infrastructure count_missing count_by_source
openshift_step fp a = ground arith

pub no_cores_step :
    (fp : SystemFingerprint) (a : Aggregated)
    → (count_fingerprint fp a).missing_cpu_core_count
      ≡ a.missing_cpu_core_count + one_if lacks_cores fp
unfolding count_fingerprint count_infrastructure count_missing count_by_source
no_cores_step fp a = ground arith

pub no_sockets_step :
    (fp : SystemFingerprint) (a : Aggregated)
    → (count_fingerprint fp a).missing_cpu_socket_count
      ≡ a.missing_cpu_socket_count + one_if lacks_sockets fp
unfolding count_fingerprint count_infrastructure count_missing count_by_source
no_sockets_step fp a = ground arith

pub no_name_step :
    (fp : SystemFingerprint) (a : Aggregated)
    → (count_fingerprint fp a).missing_name ≡ a.missing_name + one_if lacks_name fp
unfolding count_fingerprint count_infrastructure count_missing count_by_source
no_name_step fp a = ground arith

pub no_date_step :
    (fp : SystemFingerprint) (a : Aggregated)
    → (count_fingerprint fp a).missing_system_creation_date
      ≡ a.missing_system_creation_date + one_if lacks_date fp
unfolding count_fingerprint count_infrastructure count_missing count_by_source
no_date_step fp a = ground arith

pub no_purpose_step :
    (fp : SystemFingerprint) (a : Aggregated)
    → (count_fingerprint fp a).missing_system_purpose
      ≡ a.missing_system_purpose + one_if lacks_purpose fp
unfolding count_fingerprint count_infrastructure count_missing count_by_source
no_purpose_step fp a = ground arith

pub no_certs_step :
    (fp : SystemFingerprint) (a : Aggregated)
    → (count_fingerprint fp a).missing_pem_files ≡ a.missing_pem_files + one_if lacks_certs fp
unfolding count_fingerprint count_infrastructure count_missing count_by_source
no_certs_step fp a = ground arith

pub not_redhat_step :
    (fp : SystemFingerprint) (a : Aggregated)
    → (count_fingerprint fp a).instances_not_redhat ≡ a.instances_not_redhat + is_uncounted fp
unfolding count_fingerprint count_infrastructure count_missing count_by_source
not_redhat_step fp a = ground arith

pub one_kind :
    (fp : SystemFingerprint)
    → one_if is_virtual fp
        + one_if is_physical fp
        + one_if is_hypervisor fp
        + one_if is_other fp
        + is_uncounted fp
      ≡ 1
one_kind fp = ground arith

pub dates_step :
    (fp : SystemFingerprint) (a : Aggregated)
    → (count_fingerprint fp a).system_creation_dates ≡ a.system_creation_dates ++ dates_of (fp ∷ [])
unfolding count_fingerprint count_infrastructure count_missing count_by_source
dates_step fp a = ground (arith, append_nil a.system_creation_dates)

pub os_step :
    (name version : String) (fp : SystemFingerprint) (a : Aggregated)
    → os_count name version (count_fingerprint fp a).os_by_name_and_version
      ≡ os_count name version a.os_by_name_and_version + one_os name version fp
unfolding count_fingerprint count_infrastructure count_missing count_by_source
os_step name version fp a = ground (
  arith,
  os_count-count_os (or_unknown fp.os_name) (or_unknown fp.os_version) name version
      a.os_by_name_and_version,
)

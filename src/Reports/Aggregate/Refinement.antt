-- ===== src/Reports/Aggregate/Refinement.antt =====
-- `_aggregate_from_system_fingerprints` (quipucords/api/aggregate_report/model.py) against separate counts
-- of the systems.
use quipucords.Prelude.{
  String, ℕ, ◌+◌, ◌≡◌, refl, sym, ◌∙◌, ap, Bool, List, [], ◌∷◌, ◌++◌, length, select, arith,
  append_assoc, append_nil,
}
use quipucords.Reports.Aggregate.{
  SystemFingerprint, Aggregated, has_source, count_fingerprint, count_fingerprints, new_aggregated,
  add_date,
}
use quipucords.Reports.Aggregate.Tally.{
  counter, sum_of-one_if, total_of, sum_of-amount_if, count_fingerprints-sum, is_virtual,
  is_physical, is_hypervisor, is_other, has_product, one_if, amount_if, cores, vcpus, pairs,
  any_system, both, lacks_cores, lacks_sockets, lacks_name, lacks_date, lacks_purpose, lacks_certs,
  os_count, is_os, one_os, sum_of-one_os, dates_of,
}
use quipucords.Reports.Aggregate.Steps.{
  virtual_step, physical_step, hypervisor_step, other_step, no_cores_step, no_sockets_step,
  no_name_step, no_date_step, no_purpose_step, no_certs_step, eap_step, ws_step, eap_virtual_step,
  eap_physical_step, ws_virtual_step, ws_physical_step, socket_pairs_step, openshift_step,
  not_redhat_step, one_kind, os_step, dates_step,
}

-- Each counter against the systems that are counted and meet its test, and the systems that are not counted.
pub record IsTallied (fps : List SystemFingerprint) (a : Aggregated) : Type 0 where
  pub instances_virtual_tally : a.instances_virtual ≡ counter is_virtual fps
  pub instances_physical_tally : a.instances_physical ≡ counter is_physical fps
  pub instances_hypervisor_tally : a.instances_hypervisor ≡ counter is_hypervisor fps
  pub instances_unknown_tally : a.instances_unknown ≡ counter is_other fps
  pub missing_cpu_core_count_tally : a.missing_cpu_core_count ≡ counter lacks_cores fps
  pub missing_cpu_socket_count_tally : a.missing_cpu_socket_count ≡ counter lacks_sockets fps
  pub missing_name_tally : a.missing_name ≡ counter lacks_name fps
  pub missing_system_creation_date_tally : a.missing_system_creation_date ≡ counter lacks_date fps
  pub missing_system_purpose_tally : a.missing_system_purpose ≡ counter lacks_purpose fps
  pub missing_pem_files_tally : a.missing_pem_files ≡ counter lacks_certs fps
  pub jboss_eap_instances_tally : a.jboss_eap_instances ≡ counter (has_product "JBoss EAP") fps
  pub jboss_ws_instances_tally : a.jboss_ws_instances ≡ counter (has_product "JBoss Web Server") fps
  pub jboss_eap_cores_virtual_tally :
      a.jboss_eap_cores_virtual ≡ total_of (both is_virtual (has_product "JBoss EAP")) cores fps
  pub jboss_eap_cores_physical_tally :
      a.jboss_eap_cores_physical ≡ total_of (both is_physical (has_product "JBoss EAP")) cores fps
  pub jboss_ws_cores_virtual_tally :
      a.jboss_ws_cores_virtual
      ≡ total_of (both is_virtual (has_product "JBoss Web Server")) cores fps
  pub jboss_ws_cores_physical_tally :
      a.jboss_ws_cores_physical
      ≡ total_of (both is_physical (has_product "JBoss Web Server")) cores fps
  pub socket_pairs_tally : a.socket_pairs ≡ total_of any_system pairs fps
  pub openshift_cores_tally : a.openshift_cores ≡ total_of (has_source "openshift") vcpus fps
  pub every_system_once :
      a.instances_virtual + a.instances_physical + a.instances_hypervisor + a.instances_unknown
        + a.instances_not_redhat
      ≡ length fps
  pub os_tally :
      (name version : String)
      → os_count name version a.os_by_name_and_version ≡ length (select (is_os name version) fps)
  pub dates_tally : a.system_creation_dates ≡ dates_of fps

-- One counter of a report that starts at 0.
tally_one :
    (get : Aggregated → ℕ) (test : SystemFingerprint → Bool)
    → get new_aggregated ≡ 0
    → ((fp : SystemFingerprint) (a : Aggregated)
        → get (count_fingerprint fp a) ≡ get a + one_if test fp)
    → (fps : List SystemFingerprint)
    → get (count_fingerprints fps new_aggregated) ≡ counter test fps
tally_one get test none_yet step fps = omega (
  arith,
  none_yet,
  count_fingerprints-sum get (one_if test) step fps new_aggregated,
  sum_of-one_if test fps,
)

tally_amount :
    (get : Aggregated → ℕ) (test : SystemFingerprint → Bool) (amount : SystemFingerprint → ℕ)
    → get new_aggregated ≡ 0
    → ((fp : SystemFingerprint) (a : Aggregated)
        → get (count_fingerprint fp a) ≡ get a + amount_if test amount fp)
    → (fps : List SystemFingerprint)
    → get (count_fingerprints fps new_aggregated) ≡ total_of test amount fps
tally_amount get test amount none_yet step fps = omega (
  arith,
  none_yet,
  count_fingerprints-sum get (amount_if test amount) step fps new_aggregated,
  sum_of-amount_if test amount fps,
)

counted_systems : Aggregated → ℕ
counted_systems a =
    a.instances_virtual + a.instances_physical + a.instances_hypervisor + a.instances_unknown
    + a.instances_not_redhat

one_more :
    (fp : SystemFingerprint) (a : Aggregated)
    → counted_systems (count_fingerprint fp a) ≡ counted_systems a + 1
unfolding counted_systems
one_more fp a = omega (
  arith,
  virtual_step fp a,
  physical_step fp a,
  hypervisor_step fp a,
  other_step fp a,
  not_redhat_step fp a,
  one_kind fp,
)

count_all :
    (fps : List SystemFingerprint) (a : Aggregated)
    → counted_systems (count_fingerprints fps a) ≡ counted_systems a + length fps
unfolding count_fingerprints
count_all [] a = omega arith
count_all (fp ∷ fps) a = omega (arith, count_all fps (count_fingerprint fp a), one_more fp a)

os_counted : String → String → Aggregated → ℕ
os_counted name version a = os_count name version a.os_by_name_and_version

dates_of_cons :
    (fp : SystemFingerprint) (fps : List SystemFingerprint)
    → dates_of (fp ∷ []) ++ dates_of fps ≡ dates_of (fp ∷ fps)
dates_of_cons fp fps = ground (arith, append_nil (add_date fp.system_creation_date []))

all_dates :
    (fps : List SystemFingerprint) (a : Aggregated)
    → (count_fingerprints fps a).system_creation_dates ≡ a.system_creation_dates ++ dates_of fps
unfolding count_fingerprints
all_dates [] a = sym (append_nil a.system_creation_dates)
all_dates (fp ∷ fps) a =
    all_dates fps (count_fingerprint fp a)
    ∙ ap (λ l. l ++ dates_of fps) (dates_step fp a)
    ∙ append_assoc a.system_creation_dates (dates_of (fp ∷ [])) (dates_of fps)
    ∙ ap (λ l. a.system_creation_dates ++ l) (dates_of_cons fp fps)

-- What one pass over the systems leaves in a new report: each count of systems, of cores, of pairs of
-- sockets and of what is missing is the count, or the sum, that a separate pass would make over the
-- systems that are counted and meet its test. Every system is counted once, as virtual, physical,
-- hypervisor, of unknown type, or not as Red Hat. Beside each name and version of an operating system
-- stands the number of all systems that have it, and the dates collected are those of the counted
-- systems, in order.
pub count_fingerprints-IsTallied :
    (fps : List SystemFingerprint) → IsTallied fps (count_fingerprints fps new_aggregated)
unfolding counted_systems os_counted new_aggregated
count_fingerprints-IsTallied fps = record {
  instances_virtual_tally = tally_one (λ a. a.instances_virtual) is_virtual refl virtual_step fps;
  instances_physical_tally =
      tally_one (λ a. a.instances_physical) is_physical refl physical_step fps;
  instances_hypervisor_tally =
      tally_one (λ a. a.instances_hypervisor) is_hypervisor refl hypervisor_step fps;
  instances_unknown_tally = tally_one (λ a. a.instances_unknown) is_other refl other_step fps;
  missing_cpu_core_count_tally =
      tally_one (λ a. a.missing_cpu_core_count) lacks_cores refl no_cores_step fps;
  missing_cpu_socket_count_tally =
      tally_one (λ a. a.missing_cpu_socket_count) lacks_sockets refl no_sockets_step fps;
  missing_name_tally = tally_one (λ a. a.missing_name) lacks_name refl no_name_step fps;
  missing_system_creation_date_tally =
      tally_one (λ a. a.missing_system_creation_date) lacks_date refl no_date_step fps;
  missing_system_purpose_tally =
      tally_one (λ a. a.missing_system_purpose) lacks_purpose refl no_purpose_step fps;
  missing_pem_files_tally = tally_one (λ a. a.missing_pem_files) lacks_certs refl no_certs_step fps;
  jboss_eap_instances_tally =
      tally_one (λ a. a.jboss_eap_instances) (has_product "JBoss EAP") refl eap_step fps;
  jboss_ws_instances_tally =
      tally_one (λ a. a.jboss_ws_instances) (has_product "JBoss Web Server") refl ws_step fps;
  jboss_eap_cores_virtual_tally =
      tally_amount (λ a. a.jboss_eap_cores_virtual) (both is_virtual (has_product "JBoss EAP"))
        cores refl eap_virtual_step fps;
  jboss_eap_cores_physical_tally =
      tally_amount (λ a. a.jboss_eap_cores_physical) (both is_physical (has_product "JBoss EAP"))
        cores refl eap_physical_step fps;
  jboss_ws_cores_virtual_tally =
      tally_amount (λ a. a.jboss_ws_cores_virtual)
        (both is_virtual (has_product "JBoss Web Server")) cores refl ws_virtual_step fps;
  jboss_ws_cores_physical_tally =
      tally_amount (λ a. a.jboss_ws_cores_physical)
        (both is_physical (has_product "JBoss Web Server")) cores refl ws_physical_step fps;
  socket_pairs_tally =
      tally_amount (λ a. a.socket_pairs) any_system pairs refl socket_pairs_step fps;
  openshift_cores_tally =
      tally_amount (λ a. a.openshift_cores) (has_source "openshift") vcpus refl openshift_step fps;
  every_system_once = omega (arith, count_all fps new_aggregated);
  os_tally = λ name version. omega (
    arith,
    count_fingerprints-sum (os_counted name version) (one_os name version) (os_step name version)
        fps new_aggregated,
    sum_of-one_os name version fps,
  );
  dates_tally = all_dates fps new_aggregated;
}

-- ===== src/Facts/Clusters.antt =====
-- `_process_openshift_fact`, `_process_ansible_fact` and `_process_rhacs_fact`
-- (quipucords/fingerprinter/runner.py).
use quipucords.Prelude.{List, [], ◌∷◌}
use quipucords.Json.{str}
use quipucords.Fingerprint.Model.{ok}
use quipucords.Fingerprint.Build.{Addition}
use quipucords.Facts.Rows.{formatted, computed}
use quipucords.Facts.Formatters.{
  Builtins, str_or_none, int_or_none, convert_architecture, date_or_none, extract_ip_addresses,
  infer_node_role,
}

unfoldable pub openshift_additions : Builtins → List Addition
openshift_additions b =
    formatted "node__name" "name" (str_or_none b)
    ∷ formatted "node__capacity__cpu" "cpu_count" (int_or_none b)
    ∷ formatted "node__architecture" "architecture" convert_architecture
    ∷ formatted "node__machine_id" "etc_machine_id" (str_or_none b)
    ∷ formatted "node__addresses" "ip_addresses" extract_ip_addresses
    ∷ formatted "node__creation_timestamp" "system_creation_date" date_or_none
    ∷ formatted "node__cluster_uuid" "vm_cluster" (str_or_none b)
    ∷ formatted "node__labels" "system_role" infer_node_role
    ∷ []

unfoldable pub ansible_additions : Builtins → List Addition
ansible_additions b =
    formatted "instance_details__system_name" "name" (str_or_none b)
    ∷ formatted "instance_details__version" "os_version" (str_or_none b)
    ∷ []

unfoldable pub rhacs_additions : List Addition
rhacs_additions = computed "N/A" "name" (ok (str "collected-from-rhacs")) ∷ []

-- ===== src/Facts/Vcenter.antt =====
-- `_process_vcenter_fact` (quipucords/fingerprinter/runner.py).
use quipucords.Prelude.{List, [], ◌∷◌, if◌then◌else◌}
use quipucords.Json.{str, truthy}
use quipucords.Fingerprint.Model.{ok}
use quipucords.Fingerprint.Build.{Addition}
use quipucords.Products.Values.{Facts, get}
use quipucords.Facts.Rows.{formatted, computed}
use quipucords.Facts.Dates.{multi_format_dateparse}
use quipucords.Facts.Formatters.{
  Builtins, str_or_none, int_or_none, list_or_none, format_mac_addresses, is_redhat_from_vm_os,
  gigabytes_to_bytes,
}

unfoldable pub vcenter_additions : Builtins → Facts → List Addition
vcenter_additions b fact =
    let name_key = if truthy (get "vm.dns_name" fact) then "vm.dns_name" else "vm.name" in
    formatted name_key "name" (str_or_none b)
    ∷ formatted "vm.os" "os_release" (str_or_none b)
    ∷ formatted "vm.os" "is_redhat" is_redhat_from_vm_os
    ∷ computed "vcenter_source" "infrastructure_type" (ok (str "virtualized"))
    ∷ formatted "vm.mac_addresses" "mac_addresses" format_mac_addresses
    ∷ formatted "vm.ip_addresses" "ip_addresses" list_or_none
    ∷ formatted "vm.cpu_count" "cpu_count" (int_or_none b)
    ∷ formatted "uname_processor" "architecture" (str_or_none b)
    ∷ formatted "vm.state" "vm_state" (str_or_none b)
    ∷ formatted "vm.uuid" "vm_uuid" (str_or_none b)
    ∷ computed "vm.last_check_in" "system_last_checkin_date"
        (multi_format_dateparse b (get "vm.last_check_in" fact) ("%Y-%m-%d %H:%M:%S" ∷ []))
    ∷ formatted "vm.dns_name" "vm_dns_name" (str_or_none b)
    ∷ formatted "vm.host.name" "virtual_host_name" (str_or_none b)
    ∷ formatted "vm.host.uuid" "virtual_host_uuid" (str_or_none b)
    ∷ formatted "vm.host.cpu_count" "vm_host_socket_count" (int_or_none b)
    ∷ formatted "vm.host.cpu_cores" "vm_host_core_count" (int_or_none b)
    ∷ formatted "vm.datacenter" "vm_datacenter" (str_or_none b)
    ∷ formatted "vm.cluster" "vm_cluster" (str_or_none b)
    ∷ formatted "vm.memory_size" "system_memory_bytes" (gigabytes_to_bytes b)
    ∷ []

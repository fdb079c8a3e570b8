-- ===== src/Facts/Network.antt =====
-- `_process_network_fact` and `fingerprint_network_infrastructure_type`
-- (quipucords/fingerprinter/runner.py).
use quipucords.Prelude.{
  String, Bool, false, ◌||◌, List, [], ◌∷◌, ◌++◌, ◌==◌, string_eq, if◌then◌else◌,
}
use quipucords.Json.{Value, str, truthy, is_null}
use quipucords.Fingerprint.Model.{ok}
use quipucords.Fingerprint.Build.{Addition}
use quipucords.Products.Values.{Facts, get}
use quipucords.Facts.Deepget.{deepget}
use quipucords.Facts.Rows.{formatted, computed}
use quipucords.Facts.Dates.{multi_format_dateparse}
use quipucords.Facts.Formatters.{
  Builtins, str_or_none, int_or_none, float_or_none, list_or_none, dict_or_none, list_of_dicts,
  convert_to_bool_or_none, format_mac_addresses,
}

abbrev virtualized : Value
virtualized = str "virtualized"

abbrev is_guest : Value → Bool
is_guest (str s) = s == "vm" || s == "container"
is_guest _ = false

-- The raw fact and the infrastructure type that it shows.
unfoldable pub fingerprint_network_infrastructure_type : Facts → String × Value
fingerprint_network_infrastructure_type fact =
    let hostnamectl_chassis = deepget fact "hostnamectl__value__chassis" in
    if truthy (deepget fact "virt_what__value")
    then ("virt_what", virtualized)
    else if truthy (get "subman_virt_is_guest" fact)
    then ("subman_virt_is_guest", virtualized)
    else if is_guest hostnamectl_chassis
    then ("hostnamectl", virtualized)
    else if truthy hostnamectl_chassis
    then ("hostnamectl", str "bare_metal")
    else ("virt_what", str "unknown")

-- The first key if it leads to a value, else the second.
abbrev if_present : String → String → Facts → String
if_present a b fact = if is_null (deepget fact a) then b else a

-- `raw_fact_fingerprint_fn`
abbrev pub raw_fact_fingerprint_fn : Builtins → Facts → List Addition
raw_fact_fingerprint_fn b fact =
    formatted "uname_hostname" "name" (str_or_none b)
    ∷ formatted "uname_processor" "architecture" (str_or_none b)
    ∷ formatted "redhat_packages_gpg_num_rh_packages" "redhat_package_count" (int_or_none b)
    ∷ formatted "redhat_packages_certs" "redhat_certs" (str_or_none b)
    ∷ formatted "redhat_packages_gpg_is_redhat" "is_redhat" convert_to_bool_or_none
    ∷ formatted "etc_machine_id" "etc_machine_id" (str_or_none b)
    ∷ formatted "etc_release_name" "os_name" (str_or_none b)
    ∷ formatted "etc_release_version" "os_version" (str_or_none b)
    ∷ formatted "etc_release_release" "os_release" (str_or_none b)
    ∷ formatted "installed_products" "installed_products" list_of_dicts
    ∷ formatted (if_present "ifconfig_ip_addresses" "ip_address_show_ipv4" fact) "ip_addresses"
        list_or_none
    ∷ formatted "cpu_count" "cpu_count" (int_or_none b)
    ∷ formatted "dmi_system_uuid" "bios_uuid" (str_or_none b)
    ∷ formatted "subscription_manager_id" "subscription_manager_id" (str_or_none b)
    ∷ formatted "cpu_socket_count" "cpu_socket_count" (int_or_none b)
    ∷ formatted "cpu_core_count" "cpu_core_count" (float_or_none b)
    ∷ formatted "cpu_core_per_socket" "cpu_core_per_socket" (int_or_none b)
    ∷ formatted "cpu_hyperthreading" "cpu_hyperthreading" convert_to_bool_or_none
    ∷ formatted "date_machine_id" "date_machine_id" (str_or_none b)
    ∷ formatted "date_anaconda_log" "date_anaconda_log" (str_or_none b)
    ∷ formatted "date_filesystem_create" "date_filesystem_create" (str_or_none b)
    ∷ formatted "insights_client_id" "insights_client_id" (str_or_none b)
    ∷ formatted "cloud_provider" "cloud_provider" (str_or_none b)
    ∷ formatted "system_user_count" "system_user_count" (int_or_none b)
    ∷ formatted "system_purpose_json" "system_purpose" dict_or_none
    ∷ formatted "system_purpose_json__role" "system_role" (str_or_none b)
    ∷ formatted "system_purpose_json__addons" "system_addons" (str_or_none b)
    ∷ formatted "system_purpose_json__service_level_agreement" "system_service_level_agreement"
        (str_or_none b)
    ∷ formatted "system_purpose_json__usage" "system_usage_type" (str_or_none b)
    ∷ formatted "virt_type" "virtualized_type" (str_or_none b)
    ∷ formatted "system_memory_bytes" "system_memory_bytes" (int_or_none b)
    ∷ []

unfoldable pub network_additions : Builtins → Facts → List Addition
network_additions b fact =
    let infrastructure = fingerprint_network_infrastructure_type fact in
    raw_fact_fingerprint_fn b fact
    ++ (formatted (if_present "ifconfig_mac_addresses" "ip_address_show_mac" fact) "mac_addresses"
          format_mac_addresses
        ∷ computed "connection_timestamp" "system_last_checkin_date"
            (multi_format_dateparse b (get "connection_timestamp" fact) ("%Y%m%d%H%M%S" ∷ []))
        ∷ computed infrastructure.0 "infrastructure_type" (ok infrastructure.1)
        ∷ [])

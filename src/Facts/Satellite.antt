-- ===== src/Facts/Satellite.antt =====
-- `_process_satellite_fact` (quipucords/fingerprinter/runner.py).
use quipucords.Prelude.{
  ℕ, String, Bool, true, false, not, ◌&&◌, Option, none, some, List, [], ◌∷◌, ◌++◌, ◌==◌, nat_eq,
  string_eq, if◌then◌else◌, any, select, length,
}
use quipucords.Prelude.Dict.{Dict, lookup}
use quipucords.Text.{codes, begins, lower_codes}
use quipucords.Json.{Value, bool, str, arr, obj, truthy}
use quipucords.Fingerprint.Model.{Result, ok, err, ◌>>=◌, attribute_error, type_error}
use quipucords.Fingerprint.Build.{Addition}
use quipucords.Products.Values.{Facts, get, default_getter}
use quipucords.Facts.Rows.{formatted, computed}
use quipucords.Facts.Dates.{multi_format_dateparse}
use quipucords.Facts.Formatters.{
  Builtins, str_or_none, int_or_none, float_or_none, list_or_none, format_mac_addresses,
  strip_suffix, ends,
}

abbrev rhel_versions : Dict String String
rhel_versions =
    ("4Server", "Red Hat Enterprise Linux 4 Server")
    ∷ ("5Server", "Red Hat Enterprise Linux 5 Server")
    ∷ ("6Server", "Red Hat Enterprise Linux 6 Server")
    ∷ ("7Server", "Red Hat Enterprise Linux 7 Server")
    ∷ ("8Server", "Red Hat Enterprise Linux 8 Server")
    ∷ []

-- The version of RHEL that a release names; a list or a dict cannot be looked up.
abbrev pub release_version : Value → Result (Option String)
release_version (str s) = ok (lookup s rhel_versions)
release_version (arr vs) = err type_error
release_version (obj fs) = err type_error
release_version _ = ok none

abbrev is_space : ℕ → Bool
is_space c = c == 32

abbrev without_spaces : String → List ℕ
without_spaces s = select (λ c. not (is_space c)) (lower_codes s)

abbrev spells : List ℕ → String → Bool
spells cs word = length cs == length (codes word) && begins cs (codes word)

-- `satellite_os_name.lower().replace(" ", "") in rhel_os_names`
abbrev names_rhel : Value → Result Bool
names_rhel (str s) =
    ok (any (spells (without_spaces s)) ("rhel" ∷ "redhat" ∷ "redhatenterpriselinux" ∷ []))
names_rhel _ = err attribute_error

abbrev some_version : Option String → Bool
some_version none = false
some_version (some v) = true

abbrev pub release_row : Builtins → Result (Option String) → Addition
release_row b (ok (some v)) = computed "os_release" "os_release" (ok (str v))
release_row b _ = formatted "os_release" "os_release" (str_or_none b)

-- The rows `is_redhat` and `os_release`, if the system has a name and if it has none.
abbrev pub redhat_rows_of : Builtins → Bool → Value → Result (Option String) → List Addition
redhat_rows_of b true name version =
    computed "os_name" "is_redhat" (names_rhel name >>= λ r. ok (bool r))
    ∷ formatted "os_release" "os_release" (str_or_none b)
    ∷ []
redhat_rows_of b false name version =
    computed "os_release" "is_redhat" (version >>= λ v. ok (bool (some_version v)))
    ∷ release_row b version
    ∷ []

unfoldable pub redhat_rows : Builtins → Facts → List Addition
redhat_rows b fact =
    let satellite_os_name = default_getter fact "os_name" (str "") in
    redhat_rows_of b (truthy satellite_os_name) satellite_os_name
      (release_version (get "os_release" fact))

abbrev virt_who_suffixes : List String
virt_who_suffixes = "-1" ∷ "-2" ∷ "-3" ∷ "-4" ∷ "-5" ∷ "-6" ∷ "-7" ∷ "-8" ∷ "-9" ∷ []

-- Whether a host's name is one that virt-who gives to a hypervisor.
abbrev pub is_hypervisor : Value → Result Bool
is_hypervisor (str s) =
    ok (begins (codes "virt-who-") (codes s) && any (λ suffix. ends suffix s) virt_who_suffixes)
is_hypervisor _ = err attribute_error

abbrev is_false : Value → Bool
is_false (bool false) = true
is_false _ = false

abbrev infrastructure_type : Value → String
infrastructure_type is_virtualized =
    if truthy is_virtualized
    then "virtualized"
    else if is_false is_virtualized
    then "bare_metal"
    else "unknown"

abbrev pub infrastructure_of : Value → Result Bool → Addition
infrastructure_of is_virtualized (ok true) =
    computed "hostname" "infrastructure_type" (ok (str "hypervisor"))
infrastructure_of is_virtualized (ok false) =
    computed "is_virtualized" "infrastructure_type" (ok (str (infrastructure_type is_virtualized)))
infrastructure_of is_virtualized (err e) = computed "is_virtualized" "infrastructure_type" (err e)

unfoldable pub infrastructure_row : Facts → Addition
infrastructure_row fact =
    infrastructure_of (default_getter fact "is_virtualized" (str ""))
      (is_hypervisor (default_getter fact "hostname" (str "")))

-- `strip_suffix(reg_time, " UTC")` of a value that counts as true.
abbrev registration_of : Value → Result Value
registration_of (str s) = ok (str (strip_suffix s " UTC"))
registration_of _ = err attribute_error

unfoldable pub registration_time : Value → Result Value
registration_time v = elim (truthy v) [ true ↦ registration_of v | false ↦ ok v ]

-- A value that does not count as true stays as it is.
unfoldable pub last_checkin : Builtins → Value → Result Value
last_checkin b v = elim (truthy v) [
  | true ↦ multi_format_dateparse b v ("%Y-%m-%d %H:%M:%S" ∷ "%Y-%m-%d %H:%M:%S %z" ∷ [])
  | false ↦ ok v
]

unfoldable pub satellite_additions : Builtins → Facts → List Addition
satellite_additions b fact =
    formatted "hostname" "name" (str_or_none b)
    ∷ formatted "os_name" "os_name" (str_or_none b)
    ∷ (redhat_rows b fact
        ++ (formatted "os_version" "os_version" (str_or_none b)
            ∷ formatted "mac_addresses" "mac_addresses" format_mac_addresses
            ∷ formatted "ip_addresses" "ip_addresses" list_or_none
            ∷ formatted "cores" "cpu_count" (int_or_none b)
            ∷ formatted "architecture" "architecture" (str_or_none b)
            ∷ formatted "uuid" "subscription_manager_id" (str_or_none b)
            ∷ formatted "virt_type" "virtualized_type" (str_or_none b)
            ∷ formatted "virtual_host_name" "virtual_host_name" (str_or_none b)
            ∷ formatted "virtual_host_uuid" "virtual_host_uuid" (str_or_none b)
            ∷ infrastructure_row fact
            ∷ formatted "cores" "cpu_core_count" (float_or_none b)
            ∷ formatted "num_sockets" "cpu_socket_count" (int_or_none b)
            ∷ computed "registration_time" "registration_time"
                (registration_time (get "registration_time" fact))
            ∷ computed "last_checkin_time" "system_last_checkin_date"
                (last_checkin b (get "last_checkin_time" fact))
            ∷ []))

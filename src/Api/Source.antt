-- ===== src/Api/Source.antt =====
-- The serializers of sources (quipucords/api/source/serializer.py), in both versions of the interface. The
-- tests of addresses by `ipaddress`, FQDN and `re.search` are parameters.
pub mod Store
pub mod Checks
pub mod Fitting
pub mod Valid
pub mod Served
use quipucords.Prelude.{
  ℕ, zero, suc, ◌≡◌, String, Bool, true, false, not, ◌&&◌, ◌||◌, Option, none, some, List, [], ◌∷◌,
  ◌==◌, string_eq, if◌then◌else◌, ltb, length, select, contains, all, is_some,
}
use quipucords.Prelude.Dict.{Dict, lookup, insert, has_key, keys, erase}
use quipucords.Json.{Value, is_null}
use quipucords.Products.Values.{Facts, get}
use quipucords.Text.{codes, occurs}

-- A result, a `ValidationError` with its field, or another exception.
pub data Checked (V : Type 0) : Type 0 where
  valid : V → Checked V
  invalid : String → Checked V
  raised : String → Checked V

abbrev pub and_then : {V W : Type 0} → Checked V → (V → Checked W) → Checked W
and_then (valid v) f = f v
and_then (invalid field) f = invalid field
and_then (raised e) f = raised e

pub record Credential : Type 0 where
  pub cred_id : ℕ
  pub cred_type : String

-- The fields of a request, `none` for one that is missing; of a port, `some none` is `null`. The options
-- that the second version has as fields of their own stand in `ssl_fields`.
pub record Attrs : Type 0 where
  pub name : Option String
  pub source_type : Option String
  pub port : Option (Option ℕ)
  pub hosts : Option (List String)
  pub exclude_hosts : Option (List String)
  pub credentials : Option (List Credential)
  pub ssl_fields : Facts
  pub options : Facts

pub record Source : Type 0 where
  pub source_id : ℕ
  pub name : String
  pub source_type : String
  pub port : Option ℕ
  pub hosts : List String
  pub exclude_hosts : Option (List String)
  pub credentials : List Credential
  pub ssl_protocol : Value
  pub ssl_cert_verify : Value
  pub disable_ssl : Value
  pub use_paramiko : Value

abbrev pub http_source_types : List String
http_source_types = "rhacs" ∷ "ansible" ∷ "openshift" ∷ "satellite" ∷ "vcenter" ∷ []

abbrev pub ssh_source_types : List String
ssh_source_types = "network" ∷ []

abbrev pub is_http : String → Bool
is_http t = contains t http_source_types

abbrev pub is_ssh : String → Bool
is_ssh t = contains t ssh_source_types

abbrev pub nonempty {ℓ} : {A : Type ℓ} → List A → Bool
nonempty [] = false
nonempty (x ∷ xs) = true

module _ (is_valid_ip is_valid_cidr is_valid_hostname has_range : String → Bool) where
  abbrev pub is_valid_ansible_range : String → Bool
  is_valid_ansible_range address = has_range address && not (occurs (codes "/") (codes address))

  abbrev pub is_valid_address : String → Bool
  is_valid_address a =
      is_valid_ip a || is_valid_cidr a || is_valid_hostname a || is_valid_ansible_range a

  -- Empty addresses are left out; one that is no address refuses them all.
  unfoldable pub validate_addresses : String → List String → Checked (List String)
  validate_addresses field addresses =
      let kept = select (λ a. not (a == "")) addresses in
      if not (nonempty kept)
      then invalid field
      else if all is_valid_address kept
      then valid kept
      else invalid field

  abbrev pub validate_optional : String → Option (List String) → Checked (Option (List String))
  validate_optional field none = valid none
  validate_optional field (some addresses) =
      and_then (validate_addresses field addresses) (λ l. valid (some l))

  -- `MIN_PORT` is 0 and `MAX_PORT` 65536.
  unfoldable pub validate_port : Option (Option ℕ) → Checked (Option (Option ℕ))
  validate_port none = valid none
  validate_port (some none) = valid (some none)
  validate_port (some (some p)) = if ltb 65536 p then invalid "port" else valid (some (some p))

  abbrev pub validate_credentials : Option (List Credential) → Checked (Option (List Credential))
  validate_credentials none = valid none
  validate_credentials (some []) = invalid "credentials"
  validate_credentials (some (c ∷ cs)) = valid (some (c ∷ cs))

  abbrev pub required : Bool → String → Bool → Checked Unit
  required partial field present = if partial || present then valid tt else invalid field

  -- The checks of single fields, with those that are required but for a partial update.
  unfoldable pub check_fields : Bool → Attrs → Checked Attrs
  check_fields partial a = and_then (required partial "name" (is_some a.name)) (λ _.
      and_then (required partial "hosts" (is_some a.hosts)) (λ _.
        and_then (required partial "credentials" (is_some a.credentials)) (λ _.
          and_then (validate_port a.port) (λ port.
            and_then (validate_optional "hosts" a.hosts) (λ hosts.
              and_then (validate_optional "exclude_hosts" a.exclude_hosts) (λ exclude_hosts.
                and_then (validate_credentials a.credentials) (λ credentials. valid (record a {
                  port = port;
                  hosts = hosts;
                  exclude_hosts = exclude_hosts;
                  credentials = credentials;
                }))))))))

abbrev pub check_credential_type : String → Credential → Checked Unit
check_credential_type t c = if c.cred_type == t then valid tt else invalid "source_type"

abbrev pub check_credential_types : String → List Credential → Checked Unit
check_credential_types t [] = valid tt
check_credential_types t (c ∷ cs) =
    and_then (check_credential_type t c) (λ _. check_credential_types t cs)

-- An Ansible range or a block of addresses.
abbrev pub is_many : String → Bool
is_many h = occurs (codes "[") (codes h) || occurs (codes "/") (codes h)

abbrev pub check_hosts : Option (List String) → Checked Unit
check_hosts none = valid tt
check_hosts (some []) = valid tt
check_hosts (some (h ∷ [])) = if is_many h then invalid "hosts" else valid tt
check_hosts (some (h ∷ g ∷ hosts)) = invalid "hosts"

abbrev pub check_exclude_hosts : Option (List String) → Checked Unit
check_exclude_hosts none = valid tt
check_exclude_hosts (some l) = invalid "exclude_hosts"

abbrev pub check_credentials : String → Option (List Credential) → Checked Unit
check_credentials t none = valid tt
check_credentials t (some []) = valid tt
check_credentials t (some (c ∷ [])) = check_credential_type t c
check_credentials t (some (c ∷ d ∷ cs)) = invalid "credentials"

unfoldable pub validate_number_hosts_and_credentials : String → Attrs → Checked Unit
validate_number_hosts_and_credentials t a =
    and_then (check_hosts a.hosts)
      (λ _. and_then (check_exclude_hosts a.exclude_hosts) (λ _. check_credentials t a.credentials))

abbrev pub positive : Option ℕ → Bool
positive none = false
positive (some zero) = false
positive (some (suc n)) = true

abbrev pub stored_port : Option Source → Option ℕ
stored_port none = none
stored_port (some s) = s.port

abbrev pub given_port : Attrs → Option ℕ
given_port a = elim a.port [ none ↦ none | some p ↦ p ]

-- The port of the instance is looked at before that of the request.
unfoldable pub set_default_port : Option Source → ℕ → Attrs → Attrs
set_default_port instance_of port_number a =
    if positive (stored_port instance_of) || positive (given_port a)
    then a
    else record a { port = some (some port_number) }

-- `attrs.get("credentials")`, an empty list if there are none.
abbrev pub credentials_given : Attrs → List Credential
credentials_given a = elim a.credentials [ none ↦ [] | some cs ↦ cs ]

unfoldable pub validate_network_source : Option Source → String → Attrs → Checked Attrs
validate_network_source instance_of t a =
    and_then (check_credential_types t (credentials_given a))
      (λ _. valid (set_default_port instance_of 22 a))

-- A new source verifies certificates, if the request does not say. `initial` is the list of its keys.
abbrev pub with_ssl_default : List String → Option Source → Attrs → Attrs
with_ssl_default initial instance_of a =
    if not (is_some instance_of) && not (contains "ssl_cert_verify" initial)
    then record a { ssl_fields = insert "ssl_cert_verify" (Value.bool true) a.ssl_fields }
    else a

abbrev pub default_port : String → ℕ
default_port t = if t == "openshift" then 6443 else 443

unfoldable pub validate_http_source : List String → Option Source → String → Attrs → Checked Attrs
validate_http_source initial instance_of t a =
    let b =
      with_ssl_default initial instance_of (set_default_port instance_of (default_port t) a) in
    and_then (validate_number_hosts_and_credentials t b) (λ _. valid b)

-- `get_from_object_or_dict(self.instance, attrs, "source_type")`
abbrev pub type_of : Option Source → Attrs → Option String
type_of none a = a.source_type
type_of (some s) a = if s.source_type == "" then a.source_type else some s.source_type

abbrev pub validate_as : List String → Option Source → Option String → Attrs → Checked Attrs
validate_as initial instance_of none a = invalid "source_type"
validate_as initial instance_of (some t) a =
    if is_ssh t
    then validate_network_source instance_of t a
    else if is_http t
    then validate_http_source initial instance_of t a
    else invalid "source_type"

unfoldable pub validate : List String → Option Source → Attrs → Checked Attrs
validate initial instance_of a = validate_as initial instance_of (type_of instance_of a) a

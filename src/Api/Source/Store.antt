-- ===== src/Api/Source/Store.antt =====
-- Creating and updating a source (quipucords/api/source/serializer.py). The table of sources is a list; a
-- request that is refused leaves it alone, since the methods are atomic.
use quipucords.Prelude.{
  ℕ, String, Bool, true, false, not, Option, none, some, List, [], ◌∷◌, ◌++◌, ◌==◌, string_eq,
  nat_eq, if◌then◌else◌, select, contains, all, any, is_some,
}
use quipucords.Prelude.Dict.{insert, has_key, keys}
use quipucords.Json.{Value, is_null}
use quipucords.Products.Values.{Facts, get}
use quipucords.Api.Source.{
  Checked, valid, invalid, raised, and_then, Attrs, Source, is_http, is_ssh, nonempty, validate,
  check_fields,
}

-- `SourceSerializerV1` or `SourceSerializerV2`
pub data Version : Type 0 where
  v1 v2 : Version

abbrev pub ssl_options : List String
ssl_options = "ssl_cert_verify" ∷ "ssl_protocol" ∷ "disable_ssl" ∷ "use_paramiko" ∷ []

abbrev pub valid_ssh_options : List String
valid_ssh_options = "use_paramiko" ∷ []

abbrev pub valid_http_options : List String
valid_http_options = "ssl_cert_verify" ∷ "ssl_protocol" ∷ "disable_ssl" ∷ []

abbrev pub check_for_disallowed_fields : Facts → List String → Checked Facts
check_for_disallowed_fields options valid_fields =
    if all (λ option. contains option valid_fields) (keys options)
    then valid options
    else invalid "options"

-- `options.setdefault(key, value)`
abbrev set_default : String → Value → Facts → Facts
set_default k v options = if has_key k options then options else insert k v options

-- The options, with the default that the check adds to them.
unfoldable pub validate_opts : Facts → String → Bool → Checked Facts
validate_opts options t apply_defaults =
    if is_http t
    then check_for_disallowed_fields
        (if apply_defaults
          then set_default "ssl_cert_verify" (Value.bool true) options
          else options)
        valid_http_options
    else if is_ssh t
    then check_for_disallowed_fields options valid_ssh_options
    else raised "NotImplementedError"

-- `setattr(source, option, value)`
abbrev pub set_option : String → Value → Source → Source
set_option k v s =
    if k == "ssl_cert_verify"
    then record s { ssl_cert_verify = v }
    else if k == "ssl_protocol"
    then record s { ssl_protocol = v }
    else if k == "disable_ssl"
    then record s { disable_ssl = v }
    else if k == "use_paramiko"
    then record s { use_paramiko = v }
    else s

abbrev pub set_given : Facts → List String → Source → Source
set_given options [] s = s
set_given options (k ∷ ks) s =
    set_given options ks (if is_null (get k options) then s else set_option k (get k options) s)

unfoldable pub update_options : Facts → Source → Source
update_options options s = set_given options ssl_options s

abbrev add_option : String → Value → Facts → Facts
add_option k v options = if is_null v then options else insert k v options

-- `Source.options`
abbrev pub options_of : Source → Facts
options_of s = add_option "use_paramiko" s.use_paramiko (
    add_option "disable_ssl" s.disable_ssl (
      add_option "ssl_cert_verify" s.ssl_cert_verify (add_option "ssl_protocol" s.ssl_protocol [])))

abbrev pub is_named : String → Source → Bool
is_named n s = s.name == n

abbrev pub is_other : ℕ → Source → Bool
is_other i s = not (s.source_id == i)

-- `check_for_existing_name` among these sources
abbrev pub check_for_existing_name : List Source → Option String → Checked Unit
check_for_existing_name sources none = valid tt
check_for_existing_name sources (some n) =
    if any (is_named n) sources then invalid "name" else valid tt

abbrev pub text_or_empty : Option String → String
text_or_empty o = elim o [ none ↦ "" | some s ↦ s ]

abbrev pub replaced {ℓ} : {A : Type ℓ} → Option (List A) → List A → List A
replaced none old = old
replaced (some []) old = old
replaced (some (x ∷ xs)) old = x ∷ xs

abbrev pub replaced_hosts : Option (List String) → Option (List String) → Option (List String)
replaced_hosts none old = old
replaced_hosts (some []) old = old
replaced_hosts (some (x ∷ xs)) old = some (x ∷ xs)

-- What `Source.objects.create(**validated_data)` and the assignments after it make of the fields.
abbrev pub new_source : ℕ → String → Attrs → Source
new_source i t a = record {
  source_id = i;
  name = text_or_empty a.name;
  source_type = t;
  port = elim a.port [ none ↦ none | some p ↦ p ];
  hosts = replaced a.hosts [];
  exclude_hosts = replaced_hosts a.exclude_hosts none;
  credentials = replaced a.credentials [];
  ssl_protocol = get "ssl_protocol" a.ssl_fields;
  ssl_cert_verify = get "ssl_cert_verify" a.ssl_fields;
  disable_ssl = get "disable_ssl" a.ssl_fields;
  use_paramiko = get "use_paramiko" a.ssl_fields;
}

-- The options are checked on a copy, so that their default is not stored.
abbrev pub with_checked_options : Source → Checked Source
with_checked_options s =
    if nonempty (options_of s)
    then and_then (validate_opts (options_of s) s.source_type true) (λ _. valid s)
    else if is_http s.source_type
    then valid (record s { ssl_cert_verify = Value.bool true })
    else valid s

abbrev pub create_as : List Source → ℕ → Option String → Attrs → Checked Source
create_as sources i none a = invalid "source_type"
create_as sources i (some t) a = with_checked_options (new_source i t a)

unfoldable pub create_base : List Source → ℕ → Attrs → Checked Source
create_base sources i a =
    and_then (check_for_existing_name sources a.name) (λ _. create_as sources i a.source_type a)

abbrev pub all_options : Facts → Source → Source
all_options options s = record s {
  ssl_protocol = get "ssl_protocol" options;
  ssl_cert_verify = get "ssl_cert_verify" options;
  disable_ssl = get "disable_ssl" options;
  use_paramiko = get "use_paramiko" options;
}

unfoldable pub create : Version → List Source → ℕ → Attrs → Checked Source
create v1 sources i a = and_then (create_base sources i a) (λ s.
    if nonempty a.options
    then and_then (validate_opts a.options s.source_type true)
        (λ options. valid (all_options options s))
    else valid s)
create v2 sources i a = create_base sources i a

abbrev pub updated : Source → Attrs → Source
updated s a = record s {
  name = elim a.name [ none ↦ s.name | some n ↦ n ];
  port = elim a.port [ none ↦ s.port | some p ↦ p ];
  hosts = replaced a.hosts s.hosts;
  exclude_hosts = replaced_hosts a.exclude_hosts s.exclude_hosts;
  credentials = replaced a.credentials s.credentials;
}

-- The type of a source cannot be changed.
unfoldable pub update_base : List Source → Source → Attrs → Checked Source
update_base sources s a =
    and_then (check_for_existing_name (select (is_other s.source_id) sources) a.name)
      (λ _. if is_some a.source_type then invalid "source_type" else valid (updated s a))

abbrev pub not_null : Facts → List String → Facts
not_null fields [] = []
not_null fields (k ∷ ks) =
    if is_null (get k fields)
    then not_null fields ks
    else insert k (get k fields) (not_null fields ks)

abbrev pub with_options : Bool → Facts → Source → Checked Source
with_options apply_defaults options s =
    if nonempty options
    then and_then (validate_opts options s.source_type apply_defaults)
        (λ o. valid (update_options o s))
    else valid s

-- The defaults of the first version are added in an update, too.
unfoldable pub update : Version → List Source → Source → Attrs → Checked Source
update v1 sources s a = and_then (update_base sources s a) (with_options true a.options)
update v2 sources s a =
    and_then (update_base sources s a) (with_options false (not_null a.ssl_fields ssl_options))

-- The table of sources: what the views do with requests. A new id comes from the database.
pub data Request : Type 0 where
  post : ℕ → Attrs → Request
  put : Bool → ℕ → Attrs → Request

abbrev pub find_source : ℕ → List Source → Option Source
find_source i [] = none
find_source i (s ∷ sources) = if s.source_id == i then some s else find_source i sources

abbrev pub add_result : List Source → Checked Source → List Source
add_result sources (valid s) = sources ++ (s ∷ [])
add_result sources _ = sources

abbrev pub put_source : Source → List Source → List Source
put_source s [] = []
put_source s (u ∷ sources) = (if u.source_id == s.source_id then s else u) ∷ put_source s sources

abbrev pub put_result : List Source → Checked Source → List Source
put_result sources (valid s) = put_source s sources
put_result sources _ = sources

-- A serializer drops the fields that its version does not have.
abbrev pub known_fields : Version → Attrs → Attrs
known_fields v1 input = record input { ssl_fields = [] }
known_fields v2 input = record input { options = [] }

module _ (is_valid_ip is_valid_cidr is_valid_hostname has_range : String → Bool) where
  unfoldable pub post_source : Version → List Source → ℕ → Attrs → Checked Source
  post_source v sources i input =
      and_then
        (check_fields is_valid_ip is_valid_cidr is_valid_hostname has_range false
          (known_fields v input))
        (λ a. and_then (validate (keys input.ssl_fields) none a) (create v sources i))

  unfoldable pub change_source : Version → Bool → List Source → Source → Attrs → Checked Source
  change_source v partial sources s input =
      and_then
        (check_fields is_valid_ip is_valid_cidr is_valid_hostname has_range partial
          (known_fields v input))
        (λ a. and_then (validate (keys input.ssl_fields) (some s) a) (update v sources s))

  abbrev pub change_found : Version → Bool → List Source → Option Source → Attrs → List Source
  change_found v partial sources none input = sources
  change_found v partial sources (some s) input =
      put_result sources (change_source v partial sources s input)

  unfoldable pub serve : Version → Request → List Source → List Source
  serve v (post i input) sources = add_result sources (post_source v sources i input)
  serve v (put partial i input) sources =
      change_found v partial sources (find_source i sources) input

  unfoldable pub serve_all : Version → List Request → List Source → List Source
  serve_all v [] sources = sources
  serve_all v (r ∷ rs) sources = serve_all v rs (serve v r sources)

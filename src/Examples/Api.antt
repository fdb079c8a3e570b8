-- ===== src/Examples/Api.antt =====
-- Concrete runs of the serializers of sources.
use quipucords.Prelude.{
  ◌≡◌, refl, String, Bool, true, false, none, some, [], ◌∷◌, All, contains, string_eq,
}
use quipucords.Json.{Value, null}
use quipucords.Api.Source.{valid, Credential, Attrs, Source}
use quipucords.Api.Source.Store.{
  v1, post, put, update, update_base, validate_opts, update_options, serve_all,
}
use quipucords.Api.Source.Valid.{IsValid}
use quipucords.Api.Source.Served.{serve_all-All}

abbrev is_known : String → Bool
is_known a = contains a ("sat.example.com" ∷ "10.0.0.1" ∷ [])

abbrev never : String → Bool
never a = false

abbrev satellite_login : Credential
satellite_login = record { cred_id = 3; cred_type = "satellite" }

-- A satellite whose certificate is not verified.
abbrev satellite_source : Source
satellite_source = record {
  source_id = 1;
  name = "sat";
  source_type = "satellite";
  port = some 443;
  hosts = "sat.example.com" ∷ [];
  exclude_hosts = none;
  credentials = satellite_login ∷ [];
  ssl_protocol = null;
  ssl_cert_verify = Value.bool false;
  disable_ssl = null;
  use_paramiko = null;
}

abbrev nothing : Attrs
nothing = record {
  name = none;
  source_type = none;
  port = none;
  hosts = none;
  exclude_hosts = none;
  credentials = none;
  ssl_fields = [];
  options = [];
}

abbrev disable : Attrs
disable = record nothing { options = ("disable_ssl", Value.bool true) ∷ [] }

abbrev network_source : Attrs
network_source = record nothing {
  name = some "net";
  source_type = some "network";
  hosts = some ("10.0.0.1" ∷ "" ∷ []);
  credentials = some (record { cred_id = 4; cred_type = "network" } ∷ []);
}

serve_all-All_example : All IsValid (
    serve_all is_known never never never v1
      (post 2 network_source ∷ put true 1 disable ∷ [])
      (satellite_source ∷ []))
serve_all-All_example =
    serve_all-All is_known never never never v1 (post 2 network_source ∷ put true 1 disable ∷ [])
      (satellite_source ∷ [])
      (
        record {
          known_type = refl;
          some_host = refl;
          some_credential = refl;
          own_credentials = (refl, tt);
          one_host = λ h. refl;
          one_credential = λ h. refl;
          none_excluded = λ h. refl;
        },
        tt,
      )

-- In the first version, an update of another option turns the verification of certificates on again.
verification_returns :
    update v1 (satellite_source ∷ []) satellite_source disable
    ≡ valid (record satellite_source {
      ssl_cert_verify = Value.bool true;
      disable_ssl = Value.bool true;
    })
unfolding update update_base validate_opts update_options
verification_returns = refl

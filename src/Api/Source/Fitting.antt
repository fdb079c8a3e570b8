-- ===== src/Api/Source/Fitting.antt =====
-- What the validation for a type of source lets through (quipucords/api/source/serializer.py).
use quipucords.Prelude.{
  ℕ, ◌≡◌, refl, sym, ◌∙◌, String, Bool, true, false, not, ◌&&◌, ◌||◌, Option, none, some, List, [],
  ◌∷◌, ◌==◌, string_eq, if◌then◌else◌, All, arith, is_some, contains,
}
use mathlib.Core.Path.{subst}
use quipucords.Prelude.Dict.{insert}
use quipucords.Json.{Value}
use quipucords.Products.Values.{Facts}
use quipucords.Api.Source.{
  Credential, Attrs, Source, is_http, is_ssh, is_many, check_credential_types,
  check_credential_type, validate_number_hosts_and_credentials, set_default_port,
  validate_network_source, validate_http_source, validate, validate_as, type_of, check_hosts,
  check_exclude_hosts, check_credentials, credentials_given, positive, stored_port, given_port,
  with_ssl_default, default_port,
}
use quipucords.Api.Source.Checks.{
  Holds, keep_then, weaken, keep_if, HasType, Fits, single_host, single_credential,
}

-- The fields that the validation does not change.
pub record Same (a b : Attrs) : Type 0 where
  pub same_name : b.name ≡ a.name
  pub same_type : b.source_type ≡ a.source_type
  pub same_hosts : b.hosts ≡ a.hosts
  pub same_excluded : b.exclude_hosts ≡ a.exclude_hosts
  pub same_credentials : b.credentials ≡ a.credentials
  pub same_options : b.options ≡ a.options

unchanged : (a : Attrs) → Same a a
unchanged a = record {
  same_name = refl;
  same_type = refl;
  same_hosts = refl;
  same_excluded = refl;
  same_credentials = refl;
  same_options = refl;
}

port_if :
    (b : Bool) (p : Option (Option ℕ)) (a : Attrs) → Same a (if b then a else record a { port = p })
port_if true p a = unchanged a
port_if false p a = record {
  same_name = refl;
  same_type = refl;
  same_hosts = refl;
  same_excluded = refl;
  same_credentials = refl;
  same_options = refl;
}

ssl_if : (b : Bool) (v : Facts) (a : Attrs) → Same a (if b then record a { ssl_fields = v } else a)
ssl_if true v a = record {
  same_name = refl;
  same_type = refl;
  same_hosts = refl;
  same_excluded = refl;
  same_credentials = refl;
  same_options = refl;
}
ssl_if false v a = unchanged a

two_steps : {a b c : Attrs} → Same a b → Same b c → Same a c
two_steps s r = record {
  same_name = r.same_name ∙ s.same_name;
  same_type = r.same_type ∙ s.same_type;
  same_hosts = r.same_hosts ∙ s.same_hosts;
  same_excluded = r.same_excluded ∙ s.same_excluded;
  same_credentials = r.same_credentials ∙ s.same_credentials;
  same_options = r.same_options ∙ s.same_options;
}

set_default_port-Same : (o : Option Source) (n : ℕ) (a : Attrs) → Same a (set_default_port o n a)
unfolding set_default_port
set_default_port-Same o n a =
    port_if (positive (stored_port o) || positive (given_port a)) (some (some n)) a

one_type : (t : String) (c : Credential) → Holds (λ u. HasType t c) (check_credential_type t c)
one_type t c =
    keep_if _ (c.cred_type == t) _ _ (λ e. (string_eq.beq_iff c.cred_type t).0 e) (λ e. tt)

own_types :
    (t : String) (cs : List Credential)
    → Holds (λ u. All (HasType t) cs) (check_credential_types t cs)
own_types t [] = tt
own_types t (c ∷ cs) =
    keep_then _ _ (check_credential_type t c) _ (one_type t c) (λ u own.
      weaken _ _ (check_credential_types t cs) (λ v others. (own, others)) (own_types t cs))

host_checked : (o : Option (List String)) → Holds (λ u. single_host o ≡ true) (check_hosts o)
host_checked none = refl
host_checked (some []) = refl
host_checked (some (h ∷ [])) = keep_if _ (is_many h) _ _ (λ e. tt) (λ e. ground (arith, e))
host_checked (some (h ∷ g ∷ hosts)) = tt

excluded_checked : (o : Option (List String)) → Holds (λ u. o ≡ none) (check_exclude_hosts o)
excluded_checked none = refl
excluded_checked (some l) = tt

abbrev pub given : Option (List Credential) → List Credential
given o = elim o [ none ↦ [] | some cs ↦ cs ]

credentials_checked :
    (t : String) (o : Option (List Credential))
    → Holds (λ u. (single_credential o ≡ true) × All (HasType t) (given o)) (check_credentials t o)
credentials_checked t none = (refl, tt)
credentials_checked t (some []) = (refl, tt)
credentials_checked t (some (c ∷ [])) =
    keep_if _ (c.cred_type == t) _ _ (λ e. (refl, ((string_eq.beq_iff c.cred_type t).0 e, tt)))
      (λ e. tt)
credentials_checked t (some (c ∷ d ∷ cs)) = tt

validate_network_source-Fits :
    (o : Option Source) (t : String) (a : Attrs)
    → is_ssh t ≡ true
    → is_http t ≡ false
    → Holds (λ b. Fits t b × Same a b) (validate_network_source o t a)
unfolding validate_network_source
validate_network_source-Fits o t a ssh not_http =
    let same = set_default_port-Same o 22 a in
    keep_then _ _ (check_credential_types t (credentials_given a)) _
      (own_types t (credentials_given a))
      (λ u own. (
        record {
          known_type = ground (arith, ssh);
          own_credentials =
              subst (λ cs. All (HasType t) (given cs)) (sym same.same_credentials) own;
          one_host = λ http. absurd (cc (http, not_http));
          one_credential = λ http. absurd (cc (http, not_http));
          none_excluded = λ http. absurd (cc (http, not_http));
        },
        same,
      ))

validate_number_hosts_and_credentials-Fits :
    (t : String) (b : Attrs)
    → is_http t ≡ true
    → Holds (λ u. Fits t b) (validate_number_hosts_and_credentials t b)
unfolding validate_number_hosts_and_credentials
validate_number_hosts_and_credentials-Fits t b http =
    keep_then _ _ (check_hosts b.hosts) _ (host_checked b.hosts) (λ u one.
      keep_then _ _ (check_exclude_hosts b.exclude_hosts) _ (excluded_checked b.exclude_hosts)
        (λ v none_there.
          weaken _ _ (check_credentials t b.credentials)
            (λ w r. record {
              known_type = ground (arith, http);
              own_credentials = r.1;
              one_host = λ h. one;
              one_credential = λ h. r.0;
              none_excluded = λ h. none_there;
            })
            (credentials_checked t b.credentials)))

validate_http_source-Fits :
    (initial : List String) (o : Option Source) (t : String) (a : Attrs)
    → is_http t ≡ true
    → Holds (λ b. Fits t b × Same a b) (validate_http_source initial o t a)
unfolding validate_http_source
validate_http_source-Fits initial o t a http =
    let ported = set_default_port o (default_port t) a in
    let b = with_ssl_default initial o ported in
    let same : Same a b = two_steps (set_default_port-Same o (default_port t) a) (
      ssl_if (not (is_some o) && not (contains "ssl_cert_verify" initial))
        (insert "ssl_cert_verify" (Value.bool true) ported.ssl_fields) ported) in
    keep_then _ _ (validate_number_hosts_and_credentials t b) _
      (validate_number_hosts_and_credentials-Fits t b http) (λ u fits. (fits, same))

-- The types of the two lists are different.
ssh_not_http : (t : String) → is_ssh t ≡ true → is_http t ≡ false
ssh_not_http t h =
    let e : "network" ≡ t = (string_eq.beq_iff "network" t).0 (ground (arith, h)) in
    subst (λ s. is_http s ≡ false) e refl

abbrev pub Accepts : Option Source → Attrs → Attrs → Type 0
Accepts o a b = (t : String) × (type_of o a ≡ some t) × Fits t b × Same a b

accepted_as :
    (initial : List String) (o : Option Source) (k : Option String) (a : Attrs)
    → type_of o a ≡ k
    → Holds (Accepts o a) (validate_as initial o k a)
accepted_as initial o none a e = tt
accepted_as initial o (some t) a e =
    keep_if _ (is_ssh t) _ _
      (λ ssh.
        weaken _ _ (validate_network_source o t a) (λ b r. (t, e, r.0, r.1))
          (validate_network_source-Fits o t a ssh (ssh_not_http t ssh)))
      (λ not_ssh.
        keep_if _ (is_http t) _ _
          (λ http.
            weaken _ _ (validate_http_source initial o t a) (λ b r. (t, e, r.0, r.1))
              (validate_http_source-Fits initial o t a http))
          (λ other. tt))

pub validate-Accepts :
    (initial : List String) (o : Option Source) (a : Attrs)
    → Holds (Accepts o a) (validate initial o a)
unfolding validate
validate-Accepts initial o a = accepted_as initial o (type_of o a) a refl

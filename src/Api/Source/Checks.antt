-- ===== src/Api/Source/Checks.antt =====
-- What the checks of the serializers of sources let through (quipucords/api/source/serializer.py).
use quipucords.Prelude.{
  ◌≡◌, refl, String, Bool, true, false, not, ◌||◌, Option, none, some, List, [], ◌∷◌, ◌==◌,
  string_eq, if◌then◌else◌, All, arith, is_some, select, all,
}
use quipucords.Api.Source.{
  Checked, valid, invalid, raised, and_then, Credential, Attrs, is_http, is_ssh, nonempty, is_many,
  check_fields, validate_port, validate_addresses, is_valid_address, required, validate_optional,
  validate_credentials, credentials_given,
}

-- What a result satisfies, if there is one.
abbrev pub Holds : {V : Type 0} → (V → Type 0) → Checked V → Type 0
Holds P (valid v) = P v
Holds P (invalid field) = Unit
Holds P (raised e) = Unit

pub keep_then :
    {V W : Type 0} (P : V → Type 0) (Q : W → Type 0) (c : Checked V) (f : V → Checked W)
    → Holds P c
    → ((v : V) → P v → Holds Q (f v))
    → Holds Q (and_then c f)
keep_then P Q (valid v) f h next = next v h
keep_then P Q (invalid field) f h next = tt
keep_then P Q (raised e) f h next = tt

pub weaken :
    {V : Type 0} (P Q : V → Type 0) (c : Checked V) → ((v : V) → P v → Q v) → Holds P c → Holds Q c
weaken P Q (valid v) f h = f v h
weaken P Q (invalid field) f h = tt
weaken P Q (raised e) f h = tt

pub any_result : {V : Type 0} (c : Checked V) → Holds (λ v. Unit) c
any_result (valid v) = tt
any_result (invalid field) = tt
any_result (raised e) = tt

pub keep_if :
    {V : Type 0} (P : V → Type 0) (b : Bool) (x y : Checked V)
    → (b ≡ true → Holds P x)
    → (b ≡ false → Holds P y)
    → Holds P (if b then x else y)
keep_if P true x y on_true on_false = on_true refl
keep_if P false x y on_true on_false = on_false refl

-- A field is there, unless the update is partial, and is not empty.
abbrev pub is_full : {A : Type 0} → Bool → Option (List A) → Bool
is_full partial none = partial
is_full partial (some l) = nonempty l

abbrev pub IsFilled : Bool → Attrs → Type 0
IsFilled partial a = (is_full partial a.hosts ≡ true) × (is_full partial a.credentials ≡ true)

-- What the checks of the type ask of the fields.
abbrev pub single_host : Option (List String) → Bool
single_host none = true
single_host (some []) = true
single_host (some (h ∷ [])) = not (is_many h)
single_host (some (h ∷ g ∷ hosts)) = false

abbrev pub single_credential : Option (List Credential) → Bool
single_credential none = true
single_credential (some []) = true
single_credential (some (c ∷ [])) = true
single_credential (some (c ∷ d ∷ cs)) = false

abbrev pub HasType : String → Credential → Type 0
HasType t c = c.cred_type ≡ t

pub record Fits (t : String) (a : Attrs) : Type 0 where
  pub known_type : (is_ssh t || is_http t) ≡ true
  pub own_credentials : All (HasType t) (credentials_given a)
  pub one_host : is_http t ≡ true → single_host a.hosts ≡ true
  pub one_credential : is_http t ≡ true → single_credential a.credentials ≡ true
  pub none_excluded : is_http t ≡ true → a.exclude_hosts ≡ none

module _ (ip cidr hostname range : String → Bool) where
  required_there :
      (partial : Bool) (field : String) (b : Bool)
      → Holds (λ u. (partial || b) ≡ true) (required ip cidr hostname range partial field b)
  required_there true field b = refl
  required_there false field true = refl
  required_there false field false = tt

  addresses_nonempty :
      (field : String) (l : List String)
      → Holds (λ r. nonempty r ≡ true) (validate_addresses ip cidr hostname range field l)
  unfolding validate_addresses
  addresses_nonempty field l =
      let kept = select (λ a. not (a == "")) l in
      keep_if _ (not (nonempty kept)) _ _ (λ e. tt)
        (λ full.
          keep_if _ (all (is_valid_address ip cidr hostname range) kept) _ _
            (λ e. ground (arith, full)) (λ e. tt))

  optional_full :
      (partial : Bool) (field : String) (o : Option (List String))
      → (partial || is_some o) ≡ true
      → Holds (λ r. is_full partial r ≡ true) (validate_optional ip cidr hostname range field o)
  optional_full partial field none h = ground (arith, h)
  optional_full partial field (some l) h =
      keep_then (λ r. nonempty r ≡ true) (λ r. is_full partial r ≡ true)
        (validate_addresses ip cidr hostname range field l) (λ r. valid (some r))
        (addresses_nonempty field l) (λ r full. full)

  credentials_full :
      (partial : Bool) (o : Option (List Credential))
      → (partial || is_some o) ≡ true
      → Holds (λ r. is_full partial r ≡ true) (validate_credentials ip cidr hostname range o)
  credentials_full partial none h = ground (arith, h)
  credentials_full partial (some []) h = tt
  credentials_full partial (some (c ∷ cs)) h = refl

  pub check_fields_full :
      (partial : Bool) (a : Attrs)
      → Holds (IsFilled partial) (check_fields ip cidr hostname range partial a)
  unfolding check_fields
  check_fields_full partial a =
      keep_then _ _ (required ip cidr hostname range partial "name" (is_some a.name)) _
        (any_result (required ip cidr hostname range partial "name" (is_some a.name)))
        (λ u named.
          keep_then _ _ (required ip cidr hostname range partial "hosts" (is_some a.hosts)) _
            (required_there partial "hosts" (is_some a.hosts))
            (λ v with_hosts.
              keep_then _ _
                (required ip cidr hostname range partial "credentials" (is_some a.credentials)) _
                (required_there partial "credentials" (is_some a.credentials))
                (λ w with_credentials.
                  keep_then _ _ (validate_port ip cidr hostname range a.port) _
                    (any_result (validate_port ip cidr hostname range a.port))
                    (λ port ported.
                      keep_then _ _ (validate_optional ip cidr hostname range "hosts" a.hosts) _
                        (optional_full partial "hosts" a.hosts with_hosts)
                        (λ hosts full_hosts.
                          keep_then _ _
                            (validate_optional ip cidr hostname range "exclude_hosts"
                              a.exclude_hosts)
                            _
                            (any_result (
                              validate_optional ip cidr hostname range "exclude_hosts"
                                a.exclude_hosts))
                            (λ excluded any.
                              keep_then _ _
                                (validate_credentials ip cidr hostname range a.credentials) _
                                (credentials_full partial a.credentials with_credentials)
                                (λ cs full_credentials. (full_hosts, full_credentials))))))))

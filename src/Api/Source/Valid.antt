-- ===== src/Api/Source/Valid.antt =====
-- The sources in the table stay valid (quipucords/api/source/serializer.py).
use quipucords.Prelude.{
  ℕ, ◌≡◌, refl, sym, ◌∙◌, ap, String, Bool, true, false, ◌||◌, Option, none, some, List, [], ◌∷◌,
  string_eq, nat_eq, if◌then◌else◌, All, arith, is_some, select,
}
use mathlib.Core.Path.{subst}
use quipucords.Json.{Value, is_null}
use quipucords.Products.Values.{Facts, get}
use quipucords.Api.Source.{Credential, Attrs, Source, is_http, is_ssh, nonempty}
use quipucords.Api.Source.Checks.{
  Holds, keep_then, keep_if, any_result, HasType, Fits, IsFilled, is_full, single_host,
  single_credential,
}
use quipucords.Api.Source.Fitting.{given}
use quipucords.Api.Source.Store.{
  Version, v1, v2, ssl_options, validate_opts, set_option, set_given, update_options, options_of,
  check_for_existing_name, is_other, replaced, replaced_hosts, new_source, with_checked_options,
  create_as, create_base, create, update_base, not_null, with_options, update,
}

-- A source has hosts and credentials, all of its own type; one that is reached by HTTP has one host that
-- is no range, one credential, and excludes nothing.
pub record IsValidAs (t : String) (hosts : List String) (excluded : Option (List String))
    (credentials : List Credential) : Type 0 where
  pub known_type : (is_ssh t || is_http t) ≡ true
  pub some_host : nonempty hosts ≡ true
  pub some_credential : nonempty credentials ≡ true
  pub own_credentials : All (HasType t) credentials
  pub one_host : is_http t ≡ true → single_host (some hosts) ≡ true
  pub one_credential : is_http t ≡ true → single_credential (some credentials) ≡ true
  pub none_excluded : is_http t ≡ true → excluded ≡ none

abbrev pub IsValid : Source → Type 0
IsValid s = IsValidAs s.source_type s.hosts s.exclude_hosts s.credentials

-- Two sources that differ in their options at most.
record Core (s u : Source) : Type 0 where
  core_type : u.source_type ≡ s.source_type
  core_hosts : u.hosts ≡ s.hosts
  core_excluded : u.exclude_hosts ≡ s.exclude_hosts
  core_credentials : u.credentials ≡ s.credentials

IsValid-Core : {s u : Source} → Core s u → IsValid s → IsValid u
IsValid-Core {s} {u} c v =
    subst (λ t. IsValidAs t u.hosts u.exclude_hosts u.credentials) (sym c.core_type)
      (subst (λ h. IsValidAs s.source_type h u.exclude_hosts u.credentials) (sym c.core_hosts)
        (subst (λ x. IsValidAs s.source_type s.hosts x u.credentials) (sym c.core_excluded)
          (subst (λ cs. IsValidAs s.source_type s.hosts s.exclude_hosts cs) (sym c.core_credentials)
            v)))

set_option-Core : (k : String) (v : Value) (s : Source) → Core s (set_option k v s)
set_option-Core k v s = record {
  core_type = ground arith;
  core_hosts = ground arith;
  core_excluded = ground arith;
  core_credentials = ground arith;
}

two_changes : {s u w : Source} → Core s u → Core u w → Core s w
two_changes c d = record {
  core_type = d.core_type ∙ c.core_type;
  core_hosts = d.core_hosts ∙ c.core_hosts;
  core_excluded = d.core_excluded ∙ c.core_excluded;
  core_credentials = d.core_credentials ∙ c.core_credentials;
}

no_change : (s : Source) → Core s s
no_change s = record {
  core_type = refl;
  core_hosts = refl;
  core_excluded = refl;
  core_credentials = refl;
}

change_if : (b : Bool) (s u : Source) → Core s u → Core s (if b then s else u)
change_if true s u c = no_change s
change_if false s u c = c

set_given-Core : (options : Facts) (ks : List String) (s : Source) → Core s (set_given options ks s)
set_given-Core options [] s = no_change s
set_given-Core options (k ∷ ks) s =
    two_changes
      (change_if (is_null (get k options)) s (set_option k (get k options) s)
        (set_option-Core k (get k options) s))
      (set_given-Core options ks
        (if is_null (get k options) then s else set_option k (get k options) s))

replaced_new :
    {A : Type 0} (o : Option (List A)) (old : List A)
    → is_full false o ≡ true
    → nonempty (replaced o old) ≡ true
replaced_new none old h = absurd (cc h)
replaced_new (some []) old h = absurd (cc h)
replaced_new (some (x ∷ xs)) old h = refl

replaced_old :
    {A : Type 0} (o : Option (List A)) (old : List A)
    → nonempty old ≡ true
    → nonempty (replaced o old) ≡ true
replaced_old none old h = h
replaced_old (some []) old h = h
replaced_old (some (x ∷ xs)) old h = refl

replaced_single :
    (o : Option (List String)) (old : List String)
    → single_host o ≡ true
    → single_host (some old) ≡ true
    → single_host (some (replaced o old)) ≡ true
replaced_single none old h k = k
replaced_single (some []) old h k = k
replaced_single (some (x ∷ xs)) old h k = h

replaced_one :
    (o : Option (List Credential)) (old : List Credential)
    → single_credential o ≡ true
    → single_credential (some old) ≡ true
    → single_credential (some (replaced o old)) ≡ true
replaced_one none old h k = k
replaced_one (some []) old h k = k
replaced_one (some (x ∷ xs)) old h k = h

replaced_own :
    (t : String) (o : Option (List Credential)) (old : List Credential)
    → All (HasType t) (given o)
    → All (HasType t) old
    → All (HasType t) (replaced o old)
replaced_own t none old h k = k
replaced_own t (some []) old h k = k
replaced_own t (some (x ∷ xs)) old h k = h

new_source-IsValid :
    (t : String) (a : Attrs)
    → IsFilled false a
    → Fits t a
    → IsValidAs t
        (replaced a.hosts [])
        (replaced_hosts a.exclude_hosts none)
        (replaced a.credentials [])
new_source-IsValid t a filled fits = record {
  known_type = fits.known_type;
  some_host = replaced_new a.hosts [] filled.0;
  some_credential = replaced_new a.credentials [] filled.1;
  own_credentials = replaced_own t a.credentials [] fits.own_credentials tt;
  one_host = λ h. replaced_single a.hosts [] (fits.one_host h) refl;
  one_credential = λ h. replaced_one a.credentials [] (fits.one_credential h) refl;
  none_excluded = λ h. ap (λ x. replaced_hosts x none) (fits.none_excluded h);
}

updated-IsValid :
    (s : Source) (a : Attrs)
    → Fits s.source_type a
    → IsValid s
    → IsValidAs s.source_type
        (replaced a.hosts s.hosts)
        (replaced_hosts a.exclude_hosts s.exclude_hosts)
        (replaced a.credentials s.credentials)
updated-IsValid s a fits v = record {
  known_type = fits.known_type;
  some_host = replaced_old a.hosts s.hosts v.some_host;
  some_credential = replaced_old a.credentials s.credentials v.some_credential;
  own_credentials =
      replaced_own s.source_type a.credentials s.credentials fits.own_credentials v.own_credentials;
  one_host = λ h. replaced_single a.hosts s.hosts (fits.one_host h) (v.one_host h);
  one_credential =
      λ h. replaced_one a.credentials s.credentials (fits.one_credential h) (v.one_credential h);
  none_excluded =
      λ h. ap (λ x. replaced_hosts x s.exclude_hosts) (fits.none_excluded h) ∙ v.none_excluded h;
}

-- The checks of options change nothing but options.
with_checked_options-IsValid : (s : Source) → IsValid s → Holds IsValid (with_checked_options s)
with_checked_options-IsValid s v =
    keep_if _ (nonempty (options_of s)) _ _
      (λ e.
        keep_then _ _ (validate_opts (options_of s) s.source_type true) _
          (any_result (validate_opts (options_of s) s.source_type true)) (λ o u. v))
      (λ e. keep_if _ (is_http s.source_type) _ _ (λ h. v) (λ h. v))

create_base-IsValid :
    (sources : List Source) (i : ℕ) (a : Attrs) (t : String)
    → a.source_type ≡ some t
    → IsFilled false a
    → Fits t a
    → Holds IsValid (create_base sources i a)
unfolding create_base
create_base-IsValid sources i a t e filled fits =
    keep_then _ _ (check_for_existing_name sources a.name) _
      (any_result (check_for_existing_name sources a.name))
      (λ u named.
        subst (λ k. Holds IsValid (create_as sources i k a)) (sym e)
          (with_checked_options-IsValid (new_source i t a) (new_source-IsValid t a filled fits)))

pub create-IsValid :
    (version : Version) (sources : List Source) (i : ℕ) (a : Attrs) (t : String)
    → a.source_type ≡ some t
    → IsFilled false a
    → Fits t a
    → Holds IsValid (create version sources i a)
unfolding create
create-IsValid v1 sources i a t e filled fits =
    keep_then _ _ (create_base sources i a) _ (create_base-IsValid sources i a t e filled fits)
      (λ s v.
        keep_if _ (nonempty a.options) _ _
          (λ some_options.
            keep_then _ _ (validate_opts a.options s.source_type true) _
              (any_result (validate_opts a.options s.source_type true)) (λ o u. v))
          (λ no_options. v))
create-IsValid v2 sources i a t e filled fits = create_base-IsValid sources i a t e filled fits

with_options-IsValid :
    (d : Bool) (options : Facts) (s : Source) → IsValid s → Holds IsValid (with_options d options s)
unfolding update_options
with_options-IsValid d options s v =
    keep_if _ (nonempty options) _ _
      (λ e.
        keep_then _ _ (validate_opts options s.source_type d) _
          (any_result (validate_opts options s.source_type d))
          (λ o u. IsValid-Core (set_given-Core o ssl_options s) v))
      (λ e. v)

update_base-IsValid :
    (sources : List Source) (s : Source) (a : Attrs)
    → Fits s.source_type a
    → IsValid s
    → Holds IsValid (update_base sources s a)
unfolding update_base
update_base-IsValid sources s a fits v =
    keep_then _ _ (check_for_existing_name (select (is_other s.source_id) sources) a.name) _
      (any_result (check_for_existing_name (select (is_other s.source_id) sources) a.name))
      (λ u named. keep_if _ (is_some a.source_type) _ _ (λ e. tt) (λ e. updated-IsValid s a fits v))

pub update-IsValid :
    (version : Version) (sources : List Source) (s : Source) (a : Attrs)
    → Fits s.source_type a
    → IsValid s
    → Holds IsValid (update version sources s a)
unfolding update
update-IsValid v1 sources s a fits v =
    keep_then _ _ (update_base sources s a) _ (update_base-IsValid sources s a fits v)
      (λ u w. with_options-IsValid true a.options u w)
update-IsValid v2 sources s a fits v =
    keep_then _ _ (update_base sources s a) _ (update_base-IsValid sources s a fits v)
      (λ u w. with_options-IsValid false (not_null a.ssl_fields ssl_options) u w)

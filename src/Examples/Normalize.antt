-- ===== src/Examples/Normalize.antt =====
-- A normalizer with two fields, the second made of the first.
use quipucords.Prelude.{String, ◌≡◌, refl, none, List, [], ◌∷◌, string_eq}
use quipucords.Json.{Value, str, arr, element, no_elements}
use quipucords.Fingerprint.Model.{ok, err, key_error}
use quipucords.Products.Values.{get}
use quipucords.Normalize.{
  Outcome, crashed, plain, wrapped, FactMapper, Fields, set_name, class_body, Normalizer, normalize,
  normalize_loop, normalize_fact,
}
use quipucords.Normalize.Complete.{IsOrdered, IsComplete, normalize-IsComplete}
use quipucords.Normalize.ClassBody.{class_body-IsOrdered}

abbrev first_arg : List Value → Outcome
first_arg [] = crashed
first_arg (v ∷ vs) = plain v

-- `ip_addresses`, from a raw fact, and `network_interfaces`, from `ip_addresses`.
abbrev addresses : FactMapper
addresses = record {
  raw_fact_keys = "ifconfig_ip_addresses" ∷ [];
  normalizer_func = λ c. first_arg c.args;
  validators = [];
  dependencies = [];
}

abbrev interfaces : FactMapper
interfaces = record {
  raw_fact_keys = [];
  normalizer_func = λ c. plain (arr (element (get "ip_addresses" c.kwargs) no_elements));
  validators = [];
  dependencies = "ip_addresses" ∷ [];
}

abbrev body : List (String × FactMapper)
body = ("ip_addresses", addresses) ∷ ("network_interfaces", interfaces) ∷ []

class_body-IsOrdered_example : IsOrdered [] body
unfolding class_body set_name
class_body-IsOrdered_example = class_body-IsOrdered body [] body tt (refl, (refl, tt)) refl

abbrev network_normalizer : Normalizer
network_normalizer = record {
  source_type = "network";
  fields = body;
  raw_facts = ("ifconfig_ip_addresses", arr (element (str "1.2.3.4") no_elements)) ∷ [];
  server_id = none;
}

not_wrapped : (vs : List Value) (r : _) → first_arg vs ≡ wrapped r → ⊥
not_wrapped [] r e = cc e
not_wrapped (v ∷ vs) r e = cc e

normalize-IsComplete_example : IsComplete network_normalizer (normalize network_normalizer none)
normalize-IsComplete_example =
    normalize-IsComplete network_normalizer (tt, refl, ((refl, tt), refl, tt))
      ((λ c r e. absurd (not_wrapped c.args r e)), ((λ c r e. cc e), tt))

-- A subclass that redefines the first field to depend on the second.
abbrev redefined : FactMapper
redefined = record addresses { dependencies = "network_interfaces" ∷ [] }

abbrev subclass : Fields
subclass = ("ip_addresses", redefined) ∷ ("network_interfaces", interfaces) ∷ []

redefinition_is_accepted : class_body (("ip_addresses", redefined) ∷ []) body ≡ ok subclass
unfolding class_body set_name
redefinition_is_accepted = refl

-- The field kept its place, before the one that it depends on.
redefinition_raises :
    (normalize (record network_normalizer { fields = subclass }) none).1
    ≡ err (key_error "network_interfaces")
unfolding normalize normalize_loop normalize_fact
redefinition_raises = refl

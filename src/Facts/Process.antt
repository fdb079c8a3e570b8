-- ===== src/Facts/Process.antt =====
-- `process_facts_for_datasource` and the `_process_..._fact` methods that it chooses from, with
-- `_add_entitlements_to_fingerprint` and `_add_products_to_fingerprint`
-- (quipucords/fingerprinter/runner.py).
pub mod WellFormed
use quipucords.Prelude.{
  String, Bool, true, false, not, ◌||◌, ◌++◌, Option, none, some, List, [], ◌∷◌, ◌==◌, string_eq,
  if◌then◌else◌,
}
use quipucords.Json.{Value, null, bool, str, arr, elements, truthy}
use quipucords.Fingerprint.Model.{
  Result, ok, err, ◌>>=◌, key_error, Fingerprint, Entitlement, Product, Meta,
}
use quipucords.Fingerprint.Sources.{
  Source, SourceType, network, vcenter, satellite, openshift, ansible, rhacs, other, type_name,
  FactProcessor,
}
use quipucords.Fingerprint.Build.{Addition, add_facts, blank}
use quipucords.Products.Values.{Facts, get, get_member}
use quipucords.Products.Eap.{detect_jboss_eap}
use quipucords.Products.Fuse.{detect_jboss_fuse}
use quipucords.Products.WebServer.{detect_jboss_ws}
use quipucords.Facts.Formatters.{Builtins}
use quipucords.Facts.Network.{network_additions}
use quipucords.Facts.Vcenter.{vcenter_additions}
use quipucords.Facts.Satellite.{satellite_additions}
use quipucords.Facts.Clusters.{openshift_additions, ansible_additions, rhacs_additions}

-- A name or id that counts as true. One that is no text stands here as the text that an f-string makes
-- of it, which is all that merging looks at.
abbrev kept_text : Builtins → Value → Option String
kept_text b (str s) = if s == "" then none else some s
kept_text b v = if truthy v then some (b.text_of v) else none

-- The metadata of an entitlement have no `has_sudo`; it is null here.
abbrev entitlement_metadata : Source → String → Meta
entitlement_metadata s key = record {
  server_id = s.server_id;
  source_name = s.source_name;
  source_type = type_name s.source_type;
  raw_fact_key = key;
  has_sudo = null;
}

abbrev entitlement_of : Source → String → Option String → Option String → List Entitlement
entitlement_of s key none none = []
entitlement_of s key n i =
    record { name = n; entitlement_id = i; metadata = entitlement_metadata s key } ∷ []

abbrev entitlement_loop : Builtins → Source → String → List Value → Result (List Entitlement)
entitlement_loop b s key [] = ok []
entitlement_loop b s key (v ∷ vs) = get_member "name" null v >>= λ n.
    get_member "entitlement_id" null v >>= λ i. entitlement_loop b s key vs >>= λ rest.
    ok (entitlement_of s key (kept_text b n) (kept_text b i) ++ rest)

abbrev pub entitlements_of : Builtins → Source → String → Value → Result (List Entitlement)
entitlements_of b s key (arr vs) = entitlement_loop b s key (elements vs)
entitlements_of b s key _ = ok []

unfoldable pub add_entitlements_to_fingerprint :
    Builtins → Source → String → Facts → Fingerprint → Result Fingerprint
add_entitlements_to_fingerprint b s key fact fp =
    entitlements_of b s key (get key fact) >>= λ es. ok (record fp { entitlements = some es })

unfoldable pub add_products_to_fingerprint : Source → Facts → Fingerprint → Result Fingerprint
add_products_to_fingerprint s fact fp = detect_jboss_eap s fact >>= λ eap.
    detect_jboss_fuse s fact >>= λ fuse.
    detect_jboss_ws s fact >>= λ jws. ok (record fp { products = some (eap ∷ fuse ∷ jws ∷ []) })

unfoldable pub process_network_fact : Builtins → Source → Facts → Result Fingerprint
process_network_fact b s fact =
    add_facts s fact (network_additions b fact) (blank s)
    >>= add_entitlements_to_fingerprint b s "subman_consumed" fact
    >>= add_products_to_fingerprint s fact

unfoldable pub process_satellite_fact : Builtins → Source → Facts → Result Fingerprint
process_satellite_fact b s fact =
    add_facts s fact (satellite_additions b fact) (blank s)
    >>= add_entitlements_to_fingerprint b s "entitlements" fact
    >>= add_products_to_fingerprint s fact

-- `fingerprint[ENTITLEMENTS_KEY] = []` and `fingerprint[PRODUCTS_KEY] = []`
abbrev pub without_products : Fingerprint → Fingerprint
without_products fp = record fp { entitlements = some []; products = some [] }

abbrev plain_fact : Source → Facts → List Addition → Result Fingerprint
plain_fact s fact xs = add_facts s fact xs (blank s) >>= λ fp. ok (without_products fp)

unfoldable pub process_vcenter_fact : Builtins → Source → Facts → Result Fingerprint
process_vcenter_fact b s fact = plain_fact s fact (vcenter_additions b fact)

unfoldable pub process_openshift_fact : Builtins → Source → Facts → Result Fingerprint
process_openshift_fact b s fact = plain_fact s fact (openshift_additions b)

unfoldable pub process_ansible_fact : Builtins → Source → Facts → Result Fingerprint
process_ansible_fact b s fact = plain_fact s fact (ansible_additions b)

unfoldable pub process_rhacs_fact : Source → Facts → Result Fingerprint
process_rhacs_fact s fact = plain_fact s fact rhacs_additions

abbrev pub method_of : Builtins → SourceType → Source → Facts → Result Fingerprint
method_of b network s fact = process_network_fact b s fact
method_of b vcenter s fact = process_vcenter_fact b s fact
method_of b satellite s fact = process_satellite_fact b s fact
method_of b openshift s fact = process_openshift_fact b s fact
method_of b ansible s fact = process_ansible_fact b s fact
method_of b rhacs s fact = process_rhacs_fact s fact
method_of b (other t) s fact = err (key_error t)

-- An unknown type raises `NotImplementedError` in the source; the caller never asks for one.
unfoldable pub process_facts_for_datasource : Builtins → FactProcessor
process_facts_for_datasource b s fact = method_of b s.source_type s fact

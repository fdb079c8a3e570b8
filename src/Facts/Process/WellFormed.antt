-- ===== src/Facts/Process/WellFormed.antt =====
-- Every fingerprint that is made of raw facts is well-formed.
use quipucords.Prelude.{
  String, ◌≡◌, refl, ◌∙◌, ap, Bool, true, false, not, ◌&&◌, Option, none, some, List, [], ◌∷◌, ◌++◌,
  ◌==◌, string_eq, all, All, arith,
}
use mathlib.Core.Path.{subst}
use text.Mathlib.TextEquality.{eq_iff}
use quipucords.Json.{Value, str, truthy}
use quipucords.Fingerprint.Model.{
  Result, ok, err, ◌>>=◌, >>=-ok_parts, ok_injective, err≢ok, Fingerprint, is_table, global_id_key,
}
use quipucords.Fingerprint.Merge.Total.{IsWellFormed}
use quipucords.Fingerprint.Sources.{
  Source, SourceType, network, vcenter, satellite, openshift, ansible, rhacs, other,
}
use quipucords.Fingerprint.Build.{Addition, add_facts, blank}
use quipucords.Fingerprint.Build.Covered.{IsPlain, add_facts-IsWellFormed}
use quipucords.Products.Values.{Facts, get, default_getter}
use quipucords.Products.Eap.{detect_jboss_eap}
use quipucords.Products.Fuse.{detect_jboss_fuse}
use quipucords.Products.WebServer.{detect_jboss_ws}
use quipucords.Facts.Formatters.{Builtins}
use quipucords.Facts.Network.{network_additions}
use quipucords.Facts.Vcenter.{vcenter_additions}
use quipucords.Facts.Satellite.{
  satellite_additions, redhat_rows, redhat_rows_of, infrastructure_row, release_version,
  release_row, infrastructure_of, is_hypervisor,
}
use quipucords.Facts.Clusters.{openshift_additions, ansible_additions, rhacs_additions}
use quipucords.Facts.Process.{
  add_entitlements_to_fingerprint, add_products_to_fingerprint, process_network_fact,
  process_satellite_fact, process_vcenter_fact, process_openshift_fact, process_ansible_fact,
  process_rhacs_fact, process_facts_for_datasource, entitlements_of, method_of,
}

abbrev addable : Addition → Bool
addable a = not (is_table a.fingerprint_key) && not (global_id_key == a.fingerprint_key)

addable-IsPlain : (a : Addition) → addable a ≡ true → IsPlain a
addable-IsPlain a h =
    (ground arith, λ e. ground (arith, (eq_iff global_id_key a.fingerprint_key).1 e))

addables-IsPlain : (xs : List Addition) → all addable xs ≡ true → All IsPlain xs
addables-IsPlain [] h = tt
addables-IsPlain (a ∷ xs) h = (addable-IsPlain a (ground arith), addables-IsPlain xs (ground arith))

addable-release_row : (b : Builtins) (r : Result (Option String)) → addable (release_row b r) ≡ true
addable-release_row b (ok (some v)) = refl
addable-release_row b (ok none) = refl
addable-release_row b (err e) = refl

addable-redhat_rows_of :
    (b : Builtins) (named : Bool) (name : Value) (version : Result (Option String))
    (xs : List Addition)
    → all addable xs ≡ true
    → all addable (redhat_rows_of b named name version ++ xs) ≡ true
addable-redhat_rows_of b true name version xs h = h
addable-redhat_rows_of b false name version xs h = ground (arith, addable-release_row b version)

addable-infrastructure_row : (fact : Facts) → addable (infrastructure_row fact) ≡ true
unfolding infrastructure_row
addable-infrastructure_row fact =
    elim (is_hypervisor (default_getter fact "hostname" (str "")))
      as (λ r.
        addable (infrastructure_of (default_getter fact "is_virtualized" (str "")) r) ≡ true) [
          | ok true ↦ refl
          | ok false ↦ refl
          | err e ↦ refl
        ]

network_addable : (b : Builtins) (fact : Facts) → all addable (network_additions b fact) ≡ true
unfolding network_additions
network_addable b fact = refl

satellite_addable : (b : Builtins) (fact : Facts) → all addable (satellite_additions b fact) ≡ true
unfolding satellite_additions redhat_rows
satellite_addable b fact =
    let name = default_getter fact "os_name" (str "") in
    addable-redhat_rows_of b (truthy name) name (release_version (get "os_release" fact)) _
      (ap (λ p. p && true) (addable-infrastructure_row fact))

vcenter_addable : (b : Builtins) (fact : Facts) → all addable (vcenter_additions b fact) ≡ true
unfolding vcenter_additions
vcenter_addable b fact = refl

-- A fingerprint of plain facts that gets entitlements and products on its way.
finish-IsWellFormed :
    (b : Builtins) (s : Source) (key : String) (fact : Facts) (xs : List Addition)
    (fp : Fingerprint)
    → all addable xs ≡ true
    → (add_facts s fact xs (blank s)
        >>= add_entitlements_to_fingerprint b s key fact
        >>= add_products_to_fingerprint s fact)
      ≡ ok fp
    → IsWellFormed fp
unfolding add_entitlements_to_fingerprint add_products_to_fingerprint
finish-IsWellFormed b s key fact xs fp h run =
    let p =
      >>=-ok_parts (add_facts s fact xs (blank s) >>= add_entitlements_to_fingerprint b s key fact)
        _ run in
    let m = >>=-ok_parts (add_facts s fact xs (blank s)) _ p.1 in
    let es = >>=-ok_parts (entitlements_of b s key (get key fact)) _ m.2 in
    let eap = >>=-ok_parts (detect_jboss_eap s fact) _ p.2 in
    let fuse = >>=-ok_parts (detect_jboss_fuse s fact) _ eap.2 in
    let jws = >>=-ok_parts (detect_jboss_ws s fact) _ fuse.2 in
    subst IsWellFormed
      (ap {A = Fingerprint} (λ q. record q { products = some (eap.0 ∷ fuse.0 ∷ jws.0 ∷ []) })
          (ok_injective es.2)
        ∙ ok_injective jws.2)
      (add_facts-IsWellFormed s fact xs m.0 es.0 (eap.0 ∷ fuse.0 ∷ jws.0 ∷ [])
        (addables-IsPlain xs h) m.1)

-- A fingerprint of plain facts without entitlements and products.
bare-IsWellFormed :
    (s : Source) (fact : Facts) (xs : List Addition) (fp : Fingerprint)
    → all addable xs ≡ true
    → (add_facts s fact xs (blank s) >>= λ q.
        ok (record q { entitlements = some []; products = some [] }))
      ≡ ok fp
    → IsWellFormed fp
bare-IsWellFormed s fact xs fp h run =
    let m = >>=-ok_parts (add_facts s fact xs (blank s)) _ run in
    subst IsWellFormed (ok_injective m.2)
      (add_facts-IsWellFormed s fact xs m.0 [] [] (addables-IsPlain xs h) m.1)

method_of-IsWellFormed :
    (b : Builtins) (t : SourceType) (s : Source) (fact : Facts) (fp : Fingerprint)
    → method_of b t s fact ≡ ok fp
    → IsWellFormed fp
unfolding process_network_fact process_vcenter_fact process_satellite_fact process_openshift_fact
    process_ansible_fact process_rhacs_fact openshift_additions ansible_additions rhacs_additions
method_of-IsWellFormed b network s fact fp run =
    finish-IsWellFormed b s "subman_consumed" fact (network_additions b fact) fp
      (network_addable b fact) run
method_of-IsWellFormed b satellite s fact fp run =
    finish-IsWellFormed b s "entitlements" fact (satellite_additions b fact) fp
      (satellite_addable b fact) run
method_of-IsWellFormed b vcenter s fact fp run =
    bare-IsWellFormed s fact (vcenter_additions b fact) fp (vcenter_addable b fact) run
method_of-IsWellFormed b openshift s fact fp run =
    bare-IsWellFormed s fact (openshift_additions b) fp refl run
method_of-IsWellFormed b ansible s fact fp run =
    bare-IsWellFormed s fact (ansible_additions b) fp refl run
method_of-IsWellFormed b rhacs s fact fp run = bare-IsWellFormed s fact rhacs_additions fp refl run
method_of-IsWellFormed b (other t) s fact fp run = absurd (err≢ok run)

-- Whatever the type of the source, when its method makes a fingerprint of raw facts, the fingerprint
-- is well-formed.
pub process_facts_for_datasource-IsWellFormed :
    (b : Builtins) (s : Source) (fact : Facts) (fp : Fingerprint)
    → process_facts_for_datasource b s fact ≡ ok fp
    → IsWellFormed fp
unfolding process_facts_for_datasource
process_facts_for_datasource-IsWellFormed b s fact fp run =
    method_of-IsWellFormed b s.source_type s fact fp run

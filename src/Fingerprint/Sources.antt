-- ===== src/Fingerprint/Sources.antt =====
-- `_process_source` and `_process_sources` (quipucords/fingerprinter/runner.py): facts become
-- fingerprints, source by source, and those are deduplicated and merged across the types of source.
-- What turns one fact into a fingerprint is a parameter.
pub mod Collected
use quipucords.Prelude.{
  ℕ, ◌+◌, String, Bool, true, false, not, ◌&&◌, none, some, List, [], ◌∷◌, ◌++◌, length, string_eq,
  if◌then◌else◌,
}
use quipucords.Prelude.Dict.{Dict}
use quipucords.Json.{Value, truthy}
use Prim.Native.String.{◌++◌ as concat}
use quipucords.Fingerprint.Model.{Result, ok, err, ◌>>=◌, key_error, SourceRef, Fingerprint}
use quipucords.Fingerprint.Merge.{ReverseKeys, as_tuple, get}
use quipucords.Fingerprint.Dedup.{remove_duplicates}
use quipucords.Fingerprint.Matching.{merge_source_types}

-- `DataSources` (quipucords/constants.py), and any other type that a report names.
pub data SourceType : Type 0 where
  network vcenter satellite openshift ansible rhacs : SourceType
  other : String → SourceType

abbrev pub type_name : SourceType → String
type_name network = "network"
type_name vcenter = "vcenter"
type_name satellite = "satellite"
type_name openshift = "openshift"
type_name ansible = "ansible"
type_name rhacs = "rhacs"
type_name (other s) = s

abbrev pub is_openshift : SourceType → Bool
is_openshift openshift = true
is_openshift _ = false

-- A source of a report.
pub record Source : Type 0 where
  pub server_id : String
  pub source_type : SourceType
  pub source_name : String
  pub facts : List (Dict String Value)

-- `process_facts_for_datasource`: a fingerprint, or an exception of one of the `_process_..._fact`
-- methods. It is asked for the known types only.
abbrev pub FactProcessor : Type 0
FactProcessor = Source → Dict String Value → Result Fingerprint

-- The key and the entry of a source in `fingerprint[SOURCES_KEY]`.
abbrev pub source_entry : Source → Dict String SourceRef
source_entry s =
    (
      concat s.server_id (concat "+" s.source_name),
      record {
        server_id = s.server_id;
        source_type = type_name s.source_type;
        source_name = s.source_name;
      },
    )
    ∷ []

abbrev pub is_known : SourceType → Bool
is_known (other _) = false
is_known _ = true

-- Whether a fact makes a fingerprint: an OpenShift cluster does not, nor a fact of an unknown type.
abbrev pub makes_fingerprint : Source → Dict String Value → Bool
makes_fingerprint s fact =
    not (truthy (get "cluster" fact) && is_openshift s.source_type) && is_known s.source_type

unfoldable pub process_facts :
    FactProcessor → Source → List (Dict String Value) → Result (List Fingerprint)
process_facts process s [] = ok []
process_facts process s (fact ∷ facts) =
    let rest = process_facts process s facts in
    if makes_fingerprint s fact
    then (process s fact >>= λ fp.
        rest >>= λ fps. ok ((record fp { sources = source_entry s }) ∷ fps))
    else rest

unfoldable pub process_source : FactProcessor → Source → Result (List Fingerprint)
unfolding process_facts
process_source process s = process_facts process s s.facts

-- `fingerprint_map`, with a list for each data source.
pub record FingerprintMap : Type 0 where
  pub network_list : List Fingerprint
  pub vcenter_list : List Fingerprint
  pub satellite_list : List Fingerprint
  pub openshift_list : List Fingerprint
  pub ansible_list : List Fingerprint
  pub rhacs_list : List Fingerprint

abbrev pub empty_map : FingerprintMap
empty_map = record {
  network_list = [];
  vcenter_list = [];
  satellite_list = [];
  openshift_list = [];
  ansible_list = [];
  rhacs_list = [];
}

-- `fingerprint_map[source_type].extend(source_fingerprints)`: a `KeyError` for an unknown type.
abbrev pub extend : SourceType → List Fingerprint → FingerprintMap → Result FingerprintMap
extend network fps m = ok (record m { network_list = m.network_list ++ fps })
extend vcenter fps m = ok (record m { vcenter_list = m.vcenter_list ++ fps })
extend satellite fps m = ok (record m { satellite_list = m.satellite_list ++ fps })
extend openshift fps m = ok (record m { openshift_list = m.openshift_list ++ fps })
extend ansible fps m = ok (record m { ansible_list = m.ansible_list ++ fps })
extend rhacs fps m = ok (record m { rhacs_list = m.rhacs_list ++ fps })
extend (other s) fps m = err (key_error s)

unfoldable pub collect : FactProcessor → List Source → FingerprintMap → Result FingerprintMap
unfolding process_source
collect process [] m = ok m
collect process (s ∷ ss) m =
    process_source process s >>= λ fps. extend s.source_type fps m >>= λ m'. collect process ss m'

abbrev pub network_satellite_merge_keys : List (String × String)
network_satellite_merge_keys =
    ("subscription_manager_id", "subscription_manager_id") ∷ ("mac_addresses", "mac_addresses") ∷ []

abbrev pub network_vcenter_merge_keys : List (String × String)
network_vcenter_merge_keys = ("bios_uuid", "vm_uuid") ∷ ("mac_addresses", "mac_addresses") ∷ []

-- `reverse_priority_keys = ("cpu_count", "infrastructure_type")`
abbrev pub trusted_of_vcenter : ReverseKeys
trusted_of_vcenter = as_tuple ("cpu_count" ∷ "infrastructure_type" ∷ [])

-- The part of `_process_sources` that follows the collection, up to the post-processing. The first
-- merge takes at most `used` new ids: two passes, over lists that do not grow.
unfoldable pub combine : (ℕ → String) → FingerprintMap → Result (List Fingerprint)
combine uuid4 m =
    remove_duplicates ("subscription_manager_id" ∷ "bios_uuid" ∷ []) false m.network_list >>= λ net.
    remove_duplicates ("subscription_manager_id" ∷ []) false m.satellite_list >>= λ sat.
    remove_duplicates ("vm_uuid" ∷ []) false m.vcenter_list >>= λ vc.
    merge_source_types uuid4 0 none network_satellite_merge_keys net sat >>= λ ns.
    let used = length net + length sat + (length net + length sat) in
    merge_source_types uuid4 used (some trusted_of_vcenter) network_vcenter_merge_keys ns.1 vc
    >>= λ all_merged. ok (all_merged.1 ++ (m.openshift_list ++ (m.ansible_list ++ m.rhacs_list)))

unfoldable pub process_sources :
    (ℕ → String) → FactProcessor → List Source → Result (List Fingerprint)
unfolding collect combine
process_sources uuid4 process sources = collect process sources empty_map >>= λ m. combine uuid4 m

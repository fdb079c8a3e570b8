-- ===== src/Examples/Reports.antt =====
-- Concrete runs of the aggregate report and of the pages of a Satellite.
use quipucords.Prelude.{
  none, ℕ, zero, suc, ◌≤◌, ◌≡◌, refl, String, true, false, List, [], ◌∷◌, some, arith,
}
use quipucords.Reports.Aggregate
use quipucords.Reports.Aggregate.{SystemFingerprint, Aggregated, count_fingerprints, new_aggregated}
use quipucords.Reports.Aggregate.Refinement.{IsTallied, count_fingerprints-IsTallied}
use quipucords.Scan.World.{ok, raised}
use quipucords.Reports.Aggregate.Caching.{
  Held, Report, change, build, happens, all_happen, row_at, empty_content,
  get_aggregate_report_by_report_id,
}
use quipucords.Reports.Aggregate.Caching.{World}
use quipucords.Reports.Aggregate.Current.{get_aggregate_report_by_report_id_zeros}
use quipucords.Reports.Dates.{average_date, oldest, average_date-bounds}
use quipucords.Scanners.Satellite.Pages.{
  Page, exhausted, page_of, rest_after, request_results, request_results_terminates,
}

-- A virtual machine with three sockets, found by a network and a vcenter scan.
abbrev virtual_machine : SystemFingerprint
virtual_machine = record {
  name = "vm";
  os_name = "Red Hat Enterprise Linux";
  os_version = "9.3";
  source_types = "network" ∷ "vcenter" ∷ [];
  is_redhat = true;
  infrastructure_type = "virtualized";
  cpu_count = 4;
  cpu_core_count = 4;
  cpu_socket_count = 3;
  system_creation_date = some 19000;
  products = [];
  has_system_purpose = false;
  has_redhat_certs = true;
  vm_cluster = "east";
  virtual_host_uuid = "4c4c";
}

abbrev other_system : SystemFingerprint
other_system = record virtual_machine {
  source_types = "network" ∷ [];
  is_redhat = false;
  os_name = "Ubuntu";
}

abbrev two_systems : List SystemFingerprint
two_systems = virtual_machine ∷ other_system ∷ []

count_fingerprints-IsTallied_example :
    IsTallied two_systems (count_fingerprints two_systems new_aggregated)
count_fingerprints-IsTallied_example = count_fingerprints-IsTallied two_systems

two_pairs_of_sockets : (count_fingerprints two_systems new_aggregated).socket_pairs ≡ 2
unfolding count_fingerprints quipucords.Reports.Aggregate.count_fingerprint
    quipucords.Reports.Aggregate.count_by_source quipucords.Reports.Aggregate.count_infrastructure
    quipucords.Reports.Aggregate.count_missing new_aggregated
two_pairs_of_sockets = refl

average_date-bounds_example :
    (average : ℕ) × (average_date (7 ∷ 4 ∷ 12 ∷ []) ≡ some average)
    × (oldest 7 (4 ∷ 12 ∷ []) ≤ average)
    × (average ≤ 12)
average_date-bounds_example =
    average_date-bounds 7 (4 ∷ 12 ∷ []) 12 (omega arith, (omega arith, (omega arith, tt)))

abbrev hosts : List String
hosts = "a" ∷ "b" ∷ "c" ∷ "d" ∷ []

-- Four hosts in pages of two: the third page is empty.
abbrev satellite : ℕ → Page String
satellite zero = page_of 2 []
satellite (suc n) = page_of 2 (rest_after n 2 hosts)

request_results_terminates_example : request_results 5 satellite 1 ≡ (hosts, exhausted)
request_results_terminates_example =
    request_results_terminates 2 hosts satellite (omega arith) (λ n. refl)

-- A report that has no deployment report yet.
abbrev early_report : Report
early_report = record {
  held = record { system_fingerprints = none; inspect_results = []; sources = [] };
  report_updated_at = 10;
}

abbrev early : World
early = record { now = 10; report = early_report; stored = none }

abbrev with_systems : Held
with_systems = record { system_fingerprints = some two_systems; inspect_results = []; sources = [] }

-- A build that fails, the change of the fingerprints, a build by force, and one more request.
abbrev last : World
last =
    all_happen (build false ∷ [])
      (happens (build true) (all_happen (build false ∷ change with_systems ∷ []) early))

get_aggregate_report_by_report_id_zeros_example :
    let first = get_aggregate_report_by_report_id 11 (some early_report) none in
    (first.0 ≡ raised "AttributeError")
    × ((get_aggregate_report_by_report_id 12 (some early_report) first.1).0
        ≡ ok (some (row_at 11 empty_content)))
get_aggregate_report_by_report_id_zeros_example =
    get_aggregate_report_by_report_id_zeros 11 12 early_report refl (omega arith)

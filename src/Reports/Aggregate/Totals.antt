-- ===== src/Reports/Aggregate/Totals.antt =====
-- What the aggregate report takes from its collections, and `_aggregate_from_inspect_results`
-- (quipucords/api/aggregate_report/model.py).
use quipucords.Prelude.{ℕ, ◌+◌, String, Option, List, string_eq, [], ◌∷◌, length}
use quipucords.Prelude.Dict.{values}
use quipucords.Products.Versions.{add_to_set}
use quipucords.Reports.Dates.{average_date}
use quipucords.Reports.Aggregate.{Aggregated}

-- What is computed from the collections at the end: the average date, the number of distinct hosts in
-- their clusters, and the number of clusters.
pub record Totals : Type 0 where
  pub system_creation_date_average : Option ℕ
  pub vmware_vms : ℕ
  pub vmware_hosts : ℕ

abbrev pub distinct : List String → List String → List String
distinct [] done = done
distinct (x ∷ xs) done = distinct xs (add_to_set x done)

abbrev sum_distinct : List (List String) → ℕ
sum_distinct [] = 0
sum_distinct (hosts ∷ rest) = length (distinct hosts []) + sum_distinct rest

unfoldable pub totals_of : Aggregated → Totals
totals_of a = record {
  system_creation_date_average = average_date a.system_creation_dates;
  vmware_vms = sum_distinct (values a.vmware_vms_by_host);
  vmware_hosts = length a.vmware_vms_by_host;
}

-- `InspectResult.status`
pub data InspectStatus : Type 0 where
  success failed unreachable : InspectStatus
  other_status : String → InspectStatus

pub record InspectCounts : Type 0 where
  pub status_success : ℕ
  pub status_failed : ℕ
  pub status_unreachable : ℕ
  pub status_unknown : ℕ

unfoldable pub count_inspect_results : List InspectStatus → InspectCounts → InspectCounts
count_inspect_results [] c = c
count_inspect_results (success ∷ rest) c =
    count_inspect_results rest (record c { status_success = c.status_success + 1 })
count_inspect_results (failed ∷ rest) c =
    count_inspect_results rest (record c { status_failed = c.status_failed + 1 })
count_inspect_results (unreachable ∷ rest) c =
    count_inspect_results rest (record c { status_unreachable = c.status_unreachable + 1 })
count_inspect_results (other_status s ∷ rest) c =
    count_inspect_results rest (record c { status_unknown = c.status_unknown + 1 })

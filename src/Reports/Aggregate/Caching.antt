-- ===== src/Reports/Aggregate/Caching.antt =====
-- `build_aggregate_report` and `get_aggregate_report_by_report_id`
-- (quipucords/api/aggregate_report/model.py). A time is a number; at most one aggregate report is stored
-- for a report.
use quipucords.Prelude.{
  ℕ, suc, Bool, false, not, ◌&&◌, Option, none, some, List, [], ◌∷◌, ltb, if◌then◌else◌,
}
use quipucords.Fingerprint.Sources.{SourceType}
use quipucords.Scan.World.{Outcome, ok, raised}
use quipucords.Reports.Aggregate.{SystemFingerprint, Aggregated, new_aggregated, count_fingerprints}
use quipucords.Reports.Aggregate.Totals.{
  Totals, totals_of, InspectStatus, InspectCounts, count_inspect_results,
}
use quipucords.Reports.Aggregate.RawFacts.{
  RawFact, RawTotals, AnsibleHosts, no_totals, count_groups, ansible_hosts,
}

-- What a report holds, and when it was saved. The fingerprints are those of its deployment report,
-- `none` for a report that has none.
pub record Held : Type 0 where
  pub system_fingerprints : Option (List SystemFingerprint)
  pub inspect_results : List InspectStatus
  pub sources : List (SourceType × List RawFact)

pub record Report : Type 0 where
  pub held : Held
  pub report_updated_at : ℕ

-- What an aggregate report says.
pub record Content : Type 0 where
  pub aggregated : Aggregated
  pub totals : Totals
  pub inspect_counts : InspectCounts
  pub raw_totals : RawTotals
  pub hosts : AnsibleHosts

pub record AggregateRow : Type 0 where
  pub content : Content
  pub row_updated_at : ℕ

abbrev no_counts : InspectCounts
no_counts = record {
  status_success = 0;
  status_failed = 0;
  status_unreachable = 0;
  status_unknown = 0;
}

-- What the three passes make of the new row.
unfoldable pub aggregate : List SystemFingerprint → Held → Content
aggregate fingerprints h =
    let counted = count_fingerprints fingerprints new_aggregated in
    let raw = count_groups h.sources no_totals in
    record {
      aggregated = counted;
      totals = totals_of counted;
      inspect_counts = count_inspect_results h.inspect_results no_counts;
      raw_totals = raw;
      hosts = ansible_hosts raw;
    }

-- `AggregateReport.objects.create(...)`: a row of zeros.
unfoldable pub empty_content : Content
empty_content = record {
  aggregated = new_aggregated;
  totals = record { system_creation_date_average = none; vmware_vms = 0; vmware_hosts = 0 };
  inspect_counts = no_counts;
  raw_totals = no_totals;
  hosts = record { hosts_all = 0; hosts_in_database = 0; hosts_in_jobs = 0 };
}

abbrev pub row_at : ℕ → Content → AggregateRow
row_at now c = record { content = c; row_updated_at = now }

-- The row that is returned or the exception, and the row that is stored from then on.
pub record Built : Type 0 where
  pub result : Outcome AggregateRow
  pub row : AggregateRow

-- From `create` on: without a deployment report, the row of zeros is stored when the exception comes.
abbrev pub build_from : ℕ → Held → Option (List SystemFingerprint) → Built
build_from now h none = record { result = raised "AttributeError"; row = row_at now empty_content }
build_from now h (some fingerprints) =
    let row = row_at now (aggregate fingerprints h) in record { result = ok row; row = row }

abbrev pub build_new : ℕ → Held → Built
build_new now h = build_from now h h.system_fingerprints

unfoldable pub build_aggregate_report : ℕ → Report → Bool → Option AggregateRow → Built
build_aggregate_report now r force_build none = build_new now r.held
build_aggregate_report now r force_build (some row) =
    let new = build_new now r.held in
    if not (ltb row.row_updated_at r.report_updated_at) && not force_build
    then record { result = ok row; row = row }
    else new

-- No row, if there is no such report; the row that is stored from then on comes second.
unfoldable pub get_aggregate_report_by_report_id :
    ℕ → Option Report → Option AggregateRow → Outcome (Option AggregateRow) × Option AggregateRow
unfolding build_aggregate_report
get_aggregate_report_by_report_id now none stored = (ok none, stored)
get_aggregate_report_by_report_id now (some r) stored =
    let b = build_aggregate_report now r false stored in
    (elim b.result [ ok row ↦ ok (some row) | raised e ↦ raised e ], some b.row)

-- A report with its aggregate report, at a time.
pub record World : Type 0 where
  pub now : ℕ
  pub report : Report
  pub stored : Option AggregateRow

-- What the report holds is changed, without saving the report itself or with it; or its aggregate
-- report is built. `FingerprintTaskRunner` saves the report, then changes its fingerprints, and then
-- builds by force.
pub data Event : Type 0 where
  change : Held → Event
  save_report : Held → Event
  build : Bool → Event

-- Every event is later than the one before.
unfoldable pub happens : Event → World → World
unfolding build_aggregate_report
happens (change held) w = record w { now = suc w.now; report = record (w.report) { held = held } }
happens (save_report held) w = record {
  now = suc w.now;
  report = record { held = held; report_updated_at = suc w.now };
  stored = w.stored;
}
happens (build force_build) w = record {
  now = suc w.now;
  report = w.report;
  stored = some (build_aggregate_report (suc w.now) w.report force_build w.stored).row;
}

unfoldable pub all_happen : List Event → World → World
all_happen [] w = w
all_happen (e ∷ es) w = all_happen es (happens e w)

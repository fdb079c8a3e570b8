-- ===== src/Reports/Aggregate/Current.antt =====
-- When a stored aggregate report is used, and what it says then
-- (quipucords/api/aggregate_report/model.py).
use quipucords.Prelude.{ℕ, ◌≤◌, ◌≡◌, refl, true, false, Option, none, some, List, arith}
use quipucords.Scan.World.{ok, raised}
use quipucords.Reports.Aggregate.{SystemFingerprint}
use quipucords.Reports.Aggregate.Caching.{
  Held, Report, Content, AggregateRow, Built, aggregate, empty_content, row_at,
  get_aggregate_report_by_report_id, World, Event, change, save_report, build,
}

-- The report has a deployment report.
abbrev pub HasFingerprints : Held → Type 0
HasFingerprints h =
    (fingerprints : List SystemFingerprint) × (h.system_fingerprints ≡ some fingerprints)

-- A content is what would be computed anew from what the report holds.
abbrev pub Tells : Held → Content → Type 0
Tells h c =
    (fingerprints : List SystemFingerprint) × (h.system_fingerprints ≡ some fingerprints)
    × (c ≡ aggregate fingerprints h)

abbrev pub IsPastRow : ℕ → Option AggregateRow → Type 0
IsPastRow now none = Unit
IsPastRow now (some row) = row.row_updated_at ≤ now

-- The report and the stored row are of the past.
abbrev pub IsPast : World → Type 0
IsPast w = (w.report.report_updated_at ≤ w.now) × IsPastRow w.now w.stored

-- A stored row that is not older than the report says what the report holds.
abbrev IsCurrent : Report → Option AggregateRow → Type 0
IsCurrent r none = Unit
IsCurrent r (some row) = r.report_updated_at ≤ row.row_updated_at → Tells r.held row.content

record IsConsistent (w : World) : Type 0 where
  is_past : IsPast w
  fingerprints : HasFingerprints w.report.held
  is_current : IsCurrent w.report w.stored

-- The row of a build is returned, stored, and says what the report holds.
record Says (h : Held) (b : Built) : Type 0 where
  returned : b.result ≡ ok b.row
  told : Tells h b.row.content

-- Saving the report, or building by force, of a report that has a deployment report.
abbrev pub Settles : Held → Event → Type 0
Settles held (change h) = ⊥
Settles held (save_report h) = HasFingerprints h
Settles held (build true) = HasFingerprints held
Settles held (build false) = ⊥

-- Any build; of the changes only those that save the report, with a deployment report.
abbrev pub KeepsUp : Event → Type 0
KeepsUp (change h) = ⊥
KeepsUp (save_report h) = HasFingerprints h
KeepsUp (build force) = Unit

-- A report that was saved, without a deployment report and without a stored row: the first request for
-- its aggregate report raises an exception, and the next one, while the report stays as it is, is
-- answered with the row of zeros that the first has left.
pub get_aggregate_report_by_report_id_zeros :
    (now after : ℕ) (r : Report)
    → r.held.system_fingerprints ≡ none
    → r.report_updated_at ≤ now
    → let first = get_aggregate_report_by_report_id now (some r) none in
      (first.0 ≡ raised "AttributeError")
      × ((get_aggregate_report_by_report_id after (some r) first.1).0
          ≡ ok (some (row_at now empty_content)))
unfolding get_aggregate_report_by_report_id
get_aggregate_report_by_report_id_zeros now after r e past = rw e (refl, ground (arith, past))

-- ===== src/Scan/Task/Stats.antt =====
-- The counters of a scan task under `update_stats` and `increment_stats`.
use quipucords.Prelude.{
  String, ◌∙◌, ℕ, ◌+◌, ◌≡◌, ap, Bool, Option, List, [], ◌∷◌, arith, length, select, nat_eq,
}
use quipucords.Scan.Handle.{Handle, fetch}
use quipucords.Scan.Task.Writes.{SameCounts, finish_counts}
use quipucords.Scan.Status.{Message}
use quipucords.Scan.Task.{
  status_complete, status_fail, Task, updated, update_stats, increment_row, increment_stats,
}

-- `update_stats` leaves memory and row alike, each given count written and all other fields of the
-- row kept, whatever was in memory before.
pub update_stats-row :
    (c s f u : Option ℕ) (h : Handle Task)
    → update_stats c s f u h
      ≡ fetch (record (h.row) {
        systems_count = updated c (h.row).systems_count;
        systems_scanned = updated s (h.row).systems_scanned;
        systems_failed = updated f (h.row).systems_failed;
        systems_unreachable = updated u (h.row).systems_unreachable;
      })
unfolding update_stats
update_stats-row c s f u h = ground arith

-- One worker's call of `increment_stats`: the flags, and the instance that the worker holds.
pub record Call : Type 0 where
  pub stale : Task
  pub count : Bool
  pub scanned : Bool
  pub failed : Bool
  pub unreachable : Bool

-- The calls of any number of workers on one row, in the order in which the database makes them;
-- each worker's instance may be out of date.
unfoldable pub run_calls : List Call → Task → Task
run_calls [] row = row
run_calls (c ∷ cs) row =
    run_calls cs
      (increment_stats c.count c.scanned c.failed c.unreachable
        (record { mem = c.stale; row = row })).row

abbrev pub tally : (Call → Bool) → List Call → ℕ
tally p cs = length (select p cs)

increment_stats-row :
    (c s f u : Bool) (h : Handle Task)
    → (increment_stats c s f u h).row ≡ increment_row c s f u h.row
unfolding increment_stats
increment_stats-row c s f u h = ground arith

run_calls-step :
    (c : Call) (cs : List Call) (row : Task)
    → run_calls (c ∷ cs) row
      ≡ run_calls cs (increment_row c.count c.scanned c.failed c.unreachable row)
unfolding run_calls
run_calls-step c cs row = ap (run_calls cs) (
    increment_stats-row c.count c.scanned c.failed c.unreachable
      (record { mem = c.stale; row = row }))

-- No increment is lost, whatever the order of the calls and however stale the workers' instances:
-- each counter of the row grows by the number of calls that had its flag.
pub run_calls-tally :
    (cs : List Call) (row : Task)
    → let end = run_calls cs row in
      (end.systems_count ≡ row.systems_count + tally (λ c. c.count) cs)
      × (end.systems_scanned ≡ row.systems_scanned + tally (λ c. c.scanned) cs)
      × (end.systems_failed ≡ row.systems_failed + tally (λ c. c.failed) cs)
      × (end.systems_unreachable ≡ row.systems_unreachable + tally (λ c. c.unreachable) cs)
unfolding run_calls
run_calls-tally [] row = omega arith
run_calls-tally (c ∷ cs) row = ground (
  arith,
  run_calls-step c cs row,
  run_calls-tally cs (increment_row c.count c.scanned c.failed c.unreachable row),
)

-- The counters of a row after some calls, by those of the row before them.
abbrev pub Counted : List Call → Task → Task → Type 0
Counted cs before after =
    (after.systems_count ≡ before.systems_count + tally (λ c. c.count) cs)
    × (after.systems_scanned ≡ before.systems_scanned + tally (λ c. c.scanned) cs)
    × (after.systems_failed ≡ before.systems_failed + tally (λ c. c.failed) cs)
    × (after.systems_unreachable ≡ before.systems_unreachable + tally (λ c. c.unreachable) cs)

-- A worker has loaded a task, and others have counted systems since. If it completes the task, the
-- row has all that they counted; if it fails the task, the row is back at what the worker loaded.
pub finish_after_calls :
    (now : ℕ) (m : Option String) (e : Message) (cs : List Call) (t : Task)
    → let h : Handle Task = record { mem = t; row = run_calls cs t } in
      Counted cs t (status_complete now m h).row × SameCounts (status_fail now e h).row t
finish_after_calls now m e cs t =
    let h : Handle Task = record { mem = t; row = run_calls cs t } in
    let (kept, overwritten) = finish_counts now m e h in
    let (a, b, c, d) = run_calls-tally cs t in
    ((kept.0 ∙ a, kept.1 ∙ b, kept.2 ∙ c, kept.3 ∙ d), overwritten)

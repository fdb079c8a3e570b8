-- ===== src/Examples/Scan.antt =====
-- A scan job with an inspection of one source and a fingerprint task, driven through its methods and
-- its Celery tasks.
use quipucords.Prelude.{
  String, ◌≡◌, ◌↔◌, refl, true, false, none, some, List, [], ◌∷◌, All, ◌⊎◌, ◌≢◌, ◌==◌, ◌+◌,
}
use quipucords.Scan.Status.{
  Status, pending, running, paused, canceled, completed, failed, inspect, fingerprint, task_running,
  job_running, text, is_final, status_eq,
}
use quipucords.Scan.Handle.{fetch, Handle}
use quipucords.Scan.Task
use quipucords.Scan.Task.{Task, update_stats}
use quipucords.Scan.Task.Writes.{SameCounts}
use quipucords.Scan.Task.Stats.{
  Counted, finish_after_calls, Call, run_calls, run_calls-tally, tally,
}
use quipucords.Scan.Job.{Job, JobState, start, restart, pause, cancel, complete, apply}
use quipucords.Scan.Job.Transitions.{◌⟶◌, apply_exactly}
use quipucords.Scan.Job.Tasks.{Rows, Kept, Stopped, apply-Kept, stop-All}
use quipucords.Scan.Job.Life.{run_ops, ◌⟶*◌, run_ops-⟶*}
use quipucords.Scan.World.{World, scan_job_is_canceled}
use quipucords.Scan.Runner.{Executor, run_task_runner, done}
use quipucords.Scan.World.{ok, raised}
use quipucords.Scan.Runner.Record.{KeepsRow}
use quipucords.Scan.Celery.{celery_run_task_runner, finalize_scan}
use quipucords.Scan.Celery.Chain.{Stored, chain_after, celery_run_task_runner-Stored}
use quipucords.Scan.Celery.Finalize.{Some, HasStatus, finalize_scan_verdict, finalize_scan_ends}

abbrev pub inspection : Task
inspection = record {
  id = 7;
  scan_type = inspect;
  status = running;
  status_message = task_running;
  prerequisites = [];
  job_id = 1;
  systems_count = 3;
  systems_scanned = 2;
  systems_failed = 1;
  systems_unreachable = 0;
  sequence_number = 1;
  start_time = some 10;
  end_time = none;
  source = some 4;
  connection_result = some 4;
}

abbrev fingerprinting : Task
fingerprinting = record inspection {
  id = 8;
  scan_type = fingerprint;
  status = pending;
  prerequisites = 7 ∷ [];
  systems_count = 0;
  systems_scanned = 0;
  systems_failed = 0;
  sequence_number = 2;
  source = none;
}

abbrev pub job : Job
job = record {
  id = 1;
  scan_type = inspect;
  status = running;
  status_message = job_running;
  start_time = some 9;
  end_time = none;
  scan = some 2;
  sources = 4 ∷ [];
  connection_results = some 3;
  report = none;
}

abbrev pub tasks : List Task
tasks = inspection ∷ fingerprinting ∷ []

abbrev state : JobState
state = record { job = fetch job; tasks = tasks }

abbrev ended : JobState
ended = record state { job = fetch (record job { status = canceled }) }

abbrev pub world : World
world = record {
  job = job;
  tasks = tasks;
  celery_task_id = some "c1";
  is_answered = true;
  revoked = "c0" ∷ [];
}

-- A scanner that scans one more system and completes.
abbrev scanner : String → Executor
scanner source_type t j w = record {
  result = done (some "ok") completed;
  task = t;
  job = j;
  world = w;
}

scanner-KeepsRow : KeepsRow (scanner "network")
scanner-KeepsRow t j w row h = (refl, (row, h))

apply_exactly_example : ((apply (cancel 20) state).1 ≡ true) ↔ (running ⟶ canceled)
apply_exactly_example = apply_exactly (cancel 20) state

apply-Kept_example : Rows (Kept (cancel 20)) tasks (apply (cancel 20) state).0.tasks
apply-Kept_example = apply-Kept (cancel 20) state

stop-All_example :
    ((apply pause state).1 ≡ true → All (Stopped paused) (apply pause state).0.tasks)
    × ((apply (cancel 20) state).1 ≡ true
        → All (Stopped canceled) (apply (cancel 20) state).0.tasks)
stop-All_example = stop-All 20 state

run_ops-⟶*_example :
    running ⟶* (run_ops (pause ∷ restart ∷ start 30 ∷ complete 40 ∷ []) state).job.row.status
run_ops-⟶*_example = run_ops-⟶* (pause ∷ restart ∷ start 30 ∷ complete 40 ∷ []) state refl

finalize_scan_verdict_example :
    (((finalize_scan 50 world).job.status ≡ completed)
      ↔ ((tasks ≡ []) ⊎ Some (HasStatus completed) tasks))
    × (((finalize_scan 50 world).job.status ≡ canceled)
        ↔ ((tasks ≢ []) × All (HasStatus canceled) tasks))
unfolding scan_job_is_canceled
finalize_scan_verdict_example = finalize_scan_verdict 50 world refl refl

finalize_scan_ends_example :
    (running ≡ running → is_final (finalize_scan 50 world).job.status ≡ true)
    × (is_final running ≡ true → (finalize_scan 50 world).job.status ≡ running)
finalize_scan_ends_example = finalize_scan_ends 50 world

celery_run_task_runner-Stored_example :
    Stored 7 (celery_run_task_runner scanner 20 7 "network" inspect world)
unfolding scan_job_is_canceled
celery_run_task_runner-Stored_example =
    celery_run_task_runner-Stored scanner 20 7 "network" inspection world scanner-KeepsRow refl refl

chain_after_example :
    let r = run_task_runner (scanner "network") 20 inspection job world in
    let c = celery_run_task_runner scanner 20 7 "network" inspect world in
    ((s : Status) → r.result ≡ ok s → (c.chain ≡ (s == completed)) × (c.result.task_status ≡ s))
    × ((e : String)
        → r.result ≡ raised e
        → (c.chain ≡ true) × (c.result.success ≡ false) × (c.result.task_status ≡ failed))
unfolding scan_job_is_canceled
chain_after_example = chain_after scanner 20 7 "network" inspection world refl refl

-- Two workers, one of which holds an instance from before the other's call.
abbrev calls : List Call
calls =
    record {
      stale = inspection;
      count = false;
      scanned = true;
      failed = false;
      unreachable = false;
    }
    ∷ record {
      stale = inspection;
      count = true;
      scanned = false;
      failed = false;
      unreachable = true;
    }
    ∷ []

run_calls-tally_example :
    let end = run_calls calls inspection in
    (end.systems_count ≡ 3 + tally (λ c. c.count) calls)
    × (end.systems_scanned ≡ 2 + tally (λ c. c.scanned) calls)
    × (end.systems_failed ≡ 1 + tally (λ c. c.failed) calls)
    × (end.systems_unreachable ≡ 0 + tally (λ c. c.unreachable) calls)
run_calls-tally_example = run_calls-tally calls inspection

abbrev at_end : Handle Task
at_end = record { mem = inspection; row = run_calls calls inspection }

finish_after_calls_example :
    Counted calls inspection (Task.status_complete 20 none at_end).row
    × SameCounts (Task.status_fail 20 (text "no") at_end).row inspection
finish_after_calls_example = finish_after_calls 20 none (text "no") calls inspection

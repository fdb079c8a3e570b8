-- ===== src/Scan/Celery.antt =====
-- The Celery tasks of a scan (quipucords/scanner/tasks.py), with the decorators that turn an
-- exception into a failure, and the report that the fingerprint task needs
-- (quipucords/scanner/job.py). `now` stands for the clock during one Celery task.
pub mod Chain
pub mod Finalize
use quipucords.Prelude.{
  ℕ, String, Bool, true, false, not, ◌||◌, ◌&&◌, Option, none, some, List, [], ◌∷◌, map, ◌==◌,
  if◌then◌else◌, any, all, select, nat_eq,
}
use quipucords.Scan.Handle.{fetch}
use quipucords.Scan.Status.{
  Status, canceled, completed, failed, status_eq, ScanType, inspect, fingerprint, type_eq, Message,
  unexpected_in, none_completed, no_facts,
}
use quipucords.Scan.Task
use quipucords.Scan.Task.{Task}
use quipucords.Scan.Job
use quipucords.Scan.Job.{Job, JobState, sum_of}
use quipucords.Scan.World.{World, find_task, on_task, on_job, scan_job_is_canceled}
use quipucords.Scan.Runner.{Ran, Executor, run_task_runner}
use quipucords.Scan.World.{Outcome, ok, raised}

-- `(success, scan_task_id, task_status)`
pub record TaskResult : Type 0 where
  pub success : Bool
  pub scan_task_id : ℕ
  pub task_status : Status

-- One run of a Celery task: its result, whether the rest of the Celery chain is still there, and
-- the rows. `task_instance.request.chain = None` takes the chain away.
pub record Called (A : Type 0) : Type 0 where
  pub result : A
  pub chain : Bool
  pub world : World

-- `return False, scan_task_id, ScanTask.FAILED`
abbrev pub failed_result : ℕ → TaskResult
failed_result i = record { success = false; scan_task_id = i; task_status = failed }

-- `set_scan_task_failure_on_exception`, for a function of this name.
unfoldable pub set_scan_task_failure_on_exception :
    String → ℕ → ℕ → Called (Outcome TaskResult) → Called TaskResult
unfolding Task.status_fail on_task
set_scan_task_failure_on_exception name now i c = elim c.result [
  | ok r ↦ record { result = r; chain = c.chain; world = c.world }
  | raised e ↦ elim (find_task i c.world.tasks) [
    | none ↦ record { result = failed_result i; chain = c.chain; world = c.world }
    | some row ↦ record {
      result = failed_result i;
      chain = c.chain;
      world = (on_task (Task.status_fail now (unexpected_in name)) row c.world).1;
    }
  ]
]

-- `get_task_runner_class`: the scanner of a source type, for inspections alone.
abbrev get_task_runner_class : (String → Executor) → String → ScanType → Option Executor
get_task_runner_class get_scanner source_type inspect = some (get_scanner source_type)
get_task_runner_class get_scanner source_type fingerprint = none

-- What `_celery_run_task_runner` makes of the end of `run_task_runner`.
unfoldable pub report_end : ℕ → Ran (Outcome Status) → Called (Outcome TaskResult)
report_end i r = elim r.result [
  | raised e ↦ record { result = raised e; chain = true; world = r.world }
  | ok s ↦ record {
    result = ok (record { success = s == completed; scan_task_id = i; task_status = s });
    chain = s == completed;
    world = r.world;
  }
]

-- `_celery_run_task_runner`; `job` is the instance `scan_task.job`.
unfoldable pub call_task_runner :
    (String → Executor) → ℕ → ℕ → String → ScanType → World → Called (Outcome TaskResult)
unfolding report_end
call_task_runner get_scanner now i source_type scan_type w = elim (find_task i w.tasks) [
  | none ↦ record { result = raised "ScanTask.DoesNotExist"; chain = true; world = w }
  | some scan_task ↦ elim (get_task_runner_class get_scanner source_type scan_type) [
    | none ↦ record { result = raised "NotImplementedError"; chain = true; world = w }
    | some execute ↦
        let ran = report_end i (run_task_runner execute now scan_task w.job w) in
        elim (scan_job_is_canceled w) [
          | raised e ↦ record { result = raised e; chain = true; world = w }
          | ok true ↦ record {
            result = ok (record { success = false; scan_task_id = i; task_status = canceled });
            chain = false;
            world = w;
          }
          | ok false ↦ ran
        ]
  ]
]

unfoldable pub celery_run_task_runner :
    (String → Executor) → ℕ → ℕ → String → ScanType → World → Called TaskResult
unfolding call_task_runner set_scan_task_failure_on_exception
celery_run_task_runner get_scanner now i source_type scan_type w =
    set_scan_task_failure_on_exception "celery_run_task_runner" now i
      (call_task_runner get_scanner now i source_type scan_type w)

-- `create_report_for_scan_job`: a report with the next id, if an inspection has scanned a system.
unfoldable pub create_report_for_scan_job : ℕ → Job → World → Option (Job × World)
create_report_for_scan_job report_id scan_job w =
    let inspections = select (λ t. t.scan_type == inspect) w.tasks in
    let job' = record scan_job { report = some report_id } in
    if sum_of (λ t. t.systems_scanned) inspections == 0
    then none
    else some (job', record w { job = job' })

-- `_fingerprint` once there is a report.
unfoldable pub run_fingerprint : Executor → ℕ → Task → Job → World → Called (Outcome TaskResult)
run_fingerprint execute now scan_task scan_job w =
    let r = run_task_runner execute now scan_task scan_job (record w { job = scan_job }) in
    elim r.result [
      | raised e ↦ record { result = raised e; chain = true; world = r.world }
      | ok s ↦ record {
        result =
            ok (record { success = s == completed; scan_task_id = scan_task.id; task_status = s });
        chain = true;
        world = r.world;
      }
    ]

-- An early end of `_fingerprint`: the job's status is changed and the task's is not.
unfoldable pub stop_fingerprint :
    ℕ → World → Status → (JobState → JobState × Bool) → Called (Outcome TaskResult)
unfolding on_job
stop_fingerprint i w s f = record {
  result = ok (record { success = false; scan_task_id = i; task_status = s });
  chain = true;
  world = (on_job f w.job w).1;
}

-- `_fingerprint`: `execute` is `FingerprintTaskRunner`, and `report_id` the id of a new report.
unfoldable pub call_fingerprint : Executor → ℕ → ℕ → ℕ → World → Called (Outcome TaskResult)
unfolding create_report_for_scan_job run_fingerprint stop_fingerprint
call_fingerprint execute report_id now i w = elim (find_task i w.tasks) [
  | none ↦ record { result = raised "ScanTask.DoesNotExist"; chain = true; world = w }
  | some scan_task ↦ elim (scan_job_is_canceled w) [
    | raised e ↦ record { result = raised e; chain = true; world = w }
    | ok true ↦ stop_fingerprint i w canceled (Job.status_cancel now)
    | ok false ↦ elim w.job.report [
      | some _ ↦ run_fingerprint execute now scan_task w.job w
      | none ↦ elim (create_report_for_scan_job report_id w.job w) [
        | none ↦ stop_fingerprint i w failed (Job.status_fail now no_facts)
        | some (scan_job, w') ↦ run_fingerprint execute now scan_task scan_job w'
      ]
    ]
  ]
]

unfoldable pub fingerprint_task : Executor → ℕ → ℕ → ℕ → World → Called TaskResult
unfolding call_fingerprint set_scan_task_failure_on_exception
fingerprint_task execute report_id now i w =
    set_scan_task_failure_on_exception "fingerprint" now i
      (call_fingerprint execute report_id now i w)

-- The end that the rows of the tasks call for, as a change of the job.
abbrev pub conclude : ℕ → List Task → JobState → JobState × Bool
conclude now [] = Job.status_complete now
conclude now (t ∷ ts) =
    if all (λ u. u.status == canceled) (t ∷ ts)
    then Job.status_cancel now
    else if any (λ u. u.status == completed) (t ∷ ts)
    then Job.status_complete now
    else Job.status_fail now none_completed

-- `_finalize_scan`
unfoldable pub call_finalize_scan : ℕ → World → Outcome World
unfolding scan_job_is_canceled on_job Job.status_cancel Job.status_complete Job.status_fail
call_finalize_scan now w = elim (scan_job_is_canceled w) [
  | raised e ↦ raised e
  | ok true ↦ ok (on_job (Job.status_cancel now) w.job w).1
  | ok false ↦ ok (on_job (conclude now w.tasks) w.job w).1
]

-- `set_scan_job_failure_on_exception`, for a function of this name that changes nothing before it
-- raises.
unfoldable pub set_scan_job_failure_on_exception : String → ℕ → World → Outcome World → World
unfolding on_job Job.status_fail
set_scan_job_failure_on_exception name now w (ok w') = w'
set_scan_job_failure_on_exception name now w (raised e) =
    (on_job (Job.status_fail now (unexpected_in name)) w.job w).1

unfoldable pub finalize_scan : ℕ → World → World
unfolding call_finalize_scan set_scan_job_failure_on_exception
finalize_scan now w =
    set_scan_job_failure_on_exception "finalize_scan" now w (call_finalize_scan now w)

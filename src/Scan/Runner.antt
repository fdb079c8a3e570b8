-- ===== src/Scan/Runner.antt =====
-- Running one scan task: `ScanTaskRunner.run` (quipucords/scanner/runner.py) and `run_task_runner`
-- (quipucords/scanner/job.py). What a scanner does in `execute_task` is a parameter: it may change
-- any row, and its own instances of the task and the job, before it returns or raises.
pub mod Record
use quipucords.Prelude.{ℕ, String, Bool, true, false, ◌&&◌, Option, none, some, ◌==◌, if◌then◌else◌}
use quipucords.Scan.Status.{
  Status, created, pending, running, paused, canceled, completed, failed, ScanType, inspect,
  fingerprint, type_eq, Message, unexpected_context, fatal, bad_return, to_message,
}
use quipucords.Scan.Task
use quipucords.Scan.Task.{Task}
use quipucords.Scan.Job
use quipucords.Scan.Job.{Job}
use quipucords.Scan.World.{World, Outcome, ok, raised, on_task, on_job}

-- How `execute_task` ends: a message and a status, a `ScanFailureError`, or another exception.
pub data Executed : Type 0 where
  done : Option String → Status → Executed
  scan_failure : String → Executed
  raises : String → Executed

-- The result of a call, the instances as they stand in memory after it, and the shared rows.
pub record Ran (A : Type 0) : Type 0 where
  pub result : A
  pub task : Task
  pub job : Job
  pub world : World

-- A concrete `ScanTaskRunner`, by what its `execute_task` does from its two instances.
abbrev pub Executor : Type 0
Executor = Task → Job → World → Ran Executed

-- `ScanTaskRunner.run`
abbrev pub run : Executed → Outcome (Option String × Status)
run (done message status) = ok (message, status)
run (scan_failure message) = ok (some message, failed)
run (raises e) = raised e

-- The end of `run_task_runner`: the status that was returned is stored; any but the four that a
-- runner may return counts as a failure.
unfoldable pub save_status : ℕ → Option String → Status → Task → Job → World → Ran (Outcome Status)
unfolding Task.status_cancel Task.status_pause Task.status_complete Task.status_fail on_task
save_status now message canceled t j w =
    let (t', w') = on_task (Task.status_cancel now) t w in
    record { result = ok canceled; task = t'; job = j; world = w' }
save_status now message paused t j w =
    let (t', w') = on_task Task.status_pause t w in
    record { result = ok paused; task = t'; job = j; world = w' }
save_status now message completed t j w =
    let (t', w') = on_task (Task.status_complete now message) t w in
    record { result = ok completed; task = t'; job = j; world = w' }
save_status now message failed t j w =
    let (t', w') = on_task (Task.status_fail now (to_message message)) t w in
    record { result = ok failed; task = t'; job = j; world = w' }
save_status now message other t j w =
    let (t', w') =
      on_task (Task.status_fail now (bad_return t.sequence_number other message)) t w in
    record { result = ok failed; task = t'; job = j; world = w' }

-- The `except` branch. The text of the message reads the source's credentials, and so raises anew
-- for an inspection whose source has been deleted, before anything is stored.
unfoldable pub fail_unexpectedly : ℕ → String → Task → Job → World → Ran (Outcome Status)
unfolding Task.status_fail Job.status_fail on_task on_job
fail_unexpectedly now error t j w =
    let (t', w') = on_task (Task.status_fail now (unexpected_context t.id)) t w in
    let (j', w'') = on_job (Job.status_fail now (fatal error)) j w' in
    elim t.source [
      | none ↦ elim t.scan_type [
        | inspect ↦ record { result = raised "AttributeError"; task = t; job = j; world = w }
        | fingerprint ↦ record { result = raised error; task = t'; job = j'; world = w'' }
      ]
      | some _ ↦ record { result = raised error; task = t'; job = j'; world = w'' }
    ]

-- What follows `runner.run`.
unfoldable pub settle :
    ℕ → Outcome (Option String × Status) → Task → Job → World → Ran (Outcome Status)
unfolding save_status fail_unexpectedly
settle now (ok (message, status)) t j w = save_status now message status t j w
settle now (raised error) t j w = fail_unexpectedly now error t j w

unfoldable pub run_task_runner : Executor → ℕ → Task → Job → World → Ran (Outcome Status)
unfolding Task.status_start on_task settle
run_task_runner execute now t j w =
    let (t', w') = on_task (Task.status_start now) t w in
    let r = execute t' j w' in settle now (run r.result) r.task r.job r.world

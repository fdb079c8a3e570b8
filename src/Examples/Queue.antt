-- ===== src/Examples/Queue.antt =====
-- Queueing the example's scan job anew: it has a task and results that an earlier attempt left.
use quipucords.Prelude.{refl, none, some, [], ◌∷◌}
use quipucords.Scan.Status.{created, inspect}
use quipucords.Scan.Handle.{fetch}
use quipucords.Scan.Job.{Job}
use quipucords.Scan.Queue.{Store, copy_scan_details, queue}
use quipucords.Scan.Queue.Created.{Queued, queue-Created}
use quipucords.Examples.Scan.{job, tasks}

abbrev new_job : Job
new_job = record job { status = created; sources = []; connection_results = none }

abbrev pub store : Store
store = record {
  job = fetch new_job;
  tasks = tasks;
  scan = some (record { scan_type = inspect; sources = 4 ∷ 6 ∷ []; most_recent_scanjob = none });
  most_recent_connect_scan = [];
  task_results = record { id = 4; job_connection_result = 3 } ∷ [];
  inspect_groups = record { id = 11; tasks = 7 ∷ []; report_jobs = [] } ∷ [];
  inspect_results = record { id = 12; inspect_group = 11 } ∷ [];
  fingerprints = none;
  next_id = 20;
}

queue-Created_example : Queued (copy_scan_details store).job.mem (queue store)
unfolding copy_scan_details
queue-Created_example = queue-Created store 4 (6 ∷ []) refl refl refl

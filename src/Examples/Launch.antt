-- ===== src/Examples/Launch.antt =====
-- Starting and killing the example's scan job.
use quipucords.Prelude.{ℕ, String, ◌≡◌, refl, true, none, some, All, select, ◌∷◌, []}
use quipucords.Scan.Status.{paused, canceled, inspect}
use quipucords.Scan.Job.Tasks.{Stopped}
use quipucords.Scan.World.{World, scan_job_is_canceled}
use quipucords.Scan.World.{ok}
use quipucords.Scan.Launch.{Plan, kill, put, plan, is_incomplete}
use quipucords.Scan.Launch.Kills.{kill_revokes, kill-All, put_refused}
use quipucords.Scan.Launch.Plans.{Runs, plan-Runs}
use quipucords.Scan.Launch.Queued.{Planned, queue_then_plan}
use quipucords.Scan.Queue.{copy_scan_details, queue}
use quipucords.Examples.Queue.{store}
use quipucords.Examples.Scan.{job, tasks, world}

abbrev async_result : Plan → String
async_result p = "c1"

abbrev source_type : ℕ → String
source_type s = "network"

kill_revokes_example :
    ((kill 60 job world).0 ≡ true)
    × ((kill 60 job world).0 ≡ true → scan_job_is_canceled (kill 60 job world).1 ≡ ok true)
kill_revokes_example = kill_revokes 60 job world refl

kill-All_example :
    ((kill 60 job world).1.job.status ≡ canceled)
    × All (Stopped canceled) (kill 60 job world).1.tasks
kill-All_example = kill-All 60 world refl

abbrev held : World
held = record world { job = record job { status = paused } }

put_refused_example :
    let r = put async_result source_type 60 held.job held in
    (r.0 ≡ ok none)
    × (r.1.job.status ≡ paused)
    × (r.1.tasks ≡ tasks)
    × (r.1.celery_task_id ≡ some "None")
put_refused_example = put_refused async_result source_type 60 held (λ e. cc) (λ e. cc)

plan-Runs_example :
    (p : Plan) × (plan source_type job tasks ≡ ok p)
    × Runs (select (is_incomplete inspect) tasks) p.chains
    × (p.fingerprint_id ≡ some 8)
    × (p.finalize_id ≡ 1)
plan-Runs_example = plan-Runs source_type job tasks (refl, tt)

queue_then_plan_example :
    Planned source_type (copy_scan_details store).job.mem (queue store).job.row (queue store).tasks
unfolding copy_scan_details
queue_then_plan_example = queue_then_plan source_type store 4 (6 ∷ []) refl refl refl

-- ===== src/Scan/Launch/Kills.antt =====
-- What killing a scan job does, and what becomes of a start that is refused.
use quipucords.Prelude.{
  ℕ, String, ◌≡◌, ◌≢◌, refl, true, false, Option, none, some, arith, All, is_some, ap, sym, ◌∙◌,
  string_eq,
}
use quipucords.Scan.Status.{running, pending, canceled, status_eq, is_final}
use mathlib.Core.Path.{subst}
use text.Mathlib.TextEquality.{eq_iff}
use quipucords.Scan.Handle.{fetch}
use quipucords.Scan.Job
use quipucords.Scan.Job.{Job, JobState, apply, cancel}
use quipucords.Scan.Job.Tasks.{Stopped, stop-All}
use quipucords.Scan.World.{World, on_job, scan_job_is_canceled}
use quipucords.Scan.World.{Outcome, ok, raised}
use quipucords.Scan.Launch.{revoke, store_id, Plan, run_job, put, kill}

revoke-canceled :
    (id : Option String) (w : World)
    → w.celery_task_id ≡ id
    → w.is_answered ≡ true
    → ((revoke id w).0 ≡ is_some id)
      × ((revoke id w).0 ≡ true → scan_job_is_canceled (revoke id w).1 ≡ ok true)
unfolding scan_job_is_canceled
revoke-canceled none w h a = (refl, λ e. cc)
revoke-canceled (some i) w h a = (refl, λ e. ground (arith, h, a, eq_iff i i))

-- Where the answer about revoked tasks has the worker: `kill` tells whether the job has a Celery task,
-- and if it has, the job is found canceled right after. Nothing is said of a later time, when the id may
-- be another or have expired.
pub kill_revokes :
    (now : ℕ) (j : Job) (w : World)
    → w.is_answered ≡ true
    → ((kill now j w).0 ≡ is_some w.celery_task_id)
      × ((kill now j w).0 ≡ true → scan_job_is_canceled (kill now j w).1 ≡ ok true)
unfolding kill on_job
kill_revokes now j w a =
    revoke-canceled w.celery_task_id (on_job (Job.status_cancel now) j w).1 refl a

revoke_keeps :
    (id : Option String) (w : World)
    → ((revoke id w).1.job ≡ w.job) × ((revoke id w).1.tasks ≡ w.tasks)
revoke_keeps none w = (refl, refl)
revoke_keeps (some i) w = (refl, refl)

abbrev fresh : World → JobState
fresh w = record { job = fetch w.job; tasks = w.tasks }

cancels :
    (now : ℕ) (w : World)
    → is_final w.job.status ≡ false
    → ((apply (cancel now) (fresh w)).1 ≡ true)
      × ((apply (cancel now) (fresh w)).0.job.row.status ≡ canceled)
unfolding apply
cancels now w h = ground arith

-- A job that is not stored as canceled, completed or failed, killed by an instance that has the stored
-- row, is canceled, and each task of it is canceled or had ended before. Nothing is said of a job that
-- has ended: `status_cancel` is refused then.
pub kill-All :
    (now : ℕ) (w : World)
    → is_final w.job.status ≡ false
    → ((kill now w.job w).1.job.status ≡ canceled)
      × All (Stopped canceled) (kill now w.job w).1.tasks
unfolding kill on_job apply
kill-All now w h =
    let (job_kept, tasks_kept) =
      revoke_keeps w.celery_task_id (on_job (Job.status_cancel now) w.job w).1 in
    let (accepted, status) = cancels now w h in
    (
      ap (λ (j : Job). j.status) job_kept ∙ status,
      subst (All (Stopped canceled)) (sym tasks_kept) ((stop-All now (fresh w)).1 accepted),
    )

refused_run :
    (source_type : ℕ → String) (now : ℕ) (w : World)
    → w.job.status ≢ pending
    → w.job.status ≢ running
    → let r = run_job source_type now w.job w in
      (r.0 ≡ ok none) × (r.1.job.status ≡ w.job.status) × (r.1.tasks ≡ w.tasks)
unfolding run_job
refused_run source_type now w h h' = ground arith

stored_id :
    (async_result : Plan → String) (r : Outcome (Option Plan) × World)
    → r.0 ≡ ok none
    → let s = store_id async_result r in
      (s.0 ≡ ok none)
      × (s.1.job ≡ r.1.job)
      × (s.1.tasks ≡ r.1.tasks)
      × (s.1.celery_task_id ≡ some "None")
stored_id async_result (ok none, w) h = (refl, refl, refl, refl)
stored_id async_result (ok (some p), w) h = cc
stored_id async_result (raised e, w) h = cc

-- A job that is neither PENDING nor RUNNING is not started: nothing is given to Celery, its status
-- and its tasks stay as they are, and the text "None" is stored as its Celery id.
pub put_refused :
    (async_result : Plan → String) (source_type : ℕ → String) (now : ℕ) (w : World)
    → w.job.status ≢ pending
    → w.job.status ≢ running
    → let r = put async_result source_type now w.job w in
      (r.0 ≡ ok none)
      × (r.1.job.status ≡ w.job.status)
      × (r.1.tasks ≡ w.tasks)
      × (r.1.celery_task_id ≡ some "None")
unfolding put
put_refused async_result source_type now w h h' =
    let (none_run, status, tasks) = refused_run source_type now w h h' in
    let (result, job, same, id) =
      stored_id async_result (run_job source_type now w.job w) none_run in
    (result, ap (λ (j : Job). j.status) job ∙ status, same ∙ tasks, id)

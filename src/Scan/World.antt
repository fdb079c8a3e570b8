-- ===== src/Scan/World.antt =====
-- What the Celery tasks of one scan job share: the row of the job, the rows of its tasks, and what
-- Redis and Celery know of the job. An instance in memory is passed beside it.
use quipucords.Prelude.{
  ℕ, String, ◌≡◌, Bool, false, Option, none, some, List, [], ◌∷◌, arith, ◌==◌, if◌then◌else◌,
  nat_eq, string_eq, contains,
}
use mathlib.Core.Option
use quipucords.Scan.Status.{Status}
use quipucords.Scan.Handle.{Handle}
use quipucords.Scan.Task.{Task}
use quipucords.Scan.Job.{Job, JobState}

-- A value, or an exception that the caller sees.
pub data Outcome (A : Type 0) : Type 0 where
  ok : A → Outcome A
  raised : String → Outcome A

pub record World : Type 0 where
  pub job : Job
  pub tasks : List Task
  -- `caches["redis"]` at the job's key, `none` also when the key has expired.
  pub celery_task_id : Option String
  -- Whether the answer of `celery_inspect.revoked()` has the worker that asks, and its revoked ids.
  pub is_answered : Bool
  pub revoked : List String

-- `ScanTask.objects.get(id=...)`; `none` for `DoesNotExist`.
abbrev pub find_task : ℕ → List Task → Option Task
find_task i [] = none
find_task i (t ∷ ts) = if t.id == i then some t else find_task i ts

-- A write to the row with the instance's id. No code deletes a row that is being worked on.
abbrev pub put_task : Task → List Task → List Task
put_task u [] = []
put_task u (t ∷ ts) = if t.id == u.id then u ∷ ts else t ∷ put_task u ts

abbrev pub row_or : Task → Option Task → Task
row_or t none = t
row_or t (some r) = r

-- A method of an instance of `ScanTask`.
unfoldable pub on_task : (Handle Task → Handle Task) → Task → World → Task × World
on_task f t w =
    let h = f (record { mem = t; row = row_or t (find_task t.id w.tasks) }) in
    (h.mem, record w { tasks = put_task h.row w.tasks })

-- A method of an instance of `ScanJob`; its result is looked at by no Celery task.
unfoldable pub on_job : (JobState → JobState × Bool) → Job → World → Job × World
on_job f j w =
    let (s, _) = f (record { job = record { mem = j; row = w.job }; tasks = w.tasks }) in
    (s.job.mem, record w { job = s.job.row; tasks = s.tasks })

-- `revoked()` may give `None`, or a dict without the worker's name.
abbrev pub celery_task_is_revoked : String → World → Outcome Bool
celery_task_is_revoked celery_task_id w =
    if w.is_answered then ok (contains celery_task_id w.revoked) else raised "TypeError or KeyError"

unfoldable pub scan_job_is_canceled : World → Outcome Bool
scan_job_is_canceled w = elim w.celery_task_id [
  | none ↦ ok false
  | some celery_task_id ↦ celery_task_is_revoked celery_task_id w
]

-- What a write leaves of the table.
pub find_task-put_task :
    (i : ℕ) (u t : Task) (ts : List Task)
    → find_task u.id ts ≡ some t
    → find_task i (put_task u ts) ≡ (if u.id == i then some u else find_task i ts)
find_task-put_task i u t [] h = cc
find_task-put_task i u t (r ∷ ts) h = ground (arith, find_task-put_task i u t ts)

pub find_task-id : (i : ℕ) (ts : List Task) (t : Task) → find_task i ts ≡ some t → t.id ≡ i
find_task-id i [] t h = cc
find_task-id i (r ∷ ts) t h = ground (arith, find_task-id i ts t)

find_task-put_self :
    (i : ℕ) (u t : Task) (ts : List Task)
    → u.id ≡ i
    → find_task i ts ≡ some t
    → find_task i (put_task u ts) ≡ some u
find_task-put_self i u t [] e h = cc
find_task-put_self i u t (r ∷ ts) e h = ground (arith, find_task-put_self i u t ts)

-- The status that is stored for a task.
abbrev pub status_of : ℕ → World → Option Status
status_of i w = Option.map (λ t. t.status) (find_task i w.tasks)

-- A method of a task stores what it makes of the row, where the task has one.
pub on_task-find :
    (f : Handle Task → Handle Task) (t row : Task) (w : World)
    → find_task t.id w.tasks ≡ some row
    → (f (record { mem = t; row = row })).row.id ≡ t.id
    → find_task t.id (on_task f t w).1.tasks ≡ some (f (record { mem = t; row = row })).row
unfolding on_task
on_task-find f t row w h same = rw h (find_task-put_self _ _ row w.tasks same h)

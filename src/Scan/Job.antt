-- ===== src/Scan/Job.antt =====
-- `ScanJob` (quipucords/api/scanjob/model.py): the status methods, each over the job's instance and
-- the rows of its tasks. Logging is left out; `now` is the clock's reading.
pub mod Transitions
pub mod Tasks
pub mod Life
pub mod Sums
use quipucords.Prelude.{
  ℕ, ◌+◌, Bool, true, false, ◌||◌, not, Option, none, some, List, [], ◌∷◌, map, ◌==◌, if◌then◌else◌,
  contains, select, nat_eq,
}
use quipucords.Scan.Status.{
  Status, created, pending, running, paused, canceled, completed, failed, status_eq, ScanType,
  type_eq, Message, job_running, job_paused, job_canceled, job_completed, is_final,
}
use quipucords.Scan.Handle.{Handle, save, fetch, refresh_from_db, assign}
use quipucords.Scan.Task
use quipucords.Scan.Task.{Task}

pub record Job : Type 0 where
  pub id : ℕ
  pub scan_type : ScanType
  pub status : Status
  pub status_message : Message
  pub start_time : Option ℕ
  pub end_time : Option ℕ
  pub scan : Option ℕ
  pub sources : List ℕ
  pub connection_results : Option ℕ
  pub report : Option ℕ

-- What the methods of a job work on: its instance, and the rows of `self.tasks`.
pub record JobState : Type 0 where
  pub job : Handle Job
  pub tasks : List Task

abbrev pub assign_job : (Job → Job) → JobState → JobState
assign_job f s = record s { job = assign f s.job }

abbrev pub save_job : JobState → JobState
save_job s = record s { job = save s.job }

-- `for task in self.tasks.filter(...): task.method()`: each task is loaded and saved.
abbrev pub each_task : (Task → Bool) → (Handle Task → Handle Task) → List Task → List Task
each_task p f = map (λ t. if p t then (f (fetch t)).row else t)

-- Whether the change is an error. A change to the present status is none, from any list.
unfoldable pub validate_status_change : Status → List Status → Job → Bool
validate_status_change target_status valid_current_status j =
    if target_status == j.status
    then false
    else if not (contains j.status valid_current_status)
    then true
    else false

-- The new status and message, saved.
abbrev pub enter : Status → Message → JobState → JobState
enter s m st = save_job (assign_job (λ j. record j { status = s; status_message = m }) st)

unfoldable pub status_start : ℕ → JobState → JobState × Bool
unfolding validate_status_change
status_start now s0 =
    let s = assign_job (λ j. record j { start_time = some now }) s0 in
    let has_error = validate_status_change running (pending ∷ []) s.job.mem in
    if has_error then (s, false) else (enter running job_running s, true)

unfoldable pub status_restart : JobState → JobState × Bool
unfolding validate_status_change Task.status_restart
status_restart s =
    let has_error = validate_status_change pending (pending ∷ paused ∷ running ∷ []) s.job.mem in
    let s' = record s { tasks = each_task (λ t. t.status == paused) Task.status_restart s.tasks } in
    if has_error then (s, false) else (enter pending job_running s', true)

-- `exclude(Q(status=FAILED) | Q(status=CANCELED) | Q(status=COMPLETED))`
abbrev pub is_open : Task → Bool
is_open t = not (is_final t.status)

unfoldable pub status_pause : JobState → JobState × Bool
unfolding validate_status_change Task.status_pause
status_pause s =
    let has_error = validate_status_change paused (pending ∷ running ∷ []) s.job.mem in
    let s' = record s { tasks = each_task is_open Task.status_pause s.tasks } in
    if has_error then (s, false) else (enter paused job_paused s', true)

unfoldable pub status_cancel : ℕ → JobState → JobState × Bool
unfolding validate_status_change Task.status_cancel
status_cancel now s0 =
    let s = assign_job (λ j. record j { end_time = some now }) s0 in
    let has_error =
      validate_status_change canceled (created ∷ pending ∷ running ∷ paused ∷ []) s.job.mem in
    let s' = record s { tasks = each_task is_open (Task.status_cancel now) s.tasks } in
    if has_error then (s, false) else (enter canceled job_canceled s', true)

unfoldable pub status_complete : ℕ → JobState → JobState × Bool
unfolding validate_status_change
status_complete now s0 =
    let s = assign_job (λ j. record j { end_time = some now }) s0 in
    let has_error = validate_status_change completed (running ∷ []) s.job.mem in
    if has_error then (s, false) else (enter completed job_completed s, true)

unfoldable pub status_fail : ℕ → Message → JobState → JobState × Bool
unfolding validate_status_change
status_fail now message s0 =
    let s = assign_job (λ j. record j { end_time = some now }) s0 in
    let has_error = validate_status_change failed (running ∷ []) s.job.mem in
    if has_error then (s, false) else (enter failed message s, true)

-- The calls that the rest of the program makes on a job, with their arguments.
pub data Op : Type 0 where
  start : ℕ → Op
  restart : Op
  pause : Op
  cancel : ℕ → Op
  complete : ℕ → Op
  fail : ℕ → Message → Op

unfoldable pub apply : Op → JobState → JobState × Bool
unfolding status_start status_restart status_pause status_cancel status_complete status_fail
apply (start now) s = status_start now s
apply restart s = status_restart s
apply pause s = status_pause s
apply (cancel now) s = status_cancel now s
apply (complete now) s = status_complete now s
apply (fail now m) s = status_fail now m s

abbrev pub sum_of : (Task → ℕ) → List Task → ℕ
sum_of f [] = 0
sum_of f (t ∷ ts) = f t + sum_of f ts

-- The four sums over the tasks of the job's own type (`aggregate(... Sum ...)`, `or 0`).
pub record Counts : Type 0 where
  pub systems_count : ℕ
  pub systems_scanned : ℕ
  pub systems_failed : ℕ
  pub systems_unreachable : ℕ

-- `_calculate_counts`
unfoldable pub sum_counts : Job → List Task → Counts
sum_counts j tasks =
    let own = select (λ t. t.scan_type == j.scan_type) tasks in
    record {
      systems_count = sum_of (λ t. t.systems_count) own;
      systems_scanned = sum_of (λ t. t.systems_scanned) own;
      systems_failed = sum_of (λ t. t.systems_failed) own;
      systems_unreachable = sum_of (λ t. t.systems_unreachable) own;
    }

-- `calculate_counts`: nothing before the job has run, else the sums and the number of fingerprints
-- of the job's deployment report (`none` where the job has no report or the report has none).
unfoldable pub calculate_counts : Option ℕ → JobState → Option (Counts × ℕ)
unfolding sum_counts
calculate_counts fingerprints s =
    let j = (refresh_from_db s.job).mem in
    if j.status == created || j.status == pending
    then none
    else some (
      sum_counts j s.tasks,
      elim j.report [ none ↦ 0 | some _ ↦ elim fingerprints [ none ↦ 0 | some n ↦ n ] ],
    )

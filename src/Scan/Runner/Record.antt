-- ===== src/Scan/Runner/Record.antt =====
-- What `run_task_runner` has recorded of a task when it is over.
use quipucords.Prelude.{ℕ, String, ◌≡◌, ◌≢◌, refl, sym, ap, Option, some, arith, is_some, true}
use mathlib.Core.Option
use mathlib.Core.Path.{subst}
use quipucords.Scan.Handle.{Handle}
use quipucords.Scan.Status.{
  Status, created, pending, running, paused, canceled, completed, failed, to_message, bad_return,
  unexpected_context,
}
use quipucords.Scan.Task
use quipucords.Scan.Task.{Task}
use quipucords.Scan.Job.{Job}
use quipucords.Scan.World.{World, find_task, on_task, on_task-find, find_task-id, status_of}
use quipucords.Scan.Runner.{Executor, Ran, save_status, run_task_runner, settle, run}
use quipucords.Scan.World.{Outcome, ok, raised}

-- A scanner keeps the task that it works on: its instance has the task's id, and the task's row,
-- however changed, is still there when it ends.
abbrev pub KeepsRow : Executor → Type 0
KeepsRow execute =
    (t : Task) (j : Job) (w : World)
    → (row : Task) → find_task t.id w.tasks ≡ some row
    → ((execute t j w).task.id ≡ t.id)
      × ((row' : Task) × (find_task t.id (execute t j w).world.tasks ≡ some row'))

-- What is recorded: the status that is handed on is stored in the row, and it is one of the four
-- final or held ones.
abbrev pub Recorded : ℕ → Ran (Outcome Status) → Type 0
Recorded i r =
    (s : Status)
    → r.result ≡ ok s
    → (status_of i r.world ≡ some s) × (s ≢ created) × (s ≢ pending) × (s ≢ running)

module _ (now : ℕ) (t row : Task) (j : Job) (w : World)
    (h : find_task t.id w.tasks ≡ some row) where
  row_id : row.id ≡ t.id
  row_id = find_task-id t.id w.tasks row h

  stored :
      (f : Handle Task → Handle Task)
      → (f (record { mem = t; row = row })).row.id ≡ t.id
      → status_of t.id (on_task f t w).1 ≡ some (f (record { mem = t; row = row })).row.status
  stored f e = ap (Option.map (λ (u : Task). u.status)) (on_task-find f t row w h e)

  save_status-Recorded :
      (message : Option String) (s : Status) → Recorded t.id (save_status now message s t j w)
  unfolding save_status
  save_status-Recorded message canceled s e = ground (arith, stored (Task.status_cancel now) refl)
  save_status-Recorded message paused s e = ground (arith, stored Task.status_pause refl)
  save_status-Recorded message completed s e =
      ground (arith, stored (Task.status_complete now message) row_id)
  save_status-Recorded message failed s e =
      ground (arith, stored (Task.status_fail now (to_message message)) refl)
  save_status-Recorded message other s e =
      ground
        (arith, stored (Task.status_fail now (bad_return t.sequence_number other message)) refl)

settle-Recorded :
    (now : ℕ) (o : Outcome (Option String × Status)) (t row : Task) (j : Job) (w : World)
    → find_task t.id w.tasks ≡ some row
    → Recorded t.id (settle now o t j w)
unfolding settle
settle-Recorded now (ok (message, s)) t row j w h s' e =
    save_status-Recorded now t row j w h message s s' e
settle-Recorded now (raised error) t row j w h s e = ground arith

-- The task's row is still there.
abbrev pub Found : ℕ → World → Type 0
Found i w = is_some (find_task i w.tasks) ≡ true

-- The status that `run_task_runner` hands on for what a scanner returned.
abbrev handed_on : Status → Status
handed_on canceled = canceled
handed_on paused = paused
handed_on completed = completed
handed_on _ = failed

save_status-result :
    (now : ℕ) (message : Option String) (s : Status) (t : Task) (j : Job) (w : World)
    → (save_status now message s t j w).result ≡ ok (handed_on s)
unfolding save_status
save_status-result now message canceled t j w = refl
save_status-result now message _ t j w = refl

settle-Found :
    (now : ℕ) (o : Outcome (Option String × Status)) (t row : Task) (j : Job) (w : World)
    → find_task t.id w.tasks ≡ some row
    → Found t.id (settle now o t j w).world
unfolding settle
settle-Found now (ok (message, s)) t row j w h = ground (
  arith,
  save_status-Recorded now t row j w h message s (handed_on s)
      (save_status-result now message s t j w),
)
settle-Found now (raised error) t row j w h =
    ground (arith, on_task-find (Task.status_fail now (unexpected_context t.id)) t row w h refl)

-- When `run_task_runner` hands on a status, the task's row holds that very status, and it is
-- CANCELED, PAUSED, COMPLETED or FAILED, whatever the scanner did and returned; the scanner is
-- asked only to keep the task's row.
pub run_task_runner-Recorded :
    (execute : Executor) (now : ℕ) (t row : Task) (j : Job) (w : World)
    → KeepsRow execute
    → find_task t.id w.tasks ≡ some row
    → Recorded t.id (run_task_runner execute now t j w)
unfolding run_task_runner
run_task_runner-Recorded execute now t row j w keeps h =
    let (t', w') = on_task (Task.status_start now) t w in
    let r = execute t' j w' in
    let started = on_task-find (Task.status_start now) t row w h refl in
    let (same, kept) = keeps t' j w' _ started in
    let (row', found) = kept in
    subst (λ i. Recorded i (settle now (run r.result) r.task r.job r.world)) same
      (settle-Recorded now (run r.result) r.task row' r.job r.world
        (subst (λ i. find_task i r.world.tasks ≡ some row') (sym same) found))

-- What a run leaves: the task's row, and what is recorded of it.
pub run_task_runner-Found :
    (execute : Executor) (now : ℕ) (t row : Task) (j : Job) (w : World)
    → KeepsRow execute
    → find_task t.id w.tasks ≡ some row
    → Found t.id (run_task_runner execute now t j w).world
unfolding run_task_runner
run_task_runner-Found execute now t row j w keeps h =
    let (t', w') = on_task (Task.status_start now) t w in
    let r = execute t' j w' in
    let started = on_task-find (Task.status_start now) t row w h refl in
    let (same, kept) = keeps t' j w' _ started in
    let (row', found) = kept in
    subst (λ i. Found i (settle now (run r.result) r.task r.job r.world).world) same
      (settle-Found now (run r.result) r.task row' r.job r.world
        (subst (λ i. find_task i r.world.tasks ≡ some row') (sym same) found))

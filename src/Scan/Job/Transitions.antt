-- ===== src/Scan/Job/Transitions.antt =====
-- Which changes of status a scan job accepts (quipucords/api/scanjob/model.py).
use quipucords.Prelude.{◌≡◌, ◌↔◌, refl, Bool, true, false, arith, ◌==◌}
use quipucords.Scan.Status.{
  Status, created, pending, running, paused, canceled, completed, failed, status_eq,
}
use quipucords.Scan.Handle.{IsSynced}
use quipucords.Scan.Job.{JobState, Op, start, restart, pause, cancel, complete, fail, apply}

-- The status that an operation aims at.
abbrev pub target : Op → Status
target (start _) = running
target restart = pending
target pause = paused
target (cancel _) = canceled
target (complete _) = completed
target (fail _ _) = failed

-- The diagram of a job: the changes from one status to another.
infix 40 ◌⟶◌
pub data ◌⟶◌ : Status → Status → Type 0 where
  begin : pending ⟶ running
  resume : paused ⟶ pending
  requeue : running ⟶ pending
  hold_pending : pending ⟶ paused
  hold_running : running ⟶ paused
  cancel_created : created ⟶ canceled
  cancel_pending : pending ⟶ canceled
  cancel_running : running ⟶ canceled
  cancel_paused : paused ⟶ canceled
  finish : running ⟶ completed
  give_up : running ⟶ failed
  stay : (s : Status) → s ⟶ s

-- The same diagram, decided.
abbrev can : Status → Status → Bool
can pending running = true
can paused pending = true
can running pending = true
can pending paused = true
can running paused = true
can created canceled = true
can pending canceled = true
can running canceled = true
can paused canceled = true
can running completed = true
can running failed = true
can a b = a == b

ruleset edges = (
  begin, resume, requeue, hold_pending, hold_running, cancel_created, cancel_pending,
  cancel_running, cancel_paused, finish, give_up, stay,
)

⟶-can : {a b : Status} → a ⟶ b → can a b ≡ true
⟶-can begin = refl
⟶-can resume = refl
⟶-can requeue = refl
⟶-can hold_pending = refl
⟶-can hold_running = refl
⟶-can cancel_created = refl
⟶-can cancel_pending = refl
⟶-can cancel_running = refl
⟶-can cancel_paused = refl
⟶-can finish = refl
⟶-can give_up = refl
⟶-can (stay s) = ground arith

can-⟶ : (a b : Status) → can a b ≡ true → a ⟶ b
can-⟶ a b h = grind (arith, edges)

-- What a call did. On success the job's row has the new status, and memory agrees with it; on
-- failure the job's row and the tasks are as they were.
abbrev pub Outcome : Op → JobState → JobState × Bool → Type 0
Outcome o s (s', true) = (s'.job.row.status ≡ target o) × IsSynced s'.job
Outcome o s (s', false) = (s'.job.row ≡ s.job.row) × (s'.tasks ≡ s.tasks)

apply-can : (o : Op) (s : JobState) → (apply o s).1 ≡ can s.job.mem.status (target o)
unfolding apply
apply-can (start now) s = ground arith
apply-can restart s = ground arith
apply-can pause s = ground arith
apply-can (cancel now) s = ground arith
apply-can (complete now) s = ground arith
apply-can (fail now m) s = ground arith

-- A call on a job succeeds exactly when the diagram has an edge from the status in memory to the
-- one aimed at.
pub apply_exactly : (o : Op) (s : JobState) → ((apply o s).1 ≡ true) ↔ (s.job.mem.status ⟶ target o)
apply_exactly o s =
    (λ h. can-⟶ _ _ (ground (arith, apply-can o s)), λ e. ground (arith, apply-can o s, ⟶-can e))

-- Every call either makes the change whole, or leaves the job's row and the tasks alone.
pub apply-Outcome : (o : Op) (s : JobState) → Outcome o s (apply o s)
unfolding apply
apply-Outcome (start now) s = ground arith
apply-Outcome restart s = ground arith
apply-Outcome pause s = ground arith
apply-Outcome (cancel now) s = ground arith
apply-Outcome (complete now) s = ground arith
apply-Outcome (fail now m) s = ground arith

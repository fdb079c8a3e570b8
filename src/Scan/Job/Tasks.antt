-- ===== src/Scan/Job/Tasks.antt =====
-- What the status methods of a job do to the rows of its tasks.
use quipucords.Prelude.{
  ℕ, ◌≡◌, sym, ◌∙◌, ◌⊎◌, inl, inr, refl, Bool, true, false, List, [], ◌∷◌, map, arith, some, All,
  Bool-cases, ◌==◌, if◌then◌else◌,
}
use mathlib.Core.Bool.{false≢true}
use quipucords.Scan.Status.{
  Status, status_eq, running, created, pending, job_paused, job_canceled, paused, is_final,
  canceled,
}
use quipucords.Scan.Handle.{Handle, fetch}
use quipucords.Scan.Task
use quipucords.Scan.Task.{Task}
use quipucords.Scan.Task.Writes.{SameCounts}
use quipucords.Scan.Job.{
  JobState, Op, start, restart, pause, cancel, complete, fail, apply, is_open, each_task, enter,
  assign_job, validate_status_change,
}
use quipucords.Scan.Job.Transitions.{target}

-- Two lists of rows, row by row.
pub data Rows (R : Task → Task → Type 0) : List Task → List Task → Type 0 where
  nil : Rows R [] []
  cons : {t u : Task} {ts us : List Task} → R t u → Rows R ts us → Rows R (t ∷ ts) (u ∷ us)

-- What a call may do to one row: a finished task is untouched; any other keeps its identity and
-- its counters, and has its old status or the one that the call aims at.
abbrev pub Kept : Op → Task → Task → Type 0
Kept o t u =
    (is_final t.status ≡ true → u ≡ t)
    × (u.id ≡ t.id)
    × (u.scan_type ≡ t.scan_type)
    × (u.sequence_number ≡ t.sequence_number)
    × SameCounts u t
    × ((u.status ≡ t.status) ⊎ (u.status ≡ target o))

Rows-map :
    (R : Task → Task → Type 0) (f : Task → Task)
    → ((t : Task) → R t (f t))
    → (ts : List Task) → Rows R ts (map f ts)
Rows-map R f h [] = nil
Rows-map R f h (t ∷ ts) = cons (h t) (Rows-map R f h ts)

Kept-refl : (o : Op) (t : Task) → Kept o t t
Kept-refl o t = (λ _. refl, refl, refl, refl, (refl, refl, refl, refl), inl refl)

Rows-refl : (o : Op) (ts : List Task) → Rows (Kept o) ts ts
Rows-refl o [] = nil
Rows-refl o (t ∷ ts) = cons (Kept-refl o t) (Rows-refl o ts)

Rows-each :
    (o : Op) (p : Task → Bool) (f : Handle Task → Handle Task)
    → ((t : Task) → p t ≡ true → Kept o t (f (fetch t)).row)
    → (ts : List Task) → Rows (Kept o) ts (each_task p f ts)
Rows-each o p f h ts = Rows-map (Kept o) _ kept ts
  where
    kept : (t : Task) → Kept o t (if p t then (f (fetch t)).row else t)
    kept t = elim (Bool-cases (p t)) [ inl e ↦ rw e (h t e) | inr e ↦ rw e (Kept-refl o t) ]

-- A call refuses, or goes on.
Rows-if :
    (R : Task → Task → Type 0) (ts : List Task) (b : Bool) (x y : JobState × Bool)
    → Rows R ts x.0.tasks
    → Rows R ts y.0.tasks
    → Rows R ts (if b then x else y).0.tasks
Rows-if R ts true x y hx hy = hx
Rows-if R ts false x y hx hy = hy

-- On every call of the six status methods, accepted or refused, no row of the job's tasks is added or
-- lost, a finished task is untouched, and any other keeps its identity and its counters, and has its
-- old status or the one that the call aims at.
pub apply-Kept : (o : Op) (s : JobState) → Rows (Kept o) s.tasks (apply o s).0.tasks
unfolding apply
apply-Kept (start now) s =
    Rows-if _ _ _ _ _ (Rows-refl (start now) s.tasks) (Rows-refl (start now) s.tasks)
apply-Kept restart s =
    Rows-if _ _ _ _ _ (Rows-refl restart s.tasks) (
      Rows-each restart (λ t. t.status == paused) Task.status_restart (λ t e. ground arith) s.tasks)
apply-Kept pause s =
    Rows-if _ _ _ _ _ (Rows-refl pause s.tasks)
      (Rows-each pause is_open Task.status_pause (λ t e. ground arith) s.tasks)
apply-Kept (cancel now) s =
    Rows-if _ _ _ _ _ (Rows-refl (cancel now) s.tasks)
      (Rows-each (cancel now) is_open (Task.status_cancel now) (λ t e. ground arith) s.tasks)
apply-Kept (complete now) s =
    Rows-if _ _ _ _ _ (Rows-refl (complete now) s.tasks) (Rows-refl (complete now) s.tasks)
apply-Kept (fail now m) s =
    Rows-if _ _ _ _ _ (Rows-refl (fail now m) s.tasks) (Rows-refl (fail now m) s.tasks)

-- A task that a method of the job has stopped with status `s`, or that had finished before.
abbrev pub Stopped : Status → Task → Type 0
Stopped s t = (t.status ≡ s) ⊎ (is_final t.status ≡ true)

All-each :
    (s : Status) (p : Task → Bool) (f : Handle Task → Handle Task)
    → ((t : Task) → Stopped s (if p t then (f (fetch t)).row else t))
    → (ts : List Task) → All (Stopped s) (each_task p f ts)
All-each s p f h [] = tt
All-each s p f h (t ∷ ts) = (h t, All-each s p f h ts)

-- What holds of the tasks if a call was accepted.
data Accepts (P : List Task → Type 0) (r : JobState × Bool) : Type 0 where
  accepts : (r.1 ≡ true → P r.0.tasks) → Accepts P r

Accepts-tasks :
    {P : List Task → Type 0} {r : JobState × Bool} → Accepts P r → r.1 ≡ true → P r.0.tasks
Accepts-tasks (accepts h) = h

accepted :
    (P : List Task → Type 0) (b : Bool) (x y : JobState × Bool)
    → x.1 ≡ false
    → P y.0.tasks
    → Accepts P (if b then x else y)
accepted P true x y refused h = accepts (λ e. absurd (false≢true (sym refused ∙ e)))
accepted P false x y refused h = accepts (λ e. h)

abbrev refused_pause : JobState → Bool
refused_pause s = validate_status_change paused (pending ∷ running ∷ []) s.job.mem

abbrev refused_cancel : JobState → Bool
refused_cancel s =
    validate_status_change canceled (created ∷ pending ∷ running ∷ paused ∷ []) s.job.mem

-- After a pause or a cancellation that succeeded, no task of the job is left open: each is paused
-- or canceled with the job, or had finished before.
pub stop-All :
    (now : ℕ) (s : JobState)
    → ((apply pause s).1 ≡ true → All (Stopped paused) (apply pause s).0.tasks)
      × ((apply (cancel now) s).1 ≡ true → All (Stopped canceled) (apply (cancel now) s).0.tasks)
unfolding apply
stop-All now s =
    let s₁ = record s { tasks = each_task is_open Task.status_pause s.tasks } in
    let s₂ = assign_job (λ j. record j { end_time = some now }) s in
    let s₃ = record s₂ { tasks = each_task is_open (Task.status_cancel now) s.tasks } in
    let paused_all : Accepts (All (Stopped paused)) (apply pause s) =
      accepted _ (refused_pause s) (s, false) (enter paused job_paused s₁, true) refl
        (All-each paused is_open Task.status_pause (λ t. ground arith) s.tasks) in
    let canceled_all : Accepts (All (Stopped canceled)) (apply (cancel now) s) =
      accepted _ (refused_cancel s) (s₂, false) (enter canceled job_canceled s₃, true) refl
        (All-each canceled is_open (Task.status_cancel now) (λ t. ground arith) s.tasks) in
    (Accepts-tasks paused_all, Accepts-tasks canceled_all)

-- ===== src/Scan/Celery/Chain.antt =====
-- What a Celery run of a scan task reports, stores and leaves of its chain
-- (quipucords/scanner/tasks.py).
use quipucords.Scan.Job.{Job}
use mathlib.Core.Path.{subst}
use quipucords.Scan.Runner.Record.{KeepsRow, Found, run_task_runner-Found, run_task_runner-Recorded}
use quipucords.Prelude.{
  ℕ, String, ◌≡◌, true, false, some, arith, ◌==◌, ◌↔◌, sym, Option-cases, inl, inr, refl, ap, ◌∙◌,
  is_some,
}
use quipucords.Scan.Status.{Status, completed, failed, status_eq, inspect, unexpected_in}
use quipucords.Scan.Task
use quipucords.Scan.Task.{Task}
use quipucords.Scan.World.{
  World, find_task, scan_job_is_canceled, status_of, find_task-id, on_task-find,
}
use quipucords.Scan.Runner.{Executor, run_task_runner}
use quipucords.Scan.World.{ok, raised, Outcome}
use quipucords.Scan.Celery.{
  celery_run_task_runner, Called, TaskResult, set_scan_task_failure_on_exception, report_end,
  call_task_runner,
}

-- A run of a task that exists and whose job is found not canceled: where `run_task_runner` hands on a status, the
-- rest of the Celery chain stays exactly when that status is COMPLETED; where it raises, the
-- failure is reported and yet the rest of the chain stays.
pub chain_after :
    (get_scanner : String → Executor) (now i : ℕ) (source_type : String) (t : Task) (w : World)
    → find_task i w.tasks ≡ some t
    → scan_job_is_canceled w ≡ ok false
    → let r = run_task_runner (get_scanner source_type) now t w.job w in
      let c = celery_run_task_runner get_scanner now i source_type inspect w in
      ((s : Status) → r.result ≡ ok s → (c.chain ≡ (s == completed)) × (c.result.task_status ≡ s))
      × ((e : String)
          → r.result ≡ raised e
          → (c.chain ≡ true) × (c.result.success ≡ false) × (c.result.task_status ≡ failed))
unfolding celery_run_task_runner
chain_after get_scanner now i source_type t w h live = ground arith

-- The status reported is the one stored, and success is reported for COMPLETED alone.
abbrev pub Stored : ℕ → Called TaskResult → Type 0
Stored i d =
    (status_of i d.world ≡ some d.result.task_status)
    × ((d.result.success ≡ true) ↔ (d.result.task_status ≡ completed))

call_task_runner-live :
    (get_scanner : String → Executor) (now i : ℕ) (source_type : String) (t : Task) (w : World)
    → find_task i w.tasks ≡ some t
    → scan_job_is_canceled w ≡ ok false
    → call_task_runner get_scanner now i source_type inspect w
      ≡ report_end i (run_task_runner (get_scanner source_type) now t w.job w)
unfolding call_task_runner
call_task_runner-live get_scanner now i source_type t w h live = ground arith

-- What the decorator makes of a run that has recorded its status, or has raised.
Stored-of :
    (name : String) (now i : ℕ) (res : Outcome Status) (t : Task) (j : Job) (w : World)
    → Found i w
    → ((s : Status) → res ≡ ok s → status_of i w ≡ some s)
    → Stored i (
        set_scan_task_failure_on_exception name now i
          (report_end i (record { result = res; task = t; job = j; world = w })))
unfolding report_end set_scan_task_failure_on_exception
Stored-of name now i (ok s) t j w f h = ground (arith, h s refl, status_eq.beq_iff s completed)
Stored-of name now i (raised e) t j w f h = elim (Option-cases (find_task i w.tasks)) [
  | inl gone ↦ cc (sym f ∙ ap is_some gone)
  | inr (row, e') ↦ ground (
    arith,
    find_task-id i w.tasks row e',
    on_task-find (Task.status_fail now (unexpected_in name)) row row w,
  )
]

-- For every scanner that keeps the task's row, a run of an inspection task that exists and whose job is
-- found not canceled stores the status that it reports, whether it returned or raised; and it reports
-- success exactly when that status is COMPLETED. Of a job that is found canceled nothing is said: its
-- run reports CANCELED and stores nothing.
pub celery_run_task_runner-Stored :
    (get_scanner : String → Executor) (now i : ℕ) (source_type : String) (t : Task) (w : World)
    → KeepsRow (get_scanner source_type)
    → find_task i w.tasks ≡ some t
    → scan_job_is_canceled w ≡ ok false
    → Stored i (celery_run_task_runner get_scanner now i source_type inspect w)
unfolding celery_run_task_runner
celery_run_task_runner-Stored get_scanner now i source_type t w keeps h live =
    let r = run_task_runner (get_scanner source_type) now t w.job w in
    let same = find_task-id i w.tasks t h in
    let h' = subst (λ k. find_task k w.tasks ≡ some t) (sym same) h in
    let found = run_task_runner-Found (get_scanner source_type) now t t w.job w keeps h' in
    let recorded = run_task_runner-Recorded (get_scanner source_type) now t t w.job w keeps h' in
    let end =
      Stored-of "celery_run_task_runner" now i r.result r.task r.job r.world
        (subst (λ k. Found k r.world) same found)
        (λ s e. subst (λ k. status_of k r.world ≡ some s) same (recorded s e).0) in
    subst (λ c. Stored i (set_scan_task_failure_on_exception "celery_run_task_runner" now i c))
      (sym (call_task_runner-live get_scanner now i source_type t w h live)) end

-- ===== src/Scan/Launch.antt =====
-- Starting and killing a scan job: `CeleryBasedScanJobRunner.run` (quipucords/scanner/job.py),
-- `CeleryScanManager` (quipucords/scanner/manager.py) and the signal handlers
-- (quipucords/api/signal/scanjob_signal.py). What Celery is asked to run is a value.
pub mod Groups
pub mod Plans
pub mod Kills
pub mod Queued
use quipucords.Prelude.{
  ℕ, String, Bool, true, false, ◌&&◌, ◌||◌, Option, none, some, List, [], ◌∷◌, ◌++◌, ◌==◌, nat_eq,
  if◌then◌else◌, select, ltb, map,
}
use quipucords.Prelude.Dict.{Dict, lookup, insert, values}
use quipucords.Scan.Status.{
  running, pending, canceled, status_eq, ScanType, inspect, fingerprint, type_eq, not_started,
}
use quipucords.Scan.Handle.{fetch}
use quipucords.Scan.Task.{Task}
use quipucords.Scan.Job
use quipucords.Scan.Job.{Job, JobState}
use quipucords.Scan.World.{World, on_job}
use quipucords.Scan.World.{Outcome, ok, raised}

-- `celery_run_task_runner.si(...)`
pub record Signature : Type 0 where
  pub scan_task_id : ℕ
  pub source_type : String
  pub scan_type : ScanType

-- What `run` asks Celery for: a group of chains, one for each source, then the fingerprint task, if
-- there is one, and then the final task.
pub record Plan : Type 0 where
  pub chains : List (List Signature)
  pub fingerprint_id : Option ℕ
  pub finalize_id : ℕ

-- `status__in=[ScanTask.RUNNING, ScanTask.PENDING]`
abbrev pub is_incomplete : ScanType → Task → Bool
is_incomplete ty t = (t.status == running || t.status == pending) && t.scan_type == ty

-- `order_by("source_id", "sequence_number")`, with tasks without a source last.
abbrev source_before : Option ℕ → Option ℕ → Bool
source_before none none = false
source_before none (some b) = false
source_before (some a) none = true
source_before (some a) (some b) = ltb a b

abbrev same_source : Option ℕ → Option ℕ → Bool
same_source none none = true
same_source (some a) (some b) = a == b
same_source _ _ = false

abbrev pub is_before : Task → Task → Bool
is_before a b =
    source_before a.source b.source
    || same_source a.source b.source && ltb a.sequence_number b.sequence_number

abbrev pub place : Task → List Task → List Task
place t [] = t ∷ []
place t (u ∷ us) = if is_before u t then u ∷ place t us else t ∷ u ∷ us

abbrev pub in_order : List Task → List Task
in_order [] = []
in_order (t ∷ ts) = place t (in_order ts)

abbrev pub or_nil : Option (List Signature) → List Signature
or_nil none = []
or_nil (some xs) = xs

-- One round of the loop that groups the tasks by source: `defaultdict(list)`, then `append`.
abbrev pub add_signature :
    (ℕ → String) → ℕ → Task → Dict ℕ (List Signature) → Dict ℕ (List Signature)
add_signature source_type s t d =
    let signature : Signature = record {
      scan_task_id = t.id;
      source_type = source_type s;
      scan_type = t.scan_type;
    } in
    insert s (or_nil (lookup s d) ++ (signature ∷ [])) d

-- The loop; `scan_task.source.source_type` fails for a task whose source has been deleted.
unfoldable pub signatures_by_source :
    (ℕ → String) → List Task → Dict ℕ (List Signature) → Outcome (Dict ℕ (List Signature))
signatures_by_source source_type [] d = ok d
signatures_by_source source_type (t ∷ ts) d = elim t.source [
  | none ↦ raised "AttributeError"
  | some s ↦ signatures_by_source source_type ts (add_signature source_type s t d)
]

abbrev pub first_id : List Task → Option ℕ
first_id [] = none
first_id (t ∷ ts) = some t.id

abbrev pub made_plan : Job → List Task → Outcome (Dict ℕ (List Signature)) → Outcome Plan
made_plan j tasks (raised e) = raised e
made_plan j tasks (ok groups) = ok (record {
  chains = values groups;
  fingerprint_id = first_id (select (is_incomplete fingerprint) tasks);
  finalize_id = j.id;
})

unfoldable pub plan : (ℕ → String) → Job → List Task → Outcome Plan
unfolding signatures_by_source
plan source_type j tasks =
    made_plan j tasks
      (signatures_by_source source_type (in_order (select (is_incomplete inspect) tasks)) [])

abbrev some_plan : Outcome Plan → Outcome (Option Plan)
some_plan (ok p) = ok (some p)
some_plan (raised e) = raised e

-- `CeleryBasedScanJobRunner.run`: the plan that Celery is given, or `None` for a job that cannot be
-- started.
unfoldable pub run_job : (ℕ → String) → ℕ → Job → World → Outcome (Option Plan) × World
unfolding plan on_job Job.status_start Job.status_fail
run_job source_type now j w =
    let state : JobState = record { job = record { mem = j; row = w.job }; tasks = w.tasks } in
    let (started, success) = Job.status_start now state in
    let w' = record w { job = started.job.row; tasks = started.tasks } in
    let failed = on_job (Job.status_fail now not_started) started.job.mem w' in
    if success
    then (some_plan (plan source_type started.job.mem w'.tasks), w')
    else (ok none, failed.1)

-- `str(celery_task_id)`, where `async_result` is the id that Celery gives to a plan.
abbrev pub id_text : (Plan → String) → Option Plan → String
id_text async_result none = "None"
id_text async_result (some p) = async_result p

abbrev pub store_id :
    (Plan → String) → Outcome (Option Plan) × World → Outcome (Option Plan) × World
store_id async_result (raised e, w) = (raised e, w)
store_id async_result (ok p, w) =
    (ok p, record w { celery_task_id = some (id_text async_result p) })

-- `CeleryScanManager.put`: the job's key in Redis is set, unless `run` raised.
unfoldable pub put :
    (Plan → String) → (ℕ → String) → ℕ → Job → World → Outcome (Option Plan) × World
unfolding run_job
put async_result source_type now j w = store_id async_result (run_job source_type now j w)

abbrev pub revoke : Option String → World → Bool × World
revoke none w = (false, w)
revoke (some celery_task_id) w = (true, record w { revoked = celery_task_id ∷ w.revoked })

-- `CeleryScanManager.kill`. The status that it sets on each task is not saved, and so is left out.
unfoldable pub kill : ℕ → Job → World → Bool × World
unfolding on_job Job.status_cancel
kill now j w = revoke w.celery_task_id (on_job (Job.status_cancel now) j w).1

-- `scan_pause`, `scan_cancel` and `scan_restart`.
pub data Signal : Type 0 where
  pause_scan cancel_scan restart_scan : Signal

unfoldable pub handle_signal : (Plan → String) → (ℕ → String) → ℕ → Signal → Job → World → World
unfolding put kill
handle_signal async_result source_type now pause_scan j w = (kill now j w).1
handle_signal async_result source_type now cancel_scan j w = (kill now j w).1
handle_signal async_result source_type now restart_scan j w =
    (put async_result source_type now j w).1

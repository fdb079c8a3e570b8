-- ===== src/Scan/Queue.antt =====
-- `ScanJob.queue` and what it calls (quipucords/api/scanjob/model.py), over the tables that it writes.
-- The database's order of a job's sources is the order of the list.
pub mod Created
use quipucords.Prelude.{
  ℕ, suc, ◌+◌, Bool, true, false, not, ◌&&◌, ◌||◌, Option, none, some, List, [], ◌∷◌, ◌++◌, map,
  ◌==◌, nat_eq, if◌then◌else◌, select, any, contains, length,
}
use quipucords.Prelude.Dict.{Dict, insert}
use quipucords.Scan.Status.{
  created, pending, status_eq, ScanType, inspect, fingerprint, type_eq, task_pending, job_pending,
}
use quipucords.Scan.Handle.{Handle, assign, save}
use quipucords.Scan.Task.{Task}
use quipucords.Scan.Job.{Job, validate_status_change}

-- The scan that a job belongs to.
pub record ScanRow : Type 0 where
  pub scan_type : ScanType
  pub sources : List ℕ
  pub most_recent_scanjob : Option ℕ

pub record TaskConnectionResult : Type 0 where
  pub id : ℕ
  pub job_connection_result : ℕ

-- A group of results, with the ids of its tasks and of the jobs whose report includes it.
pub record InspectGroup : Type 0 where
  pub id : ℕ
  pub tasks : List ℕ
  pub report_jobs : List ℕ

pub record InspectResult : Type 0 where
  pub id : ℕ
  pub inspect_group : ℕ

-- The job with its tasks, and the tables. `fingerprints` are those of the deployment report of the
-- job's report, where there is one; `next_id` is above all ids of rows that are created here.
pub record Store : Type 0 where
  pub job : Handle Job
  pub tasks : List Task
  pub scan : Option ScanRow
  pub most_recent_connect_scan : Dict ℕ ℕ
  pub task_results : List TaskConnectionResult
  pub inspect_groups : List InspectGroup
  pub inspect_results : List InspectResult
  pub fingerprints : Option (List ℕ)
  pub next_id : ℕ

abbrev pub change_job : (Job → Job) → Store → Store
change_job f st = record st { job = save (assign f st.job) }

-- `self.sources.add(...)`
abbrev pub add_sources : List ℕ → List ℕ → List ℕ
add_sources old new = old ++ select (λ s. not (contains s old)) new

abbrev copied : ScanRow → Job → Job
copied scan j = record j {
  sources = add_sources j.sources scan.sources;
  scan_type = scan.scan_type;
}

unfoldable pub copy_scan_details : Store → Store
copy_scan_details st = elim st.scan [ none ↦ st | some scan ↦ change_job (copied scan) st ]

-- `JobConnectionResult.objects.create()`, unless the job has one.
unfoldable pub ensure_connection_results : Store → Store
ensure_connection_results st = elim (st.job).mem.connection_results [
  | some _ ↦ st
  | none ↦ record (change_job (λ j. record j { connection_results = some st.next_id }) st) {
    next_id = suc st.next_id;
  }
]

-- `delete_inspect_results` without a task: the results of groups of the job's tasks that no report
-- of another job includes, and then every group that has no result.
abbrev pub is_own_group : Store → InspectGroup → Bool
is_own_group st g =
    any (λ t. contains t.id g.tasks) st.tasks
    && not (any (λ j. not (j == (st.job).mem.id)) g.report_jobs)

unfoldable pub delete_inspect_results : Store → Store
delete_inspect_results st =
    let own = select (is_own_group st) st.inspect_groups in
    let kept = select (λ r. not (any (λ g. g.id == r.inspect_group) own)) st.inspect_results in
    record st {
      inspect_results = kept;
      inspect_groups = select (λ g. any (λ r. r.inspect_group == g.id) kept) st.inspect_groups;
    }

abbrev without_tasks : List Task → InspectGroup → InspectGroup
without_tasks ts g = record g { tasks = select (λ i. not (any (λ t. t.id == i) ts)) g.tasks }

abbrev of_job_result : Option ℕ → TaskConnectionResult → Bool
of_job_result none r = false
of_job_result (some i) r = r.job_connection_result == i

-- "so remove partial results"; `self.tasks` is a manager, which always counts as true.
unfoldable pub remove_partial_results : Store → Store
unfolding delete_inspect_results
remove_partial_results st0 =
    let st = delete_inspect_results st0 in
    record st {
      tasks = [];
      inspect_groups = map (without_tasks st.tasks) st.inspect_groups;
      task_results =
          select (λ r. not (of_job_result (st.job).mem.connection_results r)) st.task_results;
      fingerprints = elim (st.job).mem.report [
        | none ↦ st.fingerprints
        | some _ ↦ elim st.fingerprints [ none ↦ none | some _ ↦ some [] ]
      ];
    }

abbrev pub new_task : Job → ℕ → ScanType → ℕ → Option ℕ → Option ℕ → List ℕ → Task
new_task j i ty sequence_number source connection_result prerequisites = record {
  id = i;
  scan_type = ty;
  status = pending;
  status_message = task_pending;
  prerequisites = prerequisites;
  job_id = j.id;
  systems_count = 0;
  systems_scanned = 0;
  systems_failed = 0;
  systems_unreachable = 0;
  sequence_number = sequence_number;
  start_time = none;
  end_time = none;
  source = source;
  connection_result = connection_result;
}

abbrev or_zero : Option ℕ → ℕ
or_zero none = 0
or_zero (some i) = i

-- One round of `_create_inspection_tasks`: the connection result of the task, then the task.
unfoldable pub create_inspection : ℕ → ℕ → Store → Store
create_inspection index source st =
    let result : TaskConnectionResult = record {
      id = st.next_id;
      job_connection_result = or_zero (st.job).mem.connection_results;
    } in
    record st {
      task_results = st.task_results ++ (result ∷ []);
      tasks =
          st.tasks
          ++ (new_task (st.job).mem (suc st.next_id) inspect index (some source) (some st.next_id)
                []
              ∷ []);
      next_id = suc (suc st.next_id);
    }

unfoldable pub create_inspections : ℕ → List ℕ → Store → Store
unfolding create_inspection
create_inspections index [] st = st
create_inspections index (s ∷ ss) st =
    create_inspections (suc index) ss (create_inspection index s st)

-- `_create_fingerprint_task`: where it has something to wait for or is all that the job has to do.
abbrev pub create_fingerprint_task : Job → List ℕ → Store → Store
create_fingerprint_task j inspect_tasks st =
    let task =
      new_task j st.next_id fingerprint (length inspect_tasks + 1) none none inspect_tasks in
    if j.scan_type == fingerprint || not (length inspect_tasks == 0)
    then record st { tasks = st.tasks ++ (task ∷ []); next_id = suc st.next_id }
    else st

abbrev pub task_ids : List Task → List ℕ
task_ids = map (λ (t : Task). t.id)

-- `_create_pending_tasks`, of a job that has no tasks at this point.
abbrev pub create_if : Job → Store → Bool → Store
create_if j st true =
    let st' = create_inspections 0 j.sources st in
    create_fingerprint_task j (task_ids st'.tasks) st'
create_if j st false = create_fingerprint_task j [] st

unfoldable pub create_pending_tasks : Store → Store
unfolding create_inspections
create_pending_tasks st = create_if (st.job).mem st ((st.job).mem.scan_type == inspect)

abbrev note_sources : List ℕ → ℕ → Dict ℕ ℕ → Dict ℕ ℕ
note_sources [] i d = d
note_sources (s ∷ ss) i d = note_sources ss i (insert s i d)

-- "this job runs an actual scan": the scan and the sources note it.
abbrev noted : ℕ → Option ScanRow → Option ScanRow
noted i none = none
noted i (some scan) = some (record scan { most_recent_scanjob = some i })

unfoldable pub note_scan : Store → Store
note_scan st =
    let j = (st.job).mem in
    if j.scan_type == fingerprint then st else record st {
      scan = noted j.id st.scan;
      most_recent_connect_scan = note_sources j.sources j.id st.most_recent_connect_scan;
    }

unfoldable pub queue : Store → Store
unfolding validate_status_change
queue st0 =
    let st = copy_scan_details st0 in
    let has_error = validate_status_change pending (created ∷ []) (st.job).mem in
    let ready = remove_partial_results (ensure_connection_results st) in
    let st' = note_scan (create_pending_tasks ready) in
    if has_error
    then st
    else change_job (λ j. record j { status = pending; status_message = job_pending }) st'

-- ===== src/Scan/Queue/Created.antt =====
-- The tasks of a job that has been queued.
use quipucords.Prelude.{
  ℕ, suc, ◌+◌, Bool, true, false, not, ◌||◌, ◌≡◌, refl, sym, ap, ◌∙◌, none, some, List, [], ◌∷◌,
  ◌++◌, map, ◌==◌, nat_eq, if◌then◌else◌, length, append_assoc, append_nil, length-map, arith,
}
use mathlib.Core.Path.{subst}
use quipucords.Scan.Status.{job_pending, created, pending, status_eq, inspect, fingerprint, type_eq}
use quipucords.Scan.Task.{Task}
use quipucords.Scan.Job.{Job, validate_status_change}
use quipucords.Scan.Queue.{
  Store, change_job, copy_scan_details, ensure_connection_results, remove_partial_results, new_task,
  create_inspection, create_inspections, create_fingerprint_task, create_if, task_ids,
  create_pending_tasks, note_scan, queue,
}

-- One pending inspection for each source, in order and with consecutive sequence numbers.
abbrev pub Inspections : ℕ → ℕ → List ℕ → List Task → Type 0
Inspections job index [] [] = Unit
Inspections job index (s ∷ ss) (t ∷ ts) =
    (t.source ≡ some s)
    × (t.scan_type ≡ inspect)
    × (t.status ≡ pending)
    × (t.job_id ≡ job)
    × (t.sequence_number ≡ index)
    × Inspections job (suc index) ss ts
Inspections job index _ _ = ⊥

-- The tasks that the loop adds, for a job, the ids from `n` on.
abbrev made : Job → ℕ → ℕ → List ℕ → List Task
made j n index [] = []
made j n index (s ∷ ss) =
    new_task j (suc n) inspect index (some s) (some n) [] ∷ made j (suc (suc n)) (suc index) ss

made-Inspections :
    (j : Job) (n index : ℕ) (ss : List ℕ) → Inspections j.id index ss (made j n index ss)
made-Inspections j n index [] = tt
made-Inspections j n index (s ∷ ss) =
    (refl, refl, refl, refl, refl, made-Inspections j (suc (suc n)) (suc index) ss)

length-made : (j : Job) (n index : ℕ) (ss : List ℕ) → length (made j n index ss) ≡ length ss
length-made j n index [] = refl
length-made j n index (s ∷ ss) = ap suc (length-made j (suc (suc n)) (suc index) ss)

create_inspections-made :
    (index : ℕ) (ss : List ℕ) (st : Store)
    → ((create_inspections index ss st).tasks ≡ st.tasks ++ made (st.job).mem st.next_id index ss)
      × ((create_inspections index ss st).job ≡ st.job)
unfolding create_inspections
create_inspections-made index [] st = (sym (append_nil st.tasks), refl)
create_inspections-made index (s ∷ ss) st =
    let (tasks, same) = create_inspections-made (suc index) ss (create_inspection index s st) in
    (
      tasks ∙ append_assoc st.tasks _ (made (st.job).mem (suc (suc st.next_id)) (suc index) ss),
      same,
    )

always : (b : Bool) (n : ℕ) → (b || not (suc n == 0)) ≡ true
always b n = ground arith

-- What `_create_pending_tasks` leaves of a job that scans at least one source.
pub data Created (j : Job) : List Task → Type 0 where
  all_created :
      (ts : List Task) (t : Task)
      → Inspections j.id 0 j.sources ts
      → t.scan_type ≡ fingerprint
      → t.status ≡ pending
      → t.sequence_number ≡ length j.sources + 1
      → t.prerequisites ≡ map (λ (u : Task). u.id) ts
      → Created j (ts ++ (t ∷ []))

create_fingerprint_task-Created :
    (j : Job) (st : Store) (s : ℕ) (ss : List ℕ)
    → Inspections j.id 0 j.sources st.tasks
    → length st.tasks ≡ length j.sources
    → j.sources ≡ s ∷ ss
    → Created j (create_fingerprint_task j (task_ids st.tasks) st).tasks
create_fingerprint_task-Created j st s ss good count some_sources =
    let n = length-map (λ (t : Task). t.id) st.tasks ∙ count in
    let task =
      new_task j st.next_id fingerprint (length (task_ids st.tasks) + 1) none none
        (task_ids st.tasks) in
    let waits : (j.scan_type == fingerprint || not (length (task_ids st.tasks) == 0)) ≡ true =
      ap (λ k. j.scan_type == fingerprint || not (k == 0)) (n ∙ ap length some_sources)
      ∙ always (j.scan_type == fingerprint) (length ss) in
    subst
      (λ b.
        Created j
          (if b
            then record st { tasks = st.tasks ++ (task ∷ []); next_id = suc st.next_id }
            else st).tasks)
      (sym waits) (all_created st.tasks task good refl refl (ap (λ k. k + 1) n) refl)

create_pending_tasks-Created :
    (st : Store) (s : ℕ) (ss : List ℕ)
    → st.tasks ≡ []
    → (st.job).mem.scan_type ≡ inspect
    → (st.job).mem.sources ≡ s ∷ ss
    → Created (st.job).mem (create_pending_tasks st).tasks
unfolding create_pending_tasks
create_pending_tasks-Created st s ss empty ty some_sources =
    let j = (st.job).mem in
    let after = create_inspections 0 j.sources st in
    let (tasks, same) = create_inspections-made 0 j.sources st in
    let these = tasks ∙ ap (λ ts. ts ++ made j st.next_id 0 j.sources) empty in
    let is_inspect : (j.scan_type == inspect) ≡ true = (type_eq.beq_iff j.scan_type inspect).1 ty in
    subst (λ b. Created j (create_if j st b).tasks) (sym is_inspect)
      (create_fingerprint_task-Created j after s ss
        (subst (Inspections j.id 0 j.sources) (sym these)
          (made-Inspections j st.next_id 0 j.sources))
        (ap length these ∙ length-made j st.next_id 0 j.sources) some_sources)

-- The job as it stands when its tasks are created.
abbrev ready : Store → Store
ready st = remove_partial_results (ensure_connection_results (copy_scan_details st))

ready_job :
    (st : Store)
    → let j = (copy_scan_details st).job.mem in
      let j' = (ready st).job.mem in
      ((ready st).tasks ≡ [])
      × (j'.scan_type ≡ j.scan_type)
      × (j'.sources ≡ j.sources)
      × (j'.id ≡ j.id)
unfolding remove_partial_results ensure_connection_results
ready_job st = ground arith

note_scan-tasks : (st : Store) → (note_scan st).tasks ≡ st.tasks
unfolding note_scan
note_scan-tasks st = ground arith

accepts_created :
    (j : Job) → j.status ≡ created → validate_status_change pending (created ∷ []) j ≡ false
unfolding validate_status_change
accepts_created j h = ground arith

-- The stored job is PENDING, and its tasks are those of a job with this id and these sources.
abbrev pub Queued : Job → Store → Type 0
Queued j st =
    ((st.job).row.status ≡ pending)
    × ((j' : Job) × (j'.id ≡ j.id) × (j'.sources ≡ j.sources) × Created j' st.tasks)

-- A CREATED inspection job that has a source when it is queued becomes PENDING, and has, whatever
-- tasks it had before, one pending inspection for each source and one fingerprint task that waits
-- for all of them.
pub queue-Created :
    (st : Store) (s : ℕ) (ss : List ℕ)
    → let j = (copy_scan_details st).job.mem in
      j.status ≡ created → j.scan_type ≡ inspect → j.sources ≡ s ∷ ss → Queued j (queue st)
unfolding queue
queue-Created st s ss is_created ty some_sources =
    let j = (copy_scan_details st).job.mem in
    let (no_tasks, same_type, same_sources, same_id) = ready_job st in
    let fine : validate_status_change pending (created ∷ []) j ≡ false =
      accepts_created j is_created in
    let tasks =
      create_pending_tasks-Created (ready st) s ss no_tasks (same_type ∙ ty)
        (same_sources ∙ some_sources) in
    let kept = note_scan-tasks (create_pending_tasks (ready st)) in
    let st' =
      change_job (λ j₁. record j₁ { status = pending; status_message = job_pending })
        (note_scan (create_pending_tasks (ready st))) in
    subst (λ b. Queued j (if b then copy_scan_details st else st')) (sym fine)
      (
        refl,
        (
          (ready st).job.mem,
          same_id,
          same_sources,
          subst (Created (ready st).job.mem) (sym kept) tasks,
        ),
      )

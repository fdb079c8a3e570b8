-- ===== src/Scan/Launch/Queued.antt =====
-- What Celery is asked to run for a job that has just been queued.
use mathlib.Core.Path.{subst}
use quipucords.Prelude.{
  ℕ, suc, String, ◌≡◌, refl, sym, ap, ◌∙◌, Bool, true, false, some, is_some, List, [], ◌∷◌, ◌++◌,
  All, arith, append_nil, length, select, if◌then◌else◌,
}
use quipucords.Scan.Status.{created, pending, inspect, fingerprint, type_eq, status_eq}
use quipucords.Scan.Task.{Task}
use quipucords.Scan.Job.{Job}
use quipucords.Scan.World.{ok}
use quipucords.Scan.Queue.{Store, copy_scan_details, queue}
use quipucords.Scan.Queue.Created.{Inspections, Created, all_created, queue-Created}
use quipucords.Scan.Launch.{Plan, plan, is_incomplete, first_id}
use quipucords.Scan.Launch.Plans.{Runs, Sourced, plan-Runs}

is_inspection :
    (t : Task)
    → t.status ≡ pending
    → t.scan_type ≡ inspect
    → (is_incomplete inspect t ≡ true) × (is_incomplete fingerprint t ≡ false)
is_inspection t h h' = ground arith

is_fingerprinting :
    (t : Task)
    → t.status ≡ pending
    → t.scan_type ≡ fingerprint
    → (is_incomplete inspect t ≡ false) × (is_incomplete fingerprint t ≡ true)
is_fingerprinting t h h' = ground arith

abbrev put_if : Task → List Task → Bool → List Task
put_if t ts b = if b then t ∷ ts else ts

-- Pending inspections are unfinished, are no fingerprint tasks, and have their sources.
select-Inspections :
    (job index : ℕ) (ss : List ℕ) (ts rest : List Task)
    → Inspections job index ss ts
    → (select (is_incomplete inspect) (ts ++ rest) ≡ ts ++ select (is_incomplete inspect) rest)
      × (select (is_incomplete fingerprint) (ts ++ rest) ≡ select (is_incomplete fingerprint) rest)
      × (All Sourced rest → All Sourced (ts ++ rest))
      × (length ts ≡ length ss)
select-Inspections job index [] [] rest h = (refl, refl, λ a. a, refl)
select-Inspections job index (s ∷ ss) (t ∷ ts) rest h =
    let (kept, dropped) = is_inspection t h.2 h.1 in
    let (own, others, sourced, count) = select-Inspections job (suc index) ss ts rest h.5 in
    (
      ap (put_if t (select (is_incomplete inspect) (ts ++ rest))) kept ∙ ap (λ l. t ∷ l) own,
      ap (put_if t (select (is_incomplete fingerprint) (ts ++ rest))) dropped ∙ others,
      λ a. (ap is_some h.0, sourced a),
      ap suc count,
    )
select-Inspections job index [] (t ∷ ts) rest h = absurd h
select-Inspections job index (s ∷ ss) [] rest h = absurd h

-- The tasks are inspections and one fingerprint task, and Celery is asked to run each of the
-- inspections once, as many as the job has sources, and then the fingerprint task.
abbrev pub Planned : (ℕ → String) → Job → Job → List Task → Type 0
Planned source_type j row us =
    (ts : List Task) × (t : Task) × (p : Plan) × (us ≡ ts ++ (t ∷ []))
    × (plan source_type row us ≡ ok p)
    × Runs ts p.chains
    × (length ts ≡ length j.sources)
    × (p.fingerprint_id ≡ some t.id)

plan-Created :
    (source_type : ℕ → String) (j j' row : Job) (us : List Task)
    → j'.sources ≡ j.sources
    → Created j' us
    → Planned source_type j row us
plan-Created source_type j j' row us same (all_created ts t good ty st n pre) =
    let (own, others, sourced, count) = select-Inspections j'.id 0 j'.sources ts (t ∷ []) good in
    let (left_out, taken) = is_fingerprinting t st ty in
    let alone = (select-Inspections j'.id 0 j'.sources ts [] good).2 tt in
    let own' = own ∙ ap (λ l. ts ++ l) (ap (put_if t []) left_out) ∙ append_nil ts in
    let (p, done, runs, id, _) =
      plan-Runs source_type row (ts ++ (t ∷ []))
        (subst (All Sourced) (sym own') (subst (All Sourced) (append_nil ts) alone)) in
    (
      ts,
      t,
      p,
      refl,
      done,
      subst (λ l. Runs l p.chains) own' runs,
      count ∙ ap length same,
      id ∙ ap first_id (others ∙ ap (put_if t []) taken),
    )

-- A CREATED inspection job that has a source when it is queued can then be run: each inspection
-- that was created for a source is run once, and the fingerprint task after them.
pub queue_then_plan :
    (source_type : ℕ → String) (st : Store) (s : ℕ) (ss : List ℕ)
    → (copy_scan_details st).job.mem.status ≡ created
    → (copy_scan_details st).job.mem.scan_type ≡ inspect
    → (copy_scan_details st).job.mem.sources ≡ s ∷ ss
    → Planned source_type (copy_scan_details st).job.mem (queue st).job.row (queue st).tasks
queue_then_plan source_type st s ss is_created ty some_sources =
    let (_, made) = queue-Created st s ss is_created ty some_sources in
    let (j', _, same, tasks) = made in
    plan-Created source_type (copy_scan_details st).job.mem j' (queue st).job.row (queue st).tasks
      same tasks

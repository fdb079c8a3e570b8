-- ===== src/Scan/Job/Sums.antt =====
-- The counts of a job's systems.
use quipucords.Prelude.{ℕ, ◌≡◌, refl, List, arith, ◌==◌, select}
use quipucords.Scan.Status.{ScanType, type_eq}
use quipucords.Scan.Task.{Task}
use quipucords.Scan.Task.Writes.{SameCounts}
use quipucords.Scan.Job.{Job, JobState, Op, apply, sum_counts, sum_of}
use quipucords.Scan.Job.Tasks.{Rows, nil, cons, Kept, apply-Kept}

-- The sum of a counter over the rows of one type, as a plain recursion.
abbrev own_sum : ScanType → (Task → ℕ) → List Task → ℕ
own_sum ty f ts = sum_of f (select (λ t. t.scan_type == ty) ts)

own_sum-Rows :
    (o : Op) (ty : ScanType) (f : Task → ℕ)
    → ((t u : Task) → SameCounts u t → f u ≡ f t)
    → {ts us : List Task} → Rows (Kept o) ts us
    → own_sum ty f us ≡ own_sum ty f ts
own_sum-Rows o ty f same nil = refl
own_sum-Rows o ty f same (cons {t} {u} k r) =
    ground (arith, k.2, same t u k.4, own_sum-Rows o ty f same r)

-- No status method of a job changes its counts: what a job has counted survives a pause, a
-- restart, a cancellation and the end.
pub apply-sum_counts :
    (o : Op) (s : JobState) (j : Job) → sum_counts j (apply o s).0.tasks ≡ sum_counts j s.tasks
unfolding sum_counts
apply-sum_counts o s j = ground (
  arith,
  own_sum-Rows o j.scan_type (λ t. t.systems_count) (λ t u c. c.0) (apply-Kept o s),
  own_sum-Rows o j.scan_type (λ t. t.systems_scanned) (λ t u c. c.1) (apply-Kept o s),
  own_sum-Rows o j.scan_type (λ t. t.systems_failed) (λ t u c. c.2) (apply-Kept o s),
  own_sum-Rows o j.scan_type (λ t. t.systems_unreachable) (λ t u c. c.3) (apply-Kept o s),
)

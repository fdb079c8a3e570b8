-- ===== src/Scan/Celery/Finalize.antt =====
-- How `_finalize_scan` (quipucords/scanner/tasks.py) ends a scan job.
use quipucords.Prelude.{
  ℕ, ◌≡◌, ◌≢◌, ◌↔◌, ◌⊎◌, inl, inr, refl, true, false, List, [], ◌∷◌, arith, ◌==◌, any, all, All,
  Bool-cases, if◌then◌else◌,
}
use quipucords.Scan.Status.{Status, running, canceled, completed, failed, status_eq, is_final}
use quipucords.Scan.Task.{Task}
use quipucords.Scan.World.{World, ok, scan_job_is_canceled}
use quipucords.Scan.Celery.{finalize_scan}

-- Some row satisfies a predicate.
pub data Some (P : Task → Type 0) : List Task → Type 0 where
  first : {t : Task} {ts : List Task} → P t → Some P (t ∷ ts)
  later : {t : Task} {ts : List Task} → Some P ts → Some P (t ∷ ts)

abbrev pub HasStatus : Status → Task → Type 0
HasStatus s t = t.status ≡ s

Some-any :
    {s : Status} {ts : List Task} → Some (HasStatus s) ts → any (λ u. u.status == s) ts ≡ true
Some-any {s} (first {t} p) = ground (arith, status_eq.beq_iff t.status s)
Some-any (later p) = ground (arith, Some-any p)

any-Some :
    (s : Status) (ts : List Task) → any (λ u. u.status == s) ts ≡ true → Some (HasStatus s) ts
any-Some s [] h = cc
any-Some s (t ∷ ts) h = elim (Bool-cases (t.status == s)) [
  | inl e ↦ first ((status_eq.beq_iff t.status s).0 e)
  | inr e ↦ later (any-Some s ts (ground arith))
]

all-All : (s : Status) (ts : List Task) → all (λ u. u.status == s) ts ≡ true → All (HasStatus s) ts
all-All s [] h = tt
all-All s (t ∷ ts) h =
    ((status_eq.beq_iff t.status s).0 (ground arith), all-All s ts (ground arith))

All-all : (s : Status) (ts : List Task) → All (HasStatus s) ts → all (λ u. u.status == s) ts ≡ true
All-all s [] h = refl
All-all s (t ∷ ts) h = ground (arith, status_eq.beq_iff t.status s, All-all s ts h.1)

-- The end that the rows of the tasks call for.
abbrev verdict : List Task → Status
verdict [] = completed
verdict (t ∷ ts) =
    if all (λ u. u.status == canceled) (t ∷ ts)
    then canceled
    else if any (λ u. u.status == completed) (t ∷ ts)
    then completed
    else failed

finalize_scan-verdict :
    (now : ℕ) (w : World)
    → w.job.status ≡ running
    → scan_job_is_canceled w ≡ ok false
    → (finalize_scan now w).job.status ≡ verdict w.tasks
unfolding finalize_scan
finalize_scan-verdict now w run here = ground arith

not_both : (ts : List Task) → All (HasStatus canceled) ts → Some (HasStatus completed) ts → ⊥
not_both [] a p = elim p [ ]
not_both (t ∷ ts) a (first p) = cc (a.0, p)
not_both (t ∷ ts) a (later p) = not_both ts a.1 p

verdict-completed :
    (ts : List Task) → (verdict ts ≡ completed) ↔ ((ts ≡ []) ⊎ Some (HasStatus completed) ts)
verdict-completed [] = (λ _. inl refl, λ _. refl)
verdict-completed (t ∷ ts) = (to, from)
  where
    to : verdict (t ∷ ts) ≡ completed → ((t ∷ ts) ≡ []) ⊎ Some (HasStatus completed) (t ∷ ts)
    to h = inr (any-Some completed (t ∷ ts) (ground arith))

    from : ((t ∷ ts) ≡ []) ⊎ Some (HasStatus completed) (t ∷ ts) → verdict (t ∷ ts) ≡ completed
    from (inl e) = cc
    from (inr p) = elim (Bool-cases (all (λ u. u.status == canceled) (t ∷ ts))) [
      | inl a ↦ absurd (not_both (t ∷ ts) (all-All canceled (t ∷ ts) a) p)
      | inr b ↦ ground (arith, Some-any p)
    ]

verdict-canceled :
    (ts : List Task) → (verdict ts ≡ canceled) ↔ ((ts ≢ []) × All (HasStatus canceled) ts)
verdict-canceled [] = (λ h. cc, λ h. absurd (h.0 refl))
verdict-canceled (t ∷ ts) = (
  λ h. (λ e. cc, all-All canceled (t ∷ ts) (ground arith)),
  λ h. rw (All-all canceled (t ∷ ts) h.1),
)

-- The end of a running job that is found not canceled: COMPLETED exactly when it has no task or one
-- that completed; CANCELED exactly when it has tasks and all are canceled.
pub finalize_scan_verdict :
    (now : ℕ) (w : World)
    → w.job.status ≡ running
    → scan_job_is_canceled w ≡ ok false
    → (((finalize_scan now w).job.status ≡ completed)
        ↔ ((w.tasks ≡ []) ⊎ Some (HasStatus completed) w.tasks))
      × (((finalize_scan now w).job.status ≡ canceled)
          ↔ ((w.tasks ≢ []) × All (HasStatus canceled) w.tasks))
finalize_scan_verdict now w run here =
    rw (finalize_scan-verdict now w run here) (verdict-completed w.tasks, verdict-canceled w.tasks)

-- A running job has a final status after `finalize_scan`, also where asking whether it is canceled
-- raises an exception; a job that had one keeps it.
pub finalize_scan_ends :
    (now : ℕ) (w : World)
    → (w.job.status ≡ running → is_final (finalize_scan now w).job.status ≡ true)
      × (is_final w.job.status ≡ true → (finalize_scan now w).job.status ≡ w.job.status)
unfolding finalize_scan
finalize_scan_ends now w = ground arith

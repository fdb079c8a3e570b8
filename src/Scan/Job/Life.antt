-- ===== src/Scan/Job/Life.antt =====
-- A job over any sequence of calls of its status methods.
use quipucords.Prelude.{◌≡◌, refl, sym, ◌∙◌, Bool, true, false, List, [], ◌∷◌, arith}
use mathlib.Core.Path.{subst, subst₂, ap}
use quipucords.Scan.Status.{Status, is_final}
use quipucords.Scan.Job.{JobState, Op, start, restart, pause, cancel, fail, complete, apply}
use quipucords.Scan.Job.Transitions.{
  ◌⟶◌, stay, begin, target, apply-Outcome, apply_exactly, Outcome,
}

-- Calls made one after another on one instance; their results are not looked at.
unfoldable pub run_ops : List Op → JobState → JobState
run_ops [] s = s
run_ops (o ∷ os) s = run_ops os (apply o s).0

-- Memory and row have one status.
abbrev pub InStep : JobState → Type 0
InStep s = s.job.mem.status ≡ s.job.row.status

infix 40 ◌⟶*◌
pub data ◌⟶*◌ : Status → Status → Type 0 where
  here : (s : Status) → s ⟶* s
  then : {s t u : Status} → s ⟶ t → t ⟶* u → s ⟶* u

-- One call: memory and row stay in step, and the status follows the diagram.
apply-InStep : (o : Op) (s : JobState) → InStep s → InStep (apply o s).0
unfolding apply
apply-InStep (start now) s h = ground arith
apply-InStep restart s h = ground arith
apply-InStep pause s h = ground arith
apply-InStep (cancel now) s h = ground arith
apply-InStep (complete now) s h = ground arith
apply-InStep (fail now m) s h = ground arith

edge_of :
    (o : Op) (s : JobState) (r : JobState × Bool)
    → InStep s
    → Outcome o s r
    → (r.1 ≡ true → s.job.mem.status ⟶ target o)
    → s.job.row.status ⟶ (r.0).job.row.status
edge_of o s (s', true) h out e = subst₂ ◌⟶◌ h (sym out.0) (e refl)
edge_of o s (s', false) h out e =
    subst (λ j. s.job.row.status ⟶ j.status) (sym out.0) (stay s.job.row.status)

-- Where the status of the job's instance is the stored one at first, any sequence of calls of its six
-- `status_...` methods, of which `queue` is none, moves the stored status along the diagram only.
pub run_ops-⟶* :
    (os : List Op) (s : JobState) → InStep s → s.job.row.status ⟶* (run_ops os s).job.row.status
unfolding run_ops
run_ops-⟶* [] s h = here _
run_ops-⟶* (o ∷ os) s h =
    then (edge_of o s (apply o s) h (apply-Outcome o s) (apply_exactly o s).0)
      (run_ops-⟶* os (apply o s).0 (apply-InStep o s h))

final_⟶ : {a b : Status} → a ⟶ b → is_final a ≡ true → b ≡ a
final_⟶ (stay s) h = refl
final_⟶ begin h = cc
final_⟶ _ h = cc

final_⟶* : {a b : Status} → a ⟶* b → is_final a ≡ true → b ≡ a
final_⟶* (here s) h = refl
final_⟶* (then e es) h = let same = final_⟶ e h in final_⟶* es (ap is_final same ∙ h) ∙ same

-- A job stored as canceled, completed or failed keeps its status over any sequence of calls on an
-- instance that has the same status at first.
pub final_absorbs :
    (os : List Op) (s : JobState)
    → InStep s
    → is_final s.job.row.status ≡ true
    → (run_ops os s).job.row.status ≡ s.job.row.status
final_absorbs os s h f = final_⟶* (run_ops-⟶* os s h) f

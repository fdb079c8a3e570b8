-- ===== src/Scan/Status.antt =====
-- The states and types of scan jobs and tasks (quipucords/api/scantask/model.py), and the status
-- messages that they are given (quipucords/api/messages.py and the callers' f-strings).
use quipucords.Prelude.{
  ℕ, String, ◌≡◌, ◌↔◌, Bool, true, false, ◌||◌, Option, none, some, arith, Eq, nat_beq, ◌==◌,
  if◌then◌else◌, string_eq,
}

-- `ScanTask.STATUS_CHOICES`, which jobs share.
pub data Status : Type 0 where
  created pending running paused canceled completed failed : Status

-- `ScanTask.SCANTASK_TYPE_CHOICES`.
pub data ScanType : Type 0 where
  inspect fingerprint : ScanType

abbrev status_index : Status → ℕ
status_index created = 0
status_index pending = 1
status_index running = 2
status_index paused = 3
status_index canceled = 4
status_index completed = 5
status_index failed = 6

abbrev pub status_beq : Status → Status → Bool
status_beq a b = nat_beq (status_index a) (status_index b)

pub status_beq_iff : (a b : Status) → (status_beq a b ≡ true) ↔ (a ≡ b)
status_beq_iff a b = ground arith

instance abbrev pub status_eq : Eq Status
status_eq = record { beq = status_beq; beq_iff = status_beq_iff }

abbrev pub type_beq : ScanType → ScanType → Bool
type_beq inspect inspect = true
type_beq fingerprint fingerprint = true
type_beq _ _ = false

pub type_beq_iff : (a b : ScanType) → (type_beq a b ≡ true) ↔ (a ≡ b)
type_beq_iff a b = ground arith

instance abbrev pub type_eq : Eq ScanType
type_eq = record { beq = type_beq; beq_iff = type_beq_iff }

-- A status message, by the template that it is formatted from and the values put in.
pub data Message : Type 0 where
  job_created job_running job_pending job_paused job_canceled job_completed : Message
  task_running task_restarted task_pending task_paused task_canceled task_completed : Message
  -- "ScanJob failed to transition to running state."
  not_started : Message
  -- "No facts gathered from scan."
  no_facts : Message
  -- "None of the tasks completed"
  none_completed : Message
  -- "Unexpected failure occurred. See context below. ..."
  unexpected_context : ℕ → Message
  -- "Unexpected failure in {func.__name__}. Check logs for details."
  unexpected_in : String → Message
  -- "FATAL ERROR. {error}"
  fatal : String → Message
  -- "ScanTask {sequence_number} failed. Scan task must return ..."
  bad_return : ℕ → Status → Option String → Message
  -- What a task runner returned: a text or `None`.
  text : String → Message
  absent : Message

-- A message that counts as true: `None` and the empty text do not.
abbrev pub given : Option String → Option String
given none = none
given (some s) = if s == "" then none else some s

abbrev pub to_message : Option String → Message
to_message none = absent
to_message (some s) = text s

-- `FAILED`, `CANCELED` and `COMPLETED`, which the job's methods leave alone.
abbrev pub is_final : Status → Bool
is_final s = s == failed || s == canceled || s == completed

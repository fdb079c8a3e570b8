-- ===== src/Scan/Task/Writes.antt =====
-- The status methods of `ScanTask`: what each writes to the row, and what it overwrites.
use quipucords.Prelude.{ℕ, String, ◌≡◌, refl, Option}
use quipucords.Scan.Handle.{Handle}
use quipucords.Scan.Status.{Message}
use quipucords.Scan.Task.{Task, status_complete, status_fail}

-- The counters of a task.
abbrev pub SameCounts : Task → Task → Type 0
SameCounts a b =
    (a.systems_count ≡ b.systems_count)
    × (a.systems_scanned ≡ b.systems_scanned)
    × (a.systems_failed ≡ b.systems_failed)
    × (a.systems_unreachable ≡ b.systems_unreachable)

-- A completion reads the row first; a failure writes the instance in memory over it.
pub finish_counts :
    (now : ℕ) (m : Option String) (e : Message) (h : Handle Task)
    → SameCounts (status_complete now m h).row h.row × SameCounts (status_fail now e h).row h.mem
unfolding status_complete status_fail
finish_counts now m e h = ((refl, refl, refl, refl), (refl, refl, refl, refl))

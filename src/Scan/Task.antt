-- ===== src/Scan/Task.antt =====
-- `ScanTask` (quipucords/api/scantask/model.py): one source's part of a scan job. Logging is left
-- out; `now` is the clock's reading.
pub mod Writes
pub mod Stats
use quipucords.Prelude.{
  ℕ, String, ◌+◌, Bool, true, false, ◌||◌, not, Option, none, some, List, ◌==◌, if◌then◌else◌, ◌&&◌,
  nat_eq,
}
use quipucords.Scan.Status.{
  Status, running, pending, paused, canceled, completed, failed, ScanType, Message, task_running,
  task_restarted, task_paused, task_canceled, task_completed, text, given,
}
use quipucords.Scan.Handle.{Handle, save, refresh_from_db, assign}

pub record Task : Type 0 where
  pub id : ℕ
  pub scan_type : ScanType
  pub status : Status
  pub status_message : Message
  pub prerequisites : List ℕ
  pub job_id : ℕ
  pub systems_count : ℕ
  pub systems_scanned : ℕ
  pub systems_failed : ℕ
  pub systems_unreachable : ℕ
  pub sequence_number : ℕ
  pub start_time : Option ℕ
  pub end_time : Option ℕ
  pub source : Option ℕ
  pub connection_result : Option ℕ

unfoldable pub status_start : ℕ → Handle Task → Handle Task
status_start now h = save (
    assign
      (λ t. record t { start_time = some now; status = running; status_message = task_running }) h)

unfoldable pub status_restart : Handle Task → Handle Task
status_restart h =
    save (assign (λ t. record t { status = pending; status_message = task_restarted }) h)

unfoldable pub status_pause : Handle Task → Handle Task
status_pause h = save (assign (λ t. record t { status = paused; status_message = task_paused }) h)

unfoldable pub status_cancel : ℕ → Handle Task → Handle Task
status_cancel now h = save (
    assign
      (λ t. record t { end_time = some now; status = canceled; status_message = task_canceled }) h)

-- The message of a completed task: the caller's, or the default.
abbrev completion : Option String → Message
completion none = task_completed
completion (some m) = text m

-- `status_complete` reads the row first.
unfoldable pub status_complete : ℕ → Option String → Handle Task → Handle Task
status_complete now message h = save (
    assign
      (λ t. record t {
        end_time = some now;
        status = completed;
        status_message = completion (given message);
      })
      (refresh_from_db h))

-- `status_fail` does not.
unfoldable pub status_fail : ℕ → Message → Handle Task → Handle Task
status_fail now message h =
    save
      (assign (λ t. record t { end_time = some now; status = failed; status_message = message }) h)

-- `if value is not None and value != old`: whether an argument of `update_stats` changes a field.
abbrev pub changes : Option ℕ → ℕ → Bool
changes none old = false
changes (some v) old = not (v == old)

abbrev pub updated : Option ℕ → ℕ → ℕ
updated none old = old
updated (some v) old = v

-- `None` for a count that is not reported.
unfoldable pub update_stats :
    (sys_count sys_scanned sys_failed sys_unreachable : Option ℕ) → Handle Task → Handle Task
update_stats c s f u h0 =
    let h = refresh_from_db h0 in
    let h' =
      assign
        (λ t. record t {
          systems_count = updated c t.systems_count;
          systems_scanned = updated s t.systems_scanned;
          systems_failed = updated f t.systems_failed;
          systems_unreachable = updated u t.systems_unreachable;
        })
        h in
    let stats_changed =
      changes c h.mem.systems_count
      || changes s h.mem.systems_scanned
      || changes f h.mem.systems_failed
      || changes u h.mem.systems_unreachable in
    if stats_changed then save h' else h'

abbrev bump : Bool → ℕ → ℕ
bump b n = if b then n + 1 else n

-- `F("systems_count") + 1` and so on: the update is made on the row, and memory is read back.
abbrev pub increment_row : (sys_count sys_scanned sys_failed sys_unreachable : Bool) → Task → Task
increment_row c s f u t = record t {
  systems_count = bump c t.systems_count;
  systems_scanned = bump s t.systems_scanned;
  systems_failed = bump f t.systems_failed;
  systems_unreachable = bump u t.systems_unreachable;
}

unfoldable pub increment_stats :
    (sys_count sys_scanned sys_failed sys_unreachable : Bool) → Handle Task → Handle Task
increment_stats c s f u h =
    if c || s || f || u then refresh_from_db (record h { row = increment_row c s f u h.row }) else h

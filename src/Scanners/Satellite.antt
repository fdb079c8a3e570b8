-- ===== src/Scanners/Satellite.antt =====
-- `data_map`, `status` and `validate_task_stats` (quipucords/scanner/satellite/utils.py). The answer of
-- the server is an argument.
pub mod Pages
use quipucords.Prelude.{
  ℕ, ◌+◌, String, ◌≡◌, not, Option, none, some, [], ◌∷◌, ◌==◌, nat_eq, string_eq, if◌then◌else◌,
  arith,
}
use quipucords.Prelude.Dict.{Dict, insert}
use quipucords.Json.{Value}
use quipucords.Products.Values.{Facts, get}
use quipucords.Scan.Handle.{Handle, fetch}
use quipucords.Scan.Task.{Task, update_stats}

abbrev map_keys : Dict String String → Facts → Facts → Facts
map_keys [] response out = out
map_keys ((key, mapping_key) ∷ rest) response out =
    map_keys rest response (insert key (get mapping_key response) out)

-- The data of the response under the names of the mapping; nothing of an empty response.
unfoldable pub data_map : Dict String String → Facts → Facts
data_map mapping [] = []
data_map mapping (d ∷ response) = map_keys mapping (d ∷ response) []

-- The outcome of `_status6`: a code with the version of the API, or one of its two exceptions.
pub data StatusCheck : Type 0 where
  reached : ℕ → Value → StatusCheck
  satellite_auth_error satellite_error : StatusCheck

unfoldable pub status6 : ℕ → Facts → StatusCheck
status6 status_code body =
    if status_code == 200
    then reached status_code (get "api_version" body)
    else if status_code == 401
    then satellite_auth_error
    else satellite_error

-- What `status` returns, `none` for three times `None`, or that `SatelliteAuthError` leaves it.
pub data Answer : Type 0 where
  answer : Option (ℕ × Value) → Answer
  raised_auth_error : Answer

-- Only `SatelliteError` is caught; `SatelliteAuthError` is no subclass of it.
unfoldable pub status : ℕ → Facts → Answer
status status_code body = elim (status6 status_code body) [
  | reached code version ↦ answer (some (code, version))
  | satellite_auth_error ↦ raised_auth_error
  | satellite_error ↦ answer none
]

abbrev pub found_total : Task → ℕ
found_total t = t.systems_scanned + t.systems_failed + t.systems_unreachable

unfoldable pub validate_task_stats : Handle Task → Handle Task
validate_task_stats h =
    let totals = found_total h.mem in
    if not (totals == (h.mem).systems_count) then update_stats (some totals) none none none h else h

-- After `validate_task_stats` of an instance that is up to date, the row counts exactly the systems
-- that were scanned, failed or were unreachable, and those three counts are as before.
pub validate_task_stats-consistent :
    (t : Task)
    → (((validate_task_stats (fetch t)).row).systems_count
        ≡ found_total (validate_task_stats (fetch t)).row)
      × (((validate_task_stats (fetch t)).row).systems_scanned ≡ t.systems_scanned)
      × (((validate_task_stats (fetch t)).row).systems_failed ≡ t.systems_failed)
      × (((validate_task_stats (fetch t)).row).systems_unreachable ≡ t.systems_unreachable)
unfolding validate_task_stats update_stats
validate_task_stats-consistent t = ground arith

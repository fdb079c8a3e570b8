-- ===== src/Examples/Scanners.antt =====
-- Groups of hosts, and the counters of a Satellite task.
use quipucords.Prelude.{String, ◌≡◌, refl, List, [], ◌∷◌, All, arith}
use quipucords.Fingerprint.Model.{ok}
use quipucords.Scanners.Inventory.{concurrency_groups}
use quipucords.Scanners.Inventory.Groups.{concat, Fits, concurrency_groups-Fits}

abbrev hosts : List String
hosts = "a" ∷ "b" ∷ "c" ∷ []

concurrency_groups-Fits_example :
    (groups : List (List String)) × (concurrency_groups 2 hosts ≡ ok groups)
    × (concat groups ≡ hosts)
    × All (Fits 2) groups
concurrency_groups-Fits_example = concurrency_groups-Fits 2 hosts (omega arith)

two_groups : concurrency_groups 2 hosts ≡ ok (("a" ∷ "b" ∷ []) ∷ ("c" ∷ []) ∷ [])
unfolding concurrency_groups
two_groups = refl

-- ===== src/Scan/Handle.antt =====
-- A Django model instance: the fields in memory, and the row that it was loaded from. Assignments
-- change memory only; `save` writes every field to the row, whatever the row has become.
use quipucords.Prelude.{◌≡◌}

pub record Handle (A : Type 0) : Type 0 where
  pub mem : A
  pub row : A

module _ {A : Type 0} where
  -- `Model.objects.get(...)`
  abbrev pub fetch : A → Handle A
  fetch a = record { mem = a; row = a }

  abbrev pub save : Handle A → Handle A
  save h = fetch h.mem

  abbrev pub refresh_from_db : Handle A → Handle A
  refresh_from_db h = fetch h.row

  abbrev pub assign : (A → A) → Handle A → Handle A
  assign f h = record { mem = f h.mem; row = h.row }

  -- Memory and row agree.
  abbrev pub IsSynced : Handle A → Type 0
  IsSynced h = h.mem ≡ h.row

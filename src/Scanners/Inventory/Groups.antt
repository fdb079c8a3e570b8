-- ===== src/Scanners/Inventory/Groups.antt =====
-- The groups of hosts that are scanned at the same time.
use quipucords.Prelude.{
  take, drop, take-drop, length-take, length-drop, ℕ, zero, suc, ◌≤◌, ◌<◌, ◌≡◌, refl, ◌∙◌, ap, List,
  [], ◌∷◌, ◌++◌, length, All, arith,
}
use quipucords.Fingerprint.Model.{ok}
use quipucords.Scanners.Inventory.{slices, concurrency_groups}

module _ {ℓ} {A : Type ℓ} where
  abbrev pub concat : List (List A) → List A
  concat [] = []
  concat (g ∷ gs) = g ++ concat gs

  -- A group is not empty and not larger than the number of concurrent scans.
  abbrev pub Fits : ℕ → List A → Type 0
  Fits count g = (0 < length g) × (length g ≤ count)

  concat-slices :
      (fuel c : ℕ) (xs : List A) → length xs ≤ fuel → concat (slices fuel (suc c) xs) ≡ xs
  concat-slices fuel c [] h = refl
  concat-slices zero c (x ∷ xs) h = absurd (omega arith)
  concat-slices (suc fuel) c (x ∷ xs) h =
      ap (λ l. x ∷ (take c xs ++ l))
        (concat-slices fuel c (drop c xs) (omega (arith, length-drop c xs)))
      ∙ ap (◌∷◌ x) (take-drop c xs)

  slices-Fits : (fuel c : ℕ) (xs : List A) → All (Fits (suc c)) (slices fuel (suc c) xs)
  slices-Fits fuel c [] = tt
  slices-Fits zero c (x ∷ xs) = tt
  slices-Fits (suc fuel) c (x ∷ xs) =
      ((omega arith, omega (arith, length-take c xs)), slices-Fits fuel c (drop c xs))

  -- For a positive number of concurrent scans the groups are made, and one after another they are the
  -- hosts in their order, each in one group; no group is empty or larger than that number.
  pub concurrency_groups-Fits :
      (count : ℕ) (hosts : List A)
      → 0 < count
      → (groups : List (List A)) × (concurrency_groups count hosts ≡ ok groups)
        × (concat groups ≡ hosts)
        × All (Fits count) groups
  unfolding concurrency_groups
  concurrency_groups-Fits zero hosts h = absurd (omega arith)
  concurrency_groups-Fits (suc c) hosts h = (
    slices (length hosts) (suc c) hosts,
    refl,
    concat-slices (length hosts) c hosts (omega arith),
    slices-Fits (length hosts) c hosts,
  )

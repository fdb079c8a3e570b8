-- ===== src/Reports/Dates.antt =====
-- `average_date` (quipucords/utils/datetime.py). A date is the number of its day, and
-- the quotient is exact where the code's is a float.
use quipucords.Prelude.{
  ℕ, suc, ◌+◌, ◌*◌, ◌-◌, ◌≤◌, ◌<◌, ◌≡◌, refl, Option, none, some, List, [], ◌∷◌, length, ltb,
  if◌then◌else◌, arith, All,
}
use Prim.Native.Nat.{◌/◌}
use native.Mathlib.Nat.{suc-mul, mul_comm, div-lt_iff_lt-mul}

abbrev pub oldest : ℕ → List ℕ → ℕ
oldest d [] = d
oldest d (e ∷ dates) = oldest (if ltb e d then e else d) dates

abbrev pub sum_since : ℕ → List ℕ → ℕ
sum_since start [] = 0
sum_since start (d ∷ dates) = (d - start) + sum_since start dates

-- The average number of days since the oldest date, without its fraction, after the oldest date.
unfoldable pub average_date : List ℕ → Option ℕ
average_date [] = none
average_date (d ∷ dates) =
    let first = oldest d dates in some (first + sum_since first (d ∷ dates) / length (d ∷ dates))

oldest_le : (d : ℕ) (dates : List ℕ) → (oldest d dates ≤ d) × All (λ e. oldest d dates ≤ e) dates
oldest_le d [] = (omega arith, tt)
oldest_le d (e ∷ dates) =
    let r = oldest_le (if ltb e d then e else d) dates in
    (ground (arith, r.0), (ground (arith, r.0), r.1))

sum_since_le :
    (start top : ℕ) (dates : List ℕ)
    → All (λ e. e ≤ top) dates
    → sum_since start dates ≤ length dates * (top - start)
sum_since_le start top [] h = omega arith
sum_since_le start top (d ∷ dates) h =
    omega (arith, suc-mul (length dates) (top - start), sum_since_le start top dates h.1, h.0)

-- The average of dates is not before the oldest, and not after a day that none of them is after.
pub average_date-bounds :
    (d : ℕ) (dates : List ℕ) (top : ℕ)
    → All (λ e. e ≤ top) (d ∷ dates)
    → (average : ℕ) × (average_date (d ∷ dates) ≡ some average)
      × (oldest d dates ≤ average)
      × (average ≤ top)
unfolding average_date
average_date-bounds d dates top h =
    let first = oldest d dates in
    let k = length (d ∷ dates) in
    let t = top - first in
    let sum = sum_since first (d ∷ dates) in
    let enough : sum < suc t * k =
      omega (arith, sum_since_le first top (d ∷ dates) h, suc-mul t k, mul_comm k t) in
    let less : sum / k < suc t =
      (div-lt_iff_lt-mul {k = k} {x = sum} {y = suc t} (omega arith)).1 enough in
    (first + sum / k, refl, omega arith, omega (arith, less, (oldest_le d dates).0, h.0))

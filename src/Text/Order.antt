-- ===== src/Text/Order.antt =====
-- The order of texts: it is total, and a text comes right before those that start with it.
use quipucords.Prelude.{ℕ, ◌≡◌, refl, true, ◌||◌, List, [], ◌∷◌, arith}
use quipucords.Text.{codes_le, begins}

pub codes_le_refl : (a : List ℕ) → codes_le a a ≡ true
codes_le_refl [] = refl
codes_le_refl (x ∷ a) = ground (arith, codes_le_refl a)

pub codes_le_total : (a b : List ℕ) → (codes_le a b || codes_le b a) ≡ true
codes_le_total [] b = refl
codes_le_total (x ∷ a) [] = refl
codes_le_total (x ∷ a) (y ∷ b) = ground (arith, codes_le_total a b)

pub codes_le_trans :
    (a b c : List ℕ) → codes_le a b ≡ true → codes_le b c ≡ true → codes_le a c ≡ true
codes_le_trans [] b c h k = refl
codes_le_trans (x ∷ a) (y ∷ b) (z ∷ c) h k = ground (arith, codes_le_trans a b c)
codes_le_trans (x ∷ a) [] c h k = cc h
codes_le_trans (x ∷ a) (y ∷ b) [] h k = cc k

pub codes_le_antisymm : (a b : List ℕ) → codes_le a b ≡ true → codes_le b a ≡ true → a ≡ b
codes_le_antisymm [] [] h k = refl
codes_le_antisymm [] (y ∷ b) h k = cc k
codes_le_antisymm (x ∷ a) [] h k = cc h
codes_le_antisymm (x ∷ a) (y ∷ b) h k = ground (arith, codes_le_antisymm a b)

pub begins_le : (a b : List ℕ) → begins a b ≡ true → codes_le a b ≡ true
begins_le [] b h = refl
begins_le (x ∷ a) [] h = cc h
begins_le (x ∷ a) (y ∷ b) h = ground (arith, begins_le a b)

-- Whatever lies between a text and one that starts with it starts with it too.
pub begins_between :
    (a b c : List ℕ)
    → codes_le a b ≡ true
    → codes_le b c ≡ true
    → begins a c ≡ true
    → begins a b ≡ true
begins_between [] b c h k p = refl
begins_between (x ∷ a) [] c h k p = cc h
begins_between (x ∷ a) (y ∷ b) [] h k p = cc k
begins_between (x ∷ a) (y ∷ b) (z ∷ c) h k p = ground (arith, begins_between a b c)

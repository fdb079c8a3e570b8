-- ===== src/Products/Versions.antt =====
-- `version_aware_dedup` (quipucords/fingerprinter/jboss_eap.py). `sorted` is insertion sort here, and
-- `bisect_right` of an ascending list counts the elements up to the given one; the set that is
-- returned is a list without repetitions.
use quipucords.Prelude.{
  ℕ, zero, suc, String, ◌≡◌, refl, sym, ◌∙◌, ap, Bool, true, false, not, ◌&&◌, ◌||◌, Option, none,
  some, List, [], ◌∷◌, ◌++◌, arith, ◌==◌, string_eq, if◌then◌else◌, any, contains, Bool-cases, inl,
  inr, ==_refl, contains-append,
}
use mathlib.Core.Path.{subst}
use mathlib.Core.Bool.{false≢true}
use quipucords.Text.{sorted, sorted_insert, text_le, codes, codes_injective, begins}
use quipucords.Text.Order.{
  codes_le_refl, codes_le_total, codes_le_trans, codes_le_antisymm, begins_le, begins_between,
}

-- `t.startswith(s)`
abbrev pub starts : String → String → Bool
starts s t = begins (codes s) (codes t)

abbrev pub bisect_right : List String → String → ℕ
bisect_right [] v = 0
bisect_right (w ∷ ws) v = if text_le w v then suc (bisect_right ws v) else 0

abbrev pub get_elem? : ℕ → List String → Option String
get_elem? i [] = none
get_elem? zero (w ∷ ws) = some w
get_elem? (suc i) (w ∷ ws) = get_elem? i ws

-- Whether the entry at an index is there and starts with a version.
abbrev pub more_precise : String → Option String → Bool
more_precise v none = false
more_precise v (some w) = starts v w

-- `deduped.add(v)`
abbrev pub add_to_set : String → List String → List String
add_to_set v vs = if contains v vs then vs else vs ++ (v ∷ [])

-- One round of the loop: the entry right of the version's last place is looked at.
abbrev pub is_superseded : List String → String → Bool
is_superseded in_order v = more_precise v (get_elem? (bisect_right in_order v) in_order)

abbrev pub add_unless : Bool → String → List String → List String
add_unless true v deduped = deduped
add_unless false v deduped = add_to_set v deduped

abbrev pub dedup_loop : List String → List String → List String → List String
dedup_loop in_order [] deduped = deduped
dedup_loop in_order (v ∷ vs) deduped =
    dedup_loop in_order vs (add_unless (is_superseded in_order v) v deduped)

unfoldable pub version_aware_dedup : List String → List String
version_aware_dedup versions = let in_order = sorted versions in dedup_loop in_order in_order []

contains-sorted_insert :
    (a v : String) (vs : List String) → contains a (sorted_insert v vs) ≡ (v == a || contains a vs)
contains-sorted_insert a v [] = refl
contains-sorted_insert a v (w ∷ ws) = ground (arith, contains-sorted_insert a v ws)

contains-sorted : (a : String) (vs : List String) → contains a (sorted vs) ≡ contains a vs
contains-sorted a [] = refl
contains-sorted a (v ∷ vs) =
    ground (arith, contains-sorted_insert a v (sorted vs), contains-sorted a vs)

any-sorted_insert :
    (p : String → Bool) (v : String) (vs : List String)
    → any p (sorted_insert v vs) ≡ (p v || any p vs)
any-sorted_insert p v [] = refl
any-sorted_insert p v (w ∷ ws) = ground (arith, any-sorted_insert p v ws)

any-sorted : (p : String → Bool) (vs : List String) → any p (sorted vs) ≡ any p vs
any-sorted p [] = refl
any-sorted p (v ∷ vs) = ground (arith, any-sorted_insert p v (sorted vs), any-sorted p vs)

-- Ascending: each element is at most every later one.
abbrev IsAscending : List String → Type 0
IsAscending [] = Unit
IsAscending (v ∷ vs) = ((w : String) → contains w vs ≡ true → text_le v w ≡ true) × IsAscending vs

text_le_refl : (v : String) → text_le v v ≡ true
text_le_refl v = codes_le_refl (codes v)

text_eq_of_beq : (v w : String) → (v == w) ≡ true → v ≡ w
text_eq_of_beq v w = (string_eq.beq_iff v w).0

-- What is at most the head of an ascending list is at most all of it.
below_all :
    (v w : String) (ws : List String) (u : String)
    → text_le v w ≡ true
    → (contains u ws ≡ true → text_le w u ≡ true)
    → contains u (w ∷ ws) ≡ true
    → text_le v u ≡ true
below_all v w ws u le below c = elim (Bool-cases (w == u)) [
  | inl e ↦ subst (λ x. text_le v x ≡ true) (text_eq_of_beq w u e) le
  | inr n ↦ codes_le_trans (codes v) (codes w) (codes u) le (below (ground arith))
]

sorted_insert-IsAscending :
    (v : String) (vs : List String) → IsAscending vs → IsAscending (sorted_insert v vs)
sorted_insert-IsAscending v [] h = (λ w c. cc c, tt)
sorted_insert-IsAscending v (w ∷ ws) h = elim (Bool-cases (text_le v w)) [
  | inl le ↦
      subst IsAscending (sym (ap (λ b. if b then v ∷ w ∷ ws else w ∷ sorted_insert v ws) le))
        ((λ u c. below_all v w ws u le (h.0 u) c), h)
  | inr gt ↦
      subst IsAscending (sym (ap (λ b. if b then v ∷ w ∷ ws else w ∷ sorted_insert v ws) gt)) (
        (λ u c. elim (Bool-cases (v == u)) [
          | inl e ↦ ground (arith, text_eq_of_beq v u e, codes_le_total (codes v) (codes w))
          | inr n ↦ h.0 u (ground (arith, contains-sorted_insert u v ws))
        ]),
        sorted_insert-IsAscending v ws h.1,
      )
]

sorted-IsAscending : (vs : List String) → IsAscending (sorted vs)
sorted-IsAscending [] = tt
sorted-IsAscending (v ∷ vs) = sorted_insert-IsAscending v (sorted vs) (sorted-IsAscending vs)

any_witness :
    (p : String → Bool) (vs : List String)
    → any p vs ≡ true
    → (u : String) × (contains u vs ≡ true) × (p u ≡ true)
any_witness p [] h = cc h
any_witness p (v ∷ vs) h = elim (Bool-cases (p v)) [
  | inl here ↦ (v, ground (arith, ==_refl v), here)
  | inr gone ↦ let r = any_witness p vs (ground arith) in (r.0, ground (arith, r.1), r.2)
]

any-holds :
    (p : String → Bool) (vs : List String) (u : String)
    → contains u vs ≡ true
    → p u ≡ true
    → any p vs ≡ true
any-holds p [] u c h = cc c
any-holds p (v ∷ vs) u c h = elim (Bool-cases (v == u)) [
  | inl e ↦ subst (λ x. (p x || any p vs) ≡ true) (sym (text_eq_of_beq v u e)) (ground arith)
  | inr n ↦ ground (arith, any-holds p vs u)
]

-- The text that starts with another lies above it, or is the same.
starts_self : (v w : String) → starts v w ≡ true → text_le w v ≡ true → (w == v) ≡ true
starts_self v w s le = (string_eq.beq_iff w v).1 (
    codes_injective w v
      (codes_le_antisymm (codes w) (codes v) le (begins_le (codes v) (codes w) s)))

not_same : (v w : String) → text_le w v ≡ false → (w == v) ≡ false
not_same v w gt = elim (Bool-cases (w == v)) [
  | inl e ↦
      absurd (false≢true (sym gt ∙ ap (λ x. text_le x v) (text_eq_of_beq w v e) ∙ text_le_refl v))
  | inr n ↦ n
]

-- What `bisect_right` finds in an ascending list starts with a version exactly if another entry does.
bisect-finds :
    (v : String) (vs : List String)
    → IsAscending vs
    → more_precise v (get_elem? (bisect_right vs v) vs) ≡ any (λ w. starts v w && not (w == v)) vs
bisect-finds v [] h = refl
bisect-finds v (w ∷ ws) h = elim (Bool-cases (text_le w v)) [
  | inl le ↦ ground (arith, bisect-finds v ws h.1, starts_self v w)
  | inr gt ↦ elim (Bool-cases (any (λ u. starts v u && not (u == v)) ws)) [
    | inl some_u ↦
        let r = any_witness (λ u. starts v u && not (u == v)) ws some_u in
        ground (
          arith,
          text_le_refl v,
          text_eq_of_beq w v,
          begins_between (codes v) (codes w) (codes r.0),
          h.0 r.0 r.1,
          r.2,
          codes_le_total (codes v) (codes w),
        )
    | inr none_u ↦ ground (arith, text_le_refl v, not_same v w gt)
  ]
]

contains-add_to_set :
    (a v : String) (vs : List String) → contains a (add_to_set v vs) ≡ (contains a vs || v == a)
contains-add_to_set a v vs = elim (Bool-cases (v == a)) [
  | inl e ↦
      subst (λ x. contains a (add_to_set x vs) ≡ (contains a vs || x == a))
        (sym (text_eq_of_beq v a e)) (ground (arith, contains-append a vs (a ∷ []), ==_refl a))
  | inr n ↦ ground (arith, contains-append a vs (v ∷ []))
]

module _ (skipped : String → Bool) where
  contains-add_unless :
      (a v : String) (done : List String)
      → contains a (add_unless (skipped v) v done)
        ≡ (contains a done || (v == a && not (skipped a)))
  contains-add_unless a v done = elim (Bool-cases (v == a)) [
    | inl e ↦
        subst
          (λ x.
            contains a (add_unless (skipped x) x done)
            ≡ (contains a done || (x == a && not (skipped a))))
          (sym (text_eq_of_beq v a e)) (ground (arith, contains-add_to_set a a done, ==_refl a))
    | inr n ↦ ground (arith, contains-add_to_set a v done)
  ]

contains-dedup_loop :
    (a : String) (all vs done : List String)
    → contains a (dedup_loop all vs done)
      ≡ (contains a done || (contains a vs && not (is_superseded all a)))
contains-dedup_loop a all [] done = ground arith
contains-dedup_loop a all (v ∷ vs) done =
    contains-dedup_loop a all vs (add_unless (is_superseded all v) v done)
    ∙ ground (arith, contains-add_unless (is_superseded all) a v done)

-- A version is kept exactly if it is given and no other given version starts with it: looking at
-- the next entry in ascending order is enough.
pub version_aware_dedup-keeps :
    (v : String) (versions : List String)
    → contains v (version_aware_dedup versions)
      ≡ (contains v versions && not (any (λ w. starts v w && not (w == v)) versions))
unfolding version_aware_dedup
version_aware_dedup-keeps v versions = ground (
  arith,
  contains-dedup_loop v (sorted versions) (sorted versions) [],
  bisect-finds v (sorted versions) (sorted-IsAscending versions),
  contains-sorted v versions,
  any-sorted (λ w. starts v w && not (w == v)) versions,
)

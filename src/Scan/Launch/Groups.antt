-- ===== src/Scan/Launch/Groups.antt =====
-- The groups of signatures, by source, that a plan is made of.
use quipucords.Prelude.{
  ℕ, suc, ◌+◌, ◌≡◌, sym, ap, ◌∙◌, Bool, false, Option, some, List, [], ◌∷◌, ◌++◌, arith, ◌==◌, ◌||◌,
  any, any-append, length, length-append, if◌then◌else◌, nat_eq, inl, inr, Bool-cases,
}
use quipucords.Prelude.Dict.{Dict, lookup, insert, values}
use quipucords.Scan.Status.{type_eq, status_eq}
use quipucords.Scan.Launch.{Signature, or_nil}

-- Whether a chain of a list runs a task, and the number of runs in all chains.
abbrev pub runs : ℕ → List (List Signature) → Bool
runs i = any (any (λ (g : Signature). g.scan_task_id == i))

abbrev pub total : List (List Signature) → ℕ
total [] = 0
total (c ∷ cs) = length c + total cs

pub shuffle : (a b c : Bool) → ((a || (b || false)) || c) ≡ (b || (a || c))
shuffle a b c = ground arith

pub or_false : (a : Bool) → (a || false) ≡ a
or_false a = ground arith

pub plus_zero : (n : ℕ) → n + 0 ≡ n
plus_zero n = omega arith

pub or_false_or : (a : Bool) → ((a || false) || false) ≡ (a || false)
or_false_or a = ground arith

pub regroup : (a b c : Bool) → (a || (b || c)) ≡ ((b || a) || c)
regroup a b c = ground arith

pub swap : (a b c : Bool) → (a || (b || c)) ≡ (b || (a || c))
swap a b c = ground arith

-- A signature put at the end of the group of its source.
abbrev pub append_to :
    ℕ → Signature → Option (List Signature) → Dict ℕ (List Signature) → Dict ℕ (List Signature)
append_to s g o d = insert s (or_nil o ++ (g ∷ [])) d

abbrev pub cons_or :
    ℕ
    → Signature
    → Option (List Signature)
    → ℕ
    → List Signature
    → Dict ℕ (List Signature)
    → Bool
    → Dict ℕ (List Signature)
cons_or s g o j c d b = if b then (j, or_nil o ++ (g ∷ [])) ∷ d else (j, c) ∷ append_to s g o d

abbrev pub chosen : List Signature → Option (List Signature) → Bool → Option (List Signature)
chosen c o b = if b then some c else o

pub runs-append_to :
    (i s : ℕ) (g : Signature) (o : Option (List Signature)) (d : Dict ℕ (List Signature))
    → lookup s d ≡ o
    → runs i (values (append_to s g o d)) ≡ (g.scan_task_id == i || runs i (values d))
runs-append_to i s g o [] h =
    ap (λ q. runs i (values (append_to s g q []))) (sym h) ∙ or_false_or (g.scan_task_id == i)
runs-append_to i s g o ((j, c) ∷ d) h =
    let in_chain = any (λ (x : Signature). x.scan_task_id == i) in
    elim (Bool-cases (j == s)) [
      | inl e ↦
          ap (λ b. runs i (values (cons_or s g o j c d b))) e
          ∙ ap (λ q. runs i (values ((j, or_nil q ++ (g ∷ [])) ∷ d)))
              (sym h ∙ ap (chosen c (lookup s d)) e)
          ∙ ap (λ b. b || runs i (values d))
              (any-append (λ (x : Signature). x.scan_task_id == i) c (g ∷ []))
          ∙ shuffle (in_chain c) (g.scan_task_id == i) (runs i (values d))
      | inr e ↦
          ap (λ b. runs i (values (cons_or s g o j c d b))) e
          ∙ ap (λ b. in_chain c || b)
              (runs-append_to i s g o d (sym (ap (chosen c (lookup s d)) e) ∙ h))
          ∙ swap (in_chain c) (g.scan_task_id == i) (runs i (values d))
    ]

pub total-append_to :
    (s : ℕ) (g : Signature) (o : Option (List Signature)) (d : Dict ℕ (List Signature))
    → lookup s d ≡ o
    → total (values (append_to s g o d)) ≡ suc (total (values d))
total-append_to s g o [] h = ap (λ q. total (values (append_to s g q []))) (sym h)
total-append_to s g o ((j, c) ∷ d) h = elim (Bool-cases (j == s)) [
  | inl e ↦
      ap (λ b. total (values (cons_or s g o j c d b))) e
      ∙ ap (λ q. total (values ((j, or_nil q ++ (g ∷ [])) ∷ d)))
          (sym h ∙ ap (chosen c (lookup s d)) e)
      ∙ omega (arith, length-append c (g ∷ []))
  | inr e ↦
      ap (λ b. total (values (cons_or s g o j c d b))) e
      ∙ omega (arith, total-append_to s g o d (sym (ap (chosen c (lookup s d)) e) ∙ h))
]

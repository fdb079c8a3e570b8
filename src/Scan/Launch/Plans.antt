-- ===== src/Scan/Launch/Plans.antt =====
-- What Celery is asked to run for a scan job.
use quipucords.Prelude.{
  ℕ, suc, ◌+◌, String, ◌≡◌, refl, sym, ap, ◌∙◌, Bool, true, Option, none, some, List, [], ◌∷◌,
  arith, ◌==◌, All, is_some, ◌||◌, any, length, select, nat_eq, Option-cases, inl, inr, Bool-cases,
}
use quipucords.Prelude.Dict.{Dict, lookup, values}
use quipucords.Scan.Status.{fingerprint, inspect, type_eq, status_eq}
use quipucords.Scan.Task.{Task}
use quipucords.Scan.Job.{Job}
use quipucords.Scan.World.{Outcome, ok, raised}
use quipucords.Scan.Launch.{
  first_id, Signature, Plan, is_incomplete, is_before, place, in_order, add_signature,
  signatures_by_source, made_plan, plan,
}
use quipucords.Scan.Launch.Groups.{
  runs, total, or_false, plus_zero, regroup, runs-append_to, total-append_to,
}

abbrev pub has_id : ℕ → List Task → Bool
has_id i = any (λ t. t.id == i)

any-place : (p : Task → Bool) (t : Task) (us : List Task) → any p (place t us) ≡ (p t || any p us)
any-place p t [] = refl
any-place p t (u ∷ us) = ground (arith, any-place p t us)

any-in_order : (p : Task → Bool) (ts : List Task) → any p (in_order ts) ≡ any p ts
any-in_order p [] = refl
any-in_order p (t ∷ ts) = any-place p t (in_order ts) ∙ ap (λ b. p t || b) (any-in_order p ts)

length-place : (t : Task) (us : List Task) → length (place t us) ≡ suc (length us)
length-place t [] = refl
length-place t (u ∷ us) = ground (arith, length-place t us)

length-in_order : (ts : List Task) → length (in_order ts) ≡ length ts
length-in_order [] = refl
length-in_order (t ∷ ts) = length-place t (in_order ts) ∙ ap suc (length-in_order ts)

-- Tasks that have a source, in the order in which they are walked.
abbrev pub Sourced : Task → Type 0
Sourced t = is_some t.source ≡ true

place-Sourced : (t : Task) (us : List Task) → Sourced t → All Sourced us → All Sourced (place t us)
place-Sourced t [] h hs = (h, tt)
place-Sourced t (u ∷ us) h hs = elim (Bool-cases (is_before u t)) [
  | inl e ↦ rw e (hs.0, place-Sourced t us h hs.1)
  | inr e ↦ rw e (h, hs)
]

in_order-Sourced : (ts : List Task) → All Sourced ts → All Sourced (in_order ts)
in_order-Sourced [] h = tt
in_order-Sourced (t ∷ ts) h = place-Sourced t (in_order ts) h.0 (in_order-Sourced ts h.1)

-- The chains of a plan run exactly the given tasks, and as many times as there are tasks.
pub record Runs (ts : List Task) (chains : List (List Signature)) : Type 0 where
  pub those : (i : ℕ) → runs i chains ≡ has_id i ts
  pub once : total chains ≡ length ts

module _ (source_type : ℕ → String) where
  abbrev signature_of : ℕ → Task → Signature
  signature_of s t = record {
    scan_task_id = t.id;
    source_type = source_type s;
    scan_type = t.scan_type;
  }

  runs-add_signature :
      (i s : ℕ) (t : Task) (d : Dict ℕ (List Signature))
      → runs i (values (add_signature source_type s t d)) ≡ (t.id == i || runs i (values d))
  runs-add_signature i s t d = runs-append_to i s (signature_of s t) (lookup s d) d refl

  total-add_signature :
      (s : ℕ) (t : Task) (d : Dict ℕ (List Signature))
      → total (values (add_signature source_type s t d)) ≡ suc (total (values d))
  total-add_signature s t d = total-append_to s (signature_of s t) (lookup s d) d refl

  abbrev continued :
      List Task → Task → Dict ℕ (List Signature) → Option ℕ → Outcome (Dict ℕ (List Signature))
  continued ts t d o = elim o [
    | none ↦ raised "AttributeError"
    | some s ↦ signatures_by_source source_type ts (add_signature source_type s t d)
  ]

  signatures-All :
      (ts : List Task) (d : Dict ℕ (List Signature))
      → All Sourced ts
      → (d' : Dict ℕ (List Signature)) × (signatures_by_source source_type ts d ≡ ok d')
        × ((i : ℕ) → runs i (values d') ≡ (has_id i ts || runs i (values d)))
        × (total (values d') ≡ length ts + total (values d))
  unfolding signatures_by_source
  signatures-All [] d h = (d, refl, λ i. refl, omega arith)
  signatures-All (t ∷ ts) d h = elim (Option-cases t.source) [
    | inl e ↦ cc (sym (ap is_some e) ∙ h.0)
    | inr (s, e) ↦
        let (d', done, those, once) = signatures-All ts (add_signature source_type s t d) h.1 in
        (
          d',
          ap (λ o. continued ts t d o) e ∙ done,
          λ i.
              those i
              ∙ ap (λ b. has_id i ts || b) (runs-add_signature i s t d)
              ∙ regroup (has_id i ts) (t.id == i) (runs i (values d)),
          omega (arith, once, total-add_signature s t d),
        )
  ]

  -- Where each unfinished inspection of a job still has its source, the job has a plan: its chains
  -- run exactly the unfinished inspections, each once; then comes the first unfinished fingerprint
  -- task, if there is one; and its last task is the job's own.
  pub plan-Runs :
      (j : Job) (tasks : List Task)
      → All Sourced (select (is_incomplete inspect) tasks)
      → (p : Plan) × (plan source_type j tasks ≡ ok p)
        × Runs (select (is_incomplete inspect) tasks) p.chains
        × (p.fingerprint_id ≡ first_id (select (is_incomplete fingerprint) tasks))
        × (p.finalize_id ≡ j.id)
  unfolding plan
  plan-Runs j tasks h =
      let own = select (is_incomplete inspect) tasks in
      let (d, done, those, once) = signatures-All (in_order own) [] (in_order-Sourced own h) in
      (
        record {
          chains = values d;
          fingerprint_id = first_id (select (is_incomplete fingerprint) tasks);
          finalize_id = j.id;
        },
        ap (made_plan j tasks) done,
        record {
          those =
              λ i. those i ∙ or_false (has_id i (in_order own)) ∙ any-in_order (λ t. t.id == i) own;
          once = once ∙ plus_zero (length (in_order own)) ∙ length-in_order own;
        },
        refl,
        refl,
      )

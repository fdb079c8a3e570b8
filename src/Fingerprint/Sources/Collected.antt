-- ===== src/Fingerprint/Sources/Collected.antt =====
-- What the collection of fingerprints takes from the sources of a report.
use quipucords.Prelude.{
  ℕ, suc, ◌+◌, String, ◌≡◌, refl, sym, ap, ◌∙◌, Bool, true, not, ◌&&◌, List, [], ◌∷◌, arith, All,
  length, length-append, select, if◌then◌else◌, Bool-cases, inl, inr, string_eq,
}
use mathlib.Core.Path.{subst}
use quipucords.Prelude.Dict.{Dict}
use quipucords.Json.{Value, truthy}
use quipucords.Fingerprint.Merge.{get}
use quipucords.Fingerprint.Model.{ok, ◌>>=◌, >>=-ok_parts, ok_injective, err≢ok, Fingerprint}
use quipucords.Fingerprint.Sources.{
  Source, SourceType, is_openshift, FactProcessor, FingerprintMap, source_entry, is_known,
  makes_fingerprint, process_facts, process_source, extend, collect, network, vcenter, satellite,
  openshift, ansible, rhacs, other,
}

-- The facts that make a fingerprint: for OpenShift all but those of a cluster, for any other known type
-- all, for an unknown type none.
abbrev pub useful : SourceType → List (Dict String Value) → List (Dict String Value)
useful openshift facts = select (λ fact. not (truthy (get "cluster" fact))) facts
useful (other t) facts = []
useful _ facts = facts

useful_nil : (t : SourceType) → useful t [] ≡ []
useful_nil openshift = refl
useful_nil (other t) = refl
useful_nil network = refl
useful_nil vcenter = refl
useful_nil satellite = refl
useful_nil ansible = refl
useful_nil rhacs = refl

useful-cons :
    (t : SourceType) (fact : Dict String Value) (facts : List (Dict String Value))
    → useful t (fact ∷ facts) ≡ (
        if not (truthy (get "cluster" fact) && is_openshift t) && is_known t
        then fact ∷ useful t facts
        else useful t facts)
useful-cons openshift fact facts = ground arith
useful-cons (other t) fact facts = ground arith
useful-cons network fact facts = ground arith
useful-cons vcenter fact facts = ground arith
useful-cons satellite fact facts = ground arith
useful-cons ansible fact facts = ground arith
useful-cons rhacs fact facts = ground arith

-- Fingerprints made of these facts, one of each and in their order: what the method for the type gives
-- of the fact, with the source as its only one.
abbrev pub Made : FactProcessor → Source → List (Dict String Value) → List Fingerprint → Type 0
Made process s [] [] = Unit
Made process s [] (fp ∷ fps) = ⊥
Made process s (fact ∷ facts) [] = ⊥
Made process s (fact ∷ facts) (fp ∷ fps) =
    ((one : Fingerprint) × (process s fact ≡ ok one)
      × (fp ≡ record one { sources = source_entry s }))
    × Made process s facts fps

process_facts-Made :
    (process : FactProcessor) (s : Source) (facts : List (Dict String Value))
    (fps : List Fingerprint)
    → process_facts process s facts ≡ ok fps
    → Made process s (useful s.source_type facts) fps
unfolding process_facts
process_facts-Made process s [] fps e =
    subst (λ l. Made process s l fps) (sym (useful_nil s.source_type))
      (subst (Made process s []) (ok_injective e) tt)
process_facts-Made process s (fact ∷ facts) fps e =
    let t = s.source_type in
    let rest = process_facts process s facts in
    let branch = λ (b : Bool).
      if b
      then (process s fact >>= λ fp.
          rest >>= λ fps'. ok ((record fp { sources = source_entry s }) ∷ fps'))
      else rest in
    let facts_of = λ (b : Bool). if b then fact ∷ useful t facts else useful t facts in
    elim (Bool-cases (makes_fingerprint s fact)) [
      | inr skipped ↦
          subst (λ l. Made process s l fps) (sym (useful-cons t fact facts ∙ ap facts_of skipped))
            (process_facts-Made process s facts fps (sym (ap branch skipped) ∙ e))
      | inl used ↦
          let (fp, one, e₁) = >>=-ok_parts (process s fact) _ (sym (ap branch used) ∙ e) in
          let (fps', more, e₂) = >>=-ok_parts rest _ e₁ in
          let now : Made process s (fact ∷ useful t facts)
              ((record fp { sources = source_entry s }) ∷ fps') =
            ((fp, one, refl), process_facts-Made process s facts fps' more) in
          subst (λ l. Made process s l fps) (sym (useful-cons t fact facts ∙ ap facts_of used))
            (subst (Made process s (fact ∷ useful t facts)) (ok_injective e₂) now)
    ]

-- Processing a source, where it raises nothing, gives a fingerprint of each useful fact, in their order,
-- and of no other: for OpenShift the facts of a cluster are left out, for an unknown type all are. Each is
-- what the method for the type makes of the fact, with that source as its only one.
pub process_source-Made :
    (process : FactProcessor) (s : Source) (fps : List Fingerprint)
    → process_source process s ≡ ok fps
    → Made process s (useful s.source_type s.facts) fps
unfolding process_source
process_source-Made process s fps e = process_facts-Made process s s.facts fps e

length-Made :
    (process : FactProcessor) (s : Source) (facts : List (Dict String Value))
    (fps : List Fingerprint)
    → Made process s facts fps
    → length fps ≡ length facts
length-Made process s [] [] h = refl
length-Made process s [] (fp ∷ fps) h = absurd h
length-Made process s (fact ∷ facts) [] h = absurd h
length-Made process s (fact ∷ facts) (fp ∷ fps) h = ap suc (length-Made process s facts fps h.1)

abbrev pub size : FingerprintMap → ℕ
size m =
    length m.network_list
    + length m.vcenter_list
    + length m.satellite_list
    + length m.openshift_list
    + length m.ansible_list
    + length m.rhacs_list

size-extend :
    (ty : SourceType) (fps : List Fingerprint) (m m' : FingerprintMap)
    → extend ty fps m ≡ ok m'
    → (is_known ty ≡ true) × (size m' ≡ size m + length fps)
size-extend network fps m m' e =
    (refl, ap size (sym (ok_injective e)) ∙ omega (arith, length-append m.network_list fps))
size-extend vcenter fps m m' e =
    (refl, ap size (sym (ok_injective e)) ∙ omega (arith, length-append m.vcenter_list fps))
size-extend satellite fps m m' e =
    (refl, ap size (sym (ok_injective e)) ∙ omega (arith, length-append m.satellite_list fps))
size-extend openshift fps m m' e =
    (refl, ap size (sym (ok_injective e)) ∙ omega (arith, length-append m.openshift_list fps))
size-extend ansible fps m m' e =
    (refl, ap size (sym (ok_injective e)) ∙ omega (arith, length-append m.ansible_list fps))
size-extend rhacs fps m m' e =
    (refl, ap size (sym (ok_injective e)) ∙ omega (arith, length-append m.rhacs_list fps))
size-extend (other s) fps m m' e = absurd (err≢ok e)

abbrev pub all_useful : List Source → ℕ
all_useful [] = 0
all_useful (s ∷ ss) = length (useful s.source_type s.facts) + all_useful ss

-- A collection that raises nothing has one fingerprint for each useful fact of the sources, and
-- every source is of a known type: one of an unknown type makes it fail, for all the sources.
pub collect-size :
    (process : FactProcessor) (ss : List Source) (m m' : FingerprintMap)
    → collect process ss m ≡ ok m'
    → All (λ (s : Source). is_known s.source_type ≡ true) ss × (size m' ≡ size m + all_useful ss)
unfolding collect
collect-size process [] m m' e = (tt, ap size (sym (ok_injective e)) ∙ omega arith)
collect-size process (s ∷ ss) m m' e =
    let (fps, made, e₁) = >>=-ok_parts (process_source process s) _ e in
    let (m₁, extended, e₂) = >>=-ok_parts (extend s.source_type fps m) _ e₁ in
    let (known, grown) = size-extend s.source_type fps m m₁ extended in
    let (all, total) = collect-size process ss m₁ m' e₂ in
    let count =
      length-Made process s (useful s.source_type s.facts) fps
        (process_facts-Made process s s.facts fps made) in
    ((known, all), omega (arith, grown, total, count))

-- ===== src/Products/Eap/Strongest.antt =====
-- What `detect_jboss_eap` concludes: the strongest presence that a fact supports.
use quipucords.Prelude.{
  String, ◌≡◌, refl, sym, ◌∙◌, ap, Bool, true, false, not, ◌||◌, ◌&&◌, List, [], ◌∷◌, ◌++◌, map,
  nat_eq, if◌then◌else◌, select, any, All, arith, append_assoc, append_nil, Bool-cases, inl, inr,
}
use mathlib.Core.Path.{subst}
use quipucords.Json.{truthy}
use quipucords.Fingerprint.Model.{
  Result, ok, err, ◌>>=◌, >>=-ok_parts, ok_injective, Presence, absent,
}
use quipucords.Fingerprint.Model.{Product}
use quipucords.Fingerprint.Sources.{Source}
use quipucords.Products.Values.{Facts, get}
use quipucords.Products.Eap.{
  FactRule, Detection, order_index, presence_ge, same_presence, call_or_value, weigh, detect_loop,
  undetected, add_versions, new_versions, detect_jboss_eap, eap_of, eap_facts,
}

-- Whether a rule's fact is there and speaks for a presence.
abbrev speaks : Presence → Result Presence → Bool
speaks p (ok q) = same_presence p q
speaks p (err e) = false

abbrev pub supports : Facts → Presence → FactRule → Bool
supports facts p rule =
    truthy (get rule.name facts) && speaks p (call_or_value rule.presence (get rule.name facts))

-- Whether a rule's fact is missing or speaks for no more than a presence.
abbrev at_most : Presence → Result Presence → Bool
at_most p (ok q) = presence_ge p q
at_most p (err e) = false

abbrev pub within : Facts → Presence → FactRule → Bool
within facts p rule =
    not (truthy (get rule.name facts))
    || at_most p (call_or_value rule.presence (get rule.name facts))

abbrev names : List FactRule → List String
names rules = map (λ r. r.name) rules

-- What is kept of a list if a test holds.
abbrev kept {ℓ} : {A : Type ℓ} → Bool → List A → List A
kept true xs = xs
kept false xs = []

-- How a run of the loop ends, seen from where it starts.
record Outcome (facts : Facts) (rules : List FactRule) (d e : Detection) : Type 0 where
  grows : presence_ge e.presence d.presence ≡ true
  reached : (same_presence e.presence d.presence || any (supports facts e.presence) rules) ≡ true
  bound : All (λ r. within facts e.presence r ≡ true) rules
  evidence :
      e.raw_facts
      ≡ kept (same_presence e.presence d.presence) d.raw_facts
        ++ names (select (supports facts e.presence) rules)

weigh-presence :
    (fact : String) (p : Presence) (d : Detection)
    → (weigh fact p d).presence ≡ (if presence_ge d.presence p then d.presence else p)
unfolding weigh
weigh-presence fact p d = ground arith

weigh-raw_facts :
    (fact : String) (p e : Presence) (d : Detection)
    → presence_ge d.presence absent ≡ true
    → presence_ge e (weigh fact p d).presence ≡ true
    → kept (same_presence e (weigh fact p d).presence) (weigh fact p d).raw_facts
      ≡ kept (same_presence e d.presence) d.raw_facts ++ kept (same_presence e p) (fact ∷ [])
unfolding weigh
weigh-raw_facts fact p e d h k = ground (arith, append_nil d.raw_facts)

-- The presence never falls to `UNKNOWN`.
weigh-known :
    (fact : String) (p : Presence) (d : Detection)
    → presence_ge d.presence absent ≡ true
    → presence_ge (weigh fact p d).presence absent ≡ true
weigh-known fact p d h = ground (arith, ap order_index (weigh-presence fact p d))

-- A rule that the loop passes over.
skip-Outcome :
    (facts : Facts) (rule : FactRule) (rules : List FactRule) (d e : Detection)
    → truthy (get rule.name facts) ≡ false
    → Outcome facts rules d e
    → Outcome facts (rule ∷ rules) d e
skip-Outcome facts rule rules d e missing o = record {
  grows = o.grows;
  reached = ground (arith, o.reached);
  bound = (ground arith, o.bound);
  evidence = ground (arith, o.evidence);
}

names-cons :
    (facts : Facts) (rule : FactRule) (rules : List FactRule) (q p : Presence)
    → supports facts q rule ≡ same_presence q p
    → kept (same_presence q p) (rule.name ∷ []) ++ names (select (supports facts q) rules)
      ≡ names (select (supports facts q) (rule ∷ rules))
names-cons facts rule rules q p s = ground (arith, s)

-- A rule that is weighed.
weigh-Outcome :
    (facts : Facts) (rule : FactRule) (rules : List FactRule) (d w e : Detection) (p : Presence)
    → presence_ge d.presence absent ≡ true
    → truthy (get rule.name facts) ≡ true
    → call_or_value rule.presence (get rule.name facts) ≡ ok p
    → w.presence ≡ (weigh rule.name p d).presence
    → w.raw_facts ≡ (weigh rule.name p d).raw_facts
    → Outcome facts rules w e
    → Outcome facts (rule ∷ rules) d e
weigh-Outcome facts rule rules d w e p h there called wp wr o =
    let s : supports facts e.presence rule ≡ same_presence e.presence p =
      ap (λ t. t && speaks e.presence (call_or_value rule.presence (get rule.name facts))) there
      ∙ ap (speaks e.presence) called in
    let b : within facts e.presence rule ≡ presence_ge e.presence p =
      ap (λ t. not t || at_most e.presence (call_or_value rule.presence (get rule.name facts)))
        there
      ∙ ap (at_most e.presence) called in
    let i : order_index w.presence
        ≡ order_index (if presence_ge d.presence p then d.presence else p) =
      ap order_index (wp ∙ weigh-presence rule.name p d) in
    let g : presence_ge e.presence (weigh rule.name p d).presence ≡ true =
      subst (λ q. presence_ge e.presence q ≡ true) wp o.grows in
    let k : kept (same_presence e.presence w.presence) w.raw_facts
        ≡ kept (same_presence e.presence d.presence) d.raw_facts
          ++ kept (same_presence e.presence p) (rule.name ∷ []) =
      (λ j. kept (same_presence e.presence (wp j)) (wr j))
      ∙ weigh-raw_facts rule.name p e.presence d h g in
    record {
      grows = ground (arith, o.grows, i);
      reached = ground (arith, o.reached, i, s);
      bound = (ground (arith, o.grows, i, b), o.bound);
      evidence =
          o.evidence
          ∙ ap (λ l. l ++ names (select (supports facts e.presence) rules)) k
          ∙ append_assoc (kept (same_presence e.presence d.presence) d.raw_facts)
              (kept (same_presence e.presence p) (rule.name ∷ []))
              (names (select (supports facts e.presence) rules))
          ∙ ap (λ l. kept (same_presence e.presence d.presence) d.raw_facts ++ l)
              (names-cons facts rule rules e.presence p s);
    }

step : Facts → FactRule → List FactRule → Detection → Bool → Result Detection
step facts rule rules d b = elim b [
  | false ↦ detect_loop facts rules d
  | true ↦ call_or_value rule.presence (get rule.name facts) >>= λ p.
      new_versions rule.version (get rule.name facts) >>= λ vs.
      let weighed = weigh rule.name p d in
      detect_loop facts rules (record weighed { versions = add_versions vs weighed.versions })
]

detect_loop-Outcome :
    (facts : Facts) (rules : List FactRule) (d e : Detection)
    → presence_ge d.presence absent ≡ true
    → detect_loop facts rules d ≡ ok e
    → Outcome facts rules d e
unfolding detect_loop step
detect_loop-Outcome facts [] d e h run = subst (Outcome facts [] d) (ok_injective run) (record {
  grows = ground arith;
  reached = ground arith;
  bound = tt;
  evidence = ground (arith, append_nil d.raw_facts);
})
detect_loop-Outcome facts (rule ∷ rules) d e h run =
    elim (Bool-cases (truthy (get rule.name facts))) [
      | inl there ↦
          let r =
            >>=-ok_parts (call_or_value rule.presence (get rule.name facts)) _
              (sym (ap (step facts rule rules d) there) ∙ run) in
          let q = >>=-ok_parts (new_versions rule.version (get rule.name facts)) _ r.2 in
          let weighed = weigh rule.name r.0 d in
          let w = record weighed { versions = add_versions q.0 weighed.versions } in
          weigh-Outcome facts rule rules d w e r.0 h there r.1 refl refl
            (detect_loop-Outcome facts rules w e (weigh-known rule.name r.0 d h) q.2)
      | inr missing ↦
          skip-Outcome facts rule rules d e missing (
            detect_loop-Outcome facts rules d e h
              (sym (ap (step facts rule rules d) missing) ∙ run))
    ]

kept_nil {ℓ} : {A : Type ℓ} (b : Bool) → kept {A = A} b [] ≡ []
kept_nil true = refl
kept_nil false = refl

-- What the loop knows at its end: no fact speaks for more than the presence, the presence is
-- `ABSENT` or a fact's, and the facts listed are those that speak for it, in the order of the table.
pub record IsStrongest (facts : Facts) (rules : List FactRule) (d : Detection) : Type 0 where
  pub bound : All (λ r. within facts d.presence r ≡ true) rules
  pub reached : (same_presence d.presence absent || any (supports facts d.presence) rules) ≡ true
  pub evidence : d.raw_facts ≡ map (λ r. r.name) (select (supports facts d.presence) rules)
  pub known : presence_ge d.presence absent ≡ true

detect_loop-IsStrongest :
    (facts : Facts) (rules : List FactRule) (d : Detection)
    → detect_loop facts rules undetected ≡ ok d
    → IsStrongest facts rules d
detect_loop-IsStrongest facts rules d run =
    let o = detect_loop-Outcome facts rules undetected d refl run in
    record {
      bound = o.bound;
      reached = o.reached;
      evidence =
          o.evidence
          ∙ ap (λ l. l ++ names (select (supports facts d.presence) rules))
              (kept_nil (same_presence d.presence absent));
      known = o.grows;
    }

-- When `detect_jboss_eap` returns, its product is built from a presence that is the strongest one
-- that a fact supports: no fact speaks for more, it is `ABSENT` or some fact's, never `UNKNOWN`, and
-- the facts that the metadata name are those that speak for it, in the order of the table.
pub detect_jboss_eap-IsStrongest :
    (s : Source) (facts : Facts) (product : Product)
    → detect_jboss_eap s facts ≡ ok product
    → (d : Detection) × (product ≡ eap_of s d) × IsStrongest facts eap_facts d
unfolding detect_jboss_eap
detect_jboss_eap-IsStrongest s facts product run =
    let r = >>=-ok_parts (detect_loop facts eap_facts undetected) _ run in
    (r.0, sym (ok_injective r.2), detect_loop-IsStrongest facts eap_facts r.0 r.1)

-- ===== src/Fingerprint/Dedup/Unique.antt =====
-- What `_remove_duplicate_fingerprints` leaves of a list, for one id key.
use mathlib.Core.Path.{subst}
use quipucords.Prelude.{
  String, ◌≡◌, refl, sym, ◌∙◌, ap, Bool, true, false, not, Option, none, some, List, [], ◌∷◌, ◌++◌,
  map, arith, string_eq, if◌then◌else◌, Bool-cases, Option-cases, inl, inr, select, any, ◌==◌,
  select-append_one, any-append, append_assoc, append_nil,
}
use quipucords.Prelude.Dict.{lookup, has_key, insert, lookup-insert, values, IsDict, insert-IsDict}
use quipucords.Json.{Value, truthy, Key, hash_key, key_eq, null}
use quipucords.Fingerprint.Model.{
  ◌>>=◌, >>=-ok_parts, ok, err, type_error, Fingerprint, is_table, ok_injective, err≢ok, Result,
}
use quipucords.Fingerprint.Merge.{get, merge_fingerprint}
use quipucords.Fingerprint.Merge.Facts.{takes, merge_fingerprint-Settled}
use quipucords.Fingerprint.Dedup.{Seen, see_key, see, see_all, strip, nothing_seen, dedupe}

abbrev pub has_id : String → Fingerprint → Bool
has_id id_key fp = truthy (get id_key fp.facts)

-- The id of a fingerprint, if it has one that can be a key.
abbrev pub id_of : String → Fingerprint → Option Key
id_of id_key fp = if has_id id_key fp then hash_key (get id_key fp.facts) else none

abbrev is_key : Option Key → Key → Bool
is_key o k = elim o [ none ↦ false | some j ↦ j == k ]

abbrev pub identified : String → Key → Fingerprint → Bool
identified id_key k fp = is_key (id_of id_key fp) k

-- What was seen, told by the fingerprints that were read: those without an id in their order, and
-- one fingerprint for each id, which carries it.
pub record Sorted (id_key : String) (fps : List Fingerprint) (s : Seen) : Type 0 where
  pub no_id : s.no_id ≡ select (λ fp. not (has_id id_key fp)) fps
  pub distinct : IsDict s.unique
  pub seen : (k : Key) → has_key k s.unique ≡ any (identified id_key k) fps
  pub keyed : (k : Key) (fp : Fingerprint) → lookup k s.unique ≡ some fp → id_of id_key fp ≡ some k

abbrev id_found : String → Option Fingerprint → Option Key
id_found id_key o = elim o [ none ↦ none | some fp ↦ id_of id_key fp ]

abbrev id_in : Option Value → Option Key
id_in o =
    let v : Value = elim o [ none ↦ null | some w ↦ w ] in if truthy v then hash_key v else none

-- A merge of two fingerprints with the same id keeps the id.
merge-id_of :
    (id_key : String) (k : Key) (p m r : Fingerprint)
    → is_table id_key ≡ false
    → id_of id_key p ≡ some k
    → id_of id_key m ≡ some k
    → merge_fingerprint none p m ≡ ok r
    → id_of id_key r ≡ some k
merge-id_of id_key k p m r plain hp hm h =
    let fact = (merge_fingerprint-Settled none p m r id_key plain h).fact in
    let choose = λ (b : Bool). if b then some (get id_key m.facts) else lookup id_key p.facts in
    elim (Bool-cases (takes none p m id_key)) [
      | inl t ↦ ap id_in (fact ∙ ap choose t) ∙ hm
      | inr f ↦ ap id_in (fact ∙ ap choose f) ∙ hp
    ]

-- A fingerprint with an id is put under it, alone or merged into the one that is there.
insert-Sorted :
    (id_key : String) (k : Key) (fp r : Fingerprint) (fps : List Fingerprint) (s : Seen)
    → Sorted id_key fps s
    → has_id id_key fp ≡ true
    → id_of id_key fp ≡ some k
    → id_of id_key r ≡ some k
    → Sorted id_key (fps ++ (fp ∷ [])) (record s { unique = insert k r s.unique })
insert-Sorted id_key k fp r fps s h has hk hr = record {
  no_id = h.no_id ∙ sym (select-append_one (λ t. not (has_id id_key t)) fps fp (ap not has));
  distinct = insert-IsDict k r s.unique h.distinct;
  seen = λ j.
      rw (any-append (identified id_key j) fps (fp ∷ []))
        (rw hk (ground (arith, h.seen j, lookup-insert k j r s.unique)));
  keyed = λ j t e. elim (Bool-cases (k == j)) [
    | inl same ↦
        let found =
          sym
            (lookup-insert k j r s.unique ∙ ap (λ b. if b then some r else lookup j s.unique) same)
          ∙ e in
        sym (ap (id_found id_key) found) ∙ hr ∙ ap some ((key_eq.beq_iff k j).0 same)
    | inr other ↦ h.keyed j t (
        sym (lookup-insert k j r s.unique ∙ ap (λ b. if b then some r else lookup j s.unique) other)
        ∙ e)
  ];
}

skip-Sorted :
    (id_key : String) (fp : Fingerprint) (fps : List Fingerprint) (s : Seen)
    → Sorted id_key fps s
    → has_id id_key fp ≡ false
    → Sorted id_key (fps ++ (fp ∷ [])) (record s { no_id = s.no_id ++ (fp ∷ []) })
skip-Sorted id_key fp fps s h lacks = record {
  no_id =
      ap (λ l. l ++ (fp ∷ [])) h.no_id
      ∙ sym (select-append_one (λ t. not (has_id id_key t)) fps fp (ap not lacks));
  distinct = h.distinct;
  seen = λ j. rw (any-append (identified id_key j) fps (fp ∷ [])) (
      rw (ap (λ b. if b then hash_key (get id_key fp.facts) else none) lacks)
        (ground (arith, h.seen j)));
  keyed = h.keyed;
}

abbrev pub put : Key → Fingerprint → Seen → Option Fingerprint → Result Seen
put k fp s o = elim o [
  | none ↦ ok (record s { unique = insert k fp s.unique })
  | some existing ↦ merge_fingerprint none existing fp >>= λ merged.
      ok (record s { unique = insert k merged s.unique })
]

abbrev pub keyed_by : Fingerprint → Seen → Option Key → Result Seen
keyed_by fp s o = elim o [ none ↦ err type_error | some k ↦ see_key k fp s ]

abbrev pub route : String → Fingerprint → Seen → Bool → Result Seen
route id_key fp s b =
    if b
    then keyed_by fp s (hash_key (get id_key fp.facts))
    else ok (record s { no_id = s.no_id ++ (fp ∷ []) })

see_key-Sorted :
    (id_key : String) (k : Key) (fp : Fingerprint) (fps : List Fingerprint) (s s' : Seen)
    → is_table id_key ≡ false
    → Sorted id_key fps s
    → has_id id_key fp ≡ true
    → id_of id_key fp ≡ some k
    → see_key k fp s ≡ ok s'
    → Sorted id_key (fps ++ (fp ∷ [])) s'
see_key-Sorted id_key k fp fps s s' plain h has hk e = elim (Option-cases (lookup k s.unique)) [
  | inl new ↦
      subst (Sorted id_key (fps ++ (fp ∷ []))) (ok_injective (sym (ap (put k fp s) new) ∙ e))
        (insert-Sorted id_key k fp fp fps s h has hk hk)
  | inr (existing, old) ↦
      let (merged, m, done) =
        >>=-ok_parts (merge_fingerprint none existing fp) _ (sym (ap (put k fp s) old) ∙ e) in
      subst (Sorted id_key (fps ++ (fp ∷ []))) (ok_injective done) (
        insert-Sorted id_key k fp merged fps s h has hk
          (merge-id_of id_key k existing fp merged plain (h.keyed k existing old) hk m))
]

see-Sorted :
    (id_key : String) (fp : Fingerprint) (fps : List Fingerprint) (s s' : Seen)
    → is_table id_key ≡ false
    → Sorted id_key fps s
    → see id_key fp s ≡ ok s'
    → Sorted id_key (fps ++ (fp ∷ [])) s'
see-Sorted id_key fp fps s s' plain h e =
    let v = get id_key fp.facts in
    elim (Bool-cases (has_id id_key fp)) [
      | inr lacks ↦
          subst (Sorted id_key (fps ++ (fp ∷ [])))
            (ok_injective (sym (ap (route id_key fp s) lacks) ∙ e))
            (skip-Sorted id_key fp fps s h lacks)
      | inl has ↦
          let e' = sym (ap (route id_key fp s) has) ∙ e in
          elim (Option-cases (hash_key v)) [
            | inl bad ↦ absurd (err≢ok (sym (ap (keyed_by fp s) bad) ∙ e'))
            | inr (k, good) ↦
                see_key-Sorted id_key k fp fps s s' plain h has
                  (ap (λ b. if b then hash_key v else none) has ∙ good)
                  (sym (ap (keyed_by fp s) good) ∙ e')
          ]
    ]

see_all-Sorted :
    (id_key : String) (fps before : List Fingerprint) (s s' : Seen)
    → is_table id_key ≡ false
    → Sorted id_key before s
    → see_all id_key fps s ≡ ok s'
    → Sorted id_key (before ++ fps) s'
unfolding see_all
see_all-Sorted id_key [] before s s' plain h e =
    subst (λ l. Sorted id_key l s') (sym (append_nil before))
      (subst (Sorted id_key before) (ok_injective e) h)
see_all-Sorted id_key (fp ∷ fps) before s s' plain h e =
    let (s₁, one, rest) = >>=-ok_parts (see id_key fp s) _ e in
    subst (λ l. Sorted id_key l s') (append_assoc before (fp ∷ []) fps)
      (see_all-Sorted id_key fps (before ++ (fp ∷ [])) s₁ s' plain
        (see-Sorted id_key fp before s s₁ plain h one) rest)

-- A pass over an id key that raises nothing leaves the fingerprints without an id, in their order,
-- and then for each id of the input one fingerprint, which carries that id before ids are removed.
pub dedupe-Sorted :
    (id_key : String) (remove_key : Bool) (fps out : List Fingerprint)
    → is_table id_key ≡ false
    → dedupe id_key remove_key fps ≡ ok out
    → (s : Seen) × Sorted id_key fps s
      × (out ≡ (
          if remove_key
          then map (strip id_key) (s.no_id ++ values s.unique)
          else s.no_id ++ values s.unique))
unfolding dedupe
dedupe-Sorted id_key remove_key fps out plain e =
    let (s, all, done) = >>=-ok_parts (see_all id_key fps nothing_seen) _ e in
    (
      s,
      see_all-Sorted id_key fps [] nothing_seen s plain
          (record { no_id = refl; distinct = tt; seen = λ k. refl; keyed = λ k t h. cc }) all,
      sym (ok_injective done),
    )

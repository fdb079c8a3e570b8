-- ===== src/Fingerprint/Dedup/Origins.antt =====
-- The sources that fingerprints come from, as duplicates are removed.
use quipucords.Prelude.{
  String, ◌≡◌, refl, sym, ◌∙◌, ap, Bool, true, false, ◌||◌, Option, none, some, List, [], ◌∷◌, ◌++◌,
  map, arith, string_eq, if◌then◌else◌, Bool-cases, Option-cases, inl, inr, any, any-append, ◌==◌,
}
use quipucords.Prelude.Dict.{Dict, lookup, insert, values}
use quipucords.Json.{truthy, Key, hash_key, key_eq}
use quipucords.Fingerprint.Model.{ok, >>=-ok_parts, ok_injective, err≢ok, Fingerprint}
use quipucords.Fingerprint.Merge.{merge_fingerprint, get}
use quipucords.Fingerprint.Dedup.Unique.{put, keyed_by, route}
use quipucords.Fingerprint.Dedup.{
  Seen, see_key, see, see_all, strip, nothing_seen, dedupe, dedupe_by, remove_duplicates,
}
use quipucords.Fingerprint.Merge.Origins.{comes_from, merge-comes_from}

abbrev had : String → Option Fingerprint → Bool
had k none = false
had k (some fp) = comes_from k fp

abbrev all_of : String → List Fingerprint → Bool
all_of k = any (comes_from k)

or_nothing : (a : Bool) → (a || false) ≡ a
or_nothing a = ground arith

to_end : (a b c : Bool) → ((a || b) || c) ≡ ((a || c) || b)
to_end a b c = ground arith

assoc : (a b c : Bool) → (a || (b || c)) ≡ ((a || b) || c)
assoc a b c = ground arith

last_in : (a b c : Bool) → ((a || (b || false)) || c) ≡ ((a || c) || b)
last_in a b c = ground arith

-- Under a key of the dict, a fingerprint takes the place of one whose sources it has.
insert-comes_from :
    (k : String) (i : Key) (r : Fingerprint) (b : Bool) (o : Option Fingerprint)
    (d : Dict Key Fingerprint)
    → lookup i d ≡ o
    → comes_from k r ≡ (had k o || b)
    → all_of k (values (insert i r d)) ≡ (all_of k (values d) || b)
insert-comes_from k i r b o [] h e =
    or_nothing (comes_from k r) ∙ e ∙ ap (λ q. had k q || b) (sym h)
insert-comes_from k i r b o ((j, c) ∷ d) h e = elim (Bool-cases (j == i)) [
  | inl same ↦
      ap (λ t. all_of k (values (if t then (j, r) ∷ d else (j, c) ∷ insert i r d))) same
      ∙ ap (λ x. x || all_of k (values d))
          (e ∙ ap (λ q. had k q || b) (sym h ∙ ap (λ t. if t then some c else lookup i d) same))
      ∙ to_end (comes_from k c) b (all_of k (values d))
  | inr other ↦
      ap (λ t. all_of k (values (if t then (j, r) ∷ d else (j, c) ∷ insert i r d))) other
      ∙ ap (λ x. comes_from k c || x)
          (insert-comes_from k i r b o d
            (sym (ap (λ t. if t then some c else lookup i d) other) ∙ h) e)
      ∙ assoc (comes_from k c) (all_of k (values d)) b
]

-- All that was seen.
abbrev told : Seen → List Fingerprint
told s = s.no_id ++ values s.unique

told-comes_from :
    (k : String) (s : Seen) → all_of k (told s) ≡ (all_of k s.no_id || all_of k (values s.unique))
told-comes_from k s = any-append (comes_from k) s.no_id (values s.unique)

put-comes_from :
    (k : String) (i : Key) (fp r : Fingerprint) (s : Seen)
    → comes_from k r ≡ (had k (lookup i s.unique) || comes_from k fp)
    → all_of k (told (record s { unique = insert i r s.unique }))
      ≡ (all_of k (told s) || comes_from k fp)
put-comes_from k i fp r s e =
    told-comes_from k (record s { unique = insert i r s.unique })
    ∙ ap (λ x. all_of k s.no_id || x)
        (insert-comes_from k i r (comes_from k fp) (lookup i s.unique) s.unique refl e)
    ∙ assoc (all_of k s.no_id) (all_of k (values s.unique)) (comes_from k fp)
    ∙ ap (λ x. x || comes_from k fp) (sym (told-comes_from k s))

see_key-comes_from :
    (k : String) (i : Key) (fp : Fingerprint) (s s' : Seen)
    → see_key i fp s ≡ ok s'
    → all_of k (told s') ≡ (all_of k (told s) || comes_from k fp)
see_key-comes_from k i fp s s' e = elim (Option-cases (lookup i s.unique)) [
  | inl new ↦
      ap (λ t. all_of k (told t)) (sym (ok_injective (sym (ap (put i fp s) new) ∙ e)))
      ∙ put-comes_from k i fp fp s (ap (λ q. had k q || comes_from k fp) (sym new))
  | inr (existing, old) ↦
      let (merged, m, done) =
        >>=-ok_parts (merge_fingerprint none existing fp) _ (sym (ap (put i fp s) old) ∙ e) in
      ap (λ t. all_of k (told t)) (sym (ok_injective done))
      ∙ put-comes_from k i fp merged s (
          merge-comes_from none k existing fp merged m
          ∙ ap (λ q. had k q || comes_from k fp) (sym old))
]

skip-comes_from :
    (k : String) (fp : Fingerprint) (s : Seen)
    → all_of k (told (record s { no_id = s.no_id ++ (fp ∷ []) }))
      ≡ (all_of k (told s) || comes_from k fp)
skip-comes_from k fp s =
    told-comes_from k (record s { no_id = s.no_id ++ (fp ∷ []) })
    ∙ ap (λ x. x || all_of k (values s.unique)) (any-append (comes_from k) s.no_id (fp ∷ []))
    ∙ last_in (all_of k s.no_id) (comes_from k fp) (all_of k (values s.unique))
    ∙ ap (λ x. x || comes_from k fp) (sym (told-comes_from k s))

see-comes_from :
    (k id_key : String) (fp : Fingerprint) (s s' : Seen)
    → see id_key fp s ≡ ok s'
    → all_of k (told s') ≡ (all_of k (told s) || comes_from k fp)
see-comes_from k id_key fp s s' e =
    let v = get id_key fp.facts in
    elim (Bool-cases (truthy v)) [
      | inr lacks ↦
          ap (λ t. all_of k (told t)) (sym (ok_injective (sym (ap (route id_key fp s) lacks) ∙ e)))
          ∙ skip-comes_from k fp s
      | inl has ↦
          let e' = sym (ap (route id_key fp s) has) ∙ e in
          elim (Option-cases (hash_key v)) [
            | inl bad ↦ absurd (err≢ok (sym (ap (keyed_by fp s) bad) ∙ e'))
            | inr (i, good) ↦ see_key-comes_from k i fp s s' (sym (ap (keyed_by fp s) good) ∙ e')
          ]
    ]

see_all-comes_from :
    (k id_key : String) (fps : List Fingerprint) (s s' : Seen)
    → see_all id_key fps s ≡ ok s'
    → all_of k (told s') ≡ (all_of k (told s) || all_of k fps)
unfolding see_all
see_all-comes_from k id_key [] s s' e =
    ap (λ t. all_of k (told t)) (sym (ok_injective e)) ∙ sym (or_nothing (all_of k (told s)))
see_all-comes_from k id_key (fp ∷ fps) s s' e =
    let (s₁, one, rest) = >>=-ok_parts (see id_key fp s) _ e in
    see_all-comes_from k id_key fps s₁ s' rest
    ∙ ap (λ x. x || all_of k fps) (see-comes_from k id_key fp s s₁ one)
    ∙ sym (assoc (all_of k (told s)) (comes_from k fp) (all_of k fps))

strip-comes_from :
    (k id_key : String) (fps : List Fingerprint) → all_of k (map (strip id_key) fps) ≡ all_of k fps
strip-comes_from k id_key [] = refl
strip-comes_from k id_key (fp ∷ fps) =
    ap (λ x. comes_from k fp || x) (strip-comes_from k id_key fps)

dedupe-comes_from :
    (k id_key : String) (remove_key : Bool) (fps out : List Fingerprint)
    → dedupe id_key remove_key fps ≡ ok out
    → all_of k out ≡ all_of k fps
unfolding dedupe
dedupe-comes_from k id_key true fps out e =
    let (s, all, done) = >>=-ok_parts (see_all id_key fps nothing_seen) _ e in
    ap (all_of k) (sym (ok_injective done))
    ∙ strip-comes_from k id_key (told s)
    ∙ see_all-comes_from k id_key fps nothing_seen s all
dedupe-comes_from k id_key false fps out e =
    let (s, all, done) = >>=-ok_parts (see_all id_key fps nothing_seen) _ e in
    ap (all_of k) (sym (ok_injective done)) ∙ see_all-comes_from k id_key fps nothing_seen s all

dedupe_by-comes_from :
    (k : String) (id_keys : List String) (remove_key : Bool) (fps out : List Fingerprint)
    → dedupe_by id_keys remove_key fps ≡ ok out
    → all_of k out ≡ all_of k fps
unfolding dedupe_by
dedupe_by-comes_from k [] remove_key fps out e = ap (all_of k) (sym (ok_injective e))
dedupe_by-comes_from k (i ∷ is) remove_key fps out e =
    let (fps₁, one, rest) = >>=-ok_parts (dedupe i remove_key fps) _ e in
    dedupe_by-comes_from k is remove_key fps₁ out rest
    ∙ dedupe-comes_from k i remove_key fps fps₁ one

-- Removing duplicates by any list of id keys, where it raises nothing, loses no source and makes up
-- none: a source is named by some fingerprint of the result exactly if one of the input named it.
pub remove_duplicates-comes_from :
    (id_keys : List String) (remove_key : Bool) (fps out : List Fingerprint) (k : String)
    → remove_duplicates id_keys remove_key fps ≡ ok out
    → any (comes_from k) out ≡ any (comes_from k) fps
unfolding remove_duplicates
remove_duplicates-comes_from id_keys remove_key [] out k e = ap (all_of k) (sym (ok_injective e))
remove_duplicates-comes_from id_keys remove_key (fp ∷ fps) out k e =
    dedupe_by-comes_from k id_keys remove_key (fp ∷ fps) out e

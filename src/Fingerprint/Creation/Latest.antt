-- ===== src/Fingerprint/Creation/Latest.antt =====
-- The date of creation is that of the last raw date, and the raw dates are gone.
use quipucords.Prelude.{
  is_some, String, ◌≡◌, refl, sym, ◌∙◌, ap, Bool, true, false, not, ◌&&◌, none, some, List, [], ◌∷◌,
  ◌==◌, string_eq, All, all, arith,
}
use mathlib.Core.Path.{subst}
use quipucords.Prelude.Dict.{
  Dict, lookup, insert, lookup-erase_none, lookup-insert_ne, lookup-insert_self, has_key, IsDict,
  lookup-erase_self, erase-IsDict,
}
use quipucords.Json.{Value, null}
use quipucords.Fingerprint.Model.{ok, >>=-ok_parts, ok_injective, Meta, Fingerprint}
use quipucords.Products.Values.{get}
use quipucords.Facts.Formatters.{Builtins}
use quipucords.Facts.Dates.{multi_format_dateparse}
use quipucords.Fingerprint.Creation.{
  Dated, see_date, see_dates, pop_key, undated, put_date_with, raw_date_keys,
  compute_system_creation_time, creation_key,
}
use quipucords.Fingerprint.Creation.Decided.{
  Keys, last_dated, Decided, IsFresh, AreDistinct, see_date-Decided, see_dates-Decided,
}

pop_all : Keys → Fingerprint → Fingerprint
pop_all [] fp = fp
pop_all ((k, patterns) ∷ keys) fp = pop_all keys (pop_key k fp)

see_dates-pop_all :
    (b : Builtins) (keys : Keys) (d e : Dated)
    → see_dates b keys d ≡ ok e
    → e.rest ≡ pop_all keys d.rest
unfolding see_dates pop_all
see_dates-pop_all b [] d e run = ap (λ (x : Dated). x.rest) (sym (ok_injective run))
see_dates-pop_all b ((j, patterns) ∷ keys) d e run =
    let r = >>=-ok_parts (see_date b j patterns d) _ run in
    see_dates-pop_all b keys r.0 e r.2
    ∙ ap (pop_all keys) (see_date-Decided b j patterns d r.0 r.1).0

pop_all-absent :
    (keys : Keys) (fp : Fingerprint) (k : String)
    → has_key k fp.facts ≡ false
    → has_key k (pop_all keys fp).facts ≡ false
unfolding pop_all
pop_all-absent [] fp k h = h
pop_all-absent ((j, patterns) ∷ keys) fp k h =
    pop_all-absent keys (pop_key j fp) k (lookup-erase_none j k fp.facts h)

pop_all-gone :
    (keys : Keys) (fp : Fingerprint)
    → IsDict fp.facts
    → All (λ p. has_key p.0 (pop_all keys fp).facts ≡ false) keys
unfolding pop_all
pop_all-gone [] fp h = tt
pop_all-gone ((j, patterns) ∷ keys) fp h = (
  pop_all-absent keys (pop_key j fp) j (ap is_some (lookup-erase_self j fp.facts h)),
  pop_all-gone keys (pop_key j fp) (erase-IsDict j fp.facts h),
)

-- What holds of a fingerprint whose raw dates have been replaced by the date of creation.
pub record IsDated (b : Builtins) (fp : Fingerprint) (k : String) (patterns : List String)
    (made : Fingerprint) : Type 0 where
  pub gone : All (λ p. has_key p.0 made.facts ≡ false) raw_date_keys
  pub dated : multi_format_dateparse b (get k fp.facts) patterns ≡ ok (get creation_key made.facts)

-- Freshness by a test.
is_fresh : (k : String) (keys : Keys) → all (λ p. not (k == p.0)) keys ≡ true → IsFresh k keys
is_fresh k [] h = tt
is_fresh k ((j, patterns) ∷ keys) h =
    (λ e. ground (arith, (string_eq.beq_iff k j).1 e), is_fresh k keys (ground arith))

all_fresh : Keys → Bool
all_fresh [] = true
all_fresh ((k, patterns) ∷ keys) = all (λ p. not (k == p.0)) keys && all_fresh keys

are_distinct : (keys : Keys) → all_fresh keys ≡ true → AreDistinct keys
unfolding all_fresh
are_distinct [] h = tt
are_distinct ((k, patterns) ∷ keys) h =
    (is_fresh k keys (ground arith), are_distinct keys (ground arith))

distinct : AreDistinct raw_date_keys
unfolding all_fresh
distinct = are_distinct raw_date_keys refl

creation_key-IsFresh : IsFresh creation_key raw_date_keys
creation_key-IsFresh = is_fresh creation_key raw_date_keys refl

insert-gone :
    (keys : Keys) (v : Value) (facts : Dict String Value)
    → IsFresh creation_key keys
    → All (λ p. has_key p.0 facts ≡ false) keys
    → All (λ p. has_key p.0 (insert creation_key v facts) ≡ false) keys
insert-gone [] v facts h g = tt
insert-gone ((k, patterns) ∷ keys) v facts h g = (
  ap is_some (lookup-insert_ne creation_key k v facts h.0) ∙ g.0,
  insert-gone keys v facts h.1 g.1,
)

-- If the last raw date that has a value has metadata too, the date of creation is what can be read of
-- that value, `None` if it cannot be read, whatever the other raw dates say; and no raw date is left.
pub compute_system_creation_time-IsDated :
    (b : Builtins) (fp made : Fingerprint) (k : String) (patterns : List String) (m : Meta)
    → IsDict fp.facts
    → last_dated fp.facts raw_date_keys ≡ some (k, patterns)
    → lookup k fp.metadata ≡ some m
    → compute_system_creation_time b fp ≡ ok made
    → IsDated b fp k patterns made
unfolding compute_system_creation_time
compute_system_creation_time-IsDated b fp made k patterns m h last has run =
    let r = >>=-ok_parts (see_dates b raw_date_keys (undated fp)) _ run in
    let d = see_dates-Decided b raw_date_keys (undated fp) r.0 distinct r.1 in
    let n : Decided b fp (some (k, patterns)) (undated fp) r.0 =
      subst (λ o. Decided b fp o (undated fp) r.0) last d in
    let rest = see_dates-pop_all b raw_date_keys (undated fp) r.0 r.1 in
    subst (IsDated b fp k patterns)
      (sym (ap (λ o. put_date_with o r.0) (n.1 ∙ has)) ∙ ok_injective r.2)
      (record {
        gone = insert-gone raw_date_keys r.0.date r.0.rest.facts creation_key-IsFresh (
            subst (λ (x : Fingerprint). All (λ p. has_key p.0 x.facts ≡ false) raw_date_keys)
              (sym rest) (pop_all-gone raw_date_keys fp h));
        dated =
            n.0
            ∙ ap (λ o. ok (elim o [ some v ↦ v | none ↦ null ]))
                (sym (lookup-insert_self creation_key r.0.date r.0.rest.facts));
      })

-- ===== src/Fingerprint/Matching/Indexing.antt =====
-- What `_create_index_for_fingerprints` makes of a list of fingerprints.
use mathlib.Core.Path.{subst}
use quipucords.Prelude.{
  ℕ, suc, String, ◌≡◌, ◌≢◌, refl, sym, ◌∙◌, ap, Bool, true, false, not, ◌&&◌, ◌||◌, Option, none,
  some, is_some, List, [], ◌∷◌, ◌++◌, string_eq, if◌then◌else◌, Bool-cases, Option-cases, inl, inr,
  select, any, append_assoc, append_nil, any-append, select-append_one, arith,
}
use quipucords.Prelude.Dict.{Dict, lookup, has_key, IsDict}
use quipucords.Json.{Key, key_eq}
use quipucords.Fingerprint.Model.{◌>>=◌, >>=-ok_parts, ok, Fingerprint, ok_injective}
use quipucords.Fingerprint.Merge.{get}
use quipucords.Fingerprint.Dedup.Unique.{has_id}
use quipucords.Fingerprint.Matching.{Index, index_value, index_one, tag, index_all, no_index}
use quipucords.Fingerprint.Matching.Growth.{
  exploded, is_at, first_of, Grown, or_false, index_value-Grown, entry_some,
}

-- Whether a fingerprint is to be found under a key.
abbrev pub carries : String → Key → Fingerprint → Bool
carries id_key k fp = has_id id_key fp && any (is_at k) (exploded (get id_key fp.facts))

-- The fingerprints with their new ids.
abbrev pub tagged : (ℕ → String) → ℕ → List Fingerprint → List Fingerprint
tagged uuid4 n [] = []
tagged uuid4 n (fp ∷ fps) = tag (uuid4 n) fp ∷ tagged uuid4 (suc n) fps

-- The first fingerprint that carries a key.
abbrev pub first_carrier : String → Key → List Fingerprint → Option Fingerprint
first_carrier id_key k [] = none
first_carrier id_key k (fp ∷ fps) =
    if carries id_key k fp then some fp else first_carrier id_key k fps

first_carrier-append :
    (id_key : String) (k : Key) (fps : List Fingerprint) (fp : Fingerprint)
    → first_carrier id_key k (fps ++ (fp ∷ []))
      ≡ first_of (first_carrier id_key k fps) (if carries id_key k fp then some fp else none)
first_carrier-append id_key k [] fp = refl
first_carrier-append id_key k (u ∷ fps) fp = ground (arith, first_carrier-append id_key k fps fp)

-- An index of fingerprints: those without the id in their order, and under every key that one of
-- them carries, and under no other, the first that carries it.
pub record Indexed (id_key : String) (fps : List Fingerprint) (x : Index) : Type 0 where
  pub no_key : x.no_key ≡ select (λ fp. not (has_id id_key fp)) fps
  pub dict : IsDict x.by_key
  pub entry : (k : Key) → lookup k x.by_key ≡ first_carrier id_key k fps
  pub found : (k : Key) → has_key k x.by_key ≡ any (carries id_key k) fps
  pub right :
      (k : Key) (fp : Fingerprint) → lookup k x.by_key ≡ some fp → carries id_key k fp ≡ true

first_of-none : (o : Option Fingerprint) → first_of o none ≡ o
first_of-none none = refl
first_of-none (some fp) = refl

skip-Indexed :
    (id_key : String) (fp : Fingerprint) (fps : List Fingerprint) (x : Index)
    → Indexed id_key fps x
    → has_id id_key fp ≡ false
    → Indexed id_key (fps ++ (fp ∷ [])) (record x { no_key = x.no_key ++ (fp ∷ []) })
skip-Indexed id_key fp fps x h lacks = record {
  no_key =
      ap (λ l. l ++ (fp ∷ [])) h.no_key
      ∙ sym (select-append_one (λ t. not (has_id id_key t)) fps fp (ap not lacks));
  dict = h.dict;
  entry = λ k.
      h.entry k
      ∙ sym (
          first_carrier-append id_key k fps fp
          ∙ ap
              (λ c.
                first_of (first_carrier id_key k fps)
                  (if c && any (is_at k) (exploded (get id_key fp.facts)) then some fp else none))
              lacks
          ∙ first_of-none (first_carrier id_key k fps));
  found = λ k.
      h.found k
      ∙ sym (
          any-append (carries id_key k) fps (fp ∷ [])
          ∙ ap
              (λ c.
                any (carries id_key k) fps
                || (c && any (is_at k) (exploded (get id_key fp.facts)) || false))
              lacks
          ∙ or_false (any (carries id_key k) fps));
  right = h.right;
}

abbrev carried : String → Key → Option Fingerprint → Bool
carried id_key k none = false
carried id_key k (some fp) = carries id_key k fp

none≢some {ℓ} : {A : Type ℓ} {a : A} → none ≢ some a
none≢some e = cc

Grown-Indexed :
    (id_key : String) (fp : Fingerprint) (fps : List Fingerprint) (x : Index)
    (d : Dict Key Fingerprint)
    → Indexed id_key fps x
    → has_id id_key fp ≡ true
    → Grown fp (exploded (get id_key fp.facts)) x.by_key d
    → Indexed id_key (fps ++ (fp ∷ [])) (record x { by_key = d })
Grown-Indexed id_key fp fps x d h has g =
    let at = λ (k : Key). any (is_at k) (exploded (get id_key fp.facts)) in
    record {
      no_key = h.no_key ∙ sym (select-append_one (λ t. not (has_id id_key t)) fps fp (ap not has));
      dict = g.dict;
      entry = λ k.
          g.entry k
          ∙ ap (λ o. first_of o (if at k then some fp else none)) (h.entry k)
          ∙ sym (
              first_carrier-append id_key k fps fp
              ∙ ap
                  (λ c. first_of (first_carrier id_key k fps) (if c && at k then some fp else none))
                  has);
      found = λ k.
          ap is_some (g.entry k)
          ∙ entry_some (lookup k x.by_key) fp (at k)
          ∙ ap (λ a. a || at k) (h.found k)
          ∙ sym (
              any-append (carries id_key k) fps (fp ∷ [])
              ∙ ap (λ c. any (carries id_key k) fps || (c && at k || false)) has
              ∙ ap (λ c. any (carries id_key k) fps || c) (or_false (at k)));
      right = λ k t e. elim (Option-cases (lookup k x.by_key)) [
        | inr (u, old) ↦ h.right k t (
            old
            ∙ sym (ap (λ o. first_of o (if at k then some fp else none)) old)
            ∙ sym (g.entry k)
            ∙ e)
        | inl new ↦
            let e' =
              sym (g.entry k ∙ ap (λ o. first_of o (if at k then some fp else none)) new) ∙ e in
            elim (Bool-cases (at k)) [
              | inl y ↦
                  sym (ap (carried id_key k) (sym (ap (λ b. if b then some fp else none) y) ∙ e'))
                  ∙ ap (λ c. c && at k) has
                  ∙ y
              | inr n ↦ absurd (none≢some (sym (ap (λ b. if b then some fp else none) n) ∙ e'))
            ]
      ];
    }

index_one-Indexed :
    (id_key : String) (fp : Fingerprint) (fps : List Fingerprint) (x x' : Index)
    → Indexed id_key fps x
    → index_one id_key fp x ≡ ok x'
    → Indexed id_key (fps ++ (fp ∷ [])) x'
index_one-Indexed id_key fp fps x x' h e =
    let v = get id_key fp.facts in
    let found = index_value v fp x.by_key >>= λ d. ok (record x { by_key = d }) in
    let route =
      λ (b : Bool). if b then found else ok (record x { no_key = x.no_key ++ (fp ∷ []) }) in
    elim (Bool-cases (has_id id_key fp)) [
      | inr lacks ↦
          subst (Indexed id_key (fps ++ (fp ∷ []))) (ok_injective (sym (ap route lacks) ∙ e))
            (skip-Indexed id_key fp fps x h lacks)
      | inl has ↦
          let (d, grown, done) =
            >>=-ok_parts (index_value v fp x.by_key) _ (sym (ap route has) ∙ e) in
          let g = index_value-Grown v fp x.by_key d h.dict grown in
          subst (Indexed id_key (fps ++ (fp ∷ []))) (ok_injective done)
            (Grown-Indexed id_key fp fps x d h has g)
    ]

index_all-tagged :
    (uuid4 : ℕ → String) (n : ℕ) (id_key : String) (fps before : List Fingerprint) (x x' : Index)
    → Indexed id_key before x
    → index_all uuid4 n id_key fps x ≡ ok x'
    → Indexed id_key (before ++ tagged uuid4 n fps) x'
unfolding index_all
index_all-tagged uuid4 n id_key [] before x x' h e =
    subst (λ l. Indexed id_key l x') (sym (append_nil before))
      (subst (Indexed id_key before) (ok_injective e) h)
index_all-tagged uuid4 n id_key (fp ∷ fps) before x x' h e =
    let (x₁, one, rest) = >>=-ok_parts (index_one id_key (tag (uuid4 n) fp) x) _ e in
    subst (λ l. Indexed id_key l x')
      (append_assoc before (tag (uuid4 n) fp ∷ []) (tagged uuid4 (suc n) fps))
      (index_all-tagged uuid4 (suc n) id_key fps (before ++ (tag (uuid4 n) fp ∷ [])) x₁ x'
        (index_one-Indexed id_key (tag (uuid4 n) fp) before x x₁ h one) rest)

-- Indexing that raises nothing gives every fingerprint a new id, and leads from a key to the first
-- fingerprint that carries it; later ones that carry it are not under that key. A key is in the index
-- exactly if some fingerprint carries it, and once. Those without a value for the id are listed
-- apart, in their order.
pub index_all-Indexed :
    (uuid4 : ℕ → String) (n : ℕ) (id_key : String) (fps : List Fingerprint) (x : Index)
    → index_all uuid4 n id_key fps no_index ≡ ok x
    → Indexed id_key (tagged uuid4 n fps) x
index_all-Indexed uuid4 n id_key fps x e =
    index_all-tagged uuid4 n id_key fps [] no_index x
      (record {
        no_key = refl;
        dict = tt;
        entry = λ k. refl;
        found = λ k. refl;
        right = λ k t h. cc;
      })
      e

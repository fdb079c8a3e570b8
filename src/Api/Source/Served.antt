-- ===== src/Api/Source/Served.antt =====
-- Requests to create and to update sources, one after another (quipucords/api/source/serializer.py).
use quipucords.Prelude.{
  ℕ, ◌≡◌, sym, ◌∙◌, ap, inl, inr, String, Bool, true, false, ◌||◌, Option, none, some, List, [],
  ◌∷◌, ◌++◌, ◌==◌, string_eq, nat_eq, if◌then◌else◌, All, Bool-cases,
}
use mathlib.Core.Path.{subst}
use quipucords.Prelude.Dict.{keys}
use quipucords.Api.Source.{
  Checked, valid, invalid, raised, Attrs, Source, is_http, is_ssh, validate, check_fields, type_of,
}
use quipucords.Api.Source.Checks.{Holds, Fits, keep_then, IsFilled, is_full, check_fields_full}
use quipucords.Api.Source.Fitting.{Same, validate-Accepts}
use quipucords.Api.Source.Store.{
  Version, Request, post, put, find_source, add_result, put_source, put_result, post_source,
  change_source, change_found, serve, serve_all, known_fields,
}
use quipucords.Api.Source.Valid.{IsValid, create-IsValid, update-IsValid}

IsFilled-Same : (partial : Bool) (a b : Attrs) → Same a b → IsFilled partial a → IsFilled partial b
IsFilled-Same partial a b same filled = (
  ap (is_full partial) same.same_hosts ∙ filled.0,
  ap (is_full partial) same.same_credentials ∙ filled.1,
)

-- The type of a valid source is that of the source itself, not of the request.
own_type : (s : Source) (a : Attrs) → IsValid s → type_of (some s) a ≡ some s.source_type
own_type s a v = elim (Bool-cases (s.source_type == "")) [
  | inl empty ↦
      let unknown : (is_ssh "" || is_http "") ≡ true =
        subst (λ t. (is_ssh t || is_http t) ≡ true) ((string_eq.beq_iff s.source_type "").0 empty)
          v.known_type in
      absurd (cc unknown)
  | inr there ↦ ap (λ b. if b then a.source_type else some s.source_type) there
]

some-injective : {x y : String} → some x ≡ some y → x ≡ y
some-injective e = cc e

append-IsValid :
    (sources : List Source) (s : Source)
    → All IsValid sources
    → IsValid s
    → All IsValid (sources ++ (s ∷ []))
append-IsValid [] s h v = (v, tt)
append-IsValid (u ∷ sources) s h v = (h.0, append-IsValid sources s h.1 v)

either-IsValid : (b : Bool) (s u : Source) → IsValid s → IsValid u → IsValid (if b then s else u)
either-IsValid true s u v w = v
either-IsValid false s u v w = w

abbrev ValidIfFound : Option Source → Type 0
ValidIfFound none = Unit
ValidIfFound (some s) = IsValid s

found_if :
    (b : Bool) (s : Source) (o : Option Source)
    → IsValid s
    → ValidIfFound o
    → ValidIfFound (if b then some s else o)
found_if true s o v w = v
found_if false s o v w = w

found_valid :
    (i : ℕ) (sources : List Source) → All IsValid sources → ValidIfFound (find_source i sources)
found_valid i [] h = tt
found_valid i (s ∷ sources) h =
    found_if (s.source_id == i) s (find_source i sources) h.0 (found_valid i sources h.1)

module _ (ip cidr hostname range : String → Bool) where
  post_source-IsValid :
      (version : Version) (sources : List Source) (i : ℕ) (input : Attrs)
      → Holds IsValid (post_source ip cidr hostname range version sources i input)
  unfolding post_source
  post_source-IsValid version sources i input =
      keep_then _ _ (check_fields ip cidr hostname range false (known_fields version input)) _
        (check_fields_full ip cidr hostname range false (known_fields version input))
        (λ a filled.
          keep_then _ _ (validate (keys input.ssl_fields) none a) _
            (validate-Accepts (keys input.ssl_fields) none a)
            (λ b r.
              create-IsValid version sources i b r.0 ((r.3).same_type ∙ r.1)
                (IsFilled-Same false a b r.3 filled) r.2))

  change_source-IsValid :
      (version : Version) (partial : Bool) (sources : List Source) (s : Source) (input : Attrs)
      → IsValid s
      → Holds IsValid (change_source ip cidr hostname range version partial sources s input)
  unfolding change_source
  change_source-IsValid version partial sources s input v =
      keep_then _ _ (check_fields ip cidr hostname range partial (known_fields version input)) _
        (check_fields_full ip cidr hostname range partial (known_fields version input))
        (λ a filled.
          keep_then _ _ (validate (keys input.ssl_fields) (some s) a) _
            (validate-Accepts (keys input.ssl_fields) (some s) a)
            (λ b r.
              let same_type : r.0 ≡ s.source_type = some-injective (sym r.1 ∙ own_type s a v) in
              update-IsValid version sources s b (subst (λ t. Fits t b) same_type r.2) v))

  added :
      (sources : List Source) (c : Checked Source)
      → All IsValid sources
      → Holds IsValid c
      → All IsValid (add_result sources c)
  added sources (valid s) h v = append-IsValid sources s h v
  added sources (invalid field) h v = h
  added sources (raised e) h v = h

  put_source-IsValid :
      (s : Source) (sources : List Source)
      → IsValid s
      → All IsValid sources
      → All IsValid (put_source s sources)
  put_source-IsValid s [] v h = tt
  put_source-IsValid s (u ∷ sources) v h =
      (either-IsValid (u.source_id == s.source_id) s u v h.0, put_source-IsValid s sources v h.1)

  changed :
      (sources : List Source) (c : Checked Source)
      → All IsValid sources
      → Holds IsValid c
      → All IsValid (put_result sources c)
  changed sources (valid s) h v = put_source-IsValid s sources v h
  changed sources (invalid field) h v = h
  changed sources (raised e) h v = h

  changed_found :
      (version : Version) (partial : Bool) (sources : List Source) (o : Option Source)
      (input : Attrs)
      → All IsValid sources
      → ValidIfFound o
      → All IsValid (change_found ip cidr hostname range version partial sources o input)
  changed_found version partial sources none input h v = h
  changed_found version partial sources (some s) input h v =
      changed sources (change_source ip cidr hostname range version partial sources s input) h
        (change_source-IsValid version partial sources s input v)

  serve-IsValid :
      (version : Version) (r : Request) (sources : List Source)
      → All IsValid sources
      → All IsValid (serve ip cidr hostname range version r sources)
  unfolding serve
  serve-IsValid version (post i input) sources h =
      added sources (post_source ip cidr hostname range version sources i input) h
        (post_source-IsValid version sources i input)
  serve-IsValid version (put partial i input) sources h =
      changed_found version partial sources (find_source i sources) input h
        (found_valid i sources h)

  -- Whatever requests come, full, partial or refused, in whichever version: if all sources in the table
  -- are valid, they all stay so. A valid source has a known type, hosts, and credentials all of its own
  -- type; one that is reached by HTTP has a single host that is no range, a single credential, and
  -- excludes no host.
  pub serve_all-All :
      (version : Version) (rs : List Request) (sources : List Source)
      → All IsValid sources
      → All IsValid (serve_all ip cidr hostname range version rs sources)
  unfolding serve_all
  serve_all-All version [] sources h = h
  serve_all-All version (r ∷ rs) sources h =
      serve_all-All version rs (serve ip cidr hostname range version r sources)
        (serve-IsValid version r sources h)

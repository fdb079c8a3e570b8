-- ===== src/Text.antt =====
-- Texts as their code points, with the operations of `str` that the fingerprinter uses: comparison,
-- `startswith`, `in`, `lower`, `strip`, `partition` and `join`. Case and white space are those of ASCII.

pub mod Order
use Prim.Native.String.{◌++◌ as text_append}
use Prim.Native.Char.{Char, code}
use text.Mathlib.TextEquality.{Char-path}
use mathlib.Core.List.{head-eq_of_cons-eq, tail-eq_of_cons-eq}
use quipucords.Prelude.{
  zero, suc, contains, length, ℕ, String, ◌+◌, ◌≡◌, refl, ap, Bool, true, false, ◌||◌, ◌&&◌, not,
  List, [], ◌∷◌, ◌++◌, map, ltb, ◌==◌, nat_eq, if◌then◌else◌, arith,
}

-- The code points of a text.
abbrev pub codes : String → List ℕ
codes String.[] = []
codes (String.◌∷◌ c s) = code c ∷ codes s

pub codes_injective : (s t : String) → codes s ≡ codes t → s ≡ t
codes_injective String.[] String.[] h = refl
codes_injective String.[] (String.◌∷◌ c t) h = cc h
codes_injective (String.◌∷◌ c s) String.[] h = cc h
codes_injective (String.◌∷◌ c s) (String.◌∷◌ d t) h =
    let first : c ≡ d = Char-path c d (head-eq_of_cons-eq h) in
    let rest : s ≡ t = codes_injective s t (tail-eq_of_cons-eq h) in
    λ i. String.◌∷◌ (first i) (rest i)

-- A character in front of the first line.
abbrev pub push : Char → List String → List String
push c [] = String.◌∷◌ c "" ∷ []
push c (l ∷ ls) = String.◌∷◌ c l ∷ ls

-- The white space of `strip`.
abbrev pub is_space : ℕ → Bool
is_space c =
    contains c (
      9 ∷ 10 ∷ 11 ∷ 12 ∷ 13 ∷ 28 ∷ 29 ∷ 30 ∷ 31 ∷ 32 ∷ 133 ∷ 160 ∷ 5760 ∷ 8232 ∷ 8233 ∷ 8239 ∷ 8287
      ∷ 12288 ∷ [])
    || (not (ltb c 8192) && ltb c 8203)

abbrev pub strip_left : String → String
strip_left String.[] = ""
strip_left (String.◌∷◌ c s) = if is_space (code c) then strip_left s else String.◌∷◌ c s

abbrev pub keep_right : Char → String → String
keep_right c String.[] = if is_space (code c) then "" else String.◌∷◌ c ""
keep_right c s = String.◌∷◌ c s

abbrev pub strip_right : String → String
strip_right String.[] = ""
strip_right (String.◌∷◌ c s) = keep_right c (strip_right s)

abbrev pub strip : String → String
strip s = strip_left (strip_right s)

-- What ends a line.
abbrev pub is_break : ℕ → Bool
is_break c = contains c (10 ∷ 11 ∷ 12 ∷ 13 ∷ 28 ∷ 29 ∷ 30 ∷ 133 ∷ 8232 ∷ 8233 ∷ [])

abbrev first_code : String → ℕ
first_code String.[] = 0
first_code (String.◌∷◌ c s) = code c

abbrev pub splitlines : String → List String
splitlines String.[] = []
splitlines (String.◌∷◌ c s) =
    let rest = splitlines s in
    if code c == 13 && first_code s == 10
    then rest
    else if is_break (code c)
    then "" ∷ rest
    else push c rest

-- `c.lower()` of a letter of ASCII.
abbrev pub lower : ℕ → ℕ
lower c = if not (ltb c 65) && ltb c 91 then c + 32 else c

abbrev pub lower_codes : String → List ℕ
lower_codes s = map lower (codes s)

-- `a <= b`, the order of the code points.
abbrev pub codes_le : List ℕ → List ℕ → Bool
codes_le [] b = true
codes_le (x ∷ a) [] = false
codes_le (x ∷ a) (y ∷ b) = ltb x y || (x == y && codes_le a b)

-- `b.startswith(a)`
abbrev pub begins : List ℕ → List ℕ → Bool
begins [] b = true
begins (x ∷ a) [] = false
begins (x ∷ a) (y ∷ b) = x == y && begins a b

-- `a in b`
abbrev pub occurs : List ℕ → List ℕ → Bool
occurs a [] = begins a []
occurs a (y ∷ b) = begins a (y ∷ b) || occurs a b

-- The text without its first characters.
abbrev pub drop_chars : ℕ → String → String
drop_chars n String.[] = ""
drop_chars zero (String.◌∷◌ c s) = String.◌∷◌ c s
drop_chars (suc n) (String.◌∷◌ c s) = drop_chars n s

-- `s.partition(separator)[2]`
abbrev pub after : String → String → String
after separator String.[] = ""
after separator (String.◌∷◌ c s) =
    if begins (codes separator) (code c ∷ codes s)
    then drop_chars (length (codes separator)) (String.◌∷◌ c s)
    else after separator s

-- `separator.join(texts)`
abbrev pub join : String → List String → String
join separator [] = ""
join separator (t ∷ []) = t
join separator (t ∷ u ∷ ts) = text_append t (text_append separator (join separator (u ∷ ts)))

abbrev pub text_le : String → String → Bool
text_le s t = codes_le (codes s) (codes t)

-- `sorted(texts)`, as insertion sort.
abbrev pub sorted_insert : String → List String → List String
sorted_insert v [] = v ∷ []
sorted_insert v (w ∷ ws) = if text_le v w then v ∷ w ∷ ws else w ∷ sorted_insert v ws

abbrev pub sorted : List String → List String
sorted [] = []
sorted (v ∷ vs) = sorted_insert v (sorted vs)

-- ===== src/Scanners/Satellite/Pages.antt =====
-- `request_results` (quipucords/scanner/satellite/six.py), which asks for one page of results after
-- another. The server is a parameter, a function of the number of the page.
use quipucords.Prelude.{
  ℕ, zero, suc, ◌<◌, ◌≡◌, refl, sym, ◌∙◌, ap, Bool, true, false, not, ◌||◌, List, [], ◌∷◌, ◌++◌,
  length, take, drop, take-drop, length-take, length-drop, take_short, ◌==◌, nat_eq, if◌then◌else◌,
  arith, Bool-cases, inl, inr,
}

-- An answer: its status code, its results, and what it says of the size of a page.
pub record Page {ℓ} (A : Type ℓ) : Type ℓ where
  pub status_code : ℕ
  pub results : List A
  pub per_page : ℕ

-- How the generator ends: by itself, with `SatelliteError`, or not within the fuel.
pub data End : Type 0 where
  exhausted satellite_error out_of_fuel : End

module _ {ℓ} {A : Type ℓ} where
  abbrev pub is_empty : List A → Bool
  is_empty [] = true
  is_empty (x ∷ xs) = false

  -- `not results or not expect_more_pages`
  abbrev pub is_last : Page A → Bool
  is_last p = is_empty p.results || not (length p.results == p.per_page)

  abbrev after_page : Page A → List A × End → List A × End
  after_page p rest =
      if not (p.status_code == 200)
      then ([], satellite_error)
      else if is_last p
      then (p.results, exhausted)
      else (p.results ++ rest.0, rest.1)

  -- What is yielded from a page on, one page for each unit of fuel.
  unfoldable pub request_results : ℕ → (ℕ → Page A) → ℕ → List A × End
  request_results zero server page = ([], out_of_fuel)
  request_results (suc fuel) server page =
      after_page (server page) (request_results fuel server (suc page))

  -- What is left of a list after so many pages.
  abbrev pub rest_after : ℕ → ℕ → List A → List A
  rest_after zero count xs = xs
  rest_after (suc n) count xs = rest_after n count (drop count xs)

  -- The page of a list that a server answers with.
  abbrev pub page_of : ℕ → List A → Page A
  page_of count xs = record { status_code = 200; results = take count xs; per_page = count }

  -- A server that pages a list, from page 1 on.
  abbrev pub Serves : ℕ → List A → (ℕ → Page A) → Type ℓ
  Serves count xs server = (n : ℕ) → server (suc n) ≡ page_of count (rest_after n count xs)

  rest_after-suc :
      (n count : ℕ) (xs : List A) → drop count (rest_after n count xs) ≡ rest_after (suc n) count xs
  rest_after-suc zero count xs = refl
  rest_after-suc (suc n) count xs = rest_after-suc n count (drop count xs)

  length-drop_less :
      (c : ℕ) (xs : List A) → is_empty xs ≡ false → length (drop (suc c) xs) < length xs
  length-drop_less c [] h = cc h
  length-drop_less c (x ∷ xs) h = omega (arith, length-drop c xs)

  last_is_all :
      (c : ℕ) (left : List A) → is_last (page_of (suc c) left) ≡ true → take (suc c) left ≡ left
  last_is_all c [] h = refl
  last_is_all c (x ∷ xs) h =
      let short : not (length (take (suc c) (x ∷ xs)) == suc c) ≡ true = h in
      take_short (suc c) (x ∷ xs) (ground (arith, length-take (suc c) (x ∷ xs)))

  more_is_left :
      (c : ℕ) (left : List A) → is_last (page_of (suc c) left) ≡ false → is_empty left ≡ false
  more_is_left c [] h = cc h
  more_is_left c (x ∷ xs) h = refl

  from_page :
      (fuel c n : ℕ) (server : ℕ → Page A) (xs left : List A)
      → Serves (suc c) xs server
      → rest_after n (suc c) xs ≡ left
      → length left < fuel
      → request_results fuel server (suc n) ≡ (left, exhausted)
  unfolding request_results
  from_page zero c n server xs left serves e h = absurd (omega arith)
  from_page (suc fuel) c n server xs left serves e h =
      let p = page_of (suc c) left in
      let rest = request_results fuel server (suc (suc n)) in
      ap (λ q. after_page q rest) (serves n ∙ ap (page_of (suc c)) e)
      ∙ elim (Bool-cases (is_last p)) [
        | inl last ↦
            ap
              (λ b.
                if b then (take (suc c) left, exhausted) else (take (suc c) left ++ rest.0, rest.1))
              last
            ∙ ap (λ l. (l, exhausted)) (last_is_all c left last)
        | inr more ↦
            let next =
              from_page fuel c (suc n) server xs (drop (suc c) left) serves
                (sym (rest_after-suc n (suc c) xs) ∙ ap (drop (suc c)) e)
                (omega (arith, h, length-drop_less c left (more_is_left c left more))) in
            ap
              (λ b.
                if b then (take (suc c) left, exhausted) else (take (suc c) left ++ rest.0, rest.1))
              more
            ∙ ap (λ r. (take (suc c) left ++ r.0, r.1)) next
            ∙ ap (λ l. (l, exhausted)) (take-drop (suc c) left)
      ]

  -- From a server that pages a list, all of the list is yielded, in order, and then the requests end:
  -- one page more than the list has elements is enough. The size of a page may be any positive number,
  -- also one that divides the length of the list.
  pub request_results_terminates :
      (count : ℕ) (xs : List A) (server : ℕ → Page A)
      → 0 < count
      → Serves count xs server
      → request_results (suc (length xs)) server 1 ≡ (xs, exhausted)
  request_results_terminates zero xs server h serves = absurd (omega arith)
  request_results_terminates (suc c) xs server h serves =
      from_page (suc (length xs)) c zero server xs xs serves refl (omega arith)

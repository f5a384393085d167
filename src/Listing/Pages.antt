-- ===== src/Listing/Pages.antt =====
-- The pages of a list cover it.
use ai_agents.Listing.{skip, trim, page, limit_of}
use ai_agents.Prelude.{
  ltb→le, ℤ, pos, ℕ, zero, suc, ◌+◌, ◌*◌, ◌≤◌, ltb, List, [], ◌∷◌, ◌++◌, length, take, drop, ◌≡◌,
  refl, sym, ap, ◌∙◌, arith, Bool-cases, inl, inr,
}

module _ {A : Type 0} where
  take_all : (n : ℕ) (xs : List A) → length xs ≤ n → take n xs ≡ xs
  take_all zero [] h = refl
  take_all zero (x ∷ xs) h = absurd (omega arith)
  take_all (suc n) [] h = refl
  take_all (suc n) (x ∷ xs) h = ap (◌∷◌ x) (take_all n xs (omega arith))

  drop_all : (n : ℕ) (xs : List A) → length xs ≤ n → drop n xs ≡ []
  drop_all zero [] h = refl
  drop_all zero (x ∷ xs) h = absurd (omega arith)
  drop_all (suc n) [] h = refl
  drop_all (suc n) (x ∷ xs) h = drop_all n xs (omega arith)

  trim-take : (limit : ℕ) (rows : List A) → trim limit rows ≡ take limit rows
  trim-take limit rows = elim (Bool-cases (ltb limit (length rows))) [
    | inl e ↦ rw e refl
    | inr e ↦ rw e (sym (take_all limit rows (ltb→le limit (length rows) e)))
  ]

  skip-drop : (offset : ℕ) (rows : List A) → skip (pos offset) rows ≡ drop offset rows
  skip-drop zero [] = refl
  skip-drop zero (x ∷ rows) = ground arith
  skip-drop (suc n) rows = elim (Bool-cases (ltb (suc n) (length rows))) [
    | inl e ↦ ground (arith, e)
    | inr e ↦
        let past : length rows ≤ suc n = ltb→le (suc n) (length rows) e in
        ground (arith, e, past, drop_all (suc n) rows past)
  ]

  -- a page is a slice
  page-slice :
      (limit : ℤ) (offset : ℕ) (rows : List A)
      → page limit (pos offset) rows ≡ take (limit_of limit) (drop offset rows)
  unfolding page
  page-slice limit offset rows =
      trim-take (limit_of limit) (skip (pos offset) rows)
      ∙ ap (take (limit_of limit)) (skip-drop offset rows)

  take_nil : (n : ℕ) → take {A = A} n [] ≡ []
  take_nil zero = refl
  take_nil (suc n) = refl

  take-drop : (m n : ℕ) (xs : List A) → take m xs ++ take n (drop m xs) ≡ take (m + n) xs
  take-drop zero n xs = ap (λ k. take k xs) (omega arith)
  take-drop (suc m) n [] = take_nil n ∙ sym (take_nil (suc m + n))
  take-drop (suc m) n (x ∷ xs) = ap (◌∷◌ x) (take-drop m n xs) ∙ ap (λ k. take k (x ∷ xs)) (more)
    where
      more : suc (m + n) ≡ suc m + n
      more = omega arith

  -- the pages from the first one on, as a client asks for them
  abbrev pub pages_up_to : ℕ → ℤ → List A → List A
  pages_up_to zero limit rows = []
  pages_up_to (suc n) limit rows =
      pages_up_to n limit rows ++ page limit (pos (n * limit_of limit)) rows

  -- The first n pages, each at the offset where the one before it ends, are the first rows, each once:
  -- n times the limit of them, where a limit that is not positive counts as 50.
  pub pages_cover :
      (n : ℕ) (limit : ℤ) (rows : List A)
      → pages_up_to n limit rows ≡ take (n * limit_of limit) rows
  pages_cover zero limit rows = ap (λ k. take k rows) (none_times)
    where
      none_times : 0 ≡ 0 * limit_of limit
      none_times = omega arith
  pages_cover (suc n) limit rows =
      ap (λ xs. xs ++ page limit (pos (n * limit_of limit)) rows) (pages_cover n limit rows)
      ∙ ap (λ xs. take (n * limit_of limit) rows ++ xs) (page-slice limit (n * limit_of limit) rows)
      ∙ take-drop (n * limit_of limit) (limit_of limit) rows
      ∙ ap (λ k. take k rows) (grind arith)

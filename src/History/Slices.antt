-- ===== src/History/Slices.antt =====
-- Windows at the end of a list.
use ai_agents.Prelude.{
  ℕ, zero, suc, ◌+◌, ◌-◌, ◌≤◌, ◌≡◌, refl, List, [], ◌∷◌, ◌++◌, arith, length, take, drop, take_last,
  length-append, ap, ◌∙◌,
}

sub_zero : (n : ℕ) → n - 0 ≡ n
sub_zero n = omega arith

sub_suc : (n m : ℕ) → suc n - suc m ≡ n - m
sub_suc n m = omega arith

add_zero : (n : ℕ) → 0 + n ≡ n
add_zero n = omega arith

add_suc : (n m : ℕ) → suc n + m ≡ suc (n + m)
add_suc n m = omega arith

module _ {ℓ} {A : Type ℓ} where
  take_nil : (n : ℕ) → take {A = A} n [] ≡ []
  take_nil zero = refl
  take_nil (suc n) = refl

  pub take-drop : (n : ℕ) (xs : List A) → take n xs ++ drop n xs ≡ xs
  take-drop zero xs = refl
  take-drop (suc n) [] = refl
  take-drop (suc n) (x ∷ xs) = ap (λ ys. x ∷ ys) (take-drop n xs)

  -- a window, and what follows it
  pub window-drop :
      (start stop : ℕ) (xs : List A)
      → start ≤ stop
      → take (stop - start) (drop start xs) ++ drop stop xs ≡ drop start xs
  window-drop zero stop xs h = rw (sub_zero stop) (take-drop stop xs)
  window-drop (suc start) zero xs h = absurd (omega arith)
  window-drop (suc start) (suc stop) [] h = rw (take_nil (suc stop - suc start))
  window-drop (suc start) (suc stop) (x ∷ xs) h =
      rw (sub_suc stop start) (window-drop start stop xs (omega arith))

  drop-append_past : (xs ys : List A) (n : ℕ) → drop (length xs + n) (xs ++ ys) ≡ drop n ys
  drop-append_past [] ys n = rw (add_zero n)
  drop-append_past (x ∷ xs) ys n = rw (add_suc (length xs) n) (drop-append_past xs ys n)

  -- A tail that fits in the second part does not see the first.
  pub take_last-append :
      (n : ℕ) (xs ys : List A) → n ≤ length ys → take_last n (xs ++ ys) ≡ take_last n ys
  take_last-append n xs ys h =
      ap (λ k. drop k (xs ++ ys)) (omega (arith, length-append xs ys))
      ∙ drop-append_past xs ys (length ys - n)

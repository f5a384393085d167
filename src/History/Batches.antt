-- ===== src/History/Batches.antt =====
-- The loop over batches, over an unchanging list.
use ai_agents.Prelude.{
  if◌then◌else◌, leb→le, ℕ, zero, suc, ◌-◌, ◌≤◌, ◌<◌, ◌≡◌, List, ◌++◌, Bool, arith, length, take,
  drop, filter, filter-append, eqb, leb, Bool-cases, inl, inr, ◌⊎◌, ap, sym, ◌∙◌,
}
use ai_agents.History.Slices.{window-drop}

module _ {A : Type 0} (p : A → Bool) (tail size : ℕ) (xs : List A) where
  -- the loop as a function of the list
  unfoldable pub back : (fuel : ℕ) → (stop : ℕ) → List A → List A
  back zero stop collected = collected
  back (suc fuel) stop collected =
      let found = filter p (take (stop - (stop - size)) (drop (stop - size) xs)) ++ collected in
      let rest = back fuel (stop - size) found in
      if eqb stop 0 then collected else if leb tail (length found) then found else rest

  -- Something whole is left out only in front of `tail` matches.
  abbrev pub IsTailOf : List A → Type 0
  IsTailOf found =
      (stop : ℕ) × (found ≡ filter p (drop stop xs)) × ((stop ≡ 0) ⊎ (tail ≤ length found))

  window :
      (start stop : ℕ)
      → start ≤ stop
      → filter p (take (stop - start) (drop start xs)) ++ filter p (drop stop xs)
        ≡ filter p (drop start xs)
  window start stop h =
      sym (filter-append p (take (stop - start) (drop start xs)) (drop stop xs))
      ∙ ap (filter p) (window-drop start stop xs h)

  -- one round, in front of the rounds that are left
  step :
      (stop : ℕ) (collected : List A) (rest : List A → List A)
      → collected ≡ filter p (drop stop xs)
      → let found = filter p (take (stop - (stop - size)) (drop (stop - size) xs)) ++ collected in
        (found ≡ filter p (drop (stop - size) xs) → IsTailOf (rest found))
        → IsTailOf (if leb tail (length found) then found else rest found)
  step stop collected rest c after =
      let found = filter p (take (stop - (stop - size)) (drop (stop - size) xs)) ++ collected in
      let whole : found ≡ filter p (drop (stop - size) xs) =
        ap (λ ys. filter p (take (stop - (stop - size)) (drop (stop - size) xs)) ++ ys) c
        ∙ window (stop - size) stop (omega arith) in
      elim (Bool-cases (leb tail (length found))) [
        | inl enough ↦ rw enough (stop - size, whole, inr (leb→le _ _ enough))
        | inr more ↦ rw more (after whole)
      ]

  pub back-IsTailOf :
      (fuel stop : ℕ) (collected : List A)
      → 0 < size
      → stop ≤ fuel
      → collected ≡ filter p (drop stop xs)
      → IsTailOf (back fuel stop collected)
  unfolding back
  back-IsTailOf zero stop collected pos small c = (stop, c, inl (omega arith))
  back-IsTailOf (suc fuel) stop collected pos small c = elim (Bool-cases (eqb stop 0)) [
    | inl done ↦ rw done (stop, c, inl (ground arith))
    | inr more ↦ rw more (
        step stop collected (back fuel (stop - size)) c
          (λ e. back-IsTailOf fuel (stop - size) _ pos (ground arith) e))
  ]

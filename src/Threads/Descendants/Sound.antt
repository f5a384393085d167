-- ===== src/Threads/Descendants/Sound.antt =====
-- The walk finds descendants only, and never the root.
use mathlib.Core.Path.{subst}
use ai_agents.Prelude.{
  ℕ, zero, suc, String, true, false, List, [], ◌∷◌, ◌++◌, ◌==◌, ◌≡◌, ◌⊎◌, inl, inr, refl, eq_iff,
  eq_refl, arith, Bool-cases,
}
use ai_agents.Threads.Descendants.{
  Link, Walk, Descends, child, below, mem, children, visit, pop_visit, walk, start,
  discover_descendants,
}

abbrev Each : (String → Type 0) → List String → Type 0
Each P [] = Unit {0}
Each P (x ∷ xs) = P x × Each P xs

Each-append :
    (P : String → Type 0) (xs : List String) {x : String} → Each P xs → P x → Each P (xs ++ x ∷ [])
Each-append P [] h p = (p, tt)
Each-append P (y ∷ xs) h p = (h.0, Each-append P xs h.1 p)

Each-mem : (P : String → Type 0) (x : String) (xs : List String) → Each P xs → mem x xs ≡ true → P x
Each-mem P x [] h m = absurd (ground arith)
Each-mem P x (y ∷ ys) h m = elim (Bool-cases (y == x)) [
  | inl same ↦ subst P ((eq_iff y x).0 same) h.0
  | inr other ↦ Each-mem P x ys h.1 (rw other at m)
]

Each-of_mem :
    (P : String → Type 0) (xs : List String) → ((x : String) → mem x xs ≡ true → P x) → Each P xs
Each-of_mem P [] f = tt
Each-of_mem P (x ∷ xs) f =
    (f x (ground (arith, eq_refl x)), Each-of_mem P xs (λ y m. f y (ground arith)))

module _ (ts : List Link) (root : String) where
  abbrev OnWalk : String → Type 0
  OnWalk x = (x ≡ root) ⊎ Descends ts root x

  abbrev Found : String → Type 0
  Found x = Descends ts root x × (mem x (root ∷ []) ≡ false)

  record IsSound (w : Walk) : Type 0 where
    found : Each Found w.result
    queued : Each OnWalk w.queue
    root_visited : mem root w.visited ≡ true

  visit-IsSound :
      (kids : List String) (w : Walk)
      → Each (Descends ts root) kids
      → IsSound w
      → IsSound (visit kids w)
  unfolding visit
  visit-IsSound [] w k s = s
  visit-IsSound (x ∷ kids) w k s = elim (Bool-cases (mem x w.visited)) [
    | inl seen ↦ rw seen (visit-IsSound kids w k.1 s)
    | inr new ↦ rw new (
        visit-IsSound kids _ k.1 (record {
          found = ((k.0, ground (arith, s.root_visited, eq_iff root x)), s.found);
          queued = Each-append OnWalk w.queue s.queued (inr k.0);
          root_visited = ground (arith, s.root_visited);
        }))
  ]

  kids_of : (p : String) → OnWalk p → Each (Descends ts root) (children ts p)
  kids_of p (inl e) =
      Each-of_mem (Descends ts root) (children ts p)
        (λ x m. child (subst (λ q. mem x (children ts q) ≡ true) e m))
  kids_of p (inr h) = Each-of_mem (Descends ts root) (children ts p) (λ x m. below h m)

  pop-IsSound : (w : Walk) (q : List String) → w.queue ≡ q → IsSound w → IsSound (pop_visit ts w q)
  pop-IsSound w [] e s = s
  pop-IsSound w (p ∷ rest) e s =
      let queued : Each OnWalk (p ∷ rest) = subst (Each OnWalk) e s.queued in
      visit-IsSound (children ts p) _ (kids_of p queued.0)
        (record { found = s.found; queued = queued.1; root_visited = s.root_visited })

  walk-IsSound : (fuel : ℕ) (w : Walk) → IsSound w → IsSound (walk fuel ts w)
  unfolding walk
  walk-IsSound zero w s = s
  walk-IsSound (suc fuel) w s = walk-IsSound fuel _ (pop-IsSound w w.queue refl s)

  -- Whatever the links, cycles among them, each thread that is found is a descendant of the root
  -- and is not the root.
  pub discover_sound :
      (x : String)
      → mem x (discover_descendants ts root) ≡ true
      → Descends ts root x × (mem x (root ∷ []) ≡ false)
  unfolding discover_descendants
  discover_sound x m =
      Each-mem Found x _
        (walk-IsSound _ (start root) (record {
          found = tt;
          queued = (inl refl, tt);
          root_visited = ground (arith, eq_refl root);
        })).found
        m

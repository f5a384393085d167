-- ===== src/Threads/Descendants/Complete.antt =====
-- The walk finds every descendant, and its fuel is enough.
use mathlib.Core.Path.{subst}
use ai_agents.Prelude.{
  ◌∙◌, sym, zero, ap, eq_refl, inr, inl, length-append, Bool-cases, ◌⊎◌, ℕ, suc, ◌+◌, ◌≤◌, String,
  Bool, true, false, List, [], ◌∷◌, ◌++◌, ◌==◌, ◌≡◌, refl, eq_iff, arith, if◌then◌else◌, length,
  ◌||◌,
}
use ai_agents.Threads.Descendants.{
  start, Descends, discover_descendants, below, child, walk, pop_visit, visit, Walk, Link, mem,
  children,
}

mem-append : (x : String) (xs ys : List String) → mem x (xs ++ ys) ≡ mem x xs || mem x ys
mem-append x [] ys = refl
mem-append x (y ∷ xs) ys = ground (arith, mem-append x xs ys)

-- the IDs of a list that are not yet visited
abbrev unseen : List String → List Link → ℕ
unseen visited [] = 0
unseen visited (t ∷ ts) =
    let rest = unseen visited ts in if mem t.id visited then rest else suc rest

abbrev listed : String → List Link → Bool
listed x [] = false
listed x (t ∷ ts) = t.id == x || listed x ts

unseen-le : (v : List String) (ts : List Link) → unseen v ts ≤ length ts
unseen-le v [] = omega arith
unseen-le v (t ∷ ts) = ground (arith, unseen-le v ts)

unseen_mono : (v : List String) (x : String) (ts : List Link) → unseen (x ∷ v) ts ≤ unseen v ts
unseen_mono v x [] = omega arith
unseen_mono v x (t ∷ ts) = ground (arith, unseen_mono v x ts)

-- A visit to a new thread of the list leaves one less.
unseen-visit :
    (v : List String) (x : String) (ts : List Link)
    → listed x ts ≡ true
    → mem x v ≡ false
    → unseen (x ∷ v) ts + 1 ≤ unseen v ts
unseen-visit v x [] l n = absurd (ground arith)
unseen-visit v x (t ∷ ts) l n =
    ground (arith, unseen_mono v x ts, unseen-visit v x ts, eq_iff t.id x, eq_iff x t.id)

children-listed :
    (ts : List Link) (p x : String) → mem x (children ts p) ≡ true → listed x ts ≡ true
unfolding children
children-listed [] p x m = m
children-listed (t ∷ ts) p x m = ground (arith, children-listed ts p x)

abbrev add : String → Walk → Walk
add x w = record { visited = x ∷ w.visited; result = x ∷ w.result; queue = w.queue ++ x ∷ [] }

visit_seen :
    (x : String) (kids : List String) (w : Walk)
    → mem x w.visited ≡ true
    → visit (x ∷ kids) w ≡ visit kids w
unfolding visit
visit_seen x kids w e = rw e refl

visit_new :
    (x : String) (kids : List String) (w : Walk)
    → mem x w.visited ≡ false
    → visit (x ∷ kids) w ≡ visit kids (add x w)
unfolding visit
visit_new x kids w e = rw e refl

-- induction over a visit: what holds of the start, and is kept by each addition, holds of the end
module _ (P : Walk → Type 0) where
  visit_induction :
      (kids : List String) (w : Walk)
      → ((x : String) (u : Walk) → mem x kids ≡ true → mem x u.visited ≡ false → P u → P (add x u))
      → P w
      → P (visit kids w)
  unfolding visit
  visit_induction [] w step h = h
  visit_induction (x ∷ kids) w step h = elim (Bool-cases (mem x w.visited)) [
    | inl seen ↦ rw seen (visit_induction kids w (λ y u m. step y u (ground arith)) h)
    | inr new ↦ rw new (
        visit_induction kids (add x w) (λ y u m. step y u (ground arith))
          (step x w (ground (arith, eq_refl x)) new h))
  ]

visited-visit :
    (kids : List String) (w : Walk) (x : String)
    → mem x w.visited ≡ true
    → mem x (visit kids w).visited ≡ true
visited-visit kids w x m =
    visit_induction (λ u. mem x u.visited ≡ true) kids w (λ y u k n h. ground (arith, h)) m

queue-visit :
    (kids : List String) (w : Walk) (x : String)
    → mem x w.queue ≡ true
    → mem x (visit kids w).queue ≡ true
queue-visit kids w x m =
    visit_induction (λ u. mem x u.queue ≡ true) kids w
      (λ y u k n h. rw (mem-append x u.queue (y ∷ [])) (ground (arith, h))) m

visited-visit_new :
    (kids : List String) (w : Walk) (x : String)
    → mem x (visit kids w).visited ≡ true
    → (mem x w.visited ≡ true) ⊎ (mem x (visit kids w).queue ≡ true)
visited-visit_new kids w x =
    visit_induction
      (λ u. mem x u.visited ≡ true → (mem x w.visited ≡ true) ⊎ (mem x u.queue ≡ true)) kids w
      (λ y u k n h m. ground (arith, h, mem-append x u.queue (y ∷ []))) (λ m. inl m)

visit_all :
    (kids : List String) (w : Walk) (x : String)
    → mem x kids ≡ true
    → mem x (visit kids w).visited ≡ true
visit_all [] w x m = absurd (ground arith)
visit_all (y ∷ kids) w x m = elim (Bool-cases (mem y w.visited)) [
  | inl seen ↦ rw (visit_seen y kids w seen) (elim (Bool-cases (y == x)) [
    | inl same ↦
        visited-visit kids w x (subst (λ z. mem z w.visited ≡ true) ((eq_iff y x).0 same) seen)
    | inr other ↦ visit_all kids w x (ground arith)
  ])
  | inr new ↦ rw (visit_new y kids w new) (elim (Bool-cases (y == x)) [
    | inl same ↦ visited-visit kids (add y w) x (ground arith)
    | inr other ↦ visit_all kids (add y w) x (ground arith)
  ])
]

module _ (ts : List Link) (root : String) where
  abbrev measure : Walk → ℕ
  measure w = length w.queue + unseen w.visited ts

  measure-visit : (p : String) (w : Walk) → measure (visit (children ts p) w) ≤ measure w
  measure-visit p w =
      visit_induction (λ u. measure u ≤ measure w) (children ts p) w
        (λ x u k n h. omega (
          arith,
          h,
          length-append u.queue (x ∷ []),
          unseen-visit u.visited x ts (children-listed ts p x k) n,
        ))
        (omega arith)

  record IsClosed (w : Walk) : Type 0 where
    same : (x : String) → mem x w.visited ≡ mem x (root ∷ w.result)
    closed :
        (v : String)
        → mem v w.visited ≡ true
        → (mem v w.queue ≡ true)
          ⊎ ((c : String) → mem c (children ts v) ≡ true → mem c w.visited ≡ true)

  pop-closed :
      (w : Walk) (p : String) (rest : List String)
      → w.queue ≡ p ∷ rest
      → IsClosed w
      → let u = visit (children ts p) (record w { queue = rest }) in
        (v : String)
        → mem v u.visited ≡ true
        → (mem v u.queue ≡ true)
          ⊎ ((c : String) → mem c (children ts v) ≡ true → mem c u.visited ≡ true)
  pop-closed w p rest e s v m =
      let u = record w { queue = rest } in
      let kids = children ts p in
      elim (visited-visit_new kids u v m) [
        | inr queued ↦ inl queued
        | inl old ↦ elim (s.closed v old) [
          | inr done ↦ inr (λ c k. visited-visit kids u c (done c k))
          | inl waits ↦ elim (Bool-cases (p == v)) [
            | inl same ↦ inr (λ c k.
                visit_all kids u c
                  (subst (λ z. mem c (children ts z) ≡ true) (sym ((eq_iff p v).0 same)) k))
            | inr other ↦ inl (queue-visit kids u v (ground (arith, e, waits)))
          ]
        ]
      ]

  pop-IsClosed :
      (w : Walk) (q : List String) → w.queue ≡ q → IsClosed w → IsClosed (pop_visit ts w q)
  pop-IsClosed w [] e s = s
  pop-IsClosed w (p ∷ rest) e s = record {
    same =
        visit_induction (λ u. (x : String) → mem x u.visited ≡ mem x (root ∷ u.result))
          (children ts p) (record w { queue = rest }) (λ y u k n h x. ground (arith, h x)) s.same;
    closed = pop-closed w p rest e s;
  }

  walk_empty : (fuel : ℕ) (w : Walk) → w.queue ≡ [] → (walk fuel ts w).queue ≡ []
  unfolding walk
  walk_empty zero w e = e
  walk_empty (suc fuel) w e =
      subst (λ q. (walk fuel ts (pop_visit ts w q)).queue ≡ []) (sym e) (walk_empty fuel w e)

  -- A pop takes one from the measure.
  walk_ends :
      (fuel : ℕ) (w : Walk) (q : List String)
      → w.queue ≡ q
      → measure w ≤ fuel
      → (walk fuel ts w).queue ≡ []
  unfolding walk
  walk_ends fuel w [] e le = walk_empty fuel w e
  walk_ends zero w (p ∷ rest) e le = absurd (omega (arith, ap length e))
  walk_ends (suc fuel) w (p ∷ rest) e le = rw e (
      walk_ends fuel (pop_visit ts w (p ∷ rest)) _ refl
        (omega (arith, measure-visit p (record w { queue = rest }), ap length e)))

  walk-IsClosed : (fuel : ℕ) (w : Walk) → IsClosed w → IsClosed (walk fuel ts w)
  unfolding walk
  walk-IsClosed zero w s = s
  walk-IsClosed (suc fuel) w s = walk-IsClosed fuel _ (pop-IsClosed w w.queue refl s)

  start-IsClosed : IsClosed (start root)
  start-IsClosed = record { same = λ x. refl; closed = λ v m. inl m }

  abbrev final : Walk
  final = walk (suc (length ts)) ts (start root)

  reached :
      (w : Walk)
      → IsClosed w
      → w.queue ≡ []
      → (x : String) → Descends ts root x
      → mem x w.visited ≡ true
  reached w s done x (child m) = elim (s.closed root (s.same root ∙ ground (arith, eq_refl root))) [
    | inl q ↦ absurd (ground (arith, done, q))
    | inr f ↦ f x m
  ]
  reached w s done x (below {y} d m) = elim (s.closed y (reached w s done y d)) [
    | inl q ↦ absurd (ground (arith, done, q))
    | inr f ↦ f x m
  ]

  -- Each descendant of the root other than the root itself is found.
  pub discover_complete :
      (x : String)
      → Descends ts root x
      → mem x (root ∷ []) ≡ false
      → mem x (discover_descendants ts root) ≡ true
  unfolding discover_descendants
  discover_complete x d n =
      let done =
        walk_ends (suc (length ts)) (start root) _ refl (omega (arith, unseen-le (root ∷ []) ts)) in
      let s = walk-IsClosed (suc (length ts)) (start root) start-IsClosed in
      ground (arith, n, s.same x, reached final s done x d)

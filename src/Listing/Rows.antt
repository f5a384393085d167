-- ===== src/Listing/Rows.antt =====
-- What ListTasks returns passes the filters and fits the limit.
use mathlib.Core.Path.{subst}
use ai_agents.Waiting.Released.{Triple-Anything}
use ai_agents.Enqueue.State.{Anything}
use mathlib.Core.List.{Perm, Permᴰ}
use mathlib.Core.Logic.{∥∥₁_elim}
use ai_agents.Listing.{ascending, Lister, page, limit_of, skip, trim}
use ai_agents.Listing.Tasks.{read_active, keeps, scan_tasks, kept_rows, list_tasks, task_less}
use ai_agents.Prelude.{
  ltb→le, ℤ, pos, negsuc, ℕ, zero, suc, ◌≤◌, String, ltb, leb, Bool, true, false, Option, List, [],
  ◌∷◌, length, take, drop, ◌≡◌, refl, ap, ◌∙◌, arith, Bool-cases, inl, inr, if◌then◌else◌, ◌&&◌,
}
use ai_agents.Redis.Client.{ok}
use ai_agents.Redis.Commands.{Redis}
use ai_agents.Redis.Triple.{Outcome, Triple, Triple-bind, Triple-pure}
use ai_agents.Types.{Codec, Task}

abbrev pub all : {A : Type 0} → (A → Bool) → List A → Bool
all p [] = true
all p (x ∷ xs) = p x && all p xs

module _ {A : Type 0} (p : A → Bool) where
  all-Permᴰ : {xs ys : List A} → Permᴰ xs ys → all p xs ≡ all p ys
  all-Permᴰ Permᴰ.nil = refl
  all-Permᴰ (Permᴰ.cons e d) = ground (arith, ap p e, all-Permᴰ d)
  all-Permᴰ (Permᴰ.swap e f) = ground (arith, ap p e, ap p f)
  all-Permᴰ (Permᴰ.trans d e) = all-Permᴰ d ∙ all-Permᴰ e

  all-Perm : {xs ys : List A} → Perm xs ys → all p xs ≡ all p ys
  all-Perm h = ∥∥₁_elim h (hlevel) all-Permᴰ

  all-take : (n : ℕ) (xs : List A) → all p xs ≡ true → all p (take n xs) ≡ true
  all-take zero xs h = refl
  all-take (suc n) [] h = refl
  all-take (suc n) (x ∷ xs) h = ground (arith, h, all-take n xs)

  all-drop : (n : ℕ) (xs : List A) → all p xs ≡ true → all p (drop n xs) ≡ true
  all-drop zero xs h = h
  all-drop (suc n) [] h = refl
  all-drop (suc n) (x ∷ xs) h = all-drop n xs (ground (arith, h))

  length-take-le : (n : ℕ) (xs : List A) → length (take n xs) ≤ n
  length-take-le zero xs = omega arith
  length-take-le (suc n) [] = omega arith
  length-take-le (suc n) (x ∷ xs) = omega (arith, length-take-le n xs)

  length-trim-le : (n : ℕ) (xs : List A) → length (trim n xs) ≤ n
  length-trim-le n xs = elim (Bool-cases (ltb n (length xs))) [
    | inl e ↦ rw e (length-take-le n xs)
    | inr e ↦ rw e (ltb→le n (length xs) e)
  ]

  all-if :
      (b : Bool) (xs ys : List A)
      → all p xs ≡ true
      → all p ys ≡ true
      → all p (if b then xs else ys) ≡ true
  all-if true xs ys h k = h
  all-if false xs ys h k = k

  all-skip : (offset : ℤ) (xs : List A) → all p xs ≡ true → all p (skip offset xs) ≡ true
  all-skip (negsuc n) xs h = h
  all-skip (pos n) xs h =
      all-if _ (drop n xs) _ (all-drop n xs h) (all-if (leb (length xs) n) [] xs refl h)

  page_lem :
      (limit offset : ℤ) (xs : List A)
      → all p xs ≡ true
      → (length (page limit offset xs) ≤ limit_of limit) × (all p (page limit offset xs) ≡ true)
  unfolding page
  page_lem limit offset xs h = (
    length-trim-le (limit_of limit) (skip offset xs),
    all-if _ (take (limit_of limit) (skip offset xs)) (skip offset xs)
        (all-take (limit_of limit) (skip offset xs) (all-skip offset xs h)) (all-skip offset xs h),
  )

module _ (r : Redis) (number : String → Option ℤ) (keep : Task → Bool) where
  kept_rows-all :
      (ts : List Task)
      → Triple r Anything
          (kept_rows r number keep ts)
          (λ rows _. all keep rows ≡ true)
          (λ _. Anything)
  unfolding kept_rows
  kept_rows-all [] = Triple-pure r _ (λ s p. refl)
  kept_rows-all (t ∷ ts) =
      Triple-bind r (λ _. Anything) _ _ (Triple-Anything r _)
        (λ task.
          Triple-bind r (λ rows _. all keep rows ≡ true) _ _ (kept_rows-all ts)
            (λ rows. Triple-pure r _ (λ s h. ground (arith, h))))

module _ (r : Redis) (c : Codec) (l : Lister) (number : String → Option ℤ)
    (worker status thread sort_by sort_dir : String) (limit offset : ℤ)
    (sorts : (less : Task → Task → Bool) (ts : List Task) → Perm (l.sort less ts) ts) where
  abbrev Fitting : List Task → Type 0
  Fitting rows = (length rows ≤ limit_of limit) × (all (keeps worker status thread) rows ≡ true)

  list_tasks-Fitting :
      Triple r Anything
        (list_tasks r c l number worker status thread limit offset sort_by sort_dir)
        (λ rows _. Fitting rows)
        (λ _. Anything)
  unfolding list_tasks
  list_tasks-Fitting =
      let keep : Task → Bool = keeps worker status thread in
      Triple-bind r (λ _. Anything) (read_active r) _ (Triple-Anything r (read_active r))
        (λ active.
          Triple-bind r (λ _. Anything) (scan_tasks r l.pages _) _ (Triple-Anything r _)
            (λ tasks.
              Triple-bind r (λ rows _. all keep rows ≡ true)
                (kept_rows r number keep (l.any_order tasks)) _
                (kept_rows-all r number keep (l.any_order tasks))
                (λ rows.
                  let sorted : List Task = l.sort (task_less (ascending l sort_dir) sort_by) rows in
                  Triple-pure r (page limit offset sorted)
                    (λ s h. page_lem keep limit offset sorted (all-Perm keep (sorts _ rows) ∙ h)))))

-- Whatever requests fail, if ListTasks returns rows then there are no more of them than the limit, or
-- 50 where the limit is not positive, and each has the worker, the status and the thread that the
-- filters ask for; sort.Slice is taken to permute the rows.
pub list_tasks-rows :
    (r : Redis) (c : Codec) (l : Lister) (number : String → Option ℤ)
    (worker status thread sort_by sort_dir : String) (limit offset : ℤ)
    → ((less : Task → Task → Bool) (ts : List Task) → Perm (l.sort less ts) ts)
    → (d : r.Db) {rows : List Task}
    → (list_tasks r c l number worker status thread limit offset sort_by sort_dir d).0 ≡ ok rows
    → (length rows ≤ limit_of limit) × (all (keeps worker status thread) rows ≡ true)
list_tasks-rows r c l number worker status thread sort_by sort_dir limit offset sorts d e =
    let rows_lem =
      list_tasks-Fitting r c l number worker status thread sort_by sort_dir limit offset sorts in
    subst
      (λ a.
        Outcome
          (λ rows _.
            Fitting r c l number worker status thread sort_by sort_dir limit offset sorts rows)
          (λ _. Anything) a
          (r.view (list_tasks r c l number worker status thread limit offset sort_by sort_dir d).1))
      e (rows_lem.at d tt)

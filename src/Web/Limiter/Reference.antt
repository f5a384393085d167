-- ===== src/Web/Limiter/Reference.antt =====
-- The limiter forgets times; the reference remembers every call that it let through.
use mathlib.Core.Path.{subst}
use ai_agents.Prelude.{refl, ap, sym, true, ◌==◌, eq_iff, filter-append}
use ai_agents.Threads.Descendants.{start}
use ai_agents.Web.Limiter.{clean, new_rate_limiter}
use ai_agents.Prelude.{
  if◌then◌else◌, ℕ, ◌≤◌, String, ◌≡◌, refl, ap, ◌∙◌, inl, inr, Bool, false, not, List, ◌∷◌, ◌++◌,
  arith, leb, Bool-cases, length, filter,
}
use ai_agents.Web.Limiter.{Limiter, put_window, recent, allow, clean}
use ai_agents.Prelude.{[]}

pub data Step : Type 0 where
  call : String → ℕ → Step
  tick : ℕ → Step

abbrev pub time : Step → ℕ
time (call ip now) = now
time (tick now) = now

-- what the limiter answers to the calls
abbrev pub decisions : List Step → Limiter → List Bool
decisions [] rl = []
decisions (call ip now ∷ steps) rl =
    let (yes_allowed, rl') = allow ip now rl in yes_allowed ∷ decisions steps rl'
decisions (tick now ∷ steps) rl = decisions steps (clean now rl)

module _ (limit interval : ℕ) where
  -- fewer than `limit` calls of the address were let through within the interval
  abbrev pub may_pass : String → ℕ → (String → List ℕ) → Bool
  may_pass ip now log = not (leb limit (length (filter (recent interval now) (log ip))))

  abbrev pub record_call : Bool → String → ℕ → (String → List ℕ) → String → List ℕ
  record_call b ip now log = if b then put_window ip (log ip ++ now ∷ []) log else log

  abbrev pub reference : List Step → (String → List ℕ) → List Bool
  reference [] log = []
  reference (call ip now ∷ steps) log =
      may_pass ip now log ∷ reference steps (record_call (may_pass ip now log) ip now log)
  reference (tick now ∷ steps) log = reference steps log

-- The clock does not go back.
abbrev pub Ordered : ℕ → List Step → Type 0
Ordered last [] = Unit {0}
Ordered last (s ∷ steps) = (last ≤ time s) × Ordered (time s) steps

stale : (i now later t : ℕ) → now ≤ later → recent i now t ≡ false → recent i later t ≡ false
stale i now later t le old = ground (arith, old, le)

filter-filter :
    (i now later : ℕ) (xs : List ℕ)
    → now ≤ later
    → filter (recent i later) (filter (recent i now) xs) ≡ filter (recent i later) xs
filter-filter i now later [] le = refl
filter-filter i now later (t ∷ ts) le = elim (Bool-cases (recent i now t)) [
  | inl new ↦
      rw new (ap (λ ys. if recent i later t then t ∷ ys else ys) (filter-filter i now later ts le))
  | inr old ↦ rw (old, stale i now later t le old) (filter-filter i now later ts le)
]

module _ (rl : Limiter) (log : String → List ℕ) where
  -- From `last` on, the windows and the log have the same recent calls.
  abbrev Agree : ℕ → Type 0
  Agree last =
      (j : String) (now : ℕ)
      → last ≤ now
      → filter (recent rl.interval now) (rl.windows j) ≡ filter (recent rl.interval now) (log j)

clean-Agree :
    (rl : Limiter) (log : String → List ℕ) (last now : ℕ)
    → last ≤ now
    → Agree rl log last
    → Agree (clean now rl) log now
unfolding clean
clean-Agree rl log last now le a j later le' =
    filter-filter rl.interval now later (rl.windows j) le' ∙ a j later (omega (arith, le, le'))

-- the recent times of a window, once it is replaced
filter-put_window :
    (p : ℕ → Bool) (ip j : String) (new : List ℕ) (windows : String → List ℕ) (xs : List ℕ)
    → ((ip == j) ≡ true → filter p new ≡ filter p xs)
    → filter p (windows j) ≡ filter p xs
    → filter p (put_window ip new windows j) ≡ filter p xs
filter-put_window p ip j new windows xs f g = elim (Bool-cases (ip == j)) [
  | inl same ↦ rw same (f same)
  | inr other ↦ rw other g
]

module _ (rl : Limiter) (log : String → List ℕ) (last now : ℕ) (ip : String) (le : last ≤ now)
    (a : Agree rl log last) where
  abbrev valid : List ℕ
  valid = filter (recent rl.interval now) (rl.windows ip)

  valid-recent :
      (later : ℕ)
      → now ≤ later
      → filter (recent rl.interval later) valid ≡ filter (recent rl.interval later) (log ip)
  valid-recent later le' =
      filter-filter rl.interval now later (rl.windows ip) le' ∙ a ip later (omega (arith, le, le'))

  refused-Agree : Agree (record rl { windows = put_window ip valid rl.windows }) log now
  refused-Agree j later le' =
      filter-put_window (recent rl.interval later) ip j valid rl.windows (log j)
        (λ same.
          subst
            (λ k.
              filter (recent rl.interval later) valid ≡ filter (recent rl.interval later) (log k))
            ((eq_iff ip j).0 same) (valid-recent later le'))
        (a j later (omega (arith, le, le')))

  passed-Agree :
      Agree
        (record rl { windows = put_window ip (valid ++ now ∷ []) rl.windows })
        (put_window ip (log ip ++ now ∷ []) log)
        now
  passed-Agree j later le' = elim (Bool-cases (ip == j)) [
    | inl same ↦ rw same (
        filter-append (recent rl.interval later) valid (now ∷ [])
        ∙ ap (λ ys. ys ++ filter (recent rl.interval later) (now ∷ [])) (valid-recent later le')
        ∙ sym (filter-append (recent rl.interval later) (log ip) (now ∷ [])))
    | inr other ↦ rw other (a j later (omega (arith, le, le')))
  ]

  same_test :
      leb rl.limit (length valid) ≡ leb rl.limit (length (filter (recent rl.interval now) (log ip)))
  same_test = ap (λ ys. leb rl.limit (length ys)) (a ip now le)

decisions-reference :
    (steps : List Step) (rl : Limiter) (log : String → List ℕ) (last : ℕ)
    → Ordered last steps
    → Agree rl log last
    → decisions steps rl ≡ reference rl.limit rl.interval steps log
unfolding allow clean
decisions-reference [] rl log last o a = refl
decisions-reference (tick now ∷ steps) rl log last o a =
    decisions-reference steps (clean now rl) log now o.1 (clean-Agree rl log last now o.0 a)
decisions-reference (call ip now ∷ steps) rl log last o a =
    elim (Bool-cases (leb rl.limit (length (valid rl log last now ip o.0 a)))) [
      | inl full ↦
          rw (full, sym (same_test rl log last now ip o.0 a) ∙ full)
            (ap (λ bs. false ∷ bs)
              (decisions-reference steps _ log now o.1 (refused-Agree rl log last now ip o.0 a)))
      | inr room ↦
          rw (room, sym (same_test rl log last now ip o.0 a) ∙ room)
            (ap (λ bs. true ∷ bs)
              (decisions-reference steps _ _ now o.1 (passed-Agree rl log last now ip o.0 a)))
    ]

-- As long as the clock does not go back, the limiter answers every call, whatever addresses call and
-- whenever the cleanup runs, as if it remembered each call that it let through: a call passes exactly
-- if fewer than `limit` calls of its address were let through within the interval before it.
pub limiter_reference :
    (limit interval start : ℕ) (steps : List Step)
    → Ordered start steps
    → decisions steps (new_rate_limiter limit interval) ≡ reference limit interval steps (λ _. [])
unfolding new_rate_limiter
limiter_reference limit interval start steps o =
    decisions-reference steps _ (λ _. []) start o (λ j now le. refl)

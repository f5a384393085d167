-- ===== src/Waiting/Aggregate.antt =====
-- The verdict on a group.
use ai_agents.Redis.Keys.{group_tasks_key}
use mathlib.Core.Path.{subst}
use ai_agents.Prelude.{◌||◌, ℤ, Bool, true, arith}
use ai_agents.Waiting.{in_status}
use ai_agents.Enqueue.State.{Anything}
use ai_agents.Events.Pushed.{Triple-push_thread_event}
use ai_agents.Prelude.{
  [], String, ◌≡◌, refl, sym, ap, ◌⊎◌, inl, inr, false, Option, none, some, List, ◌∷◌, any,
}
use ai_agents.Redis.Client.{Error, Result, M, raise, smembers, not_found, ok, err}
use ai_agents.Redis.Commands.{Keyspace, run, Redis}
use ai_agents.Redis.Triple.{
  Outcome, Triple, Triple-request, Triple-pure, Triple-raise, Triple-wrapped, Triple-weaken,
  Triple-if, Triple-bind,
}
use ai_agents.Types.{GroupResult, Host}
use ai_agents.Waiting.{
  Poll, to_option, after, caught, is_waiting, aggregate, snapshot, status_reads, group_step,
  group_polls, group_wait,
}

run-status_reads :
    (next_text : ℤ → Option String → String) (ids : List String) (s : Keyspace)
    → run next_text (status_reads ids) s ≡ s
run-status_reads next_text [] s = refl
run-status_reads next_text (id ∷ ids) s = run-status_reads next_text ids s

module _ (r : Redis) {A : Type 0} {P : Keyspace → Type 0} {Q : Option A → Keyspace → Type 0}
    {E : Error → Keyspace → Type 0} where
  pub Triple-caught :
      (m : M r.Db A) → Triple r P m (λ a. Q (some a)) (λ _. Q none) → Triple r P (caught m) Q E
  Triple-caught m t = record { at = λ d p. go (m d).0 (r.view (m d).1) (t.at d p) }
    where
      go :
          (a : Result A) (s : Keyspace)
          → Outcome (λ a. Q (some a)) (λ _. Q none) a s
          → Outcome Q E (ok (to_option a)) s
      go (ok a) s q = q
      go (err e) s q = q

module _ (r : Redis) {A : Type 0} {P P' : Keyspace → Type 0} {Q : A → Keyspace → Type 0}
    {E : Error → Keyspace → Type 0} where
  pub Triple-after :
      (f : r.Db → r.Db) (m : M r.Db A)
      → ((d : r.Db) → P' (r.view d) → P (r.view (f d)))
      → Triple r P m Q E
      → Triple r P' (after f m) Q E
  Triple-after f m kept t = record { at = λ d p. t.at (f d) (kept d p) }

-- "error" if a task failed; "cancelled" if none failed and none is done, and one is cancelled;
-- "complete" otherwise
abbrev pub Meaning : List (String × String) → String → Type 0
Meaning tasks status =
    ((status ≡ "error") × (in_status "failed" tasks ≡ true))
    ⊎ (((status ≡ "cancelled")
          × (in_status "failed" tasks ≡ false)
          × (in_status "done" tasks ≡ false)
          × (in_status "cancelled" tasks ≡ true))
        ⊎ ((status ≡ "complete")
            × (in_status "failed" tasks ≡ false)
            × ((in_status "done" tasks ≡ true) ⊎ (in_status "cancelled" tasks ≡ false))))

aggregate-Meaning : (tasks : List (String × String)) → Meaning tasks (aggregate tasks)
aggregate-Meaning tasks =
    go (in_status "failed" tasks) (in_status "done" tasks) (in_status "cancelled" tasks) refl refl
      refl
  where
    go :
        (f d c : Bool)
        → in_status "failed" tasks ≡ f
        → in_status "done" tasks ≡ d
        → in_status "cancelled" tasks ≡ c
        → Meaning tasks (aggregate tasks)
    go true d c ef ed ec = inl (ground (arith, ef))
    go false true c ef ed ec = inr (inr (ground (arith, ef, ed, ec)))
    go false false true ef ed ec = inr (inl (ground (arith, ef, ed, ec)))
    go false false false ef ed ec = inr (inr (ground (arith, ef, ed, ec)))

module _ (r : Redis) (h : Host) (thread label : String) where
  abbrev pub any_late : List (Poll r.Db) → Bool
  any_late polls = any (λ p. p.late) polls

  -- what GroupWait may return, `late` if a deadline is past
  abbrev pub Reported : Bool → List String → Option GroupResult → Keyspace → Type 0
  Reported late ids none s = Unit {0}
  Reported late ids (some g) s =
      (g.tasks ≡ snapshot ids s)
      × (((g.status ≡ "timeout") × (late ≡ true) × (any (λ t. is_waiting t.1) g.tasks ≡ true))
          ⊎ ((any (λ t. is_waiting t.1) g.tasks ≡ false) × Meaning g.tasks g.status))

  abbrev Snapshot : List String → Option (List (String × String)) → Keyspace → Type 0
  Snapshot ids none s = Unit {0}
  Snapshot ids (some tasks) s = tasks ≡ snapshot ids s

  -- a deadline that is past at a later poll
  later :
      (p : Poll r.Db) (late : Bool) (ids : List String) (a : Option GroupResult) (s : Keyspace)
      → Reported late ids a s
      → Reported (p.late || late) ids a s
  later p late ids none s q = tt
  later p late ids (some g) s (tasks, inl (t, l, w)) = (tasks, inl (t, ground (arith, l), w))
  later p late ids (some g) s (tasks, inr q) = (tasks, inr q)

  step-Reported :
      (late : Bool) (ids : List String) (p : Poll r.Db) (rest : M r.Db (Option GroupResult))
      (answered : Option (List (String × String)))
      → Triple r Anything rest (Reported late ids) (λ _. Anything)
      → Triple r
          (Snapshot ids answered)
          (group_step r h thread label p rest answered)
          (Reported (p.late || late) ids)
          (λ _. Anything)
  step-Reported late ids p rest none t =
      Triple-weaken r _ _ _ _ (λ s e. tt) (later p late ids) (λ e s q. q) t
  step-Reported late ids p rest (some tasks) t =
      Triple-if r (any (λ t. is_waiting t.1) tasks) _ _
        (λ waits.
          Triple-if r p.late _ _
            (λ is_late. Triple-pure r _ (λ s e. (e, inl (refl, ground (arith, is_late), waits))))
            (λ _.
              Triple-if r p.context_ended _ _ (λ _. Triple-raise r _ (λ s e. tt))
                (λ _. Triple-weaken r _ _ _ _ (λ s e. tt) (later p late ids) (λ e s q. q) t)))
        (λ ended.
          Triple-bind r (λ _ s. tasks ≡ snapshot ids s) _ _
            (Triple-push_thread_event r h thread _ (λ text s e. e) (λ s e. e) (λ s e. e))
            (λ _. Triple-pure r _ (λ s e. (e, inr (ended, aggregate-Meaning tasks)))))

  polls-Reported :
      (ids : List String) (polls : List (Poll r.Db))
      → Triple r Anything
          (group_polls r h thread label ids polls)
          (Reported (any_late polls) ids)
          (λ _. Anything)
  unfolding group_polls
  polls-Reported ids [] = Triple-pure r _ (λ s p. tt)
  polls-Reported ids (p ∷ polls) =
      Triple-after r {P = Anything} p.meanwhile _ (λ d p. tt)
        (Triple-bind r (Snapshot ids) _ _
          (Triple-caught r _ (
            Triple-request r _ _
              (λ s p. ap (snapshot ids) (sym (run-status_reads r.next_text ids s))) (λ s p n. tt)))
          (λ answered. step-Reported (any_late polls) ids p _ answered (polls-Reported ids polls)))

  module _ (members : List String) where
    abbrev Members : Keyspace → Type 0
    Members s = s.sets (group_tasks_key thread label) ≡ members

    some-Reported :
        (polls : List (Poll r.Db)) (ids : List String)
        → Triple r
            (λ s. ids ≡ members)
            (elim ids [
              | [] ↦ raise (not_found label)
              | id ∷ rest ↦ group_polls r h thread label (id ∷ rest) polls
            ])
            (Reported (any_late polls) members)
            (λ _. Anything)
    some-Reported polls [] = Triple-raise r _ (λ s p. tt)
    some-Reported polls (id ∷ ids) = record {
      at = λ d p.
          (subst
              (λ is.
                Triple r Anything (group_polls r h thread label (id ∷ ids) polls)
                  (Reported (any_late polls) is) (λ _. Anything))
              p (polls-Reported (id ∷ ids) polls)).at
            d tt;
    }

    wait-Reported :
        (polls : List (Poll r.Db))
        → Triple r Members
            (group_wait r h thread label polls)
            (Reported (any_late polls) members)
            (λ _. Anything)
    unfolding group_wait smembers
    wait-Reported polls =
        Triple-bind r (λ ids s. ids ≡ members) _ _
          (Triple-wrapped r _ _ (Triple-request r _ _ (λ s p. p) (λ s p n. tt)))
          (λ ids. some-Reported polls ids)

  -- If GroupWait returns a result, whatever requests failed on the way, its tasks are the members
  -- that the group had at the call, with the statuses that the server holds when it returns, "unknown"
  -- for a missing one; and its status is "timeout", a deadline was past at one of the polls and some
  -- task is pending, running or queued, or no task is and the status is "error" if a task failed,
  -- "cancelled" if none failed and none is done and one is cancelled, and "complete" otherwise.
  pub group_wait_result :
      (polls : List (Poll r.Db)) (d : r.Db) {g : GroupResult}
      → (group_wait r h thread label polls d).0 ≡ ok (some g)
      → Reported
          (any_late polls)
          ((r.view d).sets (group_tasks_key thread label))
          (some g)
          (r.view (group_wait r h thread label polls d).1)
  group_wait_result polls d e =
      let members = (r.view d).sets (group_tasks_key thread label) in
      subst
        (λ a.
          Outcome (Reported (any_late polls) members) (λ _. Anything) a
            (r.view (group_wait r h thread label polls d).1))
        e ((wait-Reported members polls).at d refl)

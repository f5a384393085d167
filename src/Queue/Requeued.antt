-- ===== src/Queue/Requeued.antt =====
-- `RequeueStale` as operations of the backlog, one for each entry in flight.
use mathlib.Core.Path.{subst}
use ai_agents.Prelude.{
  sym, String, Option, none, some, Bool, List, [], ◌∷◌, ◌≡◌, refl, ◌⊎◌, inl, inr,
}
use ai_agents.Queue.{Backlog, Holds, finish_entry, return_entry}
use ai_agents.Queue.Handlers.{put_item_back-Holds, removed_lem}
use ai_agents.Redis.Client.{pure, ◌>>◌, Error, best_effort, lrange_all, M}
use ai_agents.Redis.Commands.{Redis, Keyspace, lrem}
use ai_agents.Redis.Keys.{processing_key}
use ai_agents.Redis.Reads.{Up, Triple-get, Triple-do}
use ai_agents.Redis.Triple.{Triple, Triple-bind, Triple-answered, Triple-pure, Triple-weaken}
use ai_agents.Requeue.{
  Verdict, put_back, collect, leave, act, verdict, requeue_item, requeue_items, requeue_stale,
}
use ai_agents.Types.{Host, TaskPayload}

-- the entry is left in flight, removed, or put back to the end of the queue
abbrev pub Treated : String → Backlog → Backlog → Type 0
Treated x b c = (c ≡ b) ⊎ (c ≡ finish_entry x b) ⊎ (c ≡ return_entry x b)

abbrev After : String → String → Backlog → List String → Keyspace → Type 0
After worker item b _ s = (c : Backlog) × Treated item b c × Holds worker c s

-- each of the entries in turn
abbrev pub AllTreated : List String → Backlog → Backlog → Type 0
AllTreated [] b c = c ≡ b
AllTreated (x ∷ xs) b c = (m : Backlog) × Treated x b m × AllTreated xs m c

module _ (r : Redis) (worker : String) where
  -- what holds of some backlog holds from any of them
  Triple-some :
      {A : Type 0} {E : Error → Keyspace → Type 0} {Q : A → Keyspace → Type 0}
      (R : Backlog → Type 0) (m : M r.Db A)
      → ((c : Backlog) → R c → Triple r (Holds worker c) m Q E)
      → Triple r (λ s. (c : Backlog) × R c × Holds worker c s) m Q E
  Triple-some R m f = record { at = λ d p. (f p.0 p.1).at d p.2 }

module _ (r : Redis) (up : Up r) (h : Host) (older : String → Bool) (worker : String)
    {E : Error → Keyspace → Type 0} where
  removed-After :
      (item : String) (b : Backlog)
      → Triple r
          (Holds worker b)
          (best_effort r (lrem (processing_key worker) item ∷ []))
          (λ _. Holds worker (finish_entry item b))
          E
  removed-After item b =
      Triple-do r up _ _ (λ s p. (p.0, removed_lem r up worker item b.in_flight s p.1))

  collect-After :
      (item : String) (b : Backlog)
      → Triple r
          (Holds worker b)
          (do best_effort r (lrem (processing_key worker) item ∷ []); pure [])
          (After worker item b)
          E
  collect-After item b =
      Triple-bind r (λ _. Holds worker (finish_entry item b)) _ _ (removed-After item b)
        (λ _. Triple-pure r _ (λ s p. (finish_entry item b, inr (inl refl), p)))

  act-After :
      (item : String) (p : TaskPayload) (b : Backlog) (v : Verdict)
      → Triple r (Holds worker b) (act r h older worker item p v) (After worker item b) E
  act-After item p b put_back =
      Triple-bind r (λ _. Holds worker (return_entry item b)) _ _
        (put_item_back-Holds r up worker h older item p b)
        (λ _. Triple-pure r _ (λ s q. (return_entry item b, inr (inr refl), q)))
  act-After item p b collect = collect-After item b
  act-After item p b leave = Triple-pure r _ (λ s q. (b, inl refl, q))

  requeue_item-After :
      (item : String) (o : Option TaskPayload) (b : Backlog)
      → Triple r (Holds worker b) (requeue_item r h older worker item o) (After worker item b) E
  unfolding requeue_item
  requeue_item-After item none b = collect-After item b
  requeue_item-After item (some p) b =
      Triple-bind r (λ _. Holds worker b) _ _ (Triple-get r _)
        (λ status.
          Triple-bind r (λ _. Holds worker b) _ _ (Triple-get r _)
            (λ last. act-After item p b (verdict older status last)))

  requeue_items-AllTreated :
      (items : List String) (b : Backlog)
      → Triple r
          (Holds worker b)
          (requeue_items r h older worker items)
          (λ _ s. (c : Backlog) × AllTreated items b c × Holds worker c s)
          E
  unfolding requeue_items
  requeue_items-AllTreated [] b = Triple-pure r _ (λ s p. (b, refl, p))
  requeue_items-AllTreated (item ∷ items) b =
      Triple-bind r (After worker item b) _ _
        (requeue_item-After item (h.codec.parse_payload item) b)
        (λ ids. Triple-some r worker (Treated item b) _ (λ m t.
          Triple-bind r (λ _ s. (c : Backlog) × AllTreated (item ∷ items) b c × Holds worker c s) _
            _
            (Triple-weaken r _ _ _ _ (λ s p. p) (λ _ s q. (q.0, (m, t, q.1), q.2)) (λ e s q. q)
              (requeue_items-AllTreated items m))
            (λ rest. Triple-pure r _ (λ s p. p))))

  -- Every entry in flight is treated, in order.
  pub requeue_stale-AllTreated :
      (b : Backlog)
      → Triple r
          (Holds worker b)
          (requeue_stale r h older worker)
          (λ _ s. (c : Backlog) × AllTreated b.in_flight b c × Holds worker c s)
          E
  unfolding requeue_stale lrange_all
  requeue_stale-AllTreated b =
      Triple-bind r (λ items s. (items ≡ b.in_flight) × Holds worker b s) _ _
        (Triple-answered r _ _ (up _) (λ s p. (p.1, p)))
        (λ items. record {
          at = λ d p.
              (subst (λ xs. Treating xs) (sym p.0) (requeue_items-AllTreated b.in_flight b)).at d
                p.1;
        })
    where
      Treating : List String → Type 0
      Treating xs =
          Triple r (Holds worker b) (requeue_items r h older worker xs)
            (λ _ s. (c : Backlog) × AllTreated b.in_flight b c × Holds worker c s) E

-- ===== src/Queue/Refined.antt =====
-- The lists in the server refine the backlog of a worker.
use ai_agents.Prelude.{ap, String, Option, some, Bool, List, [], ◌∷◌, ◌≡◌, refl, ◌⊎◌, inl, inr}
use ai_agents.Enqueue.{enqueue}
use ai_agents.Queue.{Backlog, Holds, oldest, take_entry, submit_entry, finish_entry}
use ai_agents.Queue.Handlers.{take_item-Holds, clean_up-Holds}
use ai_agents.Queue.Requeued.{AllTreated, requeue_stale-AllTreated}
use ai_agents.Queue.Submitted.{enqueue-Submits}
use ai_agents.Redis.Client.{M, Result, ok, err}
use ai_agents.Redis.Commands.{Redis, Keyspace}
use ai_agents.Redis.Reads.{Up}
use ai_agents.Redis.Triple.{Triple, Outcome, Triple-weaken}
use ai_agents.Requeue.{requeue_stale}
use ai_agents.Types.{Host}
use ai_agents.Worker.{World, Job, clean_up}
use ai_agents.Worker.Loop.{take_item}

-- a call that touches the queue or the processing list of a worker
pub data Call : Type 0 where
  submits : Host → String → String → Call
  takes : Call
  cleans_up : Host → World → Job → String → Call
  requeues : Host → (String → Bool) → Call

-- what the call does to the backlog
abbrev pub Allowed : Call → Backlog → Backlog → Type 0
Allowed (submits h thread instruction) b c =
    (c ≡ b)
    ⊎ ((id : String) × (text : String) × (h.codec.payload_text
            (record { task_id = id; thread_id = thread; instruction = instruction })
          ≡ some text)
        × (c ≡ submit_entry text b))
Allowed takes b c = c ≡ take_entry b
Allowed (cleans_up h w job item) b c = c ≡ finish_entry item b
Allowed (requeues h older) b c = AllTreated b.in_flight b c

abbrev pub AllAllowed : List Call → Backlog → Backlog → Type 0
AllAllowed [] b c = c ≡ b
AllAllowed (x ∷ xs) b c = (m : Backlog) × Allowed x b m × AllAllowed xs m c

module _ (r : Redis) (worker : String) where
  -- the state after the call, whether it returns an error or not
  abbrev pub perform : Call → r.Db → r.Db
  perform (submits h thread instruction) d = (enqueue r h worker thread instruction d).1
  perform takes d = (take_item r worker d).1
  perform (cleans_up h w job item) d = (clean_up r h w worker job item d).1
  perform (requeues h older) d = (requeue_stale r h older worker d).1

  abbrev pub perform_all : List Call → r.Db → r.Db
  perform_all [] d = d
  perform_all (x ∷ xs) d = perform_all xs (perform x d)

module _ (r : Redis) (up : Up r) (worker : String) where
  abbrev Reached : (Backlog → Type 0) → r.Db → Type 0
  Reached R d = (c : Backlog) × R c × Holds worker c (r.view d)

  -- a method that ends the same way on an error
  ended_lem :
      {A : Type 0} (R : Backlog → Type 0) (m : M r.Db A) (b : Backlog) (d : r.Db)
      → Triple r
          (Holds worker b)
          m
          (λ _ s. (c : Backlog) × R c × Holds worker c s)
          (λ _ s. (c : Backlog) × R c × Holds worker c s)
      → Holds worker b (r.view d)
      → Reached R (m d).1
  ended_lem {A} R m b d t p = go (m d).0 (r.view (m d).1) (t.at d p)
    where
      go :
          (a : Result A) (s : Keyspace)
          → Outcome
              (λ _ s. (c : Backlog) × R c × Holds worker c s)
              (λ _ s. (c : Backlog) × R c × Holds worker c s)
              a
              s
          → (c : Backlog) × R c × Holds worker c s
      go (ok a) s q = q
      go (err e) s q = q

  perform-Allowed :
      (x : Call) (b : Backlog) (d : r.Db)
      → Holds worker b (r.view d)
      → Reached (Allowed x b) (perform r worker x d)
  perform-Allowed (submits h thread instruction) b d p =
      ended_lem _ _ b d
        (Triple-weaken r _ _ _ _ (λ s q. q)
          (λ task s q. (submit_entry q.0 b, inr (task.task_id, q.0, q.1, refl), q.2))
          (λ e s q. (b, inl refl, q)) (enqueue-Submits r up h worker b thread instruction))
        p
  perform-Allowed takes b d p =
      ended_lem _ _ b d
        (Triple-weaken r _ _ _ _ (λ s q. q) (λ o s q. (take_entry b, refl, q.1)) (λ e s q. q)
          (take_item-Holds r up worker b))
        p
  perform-Allowed (cleans_up h w job item) b d p =
      ended_lem _ _ b d
        (Triple-weaken r _ _ _ _ (λ s q. q) (λ _ s q. (finish_entry item b, refl, q)) (λ e s q. q)
          (clean_up-Holds r up worker h w job item b))
        p
  perform-Allowed (requeues h older) b d p =
      ended_lem _ _ b d (requeue_stale-AllTreated r up h older worker b) p

  -- Where the server answers every request and its lists hold a backlog of the worker, any sequence
  -- of calls of Enqueue, of the worker's BLMOVE, of its clean-up and of RequeueStale leaves lists
  -- that hold a backlog, which the abstract operations of these calls reach in the same order:
  -- Enqueue adds the payload as the newest entry or changes nothing, BLMOVE takes the oldest entry
  -- in flight, the clean-up removes its entry, and RequeueStale leaves, removes or puts back each
  -- entry in flight.
  pub perform_all-Holds :
      (xs : List Call) (b : Backlog) (d : r.Db)
      → Holds worker b (r.view d)
      → (c : Backlog) × AllAllowed xs b c × Holds worker c (r.view (perform_all r worker xs d))
  perform_all-Holds [] b d p = (b, refl, p)
  perform_all-Holds (x ∷ xs) b d p =
      let (m, a, q) = perform-Allowed x b d p in
      let (c, rest, q') = perform_all-Holds xs m (perform r worker x d) q in (c, (m, a, rest), q')

  -- Where the server answers every request and its lists hold a backlog of the worker, the worker's
  -- BLMOVE returns its oldest waiting entry, and none if nothing waits; the lists then hold the
  -- backlog with that entry in flight.
  pub take_item-oldest :
      (b : Backlog) (d : r.Db)
      → Holds worker b (r.view d)
      → ((take_item r worker d).0 ≡ ok (oldest b))
        × Holds worker (take_entry b) (r.view (take_item r worker d).1)
  take_item-oldest b d p =
      go (take_item r worker d).0 (r.view (take_item r worker d).1)
        ((take_item-Holds r up worker b).at d p)
    where
      go :
          (a : Result (Option String)) (s : Keyspace)
          → Outcome (λ o s. (o ≡ oldest b) × Holds worker (take_entry b) s) (λ e s. ⊥) a s
          → (a ≡ ok (oldest b)) × Holds worker (take_entry b) s
      go (ok o) s q = (ap ok q.0, q.1)
      go (err e) s q = absurd q

-- ===== src/Queue/Handlers.antt =====
-- BLMOVE, the clean-up of a task and the return of an entry, as operations of the backlog.
use ai_agents.Threads.State.{remove_active_task}
use mathlib.Core.Path.{subst}
use ai_agents.Prelude.{
  ◌==◌, Option, not, filter, Bool, String, some, List, [], ◌∷◌, ◌++◌, ◌≡◌, sym, ◌∙◌, ap, eq_refl,
}
use ai_agents.Events.Pushed.{Triple-push_thread_event}
use ai_agents.Queue.{
  submit_entry, take_oldest, Backlog, Holds, backwards, oldest, take_entry, finish_entry,
  return_entry,
}
use ai_agents.Queue.Ends.{backwards-append, last_of-append, without_last-append}
use ai_agents.Redis.Client.{do_all, Error}
use ai_agents.Redis.Commands.{
  without_last, Redis, Keyspace, run, blmove, last_of, lpush, lrem, incr, expire, set, hdel,
  move_last,
}
use ai_agents.Redis.Keys.{queue_key, processing_key, task_key, str_key, active_tasks}
use ai_agents.Redis.Reads.{Up, Triple-do}
use ai_agents.Redis.Triple.{Triple, Triple-bind, Triple-attempt, Triple-answered}
use ai_agents.Requeue.{put_item_back}
use ai_agents.Types.{Host, TaskPayload, event, task_requeued, no_detail, ttl_task}
use ai_agents.Worker.{World, Job, clean_up}
use ai_agents.Worker.Loop.{take_item}

abbrev backlog : List String → List String → Backlog
backlog waiting flying = record { waiting = waiting; in_flight = flying }

module _ (r : Redis) (up : Up r) (worker : String) where
  -- BLMOVE on the lists of a backlog
  moved_lem :
      (waiting flying : List String) (s : Keyspace)
      → Holds worker (backlog waiting flying) s
      → (last_of (s.lists (queue_key worker)) ≡ oldest (backlog waiting flying))
        × Holds worker
            (take_oldest waiting flying)
            (run r.next_text (blmove (queue_key worker) (processing_key worker) ∷ []) s)
  moved_lem [] flying s (q, p) = (ap last_of q, rw (q) (q, p))
  moved_lem (x ∷ xs) flying s (q, p) = (
    found,
    subst (λ o. Holds worker (backlog xs (x ∷ flying)) (moved o)) (sym found) (left, pushed),
  )
    where
      moved : Option String → Keyspace
      moved o = move_last (queue_key worker) (processing_key worker) o s

      found : last_of (s.lists (queue_key worker)) ≡ some x
      found = ap last_of q ∙ last_of-append (backwards xs) x

      left : (moved (some x)).lists (queue_key worker) ≡ backwards xs
      left = rw (eq_refl worker) (ap without_last q ∙ without_last-append (backwards xs) x)

      pushed : (moved (some x)).lists (processing_key worker) ≡ x ∷ flying
      pushed = rw (eq_refl worker) (ap (◌∷◌ x) p)

  -- The worker gets the oldest entry, which is then in flight.
  pub take_item-Holds :
      {E : Error → Keyspace → Type 0} (b : Backlog)
      → Triple r
          (Holds worker b)
          (take_item r worker)
          (λ o s. (o ≡ oldest b) × Holds worker (take_entry b) s)
          E
  unfolding take_item
  take_item-Holds b = Triple-answered r _ _ (up _) (λ s p. moved_lem b.waiting b.in_flight s p)

  -- LPUSH on the queue
  pub pushed_lem :
      (item : String) (waiting : List String) (s : Keyspace)
      → s.lists (queue_key worker) ≡ backwards waiting
      → (run r.next_text (lpush (queue_key worker) item ∷ []) s).lists (queue_key worker)
        ≡ backwards (waiting ++ item ∷ [])
  pushed_lem item waiting s q =
      rw (eq_refl worker) (ap (◌∷◌ item) q ∙ sym (backwards-append waiting item))

  -- LREM on the processing list
  pub removed_lem :
      (item : String) (flying : List String) (s : Keyspace)
      → s.lists (processing_key worker) ≡ flying
      → (run r.next_text (lrem (processing_key worker) item ∷ []) s).lists (processing_key worker)
        ≡ filter (λ y. not (y == item)) flying
  removed_lem item flying s p = rw (eq_refl worker) (ap (filter (λ y. not (y == item))) p)

  pub clean_up-Holds :
      {E : Error → Keyspace → Type 0} (h : Host) (w : World) (job : Job) (item : String)
      (b : Backlog)
      → Triple r
          (Holds worker b)
          (clean_up r h w worker job item)
          (λ _. Holds worker (finish_entry item b))
          E
  unfolding clean_up remove_active_task do_all
  clean_up-Holds h w job item b =
      Triple-bind r (λ _. Holds worker (finish_entry item b)) _ _
        (Triple-do r up (lrem (processing_key worker) item ∷ []) _
          (λ s p. (p.0, removed_lem item b.in_flight s p.1)))
        (λ _.
          Triple-attempt r _ _
            (Triple-answered r (hdel active_tasks job.task_id ∷ []) _ (up _) (λ s p. p)))

  pub put_item_back-Holds :
      {E : Error → Keyspace → Type 0} (h : Host) (older : String → Bool) (item : String)
      (p : TaskPayload) (b : Backlog)
      → Triple r
          (Holds worker b)
          (put_item_back r h older worker item p)
          (λ _. Holds worker (return_entry item b))
          E
  unfolding put_item_back
  put_item_back-Holds h older item p b =
      Triple-bind r (λ _. Holds worker (submit_entry item b)) _ _
        (Triple-do r up (lpush (queue_key worker) item ∷ []) _
          (λ s q. (pushed_lem item b.waiting s q.0, q.1)))
        (λ _.
          Triple-bind r (λ _. Holds worker (return_entry item b)) _ _
            (Triple-do r up (lrem (processing_key worker) item ∷ []) _
              (λ s q. (q.0, removed_lem item b.in_flight s q.1)))
            (λ _.
              Triple-bind r (λ _. Holds worker (return_entry item b)) _ _
                (Triple-do r up (set (task_key p.task_id "status") "pending" (some ttl_task) ∷ []) _
                  (λ s q. q))
                (λ _.
                  Triple-bind r (λ _. Holds worker (return_entry item b)) _ _
                    (Triple-do r up
                      (incr (task_key p.task_id "retry_count")
                        ∷ expire (str_key (task_key p.task_id "retry_count")) ttl_task
                        ∷ [])
                      _ (λ s q. q))
                    (λ _.
                      Triple-push_thread_event r h p.thread_id
                        (event task_requeued p.task_id worker no_detail) (λ text s q. q) (λ s q. q)
                        (λ s q. q)))))

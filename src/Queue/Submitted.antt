-- ===== src/Queue/Submitted.antt =====
-- `Enqueue` as an operation of the backlog.
use mathlib.Core.Path.{subst}
use ai_agents.Prelude.{
  sym, String, Option, none, some, Bool, true, false, [], ◌∷◌, ◌≡◌, refl, if◌then◌else◌,
}
use ai_agents.Enqueue.{
  enqueue, take_lock, retake, submit_locked, append_instruction, push_payload, write_text,
  init_task, pending_task, with_uuid, instruction_message,
}
use ai_agents.Enqueue.Lock.{Triple-is_task_active}
use ai_agents.Events.Pushed.{Triple-push_thread_event}
use ai_agents.Locks.{acquire_lock, release}
use ai_agents.Queue.{Backlog, Holds, submit_entry}
use ai_agents.Queue.Handlers.{pushed_lem}
use ai_agents.Redis.Client.{Error, do_all, llen, ◌>>◌}
use ai_agents.Redis.Commands.{Redis, Keyspace, rpush, lpush, has, expire}
use ai_agents.Redis.Keys.{str_key, thread_lock_key, thread_messages_key, queue_key, list_key}
use ai_agents.Redis.Reads.{Up, Triple-get, Triple-depth, Triple-do}
use ai_agents.Redis.Triple.{
  Triple-weaken, Triple, Triple-bind, Triple-answered, Triple-wrapped, Triple-if, Triple-raise,
  Triple-pure, Triple-on_error,
}
use ai_agents.Types.{Host, event, task_enqueued, queue_depth_after, ttl_thread}

module _ (h : Host) (worker : String) (b : Backlog) where
  -- the payload of a task is the newest entry
  abbrev pub Submits : String → String → String → Keyspace → Type 0
  Submits id thread instruction s =
      (text : String) × (h.codec.payload_text
          (record { task_id = id; thread_id = thread; instruction = instruction })
        ≡ some text)
      × Holds worker (submit_entry text b) s

module _ (r : Redis) (up : Up r) (h : Host) (worker : String) (b : Backlog) where
  abbrev Same : Keyspace → Type 0
  Same = Holds worker b

  if_Same : (t : Bool) (s u : Keyspace) → Same s → Same u → Same (if t then s else u)
  if_Same true s u p q = p
  if_Same false s u p q = q

  acquire-Same :
      {E : Error → Keyspace → Type 0} (id thread : String)
      → Triple r Same (acquire_lock r thread id h.lock_ttl h.now) (λ _. Same) E
  unfolding acquire_lock
  acquire-Same id thread =
      Triple-answered r _ _ (up _)
        (λ s p. if_Same (has (str_key (thread_lock_key thread)) s) s _ p p)

  -- a rollback
  release-Same :
      {E : Error → Keyspace → Type 0} (thread : String)
      → Triple r Same (release r thread) (λ _. Same) E
  unfolding release do_all
  release-Same thread = Triple-answered r _ _ (up _) (λ s p. p)

  retake-Same : (id thread : String) → Triple r Same (retake r h id thread) (λ _. Same) (λ _. Same)
  unfolding retake
  retake-Same id thread =
      Triple-bind r (λ _. Same) _ _ (Triple-wrapped r _ _ (release-Same thread))
        (λ _.
          Triple-bind r (λ _. Same) _ _ (Triple-wrapped r _ _ (acquire-Same id thread))
            (λ second.
              Triple-if r second _ _ (λ _. Triple-pure r _ (λ s p. p))
                (λ _.
                  Triple-bind r (λ _. Same) _ _ (Triple-get r _)
                    (λ other. Triple-raise r _ (λ s p. p)))))

  take_lock-Same :
      (id thread : String) → Triple r Same (take_lock r h id thread) (λ _. Same) (λ _. Same)
  unfolding take_lock
  take_lock-Same id thread =
      Triple-bind r (λ _. Same) _ _ (Triple-wrapped r _ _ (acquire-Same id thread))
        (λ first.
          Triple-if r first _ _ (λ _. Triple-pure r _ (λ s p. p))
            (λ _.
              Triple-bind r (λ _. Same) _ _ (Triple-get r _)
                (λ holder.
                  Triple-bind r (λ _. Same) _ _ (Triple-is_task_active r holder)
                    (λ active.
                      Triple-if r active _ _ (λ _. Triple-raise r _ (λ s p. p))
                        (λ _. retake-Same id thread)))))

module _ (r : Redis) (up : Up r) (h : Host) (worker : String) (b : Backlog)
    (id thread instruction : String) where
  abbrev Stays : Keyspace → Type 0
  Stays = Holds worker b

  abbrev Queued : Keyspace → Type 0
  Queued = Submits h worker b id thread instruction

  append-Stays :
      Triple r Stays (append_instruction r h id worker thread instruction) (λ _. Stays) (λ _. Stays)
  unfolding append_instruction do_all
  append-Stays = go (h.codec.message_text (instruction_message h id worker instruction))
    where
      go :
          (o : Option String)
          → Triple r Stays
              (write_text r h "marshal message" "thread history append" o
                (λ text. rpush (thread_messages_key thread) text))
              (λ _. Stays)
              (λ _. Stays)
      go none = Triple-raise r _ (λ s p. p)
      go (some text) = Triple-wrapped r _ _ (Triple-answered r _ _ (up _) (λ s p. p))

  push-Queued :
      Triple r Stays (push_payload r h id worker thread instruction) (λ _. Queued) (λ _. Stays)
  unfolding push_payload do_all
  push-Queued =
      go
        (h.codec.payload_text
          (record { task_id = id; thread_id = thread; instruction = instruction }))
        refl
    where
      go :
          (o : Option String)
          → h.codec.payload_text
              (record { task_id = id; thread_id = thread; instruction = instruction })
            ≡ o
          → Triple r Stays
              (write_text r h "marshal payload" "queue push" o
                (λ text. lpush (queue_key worker) text))
              (λ _. Queued)
              (λ _. Stays)
      go none e = Triple-raise r _ (λ s p. p)
      go (some text) e = Triple-wrapped r _ _ (
          Triple-answered r _ _ (up _)
            (λ s p. (text, e, (pushed_lem r up worker text b.waiting s p.0, p.1))))

  init-Queued :
      {E : Error → Keyspace → Type 0}
      → Triple r Queued (do_all r (init_task h id worker thread instruction)) (λ _. Queued) E
  unfolding do_all
  init-Queued = Triple-answered r _ _ (up _) (λ s p. p)

  submit_locked-Queued :
      Triple r Stays
        (submit_locked r h id worker thread instruction)
        (λ task s. (task ≡ pending_task h id worker thread instruction) × Queued s)
        (λ _. Stays)
  unfolding submit_locked llen
  submit_locked-Queued =
      Triple-bind r (λ _. Stays) _ _
        (Triple-push_thread_event r h thread _ (λ text s p. p) (λ s p. p) (λ s p. p))
        (λ _.
          Triple-bind r (λ _. Stays) _ _
            (Triple-on_error r _ _ (λ _. Stays) append-Stays
              (λ _. release-Same r up h worker b thread))
            (λ _.
              Triple-bind r (λ _. Stays) _ _
                (Triple-do r up (expire (list_key (thread_messages_key thread)) ttl_thread ∷ []) _
                  (λ s p. p))
                (λ _.
                  Triple-bind r (λ _. Queued) _ _
                    (Triple-on_error r _ _ (λ _. Stays) push-Queued
                      (λ _. release-Same r up h worker b thread))
                    (λ _.
                      Triple-bind r (λ _. Queued) _ _
                        (Triple-on_error r _ _ (λ _. Stays) (Triple-wrapped r _ _ init-Queued)
                          (λ _. release-Same r up h worker b thread))
                        (λ _.
                          Triple-bind r (λ _. Queued) _ _ (Triple-depth r (queue_key worker))
                            (λ depth.
                              Triple-bind r (λ _. Queued) _ _
                                (Triple-push_thread_event r h thread
                                  (event task_enqueued id worker (queue_depth_after depth))
                                  (λ text s p. p) (λ s p. p) (λ s p. p))
                                (λ _. Triple-pure r _ (λ s p. (refl, p)))))))))

module _ (r : Redis) (up : Up r) (h : Host) (worker : String) (b : Backlog)
    (thread instruction : String) where
  -- Success adds the payload of the task as the newest entry; an error changes nothing.
  pub enqueue-Submits :
      Triple r
        (Holds worker b)
        (enqueue r h worker thread instruction)
        (λ task. Submits h worker b task.task_id thread instruction)
        (λ _. Holds worker b)
  unfolding enqueue
  enqueue-Submits = go h.uuid
    where
      go :
          (o : Option String)
          → Triple r
              (Holds worker b)
              (with_uuid r h
                (λ id. do take_lock r h id thread; submit_locked r h id worker thread instruction)
                o)
              (λ task. Submits h worker b task.task_id thread instruction)
              (λ _. Holds worker b)
      go none = Triple-raise r _ (λ s p. p)
      go (some id) =
          Triple-bind r (λ _. Holds worker b) _ _ (take_lock-Same r up h worker b id thread)
            (λ _.
              Triple-weaken r _ _ _ _ (λ s p. p)
                (λ task s q.
                  subst (λ t. Submits h worker b t.task_id thread instruction s) (sym q.0) q.1)
                (λ e s q. q) (submit_locked-Queued r up h worker b id thread instruction))

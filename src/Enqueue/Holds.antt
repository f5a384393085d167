-- ===== src/Enqueue/Holds.antt =====
-- What `Enqueue` leaves in the keyspace, on success and after an error past the lock.
use ai_agents.Redis.Reads.{Triple-depth}
use ai_agents.Events.Pushed.{Triple-push_thread_event}
use ai_agents.Redis.Client.{◌>>◌, do_all, llen}
use ai_agents.Prelude.{inl, inr, ◌⊎◌, refl, String, none, some, ◌≡◌, eq_refl, arith}
use ai_agents.Redis.Keys.{thread_messages_key, queue_key}
use ai_agents.Redis.Commands.{run, Redis, Keyspace}
use ai_agents.Redis.Triple.{
  Triple-weaken, Triple-pure, Triple-on_error, Triple-one, Triple-wrapped, Triple-raise,
  Triple-bind, Triple, Triple-request,
}
use ai_agents.Types.{Task, event, task_enqueued, queue_depth_after, Host}
use ai_agents.Locks.{release}
use ai_agents.Enqueue.{
  with_uuid, enqueue, take_lock, rpush, lpush, write_text, Option, pending_task, llen, do_all,
  submit_locked, push_payload, append_instruction, release, init_task, instruction_message,
}
use ai_agents.Enqueue.State.{
  StoppedEarly, Anything, Held, Pending, LockAndHistory, LockAndQueue, Ready,
}
use ai_agents.Enqueue.Lock.{take_lock-Held}

module _ (r : Redis) (h : Host) (id worker thread instruction : String) where
  init-Pending :
      (s : Keyspace)
      → Pending h id worker thread instruction
          (run r.next_text (init_task h id worker thread instruction) s)
  init-Pending s = simp eq_refl (ground arith)

module _ (r : Redis) (h : Host) (id worker thread instruction : String) (E : Keyspace → Type 0)
    (rolled_back : (P : Keyspace → Type 0) → Triple r P (release r thread) (λ _. E) (λ _. E)) where
  append-Appended :
      Triple r
        (Held h id thread)
        (append_instruction r h id worker thread instruction)
        (λ _. LockAndHistory h id worker thread instruction)
        (λ _ _. Unit {0})
  unfolding append_instruction do_all
  append-Appended = go (h.codec.message_text (instruction_message h id worker instruction)) refl
    where
      go :
          (o : Option String)
          → h.codec.message_text (instruction_message h id worker instruction) ≡ o
          → Triple r
              (Held h id thread)
              (write_text r h "marshal message" "thread history append" o
                (λ text. rpush (thread_messages_key thread) text))
              (λ _. LockAndHistory h id worker thread instruction)
              (λ _ _. Unit {0})
      go none e = Triple-raise r _ (λ s p. tt)
      go (some text) e = Triple-wrapped r _ _ (
          Triple-request r _ _
            (λ s p. (p, (text, s.lists (thread_messages_key thread), e, simp eq_refl)))
            (λ s p n. tt))

  push-Queued :
      Triple r
        (LockAndHistory h id worker thread instruction)
        (push_payload r h id worker thread instruction)
        (λ _. LockAndQueue h id worker thread instruction)
        (λ _ _. Unit {0})
  unfolding push_payload do_all
  push-Queued =
      go
        (h.codec.payload_text
          (record { task_id = id; thread_id = thread; instruction = instruction }))
        refl
    where
      go :
          (o : Option String)
          → h.codec.payload_text
              (record { task_id = id; thread_id = thread; instruction = instruction })
            ≡ o
          → Triple r
              (LockAndHistory h id worker thread instruction)
              (write_text r h "marshal payload" "queue push" o
                (λ text. lpush (queue_key worker) text))
              (λ _. LockAndQueue h id worker thread instruction)
              (λ _ _. Unit {0})
      go none e = Triple-raise r _ (λ s p. tt)
      go (some text) e = Triple-wrapped r _ _ (
          Triple-request r _ _
            (λ s p. (p.0, p.1, (text, s.lists (queue_key worker), e, simp eq_refl))) (λ s p n. tt))

  -- Once the lock is held: success leaves the instruction in the history, the payload in the queue
  -- and the task pending, with the lock still held; an error leaves what the rollback does.
  pub submit_locked-Ready :
      Triple r
        (Held h id thread)
        (submit_locked r h id worker thread instruction)
        (λ task s.
          (task ≡ pending_task h id worker thread instruction)
          × Ready h id worker thread instruction s)
        (λ _. E)
  unfolding submit_locked do_all llen
  submit_locked-Ready =
      Triple-bind r (λ _. (Held h id thread)) _ _
        (Triple-push_thread_event r h thread _ (λ text s p. p) (λ s p. p) (λ s p. p))
        (λ _.
          Triple-bind r (λ _. LockAndHistory h id worker thread instruction) _ _
            (Triple-on_error r _ _ (λ _ _. Unit {0}) append-Appended (λ _. rolled_back _))
            (λ _.
              Triple-bind r (λ _. LockAndHistory h id worker thread instruction) _ _
                (Triple-one r _ (λ s p. p) (λ s p. p))
                (λ _.
                  Triple-bind r (λ _. LockAndQueue h id worker thread instruction) _ _
                    (Triple-on_error r _ _ (λ _ _. Unit {0}) push-Queued (λ _. rolled_back _))
                    (λ _.
                      Triple-bind r (λ _. Ready h id worker thread instruction) _ _
                        (Triple-on_error r _ _ (λ _ _. Unit {0})
                          (Triple-wrapped r _ _ (
                            Triple-request r _ _
                              (λ s p.
                                (p.0, p.1, p.2, init-Pending r h id worker thread instruction s))
                              (λ s p n. tt)))
                          (λ _. rolled_back _))
                        (λ _.
                          Triple-bind r (λ _. Ready h id worker thread instruction) _ _
                            (Triple-depth r (queue_key worker))
                            (λ depth.
                              Triple-bind r (λ _. Ready h id worker thread instruction) _ _
                                (Triple-push_thread_event r h thread
                                  (event task_enqueued id worker (queue_depth_after depth))
                                  (λ text s p. p) (λ s p. p) (λ s p. p))
                                (λ _. Triple-pure r _ (λ s p. (refl, p)))))))))

module _ (r : Redis) (h : Host) (worker thread instruction : String) where
  abbrev pub Enqueued : Task → Keyspace → Type 0
  Enqueued task s =
      (id : String) × (h.uuid ≡ some id)
      × (task ≡ pending_task h id worker thread instruction)
      × Ready h id worker thread instruction s

  -- With `E` for the rollback's effect: success is `Enqueued`, and an error that came after the
  -- lock was taken is followed by the rollback.
  pub enqueue-Enqueued :
      (E : Keyspace → Type 0)
      → ((P : Keyspace → Type 0) → Triple r P (release r thread) (λ _. E) (λ _. E))
      → Triple r Anything
          (enqueue r h worker thread instruction)
          Enqueued
          (λ e s. StoppedEarly e ⊎ E s)
  unfolding enqueue
  enqueue-Enqueued E rolled_back = go h.uuid refl
    where
      go :
          (o : Option String)
          → h.uuid ≡ o
          → Triple r Anything
              (with_uuid r h
                (λ id. do take_lock r h id thread; submit_locked r h id worker thread instruction)
                o)
              Enqueued
              (λ e s. StoppedEarly e ⊎ E s)
      go none e = Triple-raise r _ (λ s p. inl refl)
      go (some id) e =
          Triple-bind r (λ _. Held h id thread) _ _
            (Triple-weaken r _ _ _ _ (λ s p. p) (λ _ s q. q) (λ e s q. inl q)
              (take_lock-Held r h id thread))
            (λ _.
              Triple-weaken r _ _ _ _ (λ s p. p) (λ task s q. (id, e, q.0, q.1)) (λ e s q. inr q)
                (submit_locked-Ready r h id worker thread instruction E rolled_back))

-- ===== src/Enqueue/State.antt =====
-- The states of the keyspace that `Enqueue` goes through.
use ai_agents.Redis.Client.{Error, during, locked}
use ai_agents.Prelude.{◌==◌, ◌||◌, true, String, none, some, List, [], ◌∷◌, ◌++◌, ◌≡◌}
use ai_agents.Redis.Keys.{
  str_key, thread_lock_key, thread_locked_at_key, thread_messages_key, task_key, queue_key,
}
use ai_agents.Redis.Commands.{Keyspace}
use ai_agents.Types.{Host}
use ai_agents.Enqueue.{instruction_message}

abbrev pub Anything : Keyspace → Type 0
Anything s = Unit {0}

module _ (h : Host) (id thread : String) where
  -- The task holds the lock of the thread, since `now`, for the lock's time to live.
  abbrev pub Held : Keyspace → Type 0
  Held s =
      (s.strings (thread_lock_key thread) ≡ some id)
      × (s.strings (thread_locked_at_key thread) ≡ some h.now)
      × (s.ttls (str_key (thread_lock_key thread)) ≡ some h.lock_ttl)

abbrev pub Free : String → Keyspace → Type 0
Free thread s =
    (s.strings (thread_lock_key thread) ≡ none) × (s.strings (thread_locked_at_key thread) ≡ none)

module _ (h : Host) (id worker thread instruction : String) where
  -- The instruction is the newest message of the thread.
  abbrev pub Appended : Keyspace → Type 0
  Appended s =
      (text : String) × (older : List String) × (h.codec.message_text
          (instruction_message h id worker instruction)
        ≡ some text)
      × (s.lists (thread_messages_key thread) ≡ older ++ text ∷ [])

  -- The payload is at the end of the queue where a worker's pop comes last.
  abbrev pub Queued : Keyspace → Type 0
  Queued s =
      (text : String) × (earlier : List String) × (h.codec.payload_text
          (record { task_id = id; thread_id = thread; instruction = instruction })
        ≡ some text)
      × (s.lists (queue_key worker) ≡ text ∷ earlier)

  abbrev pub Pending : Keyspace → Type 0
  Pending s =
      (s.strings (task_key id "status") ≡ some "pending")
      × (s.strings (task_key id "worker") ≡ some worker)
      × (s.strings (task_key id "thread_id") ≡ some thread)
      × (s.strings (task_key id "description") ≡ some instruction)
      × (s.strings (task_key id "enqueued_at") ≡ some h.now)

  abbrev pub LockAndHistory : Keyspace → Type 0
  LockAndHistory s = Held h id thread s × Appended s

  abbrev pub LockAndQueue : Keyspace → Type 0
  LockAndQueue s = Held h id thread s × Appended s × Queued s

  -- All that a task needs to be run and waited for.
  abbrev pub Ready : Keyspace → Type 0
  Ready s = Held h id thread s × Appended s × Queued s × Pending s

-- The errors that `Enqueue` returns while it does not know that it holds the lock.
abbrev pub StoppedEarly : Error → Type 0
StoppedEarly (during context e) =
    (context == "generate task id"
      || (context == "lock acquire"
          || (context == "lock stale-clear delete"
              || context == "lock acquire (after stale clear)")))
    ≡ true
StoppedEarly (locked thread holder) = Unit {0}
StoppedEarly _ = ⊥

-- ===== src/Enqueue.antt =====
-- `Enqueue` and `EnqueueGroup` of tasklib/tasks.go.
pub mod State
pub mod Lock
pub mod Holds
pub mod Outcome
pub mod Exclusion
pub mod Takeover
use ai_agents.Prelude.{
  not, contains_any, String, Option, none, some, List, [], ◌∷◌, ◌==◌, if◌then◌else◌,
}
use ai_agents.Redis.Keys.{
  set_key, group_tasks_key, str_key, list_key, thread_lock_key, thread_messages_key, queue_key,
  task_key, counter_key,
}
use ai_agents.Redis.Commands.{srem, srem, sadd, del, Redis, Cmd, set, incr, expire, rpush, lpush}
use ai_agents.Redis.Client.{
  in_group, invalid, M, not_encodable, no_random, during, locked, ◌>>=◌, ◌>>◌, pure, raise, wrapped,
  attempt, on_error, do_all, best_effort, get, llen,
}
use ai_agents.Types.{
  Host, Task, Message, empty_task, event, task_enqueued, lock_acquired, lock_holder,
  queue_depth_after, ttl_task, ttl_thread, ttl_stats,
}
use ai_agents.Events.{push_thread_event}
use ai_agents.Locks.{lock_thread, acquire_lock, is_task_active, release}

-- the metadata of an instruction in the thread history
abbrev pub instruction_meta : Host → String → String → List (String × String)
instruction_meta h id worker =
    ("task_id", id)
    ∷ ("worker", worker)
    ∷ (if h.agent_role == "" then [] else ("orchestrator_role", h.agent_role) ∷ [])

abbrev pub instruction_message : Host → String → String → String → Message
instruction_message h id worker instruction = record {
  role = h.agent_name;
  kind = "";
  content = instruction;
  timestamp = h.now;
  metadata = instruction_meta h id worker;
  source = "";
}

-- the task that both return
abbrev pub pending_task : Host → String → String → String → String → Task
pending_task h id worker thread instruction = record empty_task {
  task_id = id;
  thread_id = thread;
  instruction = instruction;
  worker = worker;
  status = "pending";
  description = instruction;
  enqueued_at = h.now;
}

-- the pipeline that initialises the keys of a task
abbrev pub init_task : Host → String → String → String → String → List Cmd
init_task h id worker thread instruction =
    set (task_key id "status") "pending" (some ttl_task)
    ∷ set (task_key id "worker") worker (some ttl_task)
    ∷ set (task_key id "thread_id") thread (some ttl_task)
    ∷ set (task_key id "description") instruction (some ttl_task)
    ∷ set (task_key id "enqueued_at") h.now (some ttl_task)
    ∷ incr (counter_key "task_total")
    ∷ expire (str_key (counter_key "task_total")) ttl_stats
    ∷ []

module _ (r : Redis) (h : Host) where
  -- a write of a text that `json.Marshal` may refuse
  unfoldable pub write_text : String → String → Option String → (String → Cmd) → M r.Db (Unit {0})
  write_text marshal_context context none cmd = raise (during marshal_context not_encodable)
  write_text marshal_context context (some text) cmd = wrapped context (do_all r (cmd text ∷ []))

  unfoldable pub append_instruction : String → String → String → String → M r.Db (Unit {0})
  unfolding write_text
  append_instruction id worker thread instruction =
      write_text "marshal message" "thread history append"
        (h.codec.message_text (instruction_message h id worker instruction))
        (λ text. rpush (thread_messages_key thread) text)

  unfoldable pub push_payload : String → String → String → String → M r.Db (Unit {0})
  unfolding write_text
  push_payload id worker thread instruction =
      write_text "marshal payload" "queue push"
        (h.codec.payload_text
          (record { task_id = id; thread_id = thread; instruction = instruction }))
        (λ text. lpush (queue_key worker) text)

  -- the removal of a stale lock, and the second attempt
  unfoldable pub retake : String → String → M r.Db (Unit {0})
  retake id thread = do
    wrapped "lock stale-clear delete" (release r thread)
    second ← wrapped "lock acquire (after stale clear)" (acquire_lock r thread id h.lock_ttl h.now)
    if second
        then pure tt
        else do other ← get r (thread_lock_key thread); raise (locked thread other)

  unfoldable pub take_lock : String → String → M r.Db (Unit {0})
  take_lock id thread = do
    first ← wrapped "lock acquire" (acquire_lock r thread id h.lock_ttl h.now)
    if first then pure tt else do
      holder ← get r (thread_lock_key thread)
      active ← is_task_active r holder
      if active then raise (locked thread holder) else retake id thread

  -- `enqueue` once the lock is held
  unfoldable pub submit_locked : String → String → String → String → M r.Db Task
  submit_locked id worker thread instruction = do
    push_thread_event r h thread (event lock_acquired id worker (lock_holder id))
    on_error (append_instruction id worker thread instruction) (release r thread)
    best_effort r (expire (list_key (thread_messages_key thread)) ttl_thread ∷ [])
    on_error (push_payload id worker thread instruction) (release r thread)
    on_error (wrapped "task init" (do_all r (init_task h id worker thread instruction)))
        (release r thread)
    depth ← attempt 0 (llen r (queue_key worker))
    push_thread_event r h thread (event task_enqueued id worker (queue_depth_after depth))
    pure (pending_task h id worker thread instruction)

  abbrev pub with_uuid : (String → M r.Db Task) → Option String → M r.Db Task
  with_uuid f none = raise (during "generate task id" no_random)
  with_uuid f (some id) = f id

  unfoldable pub enqueue : String → String → String → M r.Db Task
  enqueue worker thread instruction =
      with_uuid (λ id. do take_lock id thread; submit_locked id worker thread instruction) h.uuid

  -- The gate: no sequential task holds the lock. The key itself is set and taken away again.
  unfoldable pub gate_check : String → String → M r.Db (Unit {0})
  gate_check id thread = do
    first ← wrapped "lock gate-check" (lock_thread r thread id 10)
    if first then pure tt else do
      holder ← get r (thread_lock_key thread)
      active ← is_task_active r holder
      if active then raise (locked thread holder) else do
        wrapped "lock stale-clear delete"
            (do_all r (del (str_key (thread_lock_key thread) ∷ []) ∷ []))
        second ← wrapped "lock gate-check (after stale clear)" (lock_thread r thread id 10)
        if second
            then pure tt
            else do other ← get r (thread_lock_key thread); raise (locked thread other)
    best_effort r (del (str_key (thread_lock_key thread) ∷ []) ∷ [])

  -- from the history to the last event
  unfoldable pub submit_in_group : String → String → String → String → String → M r.Db Task
  submit_in_group id worker thread label instruction = do
    append_instruction id worker thread instruction
    best_effort r (expire (list_key (thread_messages_key thread)) ttl_thread ∷ [])
    existing ← get r (task_key id "group")
    if not (existing == "") then raise (in_group id existing) else do
      wrapped "group SADD" (do_all r (sadd (group_tasks_key thread label) id ∷ []))
      best_effort r (expire (set_key (group_tasks_key thread label)) ttl_thread ∷ [])
      on_error
          (wrapped "group membership set"
            (do_all r (set (task_key id "group") label (some ttl_task) ∷ [])))
          (best_effort r (srem (group_tasks_key thread label) id ∷ []))
      on_error (push_payload id worker thread instruction)
          (best_effort r (srem (group_tasks_key thread label) id ∷ []))
      on_error (wrapped "task init" (do_all r (init_task h id worker thread instruction)))
          (best_effort r (srem (group_tasks_key thread label) id ∷ []))
      depth ← attempt 0 (llen r (queue_key worker))
      push_thread_event r h thread (event task_enqueued id worker (queue_depth_after depth))
      pure (pending_task h id worker thread instruction)

  -- ':', tab, newline, carriage return and space
  unfoldable pub enqueue_group : String → String → String → String → M r.Db Task
  enqueue_group worker thread label instruction =
      if contains_any label (58 ∷ 9 ∷ 10 ∷ 13 ∷ 32 ∷ [])
      then raise (invalid label)
      else with_uuid
          (λ id. do gate_check id thread; submit_in_group id worker thread label instruction) h.uuid

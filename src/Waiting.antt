-- ===== src/Waiting.antt =====
-- `WaitTask`, `GroupWait` and `CancelTask` of tasklib/tasks.go, and `UpdateThread` of
-- tasklib/threads.go. A wait is given as the list of its polls: what other clients did before the
-- poll, and whether the deadline is past and the context is done after it.
pub mod Either
pub mod CutOff
pub mod Released
pub mod Cancelled
pub mod Aggregate
pub mod Ends
use ai_agents.Prelude.{
  ℕ, String, Bool, true, false, not, ◌||◌, ◌&&◌, Option, none, some, List, [], ◌∷◌, ◌++◌, ◌==◌,
  if◌then◌else◌, any, map, or_empty,
}
use ai_agents.Redis.Keys.{str_key, hash_key, set_key, task_key, thread_state_key, group_tasks_key}
use ai_agents.Redis.Commands.{
  Redis, Keyspace, Fields, Cmd, read, set, hset, expire, field, put_field,
}
use ai_agents.Redis.Client.{
  cut_off, M, Result, ok, err, not_found, invalid, timed_out, context_done, during, ◌>>=◌, ◌>>◌,
  pure, raise, wrapped, attempt, request, do_all, get, get_nil, exists_key, smembers,
}
use ai_agents.Types.{
  Host, Task, GroupResult, empty_task, event, thread_status_change, status_change, group_complete,
  no_detail, ttl_task, ttl_thread,
}
use ai_agents.Events.{push_thread_event}
use ai_agents.Locks.{is_terminal, unlock_thread}

abbrev pub thread_status_from_task : String → String
thread_status_from_task status =
    if status == "done"
    then "complete"
    else if status == "failed"
    then "error"
    else if status == "cancelled"
    then "cancelled"
    else status

pub record Poll (D : Type 0) : Type 0 where
  pub meanwhile : D → D
  pub late : Bool
  pub context_ended : Bool

abbrev pub to_option : {A : Type 0} → Result A → Option A
to_option (ok a) = some a
to_option (err e) = none

module _ {D A : Type 0} where
  abbrev pub after : (D → D) → M D A → M D A
  after f m d = m (f d)

  abbrev pub caught : M D A → M D (Option A)
  caught m d = let (a, d') = m d in (ok (to_option a), d')

module _ (r : Redis) where
  unfoldable pub thread_exists : String → M r.Db Bool
  thread_exists thread = exists_key r (hash_key (thread_state_key thread))

  -- the check of a new parent
  unfoldable pub check_parent : String → String → M r.Db (Unit {0})
  unfolding thread_exists
  check_parent thread parent = if parent == thread then raise (invalid parent) else do
    found ← wrapped "check parent thread" (thread_exists parent)
    if found then pure tt else raise (not_found parent)

  abbrev field_name : String → String
  field_name k =
      if k == "design"
      then "last_design"
      else if k == "pr" || k == "pr_number"
      then "gh_pr_number"
      else k

  -- the fields to write, after the checks
  unfoldable pub mapping : String → Fields → Fields → M r.Db Fields
  mapping thread acc [] = pure acc
  mapping thread acc ((k, v) ∷ fields) =
      let rest = mapping thread (put_field (field_name k) v acc) fields in
      if k == "parent_thread_id" && not (v == "") then (do check_parent thread v; rest) else rest

  unfoldable pub update_thread : Host → String → Fields → M r.Db (Unit {0})
  update_thread h thread fields = do
    found ← exists_key r (hash_key (thread_state_key thread))
    if not found then raise (not_found thread) else do
      new ← mapping thread (("updated_at", h.now) ∷ []) fields
      do_all r (hset (thread_state_key thread) new ∷ [])
      do_all r (expire (hash_key (thread_state_key thread)) ttl_thread ∷ [])

  -- its errors are dropped
  unfoldable pub update_thread_status : Host → String → String → M r.Db (Unit {0})
  update_thread_status h thread status = do
    previous ← attempt "" (
        request r (read (hash_key (thread_state_key thread)) ∷ [])
          (λ s. or_empty (field "status" (s.hashes (thread_state_key thread)))))
    attempt tt (update_thread h thread (("status", thread_status_from_task status) ∷ []))
    push_thread_event r h thread
        (event thread_status_change "" "" (status_change previous (thread_status_from_task status)))

  -- The end of a wait: a group's task leaves the thread as it is. The server is given as the context
  -- of the wait reaches it.
  unfoldable pub finish : Host → String → String → String → M r.Db (Unit {0})
  finish h id thread status = do
    label ← get r (task_key id "group")
    if label == "" && not (thread == "")
        then (do update_thread_status h thread status; attempt tt (unlock_thread r h thread))
        else pure tt

  -- the task that a wait returns
  unfoldable pub final_task : String → M r.Db Task
  final_task id = do
    status ← get r (task_key id "status")
    worker ← get r (task_key id "worker")
    thread ← get r (task_key id "thread_id")
    exit_code ← get r (task_key id "exit_code")
    enqueued_at ← get r (task_key id "enqueued_at")
    completed_at ← get r (task_key id "completed_at")
    pure (record empty_task {
      task_id = id;
      status = status;
      worker = worker;
      thread_id = thread;
      exit_code = exit_code;
      enqueued_at = enqueued_at;
      completed_at = completed_at;
    })

module _ (r : Redis) where
  -- `none`: still waiting after the polls. The last requests of a cancelled wait are on its context,
  -- which is done.
  unfoldable pub wait_polls : Host → String → String → List (Poll r.Db) → M r.Db (Option Task)
  wait_polls h id thread [] = pure none
  wait_polls h id thread (p ∷ polls) =
      let rest = wait_polls h id thread polls in
      after p.meanwhile (do
        found ← get_nil r (task_key id "status")
        if is_terminal (or_empty found)
            then (do t ← final_task r id; finish r h id thread (or_empty found); pure (some t))
            else if p.late
            then (do finish r h id thread (or_empty found); raise (timed_out id (or_empty found)))
            else if p.context_ended
            then (do finish (cut_off r) h id thread (or_empty found); raise context_done)
            else rest)

  unfoldable pub wait_task : Host → String → String → List (Poll r.Db) → M r.Db (Option Task)
  wait_task h id thread polls = do
    found ← exists_key r (str_key (task_key id "status"))
    if found then wait_polls h id thread polls else raise (not_found id)

abbrev pub is_waiting : String → Bool
is_waiting status = status == "pending" || (status == "running" || status == "queued")

abbrev pub in_status : String → List (String × String) → Bool
in_status status tasks = any (λ t. t.1 == status) tasks

abbrev pub aggregate : List (String × String) → String
aggregate tasks =
    if in_status "failed" tasks
    then "error"
    else if in_status "done" tasks && not (in_status "cancelled" tasks)
    then "complete"
    else if in_status "cancelled" tasks && not (in_status "done" tasks)
    then "cancelled"
    else "complete"

abbrev or_unknown : String → String
or_unknown status = if status == "" then "unknown" else status

abbrev pub snapshot : List String → Keyspace → List (String × String)
snapshot ids s = map (λ id. (id, or_unknown (or_empty (s.strings (task_key id "status"))))) ids

abbrev pub status_reads : List String → List Cmd
status_reads [] = []
status_reads (id ∷ ids) = read (str_key (task_key id "status")) ∷ status_reads ids

module _ (r : Redis) (h : Host) (thread label : String) where
  abbrev pub group_result : String → List (String × String) → GroupResult
  group_result status tasks = record {
    thread_id = thread;
    label = label;
    status = status;
    tasks = tasks;
  }

  -- A failed pipeline is tried again, with no look at the deadline or the context.
  abbrev pub group_step :
      Poll r.Db
      → M r.Db (Option GroupResult)
      → Option (List (String × String))
      → M r.Db (Option GroupResult)
  group_step p rest none = rest
  group_step p rest (some tasks) =
      if any (λ t. is_waiting t.1) tasks
      then (if p.late
          then pure (some (group_result "timeout" tasks))
          else if p.context_ended
          then raise context_done
          else rest)
      else (do
        push_thread_event r h thread (event group_complete "" "" no_detail)
        pure (some (group_result (aggregate tasks) tasks)))

  unfoldable pub group_polls : List String → List (Poll r.Db) → M r.Db (Option GroupResult)
  group_polls ids [] = pure none
  group_polls ids (p ∷ polls) =
      let rest = group_polls ids polls in
      after p.meanwhile (do
        answered ← caught (request r (status_reads ids) (snapshot ids))
        group_step p rest answered)

  unfoldable pub group_wait : List (Poll r.Db) → M r.Db (Option GroupResult)
  group_wait polls = do
    ids ← wrapped "group wait SMEMBERS" (smembers r (group_tasks_key thread label))
    elim ids [ [] ↦ raise (not_found label) | id ∷ rest ↦ group_polls (id ∷ rest) polls ]

module _ (r : Redis) where
  -- The flag that a worker reads before it starts the task.
  unfoldable pub cancel_task : String → String → M r.Db (Unit {0})
  cancel_task id cancelled_by = do
    found ← exists_key r (str_key (task_key id "status"))
    if not found
        then raise (not_found id)
        else do_all r (
            set (task_key id "cancel") "1" (some ttl_task)
            ∷ set (task_key id "cancelled_by") cancelled_by (some ttl_task)
            ∷ [])

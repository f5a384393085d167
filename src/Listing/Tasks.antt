-- ===== src/Listing/Tasks.antt =====
-- `ListTasks` of tasklib/tasks.go.
use ai_agents.Listing.{Lister, text_lt, directed, ascending, second_part, page}
use ai_agents.Prelude.{
  ℤ, pos, ℕ, String, Bool, not, ◌==◌, ◌&&◌, ◌||◌, eqb, ltb, Option, none, some, List, [], ◌∷◌, ◌++◌,
  any, if◌then◌else◌,
}
use ai_agents.Redis.Client.{M, ◌>>=◌, pure, wrapped, attempt, request, hgetall, get}
use ai_agents.Redis.Commands.{Fields, Keyspace, Redis, read, scan}
use ai_agents.Redis.Keys.{str_name, task_key, active_tasks, str_key}
use ai_agents.Tokens.Counters.{int64_or_zero}
use ai_agents.Types.{Codec, Task, TaskInfo, TokenStats, empty_task}

abbrev info_task : String → TaskInfo → Task
info_task id info = record empty_task {
  task_id = id;
  status = info.status;
  worker = info.worker;
  thread_id = info.thread_id;
  started_at = info.started_at;
}

-- An entry of `active_tasks`. Where the JSON is refused the fields are what was read so far, and the
-- status is "unknown".
abbrev active_task : Codec → String → String → Option TaskInfo → Task
active_task c id raw none = record (info_task id (c.partial_info raw)) { status = "unknown" }
active_task c id raw (some info) = info_task id info

abbrev active_rows : Codec → Fields → List Task
active_rows c [] = []
active_rows c ((id, raw) ∷ fields) = active_task c id raw (c.parse_info raw) ∷ active_rows c fields

-- a task of the scan that the map does not have yet
abbrev add_scanned : Option String → List Task → List Task
add_scanned none rows = rows
add_scanned (some id) rows =
    if any (λ t. t.task_id == id) rows
    then rows
    else rows ++ record empty_task { task_id = id } ∷ []

abbrev add_keys : List String → List Task → List Task
add_keys [] rows = rows
add_keys (x ∷ xs) rows =
    add_keys xs (add_scanned (second_part (str_name (task_key x "status"))) rows)

abbrev pub keeps : String → String → String → Task → Bool
keeps worker status thread t =
    (worker == "" || t.worker == worker)
    && ((status == "" || t.status == status) && (thread == "" || t.thread_id == thread))

-- a status that the map does not have counts as 0
abbrev pub task_status_order : String → ℕ
task_status_order status =
    if status == "failed"
    then 0
    else if status == "running"
    then 1
    else if status == "pending"
    then 2
    else if status == "done"
    then 3
    else if status == "cancelled"
    then 4
    else if status == "queued"
    then 5
    else if status == "unknown"
    then 6
    else 0

abbrev pub by_text : Bool → String → String → Bool → Bool
by_text asc x y tie = if not (x == y) then directed asc (text_lt x y) else tie

abbrev pub by_number : Bool → ℕ → ℕ → Bool → Bool
by_number asc x y tie = if not (eqb x y) then directed asc (ltb x y) else tie

-- the comparison of ListTasks
unfoldable pub task_less : Bool → String → Task → Task → Bool
task_less asc sort_by a b =
    let by_id = directed asc (text_lt a.task_id b.task_id) in
    if sort_by == "worker"
    then by_text asc a.worker b.worker by_id
    else if sort_by == "thread_id"
    then by_text asc a.thread_id b.thread_id by_id
    else if sort_by == "status"
    then by_number asc (task_status_order a.status) (task_status_order b.status) by_id
    else if sort_by == "enqueued_at"
    then by_text asc a.enqueued_at b.enqueued_at by_id
    else if sort_by == "task_id"
    then by_id
    else by_number asc (task_status_order a.status) (task_status_order b.status) by_id

module _ (r : Redis) where
  unfoldable pub scan_tasks : List (Keyspace → List String) → List Task → M r.Db (List Task)
  scan_tasks [] rows = pure rows
  scan_tasks (page_of ∷ pages) rows = do
    keys ← wrapped "scan" (request r (scan ∷ []) page_of)
    scan_tasks pages (add_keys keys rows)

  -- a key of the task, if the field is still empty
  unfoldable pub filled : String → String → M r.Db String → M r.Db String
  filled id v next = if v == "" then next else pure v

  abbrev then_dash : M r.Db String
  then_dash = pure "-"

  unfoldable pub key_or : String → String → M r.Db String → M r.Db String
  key_or id name next = do v ← get r (task_key id name); filled id v next

  abbrev missing_count : (String → Option ℤ) → String → String → ℤ → M r.Db ℤ
  missing_count number id name (pos n) =
      if eqb n 0
      then attempt (pos 0) (
          request r (read (str_key (task_key id name)) ∷ [])
            (λ s. int64_or_zero number (s.strings (task_key id name))))
      else pure (pos n)
  missing_count number id name n = pure n

  unfoldable pub enrich_tokens : (String → Option ℤ) → String → TokenStats → M r.Db TokenStats
  enrich_tokens number id ts = do
    input ← missing_count number id "input_tokens" ts.input_tokens
    output ← missing_count number id "output_tokens" ts.output_tokens
    cache_read ← missing_count number id "cache_read_tokens" ts.cache_read_tokens
    cache_write ← missing_count number id "cache_write_tokens" ts.cache_write_tokens
    reasoning ← missing_count number id "reasoning_tokens" ts.reasoning_tokens
    pure (record {
      input_tokens = input;
      output_tokens = output;
      cache_read_tokens = cache_read;
      cache_write_tokens = cache_write;
      reasoning_tokens = reasoning;
    })

  -- the missing fields, from the keys of the task
  unfoldable pub enrich : (String → Option ℤ) → Task → M r.Db Task
  enrich number t = do
    let id = t.task_id
    status ← filled id t.status (key_or id "status" (pure "unknown"))
    worker ← filled id t.worker (key_or id "worker" then_dash)
    thread ← filled id t.thread_id (key_or id "thread_id" then_dash)
    started ←
        filled id t.started_at
          (key_or id "started_at" (key_or id "enqueued_at" (key_or id "created_at" then_dash)))
    enqueued ← filled id t.enqueued_at (key_or id "enqueued_at" (key_or id "created_at" then_dash))
    completed ← filled id t.completed_at (key_or id "completed_at" then_dash)
    tokens ← enrich_tokens number id t.tokens
    pure (record t {
      status = status;
      worker = worker;
      thread_id = thread;
      started_at = started;
      enqueued_at = enqueued;
      completed_at = completed;
      tokens = tokens;
    })

  unfoldable pub kept_rows : (String → Option ℤ) → (Task → Bool) → List Task → M r.Db (List Task)
  kept_rows number keep [] = pure []
  kept_rows number keep (t ∷ ts) = do
    task ← enrich number t
    rows ← kept_rows number keep ts
    pure (if keep task then task ∷ rows else rows)

  unfoldable pub read_active : M r.Db Fields
  read_active = wrapped "active_tasks" (hgetall r active_tasks)

  unfoldable pub list_tasks :
      Codec
      → Lister
      → (String → Option ℤ)
      → String
      → String
      → String
      → ℤ
      → ℤ
      → String
      → String
      → M r.Db (List Task)
  list_tasks c l number worker status thread limit offset sort_by sort_dir = do
    active ← read_active
    tasks ← scan_tasks l.pages (active_rows c active)
    rows ← kept_rows number (keeps worker status thread) (l.any_order tasks)
    pure (page limit offset (l.sort (task_less (ascending l sort_dir) sort_by) rows))

-- ===== src/Requeue.antt =====
-- `RequeueStale` of tasklib/tasks.go.
pub mod Kept
use ai_agents.Prelude.{
  ℕ, String, Bool, true, false, not, ◌||◌, ◌&&◌, Option, none, some, List, [], ◌∷◌, ◌++◌, ◌==◌,
  if◌then◌else◌,
}
use ai_agents.Redis.Keys.{str_key, task_key, queue_key, processing_key}
use ai_agents.Redis.Commands.{Redis, lpush, lrem, set, incr, expire}
use ai_agents.Redis.Client.{M, ◌>>=◌, ◌>>◌, pure, best_effort, get, lrange_all}
use ai_agents.Types.{Host, TaskPayload, event, task_requeued, no_detail, ttl_task}
use ai_agents.Events.{push_thread_event}
use ai_agents.Locks.{is_terminal}

pub data Verdict : Type 0 where
  put_back collect leave : Verdict

-- `older`: the text is a timestamp, and the time since then is more than `olderThan`.
abbrev pub verdict : (String → Bool) → String → String → Verdict
verdict older status last_started =
    if status == "" || status == "pending"
    then put_back
    else if status == "running" && not (last_started == "")
    then (if older last_started then put_back else leave)
    else if is_terminal status
    then collect
    else leave

module _ (r : Redis) (h : Host) (older : String → Bool) (worker : String) where
  unfoldable pub put_item_back : String → TaskPayload → M r.Db (Unit {0})
  put_item_back item p = do
    best_effort r (lpush (queue_key worker) item ∷ [])
    best_effort r (lrem (processing_key worker) item ∷ [])
    best_effort r (set (task_key p.task_id "status") "pending" (some ttl_task) ∷ [])
    best_effort r (
        incr (task_key p.task_id "retry_count")
        ∷ expire (str_key (task_key p.task_id "retry_count")) ttl_task
        ∷ [])
    push_thread_event r h p.thread_id (event task_requeued p.task_id worker no_detail)

  abbrev pub act : String → TaskPayload → Verdict → M r.Db (List String)
  act item p put_back = do put_item_back item p; pure (p.task_id ∷ [])
  act item p collect = do best_effort r (lrem (processing_key worker) item ∷ []); pure []
  act item p leave = pure []

  -- An entry that is no JSON of a payload is removed.
  unfoldable pub requeue_item : String → Option TaskPayload → M r.Db (List String)
  requeue_item item none = do best_effort r (lrem (processing_key worker) item ∷ []); pure []
  requeue_item item (some p) = do
    status ← get r (task_key p.task_id "status")
    last_started ← get r (task_key p.task_id "last_started_at")
    act item p (verdict older status last_started)

  unfoldable pub requeue_items : List String → M r.Db (List String)
  requeue_items [] = pure []
  requeue_items (item ∷ items) = do
    ids ← requeue_item item (h.codec.parse_payload item)
    rest ← requeue_items items
    pure (ids ++ rest)

  unfoldable pub requeue_stale : M r.Db (List String)
  requeue_stale = do items ← lrange_all r (processing_key worker); requeue_items items

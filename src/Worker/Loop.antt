-- ===== src/Worker/Loop.antt =====
-- The main loop of cmd/worker/main.go: BLMOVE from the queue to the processing list, then the task.
-- A round is what the agent and the settings are while it lasts; the loop ends by a signal, after the
-- last of them. The fresh client after a lost connection is the same server.
use ai_agents.Events.{push_system_event}
use ai_agents.Prelude.{String, Option, none, some, List, [], ◌∷◌}
use ai_agents.Redis.Client.{M, ◌>>=◌, ◌>>◌, pure, request, attempt}
use ai_agents.Redis.Commands.{Redis, blmove, last_of}
use ai_agents.Redis.Keys.{queue_key, processing_key}
use ai_agents.Types.{Host, Event, worker_offline, no_detail}
use ai_agents.Worker.{World}
use ai_agents.Worker.Process.{process_one_task}

module _ (r : Redis) where
  -- none: it timed out
  unfoldable pub take_item : String → M r.Db (Option String)
  take_item worker =
      request r (blmove (queue_key worker) (processing_key worker) ∷ [])
        (λ s. last_of (s.lists (queue_key worker)))

  abbrev process_taken : Host → World → String → Option String → M r.Db (Unit {0})
  process_taken h w worker none = pure tt
  process_taken h w worker (some item) = attempt tt (process_one_task r h w worker item)

  -- An error of BLMOVE is a round without a task.
  unfoldable pub worker_round : Host → String → World → M r.Db (Unit {0})
  worker_round h worker w = do
    taken ← attempt none (take_item worker)
    process_taken h w worker taken

  abbrev offline : String → String → Event
  offline worker hostname = record {
    kind = worker_offline;
    task_id = "";
    worker_type = worker;
    agent_type = "";
    worker_hostname = hostname;
    correlation_id = "";
    detail = no_detail;
  }

  unfoldable pub worker_loop : Host → String → String → List World → M r.Db (Unit {0})
  worker_loop h worker hostname [] = push_system_event r h (offline worker hostname)
  worker_loop h worker hostname (w ∷ ws) = do
    worker_round h worker w
    worker_loop h worker hostname ws

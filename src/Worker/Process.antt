-- ===== src/Worker/Process.antt =====
-- The end of `processOneTask`, and the whole.
use ai_agents.Events.{push_thread_event}
use ai_agents.Prelude.{
  if◌then◌else◌, ℤ, pos, negsuc, String, Bool, false, not, ◌&&◌, Option, none, some, List, ◌∷◌,
  ◌++◌, ◌==◌, eqb,
}
use ai_agents.Redis.Client.{◌>>=◌, ◌>>◌, M, attempt, best_effort, get}
use ai_agents.Redis.Commands.{Cmd, Redis, incr, expire, lrem, hset}
use ai_agents.Redis.Keys.{
  task_key, counter_key, processing_key, thread_state_key, str_key, hash_key,
}
use ai_agents.Threads.State.{Thread, get_thread, set_active_task}
use ai_agents.Types.{
  TokenStats, no_tokens, TaskInfo, Event, Host, ttl_thread, ttl_stats, task_started, task_completed,
  task_failed, task_cancelled, no_detail, completed, failed_with, cancelled_from,
}
use ai_agents.Waiting.{caught}
use ai_agents.Worker.{
  Job, Execution, World, has_any, persist_token_stats, agent_event, set_field, start_task,
  full_prompt, timeout_of, line_of, read_history, cancel_cmds, clean_up, append_line,
}
use Prim.Native.String.{◌++◌ as append}
use ai_agents.Prelude.{[]}

-- what is stored of a run
pub record Report : Type 0 where
  pub result : String
  pub exit_code : ℤ
  pub status : String
  pub stats : TokenStats

abbrev pub is_zero : ℤ → Bool
is_zero (pos n) = eqb n 0
is_zero (negsuc n) = false

module _ (w : World) where
  abbrev cleaned : Execution → String × TokenStats
  cleaned e = if e.stdout == "" then ("", no_tokens) else (
    (if (w.process e.stdout).0 == "" then e.stdout else (w.process e.stdout).0),
    (w.process e.stdout).1,
  )

  abbrev stats_of : Execution → TokenStats
  stats_of e =
      if w.agent_type == "copilot" && (not (e.stderr == "") && has_any (w.copilot_stats e.stderr))
      then w.copilot_stats e.stderr
      else (cleaned e).1

  abbrev failed_text : ℤ → String → String → String
  failed_text code stdout stderr = append "[FAILED exit=" (
      append (w.decimal code)
        (append "]\n" (append stdout (if stderr == "" then "" else append "\n[stderr]\n" stderr))))

  unfoldable pub report : ℤ → Execution → Report
  report timeout e =
      let code : ℤ = if e.failed then negsuc 0 else e.exit_code in
      if e.failed && e.ended_late
      then record {
        result = append "Task timed out after " (append (w.decimal timeout) "s");
        exit_code = code;
        status = "failed";
        stats = stats_of e;
      }
      else if is_zero code
      then record { result = (cleaned e).0; exit_code = code; status = "done"; stats = stats_of e }
      else record {
        result = failed_text code (cleaned e).0 e.stderr;
        exit_code = code;
        status = "failed";
        stats = stats_of e;
      }

module _ (r : Redis) (h : Host) (w : World) where
  abbrev pub counted : Job → String → String → List Cmd
  counted job status stderr =
      if status == "failed"
      then set_field r h w job "error_message" (w.capped stderr)
        ∷ incr (counter_key "task_failed")
        ∷ expire (str_key (counter_key "task_failed")) ttl_stats
        ∷ []
      else incr (counter_key "task_done")
        ∷ expire (str_key (counter_key "task_done")) ttl_stats
        ∷ []

  abbrev pub store : Job → Report → String → List Cmd
  store job rep stderr =
      set_field r h w job "result" rep.result
      ∷ set_field r h w job "exit_code" (w.decimal rep.exit_code)
      ∷ set_field r h w job "completed_at" w.completed_at
      ∷ set_field r h w job "status" rep.status
      ∷ (counted job rep.status stderr
          ++ expire (str_key (counter_key "task_total")) ttl_stats
            ∷ persist_token_stats r h w job.task_id rep.stats)

  abbrev ended_event : Job → String → Report → String → Event
  ended_event job correlation rep stderr =
      if rep.status == "done"
      then agent_event r h w task_completed job correlation (completed w.duration rep.stats)
      else agent_event r h w task_failed job correlation
          (failed_with rep.exit_code (w.capped stderr))

  -- from the result of the agent to the end
  unfoldable pub settle : String → String → Job → String → Execution → M r.Db (Unit {0})
  settle worker item job correlation e = do
    let rep : Report = report w (timeout_of r h w job) e
    best_effort r (store job rep e.stderr)
    push_thread_event r h job.thread_id (ended_event job correlation rep e.stderr)
    append_line r h w job (line_of r h w job (w.capped rep.result) w.completed_at)
    best_effort r (
        hset (thread_state_key job.thread_id) (
          ("last_updated_by", w.worker_name)
          ∷ ("last_task_id", job.task_id)
          ∷ ("updated_at", w.completed_at)
          ∷ [])
        ∷ [])
    best_effort r (expire (hash_key (thread_state_key job.thread_id)) ttl_thread ∷ [])
    clean_up r h w worker job item

  -- the cancel flag was set before the start
  unfoldable pub settle_cancelled : String → String → Job → String → M r.Db (Unit {0})
  settle_cancelled worker item job correlation = do
    previous ← get r (task_key job.task_id "status")
    best_effort r (cancel_cmds r h w job previous)
    push_thread_event r h job.thread_id
        (agent_event r h w task_cancelled job correlation (cancelled_from "system" previous))
    append_line r h w job (
        line_of r h w job
          (append "[cancelled] Task " (append job.task_id " was cancelled by orchestrator"))
          w.completed_at)
    clean_up r h w worker job item

  abbrev pub correlation_of : Option Thread → String
  correlation_of none = ""
  correlation_of (some t) = t.correlation_id

  abbrev pub started_info : Job → TaskInfo
  started_info job = record {
    status = "running";
    worker = w.worker_name;
    thread_id = job.thread_id;
    started_at = h.now;
    worker_host = w.hostname;
  }

  -- with the prompt, and the cancel flag
  unfoldable pub run_or_cancel :
      String → String → Job → String → String → String → M r.Db (Unit {0})
  run_or_cancel worker item job correlation prompt flag =
      if not (flag == "")
      then settle_cancelled worker item job correlation
      else settle worker item job correlation (w.exec job.thread_id (timeout_of r h w job) prompt)

  unfoldable pub process_job : String → String → Job → M r.Db (Unit {0})
  process_job worker item job = do
    known ← caught (get_thread r job.thread_id)
    push_thread_event r h job.thread_id
        (agent_event r h w task_started job (correlation_of known) no_detail)
    attempt tt (set_active_task r h job.task_id (started_info job))
    best_effort r (start_task r h w job (correlation_of known))
    msgs ← read_history r h w job
    thread ← caught (get_thread r job.thread_id)
    flag ← get r (task_key job.task_id "cancel")
    run_or_cancel worker item job (correlation_of known)
        (full_prompt r h w msgs thread job.instruction) flag

  abbrev pub process_parsed : String → String → Option Job → M r.Db (Unit {0})
  process_parsed worker item none = best_effort r (lrem (processing_key worker) item ∷ [])
  process_parsed worker item (some job) = process_job worker item job

  -- `worker` names the queue; `item` is the entry that BLMOVE took
  unfoldable pub process_one_task : String → String → M r.Db (Unit {0})
  process_one_task worker item = process_parsed worker item (w.parse_job item)

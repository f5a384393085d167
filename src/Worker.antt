-- ===== src/Worker.antt =====
-- `processOneTask` of cmd/worker/main.go and `PersistTokenStats` of tasklib/tokens.go. The agent
-- process, its stats provider and Go's formatting are the parameters of a `World`; logs, alerts and
-- the count of processed tasks are left out.
pub mod Process
pub mod Status
pub mod Settled
pub mod Loop
use ai_agents.History.{get_thread_history_tail, get_thread_history_tail_for_worker}
use ai_agents.Prelude.{
  if◌then◌else◌, ℤ, pos, pos_part, ltb_ℤ, ℕ, String, Bool, not, ◌&&◌, ◌||◌, Option, none, some,
  List, ◌∷◌, ◌++◌, ◌==◌, or_empty,
}
use ai_agents.Redis.Client.{◌>>=◌, ◌>>◌, M, attempt, best_effort, get}
use ai_agents.Redis.Commands.{Cmd, Redis, set, set_nx, incr, expire, rpush, lrem, hincrby}
use ai_agents.Redis.Keys.{
  HashKey, name, task_key, counter_key, processing_key, thread_messages_key, stats_total_key,
  stats_agent_key, str_key, list_key,
}
use ai_agents.Threads.State.{Thread, remove_active_task}
use ai_agents.Types.{
  TokenStats, Message, EventType, Detail, Event, Host, ttl_task, ttl_thread, ttl_stats,
}
use ai_agents.Waiting.{caught}
use Prim.Native.String.{◌++◌ as append}
use ai_agents.Prelude.{[]}

-- the payload as the worker reads it
pub record Job : Type 0 where
  pub task_id : String
  pub thread_id : String
  pub instruction : String
  pub history_window : ℤ
  pub timeout : ℤ

-- what `execCommand` returned; `ended_late`: the error is a timeout, or the deadline is past
pub record Execution : Type 0 where
  pub stdout : String
  pub stderr : String
  pub exit_code : ℤ
  pub failed : Bool
  pub ended_late : Bool

pub record World : Type 0 where
  pub parse_job : String → Option Job
  pub worker_name : String
  pub worker_role : String
  pub agent_type : String
  pub hostname : String
  pub default_timeout : ℤ
  pub default_window : ℕ
  pub completed_at : String
  pub duration : ℤ
  -- the agent, run in the workspace of a thread with a timeout and a prompt
  pub exec : String → ℤ → String → Execution
  -- `provider.Process`, and `ParseCopilotStderr`
  pub process : String → String × TokenStats
  pub copilot_stats : String → TokenStats
  -- `%d`, and `s[:10000]` where `s` is longer
  pub decimal : ℤ → String
  pub capped : String → String

infixr 65 ◌+s◌
abbrev ◌+s◌ : String → String → String
a +s b = append a b

abbrev pub positive : ℤ → Bool
positive n = ltb_ℤ (pos 0) n

unfoldable pub has_any : TokenStats → Bool
has_any ts =
    positive ts.input_tokens
    || (positive ts.output_tokens
        || (positive ts.cache_read_tokens
            || (positive ts.cache_write_tokens || positive ts.reasoning_tokens)))

abbrev pub counters : HashKey → TokenStats → List Cmd
counters k ts =
    hincrby k "input_tokens" ts.input_tokens
    ∷ hincrby k "output_tokens" ts.output_tokens
    ∷ hincrby k "cache_read" ts.cache_read_tokens
    ∷ hincrby k "cache_write" ts.cache_write_tokens
    ∷ hincrby k "reasoning" ts.reasoning_tokens
    ∷ hincrby k "task_count" (pos 1)
    ∷ []

abbrev pub optional : Bool → Cmd → List Cmd
optional b c = if b then c ∷ [] else []

module _ (r : Redis) (h : Host) (w : World) where
  abbrev pub token_field : String → String → ℤ → List Cmd
  token_field id name n =
      optional (positive n) (set (task_key id name) (w.decimal n) (some ttl_task))

  unfoldable pub persist_token_stats : String → TokenStats → List Cmd
  persist_token_stats id ts =
      counters stats_total_key ts
      ++ (counters (stats_agent_key w.agent_type) ts
          ++ (token_field id "input_tokens" ts.input_tokens
              ++ (token_field id "output_tokens" ts.output_tokens
                  ++ (token_field id "cache_read_tokens" ts.cache_read_tokens
                      ++ (token_field id "cache_write_tokens" ts.cache_write_tokens
                          ++ token_field id "reasoning_tokens" ts.reasoning_tokens)))))

  abbrev pub agent_event : EventType → Job → String → Detail → Event
  agent_event kind job correlation detail = record {
    kind = kind;
    task_id = job.task_id;
    worker_type = w.worker_name;
    agent_type = w.agent_type;
    worker_hostname = w.hostname;
    correlation_id = correlation;
    detail = detail;
  }

  abbrev pub set_field : Job → String → String → Cmd
  set_field job name value = set (task_key job.task_id name) value (some ttl_task)

  abbrev pub start_task : Job → String → List Cmd
  start_task job correlation =
      set_field job "status" "running"
      ∷ set_field job "worker" w.worker_name
      ∷ set_field job "thread_id" job.thread_id
      ∷ set_field job "description" job.instruction
      ∷ set_nx (task_key job.task_id "started_at") h.now none
      ∷ expire (str_key (task_key job.task_id "started_at")) ttl_task
      ∷ set_field job "last_started_at" h.now
      ∷ set_field job "worker_hostname" w.hostname
      ∷ optional (not (correlation == "")) (set_field job "correlation_id" correlation)

  abbrev message_line : Message → String
  message_line m =
      "[" +s (if m.role == "" then "unknown" else m.role) +s "]: " +s m.content +s "\n\n"

  abbrev message_lines : List Message → String
  message_lines [] = ""
  message_lines (m ∷ ms) = message_line m +s message_lines ms

  abbrev history_text : List Message → String
  history_text [] = ""
  history_text (m ∷ ms) = "## Thread History (recent)\n\n" +s message_lines (m ∷ ms)

  abbrev line_if : Bool → String → String
  line_if b text = if b then text else ""

  abbrev state_text : Option Thread → String
  state_text none = ""
  state_text (some t) =
      "\n## Current State\n"
      +s ("status: " +s t.status +s "\n")
      +s line_if (not (t.last_design == "")) ("design: " +s t.last_design +s "\n")
      +s line_if (not (t.gh_repo == "")) ("repo: " +s t.gh_repo +s "\n")
      +s line_if (not (t.gh_pr_number == "") && not (t.gh_pr_number == "0"))
          ("PR: #" +s t.gh_pr_number +s "\n")

  abbrev pub full_prompt : List Message → Option Thread → String → String
  full_prompt msgs thread instruction =
      history_text msgs +s state_text thread +s "\n## Task\n" +s instruction

  abbrev window_of : Job → ℕ
  window_of job =
      if positive job.history_window then pos_part job.history_window else w.default_window

  abbrev pub timeout_of : Job → ℤ
  timeout_of job = if positive job.timeout then job.timeout else w.default_timeout

  abbrev metadata_of : Job → List (String × String)
  metadata_of job =
      ("task_id", job.task_id)
      ∷ (if w.worker_role == "" then [] else ("worker_role", w.worker_role) ∷ [])

  -- the JSON of a message of the worker; "" where it fails
  abbrev pub line_of : Job → String → String → String
  line_of job content timestamp = or_empty (
      h.codec.message_text (record {
        role = w.worker_name;
        kind = "";
        content = content;
        timestamp = timestamp;
        metadata = metadata_of job;
        source = "";
      }))

  unfoldable pub windowed : Job → String → M r.Db (List Message)
  windowed job group =
      if group == ""
      then get_thread_history_tail r h.codec job.thread_id (window_of job)
      else get_thread_history_tail_for_worker r h.codec job.thread_id (window_of job) w.worker_name

  unfoldable pub read_history : Job → M r.Db (List Message)
  read_history job = do
    group ← get r (task_key job.task_id "group")
    attempt [] (windowed job group)

  abbrev pub cancel_cmds : Job → String → List Cmd
  cancel_cmds job previous =
      set_field job "status" "cancelled"
      ∷ set_field job "result" "Cancelled by orchestrator"
      ∷ set_field job "exit_code" "-1"
      ∷ set_field job "completed_at" w.completed_at
      ∷ set_field job "cancelled_at" w.completed_at
      ∷ set_field job "cancelled_previous_status" previous
      ∷ set_nx (task_key job.task_id "cancelled_by") "system" none
      ∷ expire (str_key (task_key job.task_id "cancelled_by")) ttl_task
      ∷ incr (counter_key "task_cancelled")
      ∷ expire (str_key (counter_key "task_cancelled")) ttl_stats
      ∷ expire (str_key (counter_key "task_total")) ttl_stats
      ∷ []

  -- off the processing list and off `active_tasks`
  unfoldable pub clean_up : String → Job → String → M r.Db (Unit {0})
  clean_up processing_worker job item = do
    best_effort r (lrem (processing_key processing_worker) item ∷ [])
    attempt tt (remove_active_task r job.task_id)

  unfoldable pub append_line : Job → String → M r.Db (Unit {0})
  append_line job text = do
    best_effort r (rpush (thread_messages_key job.thread_id) text ∷ [])
    best_effort r (expire (list_key (thread_messages_key job.thread_id)) ttl_thread ∷ [])

-- ===== src/Types.antt =====
-- The entities of tasklib (tasks.go, threads.go, events.go, tokens.go), the JSON texts in which
-- they are stored, and the settings of a client. `encoding/json`, the clock and the random source
-- are parameters: `Codec` and `Host`.
use ai_agents.Prelude.{String, Option, List, ℤ, pos, ℕ}

pub record TokenStats : Type 0 where
  pub input_tokens : ℤ
  pub output_tokens : ℤ
  pub cache_read_tokens : ℤ
  pub cache_write_tokens : ℤ
  pub reasoning_tokens : ℤ

abbrev pub no_tokens : TokenStats
no_tokens = record {
  input_tokens = pos 0;
  output_tokens = pos 0;
  cache_read_tokens = pos 0;
  cache_write_tokens = pos 0;
  reasoning_tokens = pos 0;
}

pub record Task : Type 0 where
  pub task_id : String
  pub thread_id : String
  pub instruction : String
  pub worker : String
  pub status : String
  pub description : String
  pub result : String
  pub exit_code : String
  pub enqueued_at : String
  pub completed_at : String
  pub started_at : String
  pub last_started_at : String
  pub worker_hostname : String
  pub tokens : TokenStats
  pub retry_count : String
  pub error_message : String
  pub correlation_id : String
  pub cancelled_by : String
  pub cancelled_at : String
  pub cancelled_previous_status : String

-- `&Task{}`: Go's zero value
abbrev pub empty_task : Task
empty_task = record {
  task_id = "";
  thread_id = "";
  instruction = "";
  worker = "";
  status = "";
  description = "";
  result = "";
  exit_code = "";
  enqueued_at = "";
  completed_at = "";
  started_at = "";
  last_started_at = "";
  worker_hostname = "";
  tokens = no_tokens;
  retry_count = "";
  error_message = "";
  correlation_id = "";
  cancelled_by = "";
  cancelled_at = "";
  cancelled_previous_status = "";
}

pub record TaskPayload : Type 0 where
  pub task_id : String
  pub thread_id : String
  pub instruction : String

pub record TaskInfo : Type 0 where
  pub status : String
  pub worker : String
  pub thread_id : String
  pub started_at : String
  pub worker_host : String

pub record GroupResult : Type 0 where
  pub thread_id : String
  pub label : String
  pub status : String
  pub tasks : List (String × String)

pub record Message : Type 0 where
  pub role : String
  pub kind : String
  pub content : String
  pub timestamp : String
  pub metadata : List (String × String)
  pub source : String

pub data EventType : Type 0 where
  task_enqueued task_started task_completed task_failed task_cancelled task_requeued : EventType
  lock_acquired lock_released thread_status_change group_complete : EventType
  worker_online worker_offline : EventType

pub data Detail : Type 0 where
  no_detail : Detail
  queue_depth_after : ℕ → Detail
  completed : ℤ → TokenStats → Detail
  failed_with : ℤ → String → Detail
  cancelled_from : String → String → Detail
  lock_holder : String → Detail
  status_change : String → String → Detail

-- `EventID` and `Timestamp` are filled in by `PushEvent`.
pub record Event : Type 0 where
  pub kind : EventType
  pub task_id : String
  pub worker_type : String
  pub agent_type : String
  pub worker_hostname : String
  pub correlation_id : String
  pub detail : Detail

abbrev pub event : EventType → String → String → Detail → Event
event kind task_id worker_type detail = record {
  kind = kind;
  task_id = task_id;
  worker_type = worker_type;
  agent_type = "";
  worker_hostname = "";
  correlation_id = "";
  detail = detail;
}

-- `encoding/json` at the types that are stored; `none` is its error.
pub record Codec : Type 0 where
  pub event_text : Event → Option String
  pub message_text : Message → Option String
  pub payload_text : TaskPayload → Option String
  pub info_text : TaskInfo → Option String
  pub parse_payload : String → Option TaskPayload
  pub parse_message : String → Option Message
  pub parse_info : String → Option TaskInfo
  -- what the fields are where `json.Unmarshal` of an info fails
  pub partial_info : String → TaskInfo
  pub parse_event : String → Option Event

-- The fields of `Client`, the lock's time to live in seconds, and what a call of `NewUUID` (`none`
-- is its error) and of `Ts` returned to the operation.
pub record Host : Type 0 where
  pub codec : Codec
  pub agent_name : String
  pub agent_role : String
  pub lock_ttl : ℕ
  pub uuid : Option String
  pub now : String

abbrev pub ttl_task : ℕ
ttl_task = 86400

abbrev pub ttl_thread : ℕ
ttl_thread = 604800

abbrev pub ttl_stats : ℕ
ttl_stats = 604800

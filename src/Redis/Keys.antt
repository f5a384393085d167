-- ===== src/Redis/Keys.antt =====
-- tasklib/client.go, the key names, with those of tokens.go and events.go. A key is a constructor;
-- `name` is the string that goes over the wire. Each name is used with one type of value, so the
-- keys of strings, lists, hashes and sets are types of their own.
use Prim.Native.String.{◌++◌ as append}
use ai_agents.Prelude.{String, Bool, true, false, ◌&&◌, ◌==◌}

pub data StrKey : Type 0 where
  task_key : String → String → StrKey
  thread_lock_key : String → StrKey
  thread_running_key : String → StrKey
  thread_complete_key : String → StrKey
  thread_session_id_key : String → StrKey
  thread_last_activity_key : String → StrKey
  thread_locked_at_key : String → StrKey
  heartbeat_key : String → StrKey
  -- "stats:" and a name
  counter_key : String → StrKey

pub data ListKey : Type 0 where
  queue_key : String → ListKey
  processing_key : String → ListKey
  thread_messages_key : String → ListKey
  thread_events_key : String → ListKey
  system_events_key : ListKey

pub data HashKey : Type 0 where
  thread_state_key : String → HashKey
  active_tasks : HashKey
  stats_total_key : HashKey
  stats_agent_key : String → HashKey

pub data SetKey : Type 0 where
  group_tasks_key : String → String → SetKey

pub data Key : Type 0 where
  str_key : StrKey → Key
  list_key : ListKey → Key
  hash_key : HashKey → Key
  set_key : SetKey → Key

infixr 65 ◌+s◌
abbrev ◌+s◌ : String → String → String
a +s b = append a b

unfoldable pub str_name : StrKey → String
str_name (task_key id field) = "task:" +s id +s ":" +s field
str_name (thread_lock_key t) = "thread:" +s t +s ":lock"
str_name (thread_running_key t) = "thread:" +s t +s ":running"
str_name (thread_complete_key t) = "thread:" +s t +s ":complete"
str_name (thread_session_id_key t) = "thread:" +s t +s ":session_id"
str_name (thread_last_activity_key t) = "thread:" +s t +s ":last_activity"
str_name (thread_locked_at_key t) = "thread:" +s t +s ":locked_at"
str_name (heartbeat_key w) = "worker:" +s w +s ":heartbeat"
str_name (counter_key n) = "stats:" +s n

unfoldable pub list_name : ListKey → String
list_name (queue_key w) = "tasks:queue:" +s w
list_name (processing_key w) = "tasks:processing:" +s w
list_name (thread_messages_key t) = "thread:" +s t +s ":messages"
list_name (thread_events_key t) = "thread:" +s t +s ":events"
list_name system_events_key = "system:events"

unfoldable pub hash_name : HashKey → String
hash_name (thread_state_key t) = "thread:" +s t +s ":current_state"
hash_name active_tasks = "active_tasks"
hash_name stats_total_key = "stats:total_tokens"
hash_name (stats_agent_key a) = "stats:total_tokens:" +s a

unfoldable pub set_name : SetKey → String
set_name (group_tasks_key t label) = "thread:" +s t +s ":group:" +s label +s ":tasks"

unfoldable pub name : Key → String
unfolding str_name list_name hash_name set_name
name (str_key k) = str_name k
name (list_key k) = list_name k
name (hash_key k) = hash_name k
name (set_key k) = set_name k

abbrev pub same_str : StrKey → StrKey → Bool
same_str (task_key i f) (task_key j g) = i == j && f == g
same_str (thread_lock_key t) (thread_lock_key u) = t == u
same_str (thread_running_key t) (thread_running_key u) = t == u
same_str (thread_complete_key t) (thread_complete_key u) = t == u
same_str (thread_session_id_key t) (thread_session_id_key u) = t == u
same_str (thread_last_activity_key t) (thread_last_activity_key u) = t == u
same_str (thread_locked_at_key t) (thread_locked_at_key u) = t == u
same_str (heartbeat_key t) (heartbeat_key u) = t == u
same_str (counter_key t) (counter_key u) = t == u
same_str _ _ = false

abbrev pub same_list : ListKey → ListKey → Bool
same_list (queue_key t) (queue_key u) = t == u
same_list (processing_key t) (processing_key u) = t == u
same_list (thread_messages_key t) (thread_messages_key u) = t == u
same_list (thread_events_key t) (thread_events_key u) = t == u
same_list system_events_key system_events_key = true
same_list _ _ = false

abbrev pub same_hash : HashKey → HashKey → Bool
same_hash (thread_state_key t) (thread_state_key u) = t == u
same_hash active_tasks active_tasks = true
same_hash stats_total_key stats_total_key = true
same_hash (stats_agent_key t) (stats_agent_key u) = t == u
same_hash _ _ = false

abbrev pub same_set : SetKey → SetKey → Bool
same_set (group_tasks_key t l) (group_tasks_key u m) = t == u && l == m

abbrev pub same_key : Key → Key → Bool
same_key (str_key k) (str_key j) = same_str k j
same_key (list_key k) (list_key j) = same_list k j
same_key (hash_key k) (hash_key j) = same_hash k j
same_key (set_key k) (set_key j) = same_set k j
same_key _ _ = false

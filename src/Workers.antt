-- ===== src/Workers.antt =====
-- tasklib/workers.go: the heartbeats of the workers, in Beats, and what is counted from them, in Stats.
-- A worker writes a JSON text with a time to live of 30 seconds.
pub mod Beats
pub mod Stats
pub mod Names
pub mod Fresh
pub mod Entries
pub mod Counted
pub mod Values
pub mod Tally
pub mod Alive
use ai_agents.Listing.{before_colon, after_colon}
use ai_agents.Prelude.{
  ℕ, zero, suc, ℤ, pos, String, Bool, false, ltb, Option, none, some, List, [], ◌∷◌, ◌==◌,
  if◌then◌else◌,
}

pub record HeartbeatData : Type 0 where
  pub worker_name : String
  pub agent_type : String
  pub role : String
  pub hostname : String
  pub tasks_processed : ℤ
  pub queue_depth : ℤ
  pub uptime_seconds : ℤ
  pub last_heartbeat_at : String

pub record WorkerInstance : Type 0 where
  pub worker_name : String
  pub agent_type : String
  pub role : String
  pub hostname : String
  pub tasks_processed : ℤ
  pub queue_depth : ℤ
  pub uptime_seconds : ℤ
  pub last_heartbeat_payload : String
  pub online : Bool

pub record WorkerInfo : Type 0 where
  pub instances : ℕ
  pub online : ℕ
  pub total_active : ℕ
  pub total_threads : ℕ
  pub agent_type : String
  pub role : String

-- the JSON of a heartbeat
pub record BeatCodec : Type 0 where
  pub beat_text : HeartbeatData → Option String
  pub parse_beat : String → Option HeartbeatData

-- `strings.SplitN(key, ":", n)` for a positive n, which is one more than the number given
abbrev pub split_n : ℕ → String → List String
split_n zero key = key ∷ []
split_n (suc n) key = elim (after_colon key) [
  | none ↦ key ∷ []
  | some rest ↦ before_colon key ∷ split_n n rest
]

-- worker:<type>:<hostname>:heartbeat
abbrev old_format : List String → Option String
old_format (a ∷ b ∷ c ∷ d ∷ []) = if d == "heartbeat" then some b else none
old_format _ = none

-- worker:<name>:heartbeat
abbrev new_format : List String → String
new_format (a ∷ b ∷ c ∷ []) = if c == "heartbeat" then b else ""
new_format _ = ""

unfoldable pub parse_heartbeat_worker_name : String → String
parse_heartbeat_worker_name key = elim (old_format (split_n 3 key)) [
  | some name ↦ name
  | none ↦ new_format (split_n 2 key)
]

-- `ttl > 0`; a key without a time to live has a negative one
abbrev pub is_alive : Option ℕ → Bool
is_alive none = false
is_alive (some ttl) = ltb 0 ttl

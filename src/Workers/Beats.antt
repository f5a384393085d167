-- ===== src/Workers/Beats.antt =====
-- `UpdateWorkerHeartbeat`, `GetWorkerInstances` and its fallback.
use ai_agents.Prelude.{
  pos, String, Bool, false, Option, none, some, List, [], ◌∷◌, ◌++◌, ◌==◌, if◌then◌else◌,
}
use ai_agents.Redis.Client.{
  M, ◌>>=◌, pure, raise, wrapped, attempt, request, do_all, get_nil, during, not_encodable,
  not_decodable,
}
use ai_agents.Redis.Commands.{Redis, Keyspace, set, read, scan}
use ai_agents.Redis.Keys.{StrKey, heartbeat_key, str_key}
use ai_agents.Workers.{HeartbeatData, WorkerInstance, BeatCodec, is_alive}

abbrev pub stamped : String → HeartbeatData → HeartbeatData
stamped now hb = if hb.last_heartbeat_at == "" then record hb { last_heartbeat_at = now } else hb

abbrev pub instance_of : HeartbeatData → String → Bool → WorkerInstance
instance_of hb raw online = record {
  worker_name = hb.worker_name;
  agent_type = hb.agent_type;
  role = hb.role;
  hostname = hb.hostname;
  tasks_processed = hb.tasks_processed;
  queue_depth = hb.queue_depth;
  uptime_seconds = hb.uptime_seconds;
  last_heartbeat_payload = raw;
  online = online;
}

-- an old payload that is no JSON of a heartbeat
abbrev pub unknown_instance : String → Bool → WorkerInstance
unknown_instance worker online = record {
  worker_name = worker;
  agent_type = "";
  role = "";
  hostname = "";
  tasks_processed = pos 0;
  queue_depth = pos 0;
  uptime_seconds = pos 0;
  last_heartbeat_payload = "";
  online = online;
}

module _ (r : Redis) (c : BeatCodec) where
  abbrev pub put_beat : String → Option String → M r.Db (Unit {0})
  put_beat worker none = raise (during "marshal heartbeat" not_encodable)
  put_beat worker (some text) = do_all r (set (heartbeat_key worker) text (some 30) ∷ [])

  unfoldable pub update_worker_heartbeat : String → String → HeartbeatData → M r.Db (Unit {0})
  update_worker_heartbeat now worker hb = put_beat worker (c.beat_text (stamped now hb))

  -- TTL, whose error counts as no time to live
  unfoldable pub alive : StrKey → M r.Db Bool
  alive k = attempt false (request r (read (str_key k) ∷ []) (λ s. is_alive (s.ttls (str_key k))))

  abbrev old_instance : String → String → Option HeartbeatData → Bool → WorkerInstance
  old_instance worker raw none online = unknown_instance worker online
  old_instance worker raw (some hb) online = instance_of hb raw online

  abbrev old_instances : String → StrKey → Option String → M r.Db (List WorkerInstance)
  old_instances worker k none = pure []
  old_instances worker k (some raw) = do
    online ← alive k
    pure (old_instance worker raw (c.parse_beat raw) online ∷ [])

  -- The keys are given by what stands between "worker:" and ":heartbeat".
  unfoldable pub read_old : String → List String → M r.Db (List WorkerInstance)
  read_old worker [] = pure []
  read_old worker (x ∷ xs) = do
    raw ← attempt none (get_nil r (heartbeat_key x))
    found ← old_instances worker (heartbeat_key x) raw
    rest ← read_old worker xs
    pure (found ++ rest)

  module _ (old_keys : String → Keyspace → List String) where
    -- `old_keys` is what KEYS finds for the pattern worker:<name>:*:heartbeat.
    unfoldable pub get_worker_instances_fallback : String → M r.Db (List WorkerInstance)
    get_worker_instances_fallback worker = do
      keys ← attempt [] (request r (scan ∷ []) (old_keys worker))
      read_old worker keys

    abbrev pub read_beat : String → String → Option HeartbeatData → M r.Db (List WorkerInstance)
    read_beat worker raw none = raise (during "unmarshal heartbeat" not_decodable)
    read_beat worker raw (some hb) = do
      online ← alive (heartbeat_key worker)
      pure (instance_of hb raw online ∷ [])

    abbrev pub instances_from : String → Option String → M r.Db (List WorkerInstance)
    instances_from worker none = get_worker_instances_fallback worker
    instances_from worker (some raw) = read_beat worker raw (c.parse_beat raw)

    unfoldable pub get_worker_instances : String → M r.Db (List WorkerInstance)
    get_worker_instances worker = do
      raw ← wrapped "get worker instance" (get_nil r (heartbeat_key worker))
      instances_from worker raw

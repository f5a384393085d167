-- ===== src/Tests/Beating.antt =====
-- The heartbeat of a worker on the concrete server.
use ai_agents.Events.{push_event, push_system_event}
use ai_agents.Redis.Commands.{Keyspace, put_hash, put_ttl, put_str}
use ai_agents.Workers.Stats.{
  Stats, get_worker_stats, count_workers, count_keys, count_key, describe, scan_pairs, pairs_of,
  pair_of, described, one_more, empty_info,
}
use ai_agents.Workers.Alive.{get_worker_stats-alive_keys}
use ai_agents.Workers.Values.{alive_keys, has_ttl}
use ai_agents.Workers.Entries.{AreCounted}
use ai_agents.Prelude.{
  String, List, map, pos, none, some, true, [], ◌∷◌, ◌≡◌, refl, ◌==◌, if◌then◌else◌,
}
use ai_agents.Redis.Client.{best_effort, hgetall, get, get_nil, request, ok}
use ai_agents.Redis.Keys.{active_tasks, str_key, str_name, heartbeat_key}
use ai_agents.Tests.Server.{host, nothing, reliable}
use ai_agents.Workers.{HeartbeatData, BeatCodec, parse_heartbeat_worker_name}
use ai_agents.Workers.Beats.{update_worker_heartbeat, get_worker_instances, stamped, instance_of}
use ai_agents.Workers.Fresh.{update_worker_heartbeat-get_worker_instances}
use ai_agents.Workers.Names.{parse_heartbeat_worker_name-name}

abbrev beat : HeartbeatData
beat = record {
  worker_name = "claude";
  agent_type = "claude";
  role = "developer";
  hostname = "host-a";
  tasks_processed = pos 3;
  queue_depth = pos 1;
  uptime_seconds = pos 40;
  last_heartbeat_at = "";
}

abbrev beats : BeatCodec
beats = record {
  beat_text = λ hb. some "{}";
  parse_beat = λ text. if text == "{}" then some (stamped "12:00" beat) else none;
}

update_worker_heartbeat-get_worker_instances_example :
    ((update_worker_heartbeat reliable beats "12:00" "claude" beat nothing).0 ≡ ok tt)
    × ((get_worker_instances reliable beats
          (λ worker s. [])
          "claude"
          (update_worker_heartbeat reliable beats "12:00" "claude" beat nothing).1).0
        ≡ ok (instance_of (stamped "12:00" beat) "{}" true ∷ []))
update_worker_heartbeat-get_worker_instances_example =
    update_worker_heartbeat-get_worker_instances reliable (λ cs d. refl) beats (λ worker s. [])
      "claude" "12:00" beat nothing refl refl

parse_heartbeat_worker_name-name_example :
    (parse_heartbeat_worker_name (str_name (heartbeat_key "claude")) ≡ "claude")
    × (parse_heartbeat_worker_name (str_name (heartbeat_key "claude:host-a")) ≡ "claude")
parse_heartbeat_worker_name-name_example =
    parse_heartbeat_worker_name-name "claude" "host-a" refl refl

-- a key that beats, one without a time to live, and an entry of active_tasks that is no JSON
abbrev beating : Keyspace
beating = put_hash active_tasks (("t1", "{}") ∷ []) (
    put_ttl (str_key (heartbeat_key "claude:host-a")) (some 30) (
      put_str (heartbeat_key "claude:host-a") (some "{}")
        (put_str (heartbeat_key "claude:host-b") (some "{}") nothing)))

abbrev found_stats : Stats
found_stats = ("claude", described beat (one_more empty_info)) ∷ []

-- two pages
abbrev found_keys : List (List String)
found_keys = ("claude:host-a" ∷ []) ∷ ("claude:host-b" ∷ []) ∷ []

stats_run :
    (get_worker_stats reliable
      (host "t1")
      beats
      (map (λ page s. page) found_keys)
      ((λ s. "t1" ∷ []) ∷ [])
      beating).0
    ≡ ok found_stats
unfolding get_worker_stats count_workers count_keys count_key describe scan_pairs pairs_of pair_of
    hgetall get get_nil request best_effort push_event push_system_event parse_heartbeat_worker_name
    str_name
stats_run = refl

get_worker_stats-alive_keys_example :
    AreCounted found_stats
    × (1 ≡ alive_keys (has_ttl beating) "claude" found_keys)
    × (1 ≡ alive_keys (has_ttl beating) "claude" found_keys)
get_worker_stats-alive_keys_example =
    get_worker_stats-alive_keys reliable (λ cs d. refl) (host "t1") beats found_keys
      ((λ s. "t1" ∷ []) ∷ []) "claude" beating refl stats_run

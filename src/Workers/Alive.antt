-- ===== src/Workers/Alive.antt =====
-- `GetWorkerStats` counts the heartbeat keys that have a time to live.
use ai_agents.Prelude.{String, false, ◌==◌, List, map, ◌≡◌, refl}
use ai_agents.Redis.Client.{ok}
use ai_agents.Redis.Commands.{Redis, Keyspace}
use ai_agents.Redis.Reads.{Up}
use ai_agents.Types.{Host}
use ai_agents.Workers.{BeatCodec}
use ai_agents.Workers.Counted.{get_worker_stats-AreCounted}
use ai_agents.Workers.Entries.{AreCounted}
use ai_agents.Workers.Stats.{Stats, get_worker_stats}
use ai_agents.Workers.Tally.{worker_count}
use ai_agents.Workers.Values.{has_ttl, alive_keys, value}

-- Where requests are answered and the scan finds the given heartbeat keys, page by page, GetWorkerStats
-- has one entry for each worker that it counts; for a worker with a name, the instances and the online
-- instances are both the number of the keys found that name it and have a time to live at the call.
pub get_worker_stats-alive_keys :
    (r : Redis) (up : Up r) (h : Host) (c : BeatCodec) (found : List (List String))
    (task_pages : List (Keyspace → List String)) (worker : String) (d : r.Db) {stats : Stats}
    → (worker == "") ≡ false
    → (get_worker_stats r h c (map (λ page s. page) found) task_pages d).0 ≡ ok stats
    → AreCounted stats
      × (value (λ i. i.instances) stats worker ≡ alive_keys (has_ttl (r.view d)) worker found)
      × (value (λ i. i.online) stats worker ≡ alive_keys (has_ttl (r.view d)) worker found)
get_worker_stats-alive_keys r up h c found task_pages worker d named e = (
  get_worker_stats-AreCounted r h c (map (λ page s. page) found) task_pages d e,
  worker_count (λ i. i.instances) refl (λ i. refl) (λ hb i. refl) (λ i. refl) (λ i. refl) r up h c
      (has_ttl (r.view d)) worker named found task_pages d (λ x. refl) e,
  worker_count (λ i. i.online) refl (λ i. refl) (λ hb i. refl) (λ i. refl) (λ i. refl) r up h c
      (has_ttl (r.view d)) worker named found task_pages d (λ x. refl) e,
)

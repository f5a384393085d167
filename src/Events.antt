-- ===== src/Events.antt =====
-- tasklib/events.go: events are JSON texts on capped lists. Pushing one never fails its caller.
pub mod Pushed
use ai_agents.Prelude.{ℕ, String, Option, none, some, [], ◌∷◌}
use ai_agents.Redis.Keys.{ListKey, thread_events_key, system_events_key, list_key}
use ai_agents.Redis.Commands.{Redis, rpush, keep_last, expire}
use ai_agents.Redis.Client.{M, ◌>>◌, pure, best_effort}
use ai_agents.Types.{Event, Host, ttl_thread}

module _ (r : Redis) (h : Host) where
  abbrev pub push_text : ListKey → Option String → M r.Db (Unit {0})
  push_text k none = pure tt
  push_text k (some text) = best_effort r (rpush k text ∷ [])

  unfoldable pub push_event : ListKey → Event → M r.Db (Unit {0})
  push_event k ev = push_text k (h.codec.event_text ev)

  -- a capped list: the push, the trim to the newest `cap` and the time to live
  abbrev pub push_capped : ListKey → ℕ → Event → M r.Db (Unit {0})
  push_capped k cap ev = do
    push_event k ev
    best_effort r (keep_last k cap ∷ [])
    best_effort r (expire (list_key k) ttl_thread ∷ [])

  unfoldable pub push_thread_event : String → Event → M r.Db (Unit {0})
  unfolding push_event
  push_thread_event thread ev = push_capped (thread_events_key thread) 1000 ev

  unfoldable pub push_system_event : Event → M r.Db (Unit {0})
  unfolding push_event
  push_system_event ev = push_capped system_events_key 10000 ev

-- ===== src/Events/Pushed.antt =====
-- A push of an event keeps whatever does not read the event list.
use ai_agents.Prelude.{String, Option, none, some}
use ai_agents.Redis.Keys.{list_key, thread_events_key}
use ai_agents.Redis.Commands.{Redis, Keyspace, apply, rpush, keep_last, expire}
use ai_agents.Redis.Client.{Error}
use ai_agents.Redis.Triple.{Triple, Triple-bind, Triple-one, Triple-pure}
use ai_agents.Types.{Host, Event, ttl_thread}
use ai_agents.Events.{push_text, push_thread_event}

module _ (r : Redis) (h : Host) (thread : String) (ev : Event) {P : Keyspace → Type 0}
    {E : Error → Keyspace → Type 0}
    (push : (text : String) (s : Keyspace)
      → P s
      → P (apply r.next_text (rpush (thread_events_key thread) text) s))
    (trim : (s : Keyspace)
      → P s
      → P (apply r.next_text (keep_last (thread_events_key thread) 1000) s))
    (age : (s : Keyspace)
      → P s
      → P (apply r.next_text (expire (list_key (thread_events_key thread)) ttl_thread) s)) where
  pub Triple-push_thread_event : Triple r P (push_thread_event r h thread ev) (λ _. P) E
  unfolding push_thread_event
  Triple-push_thread_event =
      Triple-bind r (λ _. P) _ _ (go (h.codec.event_text ev))
        (λ _.
          Triple-bind r (λ _. P) _ _ (Triple-one r _ (λ s p. p) trim)
            (λ _. Triple-one r _ (λ s p. p) age))
    where
      go : (o : Option String) → Triple r P (push_text r h (thread_events_key thread) o) (λ _. P) E
      go none = Triple-pure r tt (λ s p. p)
      go (some text) = Triple-one r _ (λ s p. p) (push text)

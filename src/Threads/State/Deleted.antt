-- ===== src/Threads/State/Deleted.antt =====
-- A deletion that returns no error leaves no key of the threads.
use ai_agents.Prelude.{[], none}
use ai_agents.Prelude.{String, ◌≡◌, false, List, ◌∷◌}
use ai_agents.Redis.Commands.{Keyspace, has, Redis}
use ai_agents.Redis.Keys.{
  Key, thread_lock_key, thread_running_key, thread_complete_key, thread_session_id_key,
  thread_last_activity_key, thread_locked_at_key, thread_messages_key, thread_events_key,
  thread_state_key,
}
use ai_agents.Redis.Triple.{Triple}
use ai_agents.Prelude.{[]}

abbrev Gone : Key → Keyspace → Type 0
Gone k s = has k s ≡ false

abbrev AllGone : List Key → Keyspace → Type 0
AllGone [] s = Unit {0}
AllGone (k ∷ ks) s = (has k s ≡ false) × AllGone ks s

-- nothing of the thread is stored
abbrev pub NothingOf : String → Keyspace → Type 0
NothingOf thread s =
    (s.hashes (thread_state_key thread) ≡ [])
    × (s.lists (thread_messages_key thread) ≡ [])
    × (s.lists (thread_events_key thread) ≡ [])
    × (s.strings (thread_complete_key thread) ≡ none)
    × (s.strings (thread_running_key thread) ≡ none)
    × (s.strings (thread_lock_key thread) ≡ none)
    × (s.strings (thread_locked_at_key thread) ≡ none)
    × (s.strings (thread_session_id_key thread) ≡ none)
    × (s.strings (thread_last_activity_key thread) ≡ none)

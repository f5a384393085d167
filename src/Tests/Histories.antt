-- ===== src/Tests/Histories.antt =====
-- A run of the filtered tail on the concrete server.
use ai_agents.Prelude.{[], ◌∷◌, pos, negsuc, String, List, ◌≡◌, refl, take_last, filter}
use ai_agents.Redis.Keys.{thread_messages_key}
use ai_agents.Redis.Client.{ok}
use ai_agents.History.{between, addressed_to, parse_messages, get_thread_history_tail_for_worker}
use ai_agents.History.Tail.{tail_for_worker}
use ai_agents.Tests.Server.{reliable, host, two_messages}

tail_for_worker_example :
    (get_thread_history_tail_for_worker reliable (host "t1").codec "th" 1 "claude" two_messages).0
    ≡ ok (
        take_last 1 (
          filter
            (addressed_to "claude")
            (parse_messages (host "t1").codec (two_messages.lists (thread_messages_key "th")))))
tail_for_worker_example =
    tail_for_worker reliable (λ cs d. refl) (host "t1").codec "th" "claude" 1 two_messages

abbrev three : List String
three = "a" ∷ "b" ∷ "c" ∷ []

between_test :
    (between (negsuc 1) (negsuc 0) three ≡ "b" ∷ "c" ∷ [])
    × (between (negsuc 1) (pos 0) three ≡ [])
    × (between (negsuc 8) (pos 1) three ≡ "a" ∷ "b" ∷ [])
    × (between (pos 2) (pos 8) three ≡ "c" ∷ [])
between_test = (refl, refl, refl, refl)

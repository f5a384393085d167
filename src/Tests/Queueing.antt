-- ===== src/Tests/Queueing.antt =====
-- A queue of two tasks on the concrete server.
use ai_agents.Prelude.{◌≡◌, refl, some, true, List, [], ◌∷◌}
use ai_agents.Queue.{Backlog, Holds}
use ai_agents.Queue.Refined.{
  Call, submits, takes, requeues, AllAllowed, perform_all, perform_all-Holds, take_item-oldest,
}
use ai_agents.Redis.Client.{ok}
use ai_agents.Redis.Commands.{Keyspace, put_list}
use ai_agents.Redis.Keys.{queue_key}
use ai_agents.Tests.Server.{nothing, host, reliable}
use ai_agents.Worker.Loop.{take_item}

-- the newest is at the left
abbrev two_queued : Keyspace
two_queued = put_list (queue_key "claude") ("t2" ∷ "t1" ∷ []) nothing

abbrev two_waiting : Backlog
two_waiting = record { waiting = "t1" ∷ "t2" ∷ []; in_flight = [] }

take_item-oldest_example :
    ((take_item reliable "claude" two_queued).0 ≡ ok (some "t1"))
    × Holds "claude"
        (record { waiting = "t2" ∷ []; in_flight = "t1" ∷ [] })
        (take_item reliable "claude" two_queued).1
take_item-oldest_example =
    take_item-oldest reliable (λ cs d. refl) "claude" two_waiting two_queued (refl, refl)

-- the first task is taken and found stale, a third is submitted, and the second is taken
abbrev calls : List Call
calls = takes ∷ requeues (host "") (λ s. true) ∷ submits (host "t3") "other" "do that" ∷ takes ∷ []

perform_all-Holds_example :
    (c : Backlog) × AllAllowed calls two_waiting c
    × Holds "claude" c (perform_all reliable "claude" calls two_queued)
perform_all-Holds_example =
    perform_all-Holds reliable (λ cs d. refl) "claude" calls two_waiting two_queued (refl, refl)

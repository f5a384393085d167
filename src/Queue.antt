-- ===== src/Queue.antt =====
-- The tasks of a worker as a queue: what waits, the oldest first, and what is in flight. The lists in
-- the server implement it: Enqueue pushes at the left, BLMOVE takes from the right, and the worker and
-- RequeueStale take entries off the processing list.
pub mod Ends
pub mod Handlers
pub mod Submitted
pub mod Requeued
pub mod Refined
use ai_agents.Prelude.{
  String, Bool, not, ◌==◌, ◌≡◌, List, [], ◌∷◌, ◌++◌, filter, if◌then◌else◌, Option, none, some,
}
use ai_agents.Redis.Commands.{Keyspace}
use ai_agents.Redis.Keys.{queue_key, processing_key}

pub record Backlog : Type 0 where
  pub waiting : List String
  pub in_flight : List String

abbrev head_of : List String → Option String
head_of [] = none
head_of (x ∷ xs) = some x

abbrev pub submit_entry : String → Backlog → Backlog
submit_entry x b = record b { waiting = b.waiting ++ x ∷ [] }

-- the oldest entry, if there is one
abbrev pub take_oldest : List String → List String → Backlog
take_oldest [] flying = record { waiting = []; in_flight = flying }
take_oldest (x ∷ xs) flying = record { waiting = xs; in_flight = x ∷ flying }

abbrev pub take_entry : Backlog → Backlog
take_entry b = take_oldest b.waiting b.in_flight

abbrev pub finish_entry : String → Backlog → Backlog
finish_entry x b = record b { in_flight = filter (λ y. not (y == x)) b.in_flight }

-- back to the end of the queue
abbrev pub return_entry : String → Backlog → Backlog
return_entry x b = finish_entry x (submit_entry x b)

abbrev pub backwards : List String → List String
backwards [] = []
backwards (x ∷ xs) = backwards xs ++ x ∷ []

abbrev pub oldest : Backlog → Option String
oldest b = head_of b.waiting

-- the lists hold the backlog of the worker
abbrev pub Holds : String → Backlog → Keyspace → Type 0
Holds worker b s =
    (s.lists (queue_key worker) ≡ backwards b.waiting)
    × (s.lists (processing_key worker) ≡ b.in_flight)

-- ===== src/Tests/Enqueueing.antt =====
-- Runs of `Enqueue` on the concrete server.
use ai_agents.Prelude.{none}
use ai_agents.Tasks.{get_task}
use ai_agents.Tasks.RoundTrip.{SameFields, enqueue-get_task}
use ai_agents.Enqueue.State.{Held}
use ai_agents.Enqueue.Takeover.{take_lock-Stale}
use ai_agents.Redis.Client.{ok}
use ai_agents.Redis.Client.{err}
use ai_agents.Enqueue.Exclusion.{enqueue_excluded}
use ai_agents.Prelude.{◌≡◌, some}
use ai_agents.Redis.Client.{locked}
use ai_agents.Redis.Commands.{Keyspace, put_str}
use ai_agents.Redis.Keys.{task_key, thread_lock_key}
use ai_agents.Tests.Server.{nothing, reliable}
use ai_agents.Prelude.{◌⊎◌, refl, true, false, [], ◌∷◌}
use ai_agents.Redis.Client.{
  request, do_all, best_effort, get, get_nil, llen, Result, during, unavailable,
}
use ai_agents.Types.{Task}
use ai_agents.Events.{push_event, push_thread_event}
use ai_agents.Locks.{acquire_lock, is_task_active, release}
use ai_agents.Enqueue.{
  write_text, append_instruction, push_payload, retake, take_lock, submit_locked, enqueue,
  pending_task,
}
use ai_agents.Enqueue.State.{Free, StoppedEarly}
use ai_agents.Enqueue.Holds.{Enqueued}
use ai_agents.Enqueue.Outcome.{enqueue_success, enqueue_error}
use ai_agents.Tests.Server.{server, Server, fresh, host}

-- what a run looks through
abbrev step : Server → Result Task × Server
unfolding enqueue take_lock retake submit_locked push_payload append_instruction write_text release
    is_task_active acquire_lock push_thread_event push_event request do_all best_effort get get_nil
    llen
step d = enqueue server (host "t1") "claude" "th" "do it" d

enqueue_success_example :
    Enqueued server
      (host "t1")
      "claude"
      "th"
      "do it"
      (pending_task (host "t1") "t1" "claude" "th" "do it")
      (enqueue server (host "t1") "claude" "th" "do it" (fresh [])).1.keys
unfolding step
enqueue_success_example = enqueue_success server (host "t1") "claude" "th" "do it" (fresh []) refl

-- the acquisition, the three requests of the event and the history succeed, the push fails
enqueue_error_example :
    StoppedEarly (during "queue push" unavailable)
    ⊎ Free "th"
        (enqueue server
          (host "t1")
          "claude"
          "th"
          "do it"
          (fresh (true ∷ true ∷ true ∷ true ∷ true ∷ true ∷ false ∷ []))).1.keys
unfolding step
enqueue_error_example =
    enqueue_error server (host "t1") "claude" "th" "do it"
      (fresh (true ∷ true ∷ true ∷ true ∷ true ∷ true ∷ false ∷ [])) (λ d. refl) refl

-- `t0` runs on the thread
abbrev busy : Keyspace
busy =
    put_str (thread_lock_key "th") (some "t0")
      (put_str (task_key "t0" "status") (some "running") nothing)

enqueue_excluded_example :
    ((enqueue reliable (host "t1") "claude" "th" "do it" busy).0 ≡ err (locked "th" "t0"))
    × ((enqueue reliable (host "t1") "claude" "th" "do it" busy).1 ≡ busy)
enqueue_excluded_example =
    enqueue_excluded reliable (λ cs d. refl) (host "t1") "claude" "th" "do it" busy refl refl refl
      refl refl

-- `t0` has ended on the thread, with the lock still set
abbrev left_over : Keyspace
left_over =
    put_str (thread_lock_key "th") (some "t0")
      (put_str (task_key "t0" "status") (some "done") nothing)

take_lock-Stale_example :
    ((take_lock reliable (host "t1") "t1" "th" left_over).0 ≡ ok tt)
    × Held (host "t1") "t1" "th" (take_lock reliable (host "t1") "t1" "th" left_over).1
take_lock-Stale_example =
    take_lock-Stale reliable (λ cs d. refl) (host "t1") "t1" "th" left_over refl

-- a lock that is free, with a key of a task without an ID that would count as active
abbrev no_holder : Keyspace
no_holder = put_str (task_key "" "status") (some "running") nothing

free_lock_test : Held (host "t1") "t1" "th" (take_lock reliable (host "t1") "t1" "th" no_holder).1
free_lock_test = (take_lock-Stale reliable (λ cs d. refl) (host "t1") "t1" "th" no_holder tt).1

enqueue-get_task_example :
    (t : Task) × ((get_task reliable
        (λ s. none)
        "t1"
        (enqueue reliable (host "t1") "claude" "th" "do it" left_over).1).0
      ≡ ok t)
    × SameFields reliable
        (λ cs d. refl)
        (λ s. none)
        t
        (pending_task (host "t1") "t1" "claude" "th" "do it")
unfolding enqueue take_lock retake submit_locked push_payload append_instruction write_text release
    is_task_active acquire_lock push_thread_event push_event request do_all best_effort get get_nil
    llen
enqueue-get_task_example =
    enqueue-get_task reliable (λ cs d. refl) (λ s. none) (host "t1") "claude" "th" "do it" left_over
      refl refl

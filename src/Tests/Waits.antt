-- ===== src/Tests/Waits.antt =====
-- Runs of the waits and of `RequeueStale` on the concrete servers.
use ai_agents.Waiting.Cancelled.{wait_cancelled_keeps}
use ai_agents.Events.{push_event, push_thread_event}
use ai_agents.Locks.{is_terminal, release, unlock_thread}
use ai_agents.Prelude.{
  ◌≡◌, refl, ◌≢◌, ◌⊎◌, true, false, Option, none, some, ◌∷◌, ◌==◌, or_empty, any,
}
use ai_agents.Redis.Client.{
  Result, request, do_all, best_effort, get, get_nil, exists_key, lrange_all, smembers, ok,
}
use ai_agents.Redis.Commands.{Keyspace, put_str, put_list, put_set}
use ai_agents.Redis.Keys.{
  task_key, thread_lock_key, thread_locked_at_key, queue_key, processing_key, group_tasks_key,
}
use ai_agents.Requeue.{put_item_back, requeue_item, requeue_items, requeue_stale}
use ai_agents.Requeue.Kept.{requeue_keeps}
use ai_agents.Tests.Server.{nothing, host, reliable}
use ai_agents.Types.{Task, GroupResult}
use ai_agents.Waiting.{
  Poll, thread_exists, check_parent, mapping, update_thread, update_thread_status, finish,
  final_task, wait_polls, wait_task, group_result, group_polls, group_wait,
}
use ai_agents.Waiting.Aggregate.{Reported, group_wait_result}
use ai_agents.Waiting.Ends.{wait_ends, group_wait_ends}
use ai_agents.Prelude.{[]}

abbrev ends_late : Poll Keyspace
ends_late = record { meanwhile = λ d. d; late = true; context_ended = false }

-- another client finishes the task
abbrev gets_done : Poll Keyspace
gets_done = record {
  meanwhile = put_str (task_key "t1" "status") (some "done");
  late = false;
  context_ended = false;
}

abbrev enqueued : Keyspace
enqueued = put_str (thread_lock_key "th") (some "t1") (
    put_str (thread_locked_at_key "th") (some "2026-01-01T00:00:00Z")
      (put_str (task_key "t1" "status") (some "pending") nothing))

abbrev waited : Keyspace
unfolding wait_task wait_polls final_task finish update_thread_status update_thread mapping
    check_parent thread_exists unlock_thread release push_thread_event push_event request do_all
    best_effort get get_nil exists_key
waited = (wait_task reliable (host "t1") "t1" "th" (gets_done ∷ []) enqueued).1

abbrev gets_cancelled : Poll Keyspace
gets_cancelled = record { meanwhile = λ d. d; late = false; context_ended = true }

abbrev cancelled_wait : Result (Option Task) × Keyspace
unfolding waited finish
cancelled_wait = wait_task reliable (host "t1") "t1" "th" (gets_cancelled ∷ []) enqueued

wait_cancelled_keeps_example : cancelled_wait.1.strings (thread_lock_key "th") ≡ some "t1"
unfolding cancelled_wait
wait_cancelled_keeps_example =
    wait_cancelled_keeps reliable (host "t1") "t1" "th" (some "t1") (gets_cancelled ∷ []) enqueued
      ((λ d held. held), tt) refl refl

wait_ends_example : (wait_task reliable (host "t1") "t1" "th" (ends_late ∷ []) enqueued).0 ≢ ok none
wait_ends_example = wait_ends reliable (host "t1") "t1" "th" (ends_late ∷ []) enqueued refl

abbrev grouped : Keyspace
grouped =
    put_set (group_tasks_key "th" "g") ("t1" ∷ "t2" ∷ [])
      (put_str (task_key "t2" "status") (some "cancelled") enqueued)

abbrev verdict_of : Result (Option GroupResult) × Keyspace
unfolding group_wait group_polls smembers push_thread_event push_event request best_effort
verdict_of = group_wait reliable (host "t1") "th" "g" (gets_done ∷ []) grouped

group_wait_result_example :
    Reported reliable
      (host "t1")
      "th"
      "g"
      false
      ("t1" ∷ "t2" ∷ [])
      (some (
        group_result reliable
          (host "t1")
          "th"
          "g"
          "complete"
          (("t1", "done") ∷ ("t2", "cancelled") ∷ [])))
      verdict_of.1
unfolding verdict_of
group_wait_result_example =
    group_wait_result reliable (host "t1") "th" "g" (gets_done ∷ []) grouped refl

group_wait_ends_example :
    (group_wait reliable (host "t1") "th" "g" (ends_late ∷ []) grouped).0 ≢ ok none
group_wait_ends_example =
    group_wait_ends reliable (λ cs d. refl) (host "t1") "th" "g" (ends_late ∷ []) grouped refl

abbrev processing : Keyspace
processing = put_list (processing_key "claude") ("t1" ∷ []) enqueued

abbrev requeued : Keyspace
unfolding requeue_stale requeue_items requeue_item put_item_back push_thread_event push_event
    request best_effort get lrange_all
requeued = (requeue_stale reliable (host "t1") (λ t. true) "claude" processing).1

requeue_keeps_example :
    (any (λ y. y == "t1") (requeued.lists (processing_key "claude")) ≡ true)
    ⊎ ((any (λ y. y == "t1") (requeued.lists (queue_key "claude")) ≡ true)
        ⊎ (is_terminal (or_empty (requeued.strings (task_key "t1" "status"))) ≡ true))
unfolding requeued
requeue_keeps_example =
    requeue_keeps reliable (λ cs d. refl) (host "t1") (λ t. true) "claude" "t1"
      (record { task_id = "t1"; thread_id = "th"; instruction = "do it" }) refl processing refl

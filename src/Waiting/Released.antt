-- ===== src/Waiting/Released.antt =====
-- The end of a wait frees the lock.
use ai_agents.Enqueue.State.{Anything, Free}
use ai_agents.Events.Pushed.{Triple-push_thread_event}
use ai_agents.Prelude.{String, ◌≡◌, true, false, Option, none, some, List, ◌∷◌, ◌==◌}
use ai_agents.Redis.Client.{
  Error, Result, M, unavailable, not_found, timed_out, context_done, ok, err,
}
use ai_agents.Redis.Commands.{Keyspace, Redis, del}
use ai_agents.Redis.Keys.{
  task_key, thread_lock_key, thread_locked_at_key, thread_state_key, str_key, hash_key,
}
use ai_agents.Redis.Reads.{Triple-peek}
use ai_agents.Redis.Triple.{Outcome, Triple, Triple-attempt, Triple-bind}
use ai_agents.Types.{Task, event, Host, thread_status_change, status_change}
use ai_agents.Waiting.{thread_status_from_task, Poll, update_thread, update_thread_status}
use ai_agents.Prelude.{[]}

module _ (r : Redis) {A : Type 0} {P : Keyspace → Type 0} where
  pub Triple-Anything : (m : M r.Db A) → Triple r P m (λ _. Anything) (λ _. Anything)
  Triple-Anything m = record { at = λ d p. go (m d).0 (r.view (m d).1) }
    where
      go : (a : Result A) (s : Keyspace) → Outcome (λ _. Anything) (λ _. Anything) a s
      go (ok a) s = tt
      go (err e) s = tt

module _ (r : Redis) (h : Host) (thread : String) where
  pub update_thread_status-Anything :
      (status : String) {E : Error → Keyspace → Type 0}
      → Triple r Anything (update_thread_status r h thread status) (λ _. Anything) E
  unfolding update_thread_status
  update_thread_status-Anything status =
      Triple-bind r (λ _. Anything) _ _ (Triple-peek r "" (hash_key (thread_state_key thread)) _)
        (λ previous.
          Triple-bind r (λ _. Anything) _ _
            (Triple-attempt r _ _ (
              Triple-Anything r
                (update_thread r h thread (("status", thread_status_from_task status) ∷ []))))
            (λ _.
              Triple-push_thread_event r h thread
                (event thread_status_change "" ""
                  (status_change previous (thread_status_from_task status)))
                (λ text s p. tt) (λ s p. tt) (λ s p. tt)))

module _ (r : Redis) (h : Host) (id thread : String) (some_thread : (thread == "") ≡ false)
    (del_answered : (d : r.Db)
      → (r.send
          (del (str_key (thread_lock_key thread) ∷ str_key (thread_locked_at_key thread) ∷ []) ∷ [])
          d).0
        ≡ true) where
  -- the task is not in a group
  abbrev Alone : Keyspace → Type 0
  Alone s = s.strings (task_key id "group") ≡ none

  -- an end of the wait that may leave the lock: still waiting, cancelled, or an error of the server
  abbrev Ended : Option Task → Keyspace → Type 0
  Ended none s = Unit {0}
  Ended (some t) s = Free thread s

  abbrev EndedWith : Error → Keyspace → Type 0
  EndedWith (timed_out i status) s = Free thread s
  EndedWith context_done s = Unit {0}
  EndedWith unavailable s = Unit {0}
  EndedWith (not_found i) s = Unit {0}
  EndedWith _ s = ⊥

  abbrev StaysAlone : List (Poll r.Db) → Type 0
  StaysAlone [] = Unit {0}
  StaysAlone (p ∷ polls) =
      ((d : r.Db) → Alone (r.view d) → Alone (r.view (p.meanwhile d))) × StaysAlone polls

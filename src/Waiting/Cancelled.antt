-- ===== src/Waiting/Cancelled.antt =====
-- A wait whose context is done leaves the lock to its holder.
use ai_agents.Enqueue.State.{Anything}
use ai_agents.Locks.{unlock_thread, is_terminal}
use ai_agents.Prelude.{not, ◌&&◌, String, ◌≡◌, Option, List, [], ◌∷◌, or_empty, ◌==◌}
use ai_agents.Redis.Client.{cut_off, Error, ◌>>=◌, raise, get_nil, exists_key, context_done, err}
use ai_agents.Redis.Commands.{Keyspace, Redis}
use ai_agents.Redis.Keys.{thread_lock_key}
use ai_agents.Redis.Reads.{Triple-get}
use ai_agents.Redis.Triple.{
  Triple-request, Triple-weaken, Triple-attempt, Outcome, Triple, Triple-pure, Triple-raise,
  Triple-if, Triple-bind,
}
use ai_agents.Types.{Host, Task}
use ai_agents.Waiting.{Poll, finish, final_task, wait_polls, wait_task}
use ai_agents.Waiting.Aggregate.{Triple-after}
use ai_agents.Waiting.CutOff.{finish-Kept}
use ai_agents.Waiting.Released.{update_thread_status-Anything, Triple-Anything}
use mathlib.Core.Path.{subst}

module _ (r : Redis) (h : Host) (id thread : String) (holder : Option String) where
  -- the lock as it is at the call
  abbrev HeldBy : Keyspace → Type 0
  HeldBy s = s.strings (thread_lock_key thread) ≡ holder

  abbrev Cancelled : Error → Keyspace → Type 0
  Cancelled context_done s = HeldBy s
  Cancelled _ s = Unit {0}

  -- the other clients leave the lock as it is
  abbrev pub StaysHeld : List (Poll r.Db) → Type 0
  StaysHeld [] = Unit {0}
  StaysHeld (p ∷ polls) =
      ((d : r.Db) → HeldBy (r.view d) → HeldBy (r.view (p.meanwhile d))) × StaysHeld polls

  -- Neither returns an error.
  final_task-Anything :
      {P : Keyspace → Type 0} {E : Error → Keyspace → Type 0}
      → Triple r P (final_task r id) (λ _. Anything) E
  unfolding final_task
  final_task-Anything {P} =
      Triple-bind r (λ _. P) _ _ (Triple-get r _)
        (λ _.
          Triple-bind r (λ _. P) _ _ (Triple-get r _)
            (λ _.
              Triple-bind r (λ _. P) _ _ (Triple-get r _)
                (λ _.
                  Triple-bind r (λ _. P) _ _ (Triple-get r _)
                    (λ _.
                      Triple-bind r (λ _. P) _ _ (Triple-get r _)
                        (λ _.
                          Triple-bind r (λ _. P) _ _ (Triple-get r _)
                            (λ _. Triple-pure r _ (λ s p. tt)))))))

  finish-Anything :
      (status : String) {P : Keyspace → Type 0} {E : Error → Keyspace → Type 0}
      → Triple r P (finish r h id thread status) (λ _. Anything) E
  unfolding finish
  finish-Anything status {P} =
      Triple-bind r (λ _. P) _ _ (Triple-get r _)
        (λ label.
          Triple-if r (label == "" && not (thread == "")) _ _
            (λ _.
              Triple-bind r (λ _. Anything) _ _
                (Triple-weaken r _ Anything _ _ (λ s p. tt) (λ a s q. q) (λ e s q. q)
                  (update_thread_status-Anything r h thread status))
                (λ _. Triple-attempt r tt _ (Triple-Anything r (unlock_thread r h thread))))
            (λ _. Triple-pure r tt (λ s p. tt)))

  polls-Cancelled :
      (polls : List (Poll r.Db))
      → StaysHeld polls
      → Triple r HeldBy (wait_polls r h id thread polls) (λ _. Anything) Cancelled
  unfolding wait_polls get_nil
  polls-Cancelled [] stays = Triple-pure r _ (λ s p. tt)
  polls-Cancelled (p ∷ polls) stays = Triple-after r p.meanwhile _ stays.0 (
      Triple-bind r (λ _. HeldBy) _ _ (Triple-request r _ _ (λ s p. p) (λ s p n. tt))
        (λ found.
          Triple-if r (is_terminal (or_empty found)) _ _
            (λ _.
              Triple-bind r (λ _. Anything) _ _ final_task-Anything
                (λ t.
                  Triple-bind r (λ _. Anything) _ _ (finish-Anything _)
                    (λ _. Triple-pure r _ (λ s p. tt))))
            (λ _.
              Triple-if r p.late _ _
                (λ _.
                  Triple-bind r (λ _. Anything) _ _ (finish-Anything _)
                    (λ _. Triple-raise r _ (λ s p. tt)))
                (λ _.
                  Triple-if r p.context_ended _ _ (λ _. cancelled (or_empty found))
                    (λ _. polls-Cancelled polls stays.1)))))
    where
      cancelled :
          (status : String)
          → Triple r HeldBy
              (finish (cut_off r) h id thread status >>= (λ _. raise context_done))
              (λ (_ : Option Task). Anything)
              Cancelled
      cancelled status =
          Triple-bind r (λ _. HeldBy) _ _
            (record { at = λ d p. (finish-Kept r h id thread status).at d p })
            (λ _. Triple-raise r context_done (λ s p. p))

  -- If the holder of the thread's lock stays as it is while other clients act, and WaitTask returns
  -- because its context is done, then the lock still has that holder when it returns, whatever
  -- requests fail: the requests on the context that is done do not release it.
  pub wait_cancelled_keeps :
      (polls : List (Poll r.Db)) (d : r.Db)
      → StaysHeld polls
      → (r.view d).strings (thread_lock_key thread) ≡ holder
      → (wait_task r h id thread polls d).0 ≡ err context_done
      → (r.view (wait_task r h id thread polls d).1).strings (thread_lock_key thread) ≡ holder
  unfolding wait_task exists_key
  wait_cancelled_keeps polls d stays held e =
      subst (λ a. Outcome (λ _. Anything) Cancelled a (r.view (wait_task r h id thread polls d).1))
        e
        ((Triple-bind r {Q = λ _. Anything} (λ _. HeldBy) _ _
            (Triple-request r _ _ (λ s p. p) (λ s p n. tt))
            (λ found.
              Triple-if r found _ _ (λ _. polls-Cancelled polls stays)
                (λ _. Triple-raise r _ (λ s p. tt)))).at
          d held)

-- ===== src/Enqueue/Lock.antt =====
-- The lock that `Enqueue` takes, and its release on a rollback.
use ai_agents.Redis.Reads.{Triple-get, Triple-peek}
use ai_agents.Redis.Client.{unavailable, during, get_nil, Error, do_all}
use ai_agents.Prelude.{refl, ◌==◌, Bool, String, true, [], ◌∷◌, ◌≡◌, eq_refl, arith}
use ai_agents.Redis.Keys.{str_key, thread_lock_key, thread_locked_at_key}
use ai_agents.Redis.Commands.{Redis, Keyspace}
use ai_agents.Redis.Triple.{
  Triple-weaken, Triple-if, Triple-pure, Triple-wrapped, Triple-raise, Triple-answered, Triple-bind,
  Triple, Triple-request,
}
use ai_agents.Types.{Host}
use ai_agents.Locks.{active_status, is_task_active, release, acquire_lock}
use ai_agents.Enqueue.{take_lock, retake, do_all, release, del}
use ai_agents.Enqueue.State.{StoppedEarly, Anything, Held, Free}

module _ (r : Redis) (h : Host) (id thread : String) where
  pub Held-acquire_lock :
      (P : Keyspace → Type 0) (E : Error → Keyspace → Type 0)
      → ((s : Keyspace) → E unavailable s)
      → Triple r P
          (acquire_lock r thread id h.lock_ttl h.now)
          (λ won s. won ≡ true → Held h id thread s)
          E
  unfolding acquire_lock
  Held-acquire_lock P E fails =
      Triple-request r _ _ (λ s p won. ground (arith, eq_refl thread)) (λ s p n. fails _)

module _ (r : Redis) (thread : String) where
  -- where its DEL is answered, a rollback frees the lock
  pub release-Free :
      ((d : r.Db)
        → (r.send
            (del (str_key (thread_lock_key thread) ∷ str_key (thread_locked_at_key thread) ∷ [])
              ∷ [])
            d).0
          ≡ true)
      → (P : Keyspace → Type 0)
      → Triple r P (release r thread) (λ _ s. Free thread s) (λ _ s. Free thread s)
  unfolding release do_all
  release-Free del_answered P =
      Triple-answered r _ _ del_answered (λ s p. (simp eq_refl, simp eq_refl))

  pub release-Anything :
      (P : Keyspace → Type 0) → Triple r P (release r thread) (λ _. Anything) (λ _. Anything)
  unfolding release do_all
  release-Anything P = Triple-request r _ _ (λ s p. tt) (λ s p n. tt)

module _ (r : Redis) (id : String) {P : Keyspace → Type 0} {E : Error → Keyspace → Type 0} where
  pub Triple-is_task_active : Triple r P (is_task_active r id) (λ _. P) E
  unfolding is_task_active get_nil
  Triple-is_task_active =
      Triple-if r (id == "") _ _ (λ _. Triple-pure r _ (λ s p. p))
        (λ _.
          Triple-bind r (λ _. P) _ _ (Triple-peek r _ _ _)
            (λ a. Triple-pure r (active_status a) (λ s p. p)))

module _ (r : Redis) (h : Host) (id thread : String) where
  abbrev Won : Bool → Keyspace → Type 0
  Won won s = won ≡ true → Held h id thread s

  retake-Held :
      (P : Keyspace → Type 0)
      → Triple r P (retake r h id thread) (λ _. Held h id thread) (λ e _. StoppedEarly e)
  unfolding retake
  retake-Held P =
      Triple-bind r (λ _. Anything) _ _ (Triple-wrapped r _ _ (release-Unit P))
        (λ _.
          Triple-bind r Won _ _
            (Triple-wrapped r _ _ (Held-acquire_lock r h id thread Anything _ (λ s. refl)))
            (λ second.
              Triple-if r second _ _ (λ e. Triple-pure r _ (λ s p. p e))
                (λ _.
                  Triple-bind r (λ _. Won second) _ _ (Triple-get r _)
                    (λ other. Triple-raise r _ (λ s p. tt)))))
    where
      release-Unit :
          (P : Keyspace → Type 0)
          → Triple r P
              (release r thread)
              (λ _. Anything)
              (λ e _. StoppedEarly (during "lock stale-clear delete" e))
      release-Unit P =
          Triple-weaken r _ _ _ _ (λ s p. p) (λ _ s q. q) (λ e s q. refl)
            (release-Anything r thread P)

  -- If `take_lock` returns without an error, the task holds the lock.
  pub take_lock-Held :
      Triple r Anything (take_lock r h id thread) (λ _. Held h id thread) (λ e _. StoppedEarly e)
  unfolding take_lock
  take_lock-Held =
      Triple-bind r Won _ _
        (Triple-wrapped r _ _ (Held-acquire_lock r h id thread Anything _ (λ s. refl)))
        (λ first.
          Triple-if r first _ _ (λ e. Triple-pure r _ (λ s p. p e))
            (λ _.
              Triple-bind r (λ _. Won first) _ _ (Triple-get r _)
                (λ holder.
                  Triple-bind r (λ _. Won first) _ _ (Triple-is_task_active r holder)
                    (λ active.
                      Triple-if r active _ _ (λ _. Triple-raise r _ (λ s p. tt))
                        (λ _. retake-Held (Won first))))))

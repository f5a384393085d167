-- ===== src/Web/Background/Released.antt =====
-- What a request takes, its process gives back.
use ai_agents.Enqueue.State.{Anything}
use ai_agents.Locks.{release_request_lock}
use ai_agents.Prelude.{
  String, ◌≡◌, refl, true, false, not, none, some, List, [], ◌∷◌, ◌-◌, any, filter, arith, ◌==◌,
  eq_refl,
}
use ai_agents.Redis.Client.{Error, do_all}
use ai_agents.Redis.Commands.{set, Redis, Keyspace, del}
use ai_agents.Redis.Keys.{thread_running_key, thread_last_activity_key, str_key}
use ai_agents.Redis.Kept.{Stays, Triple-Leaves}
use ai_agents.Redis.Triple.{Triple, Triple-bind, Triple-attempt, Triple-answered}
use ai_agents.Types.{ttl_thread, Host}
use ai_agents.Web.Background.{
  Process, Settings, subprocess_body, give_up_lock, unregister, run_subprocess,
}
use ai_agents.Web.Submit.{Service, lift, free_slot, update_thread_last_activity}

any-filter :
    (x : String) (xs : List String) → any (λ t. t == x) (filter (λ t. not (t == x)) xs) ≡ false
any-filter x [] = refl
any-filter x (y ∷ xs) = ground (arith, any-filter x xs)

module _ (r : Redis) (h : Host) (cfg : Settings) (thread : String) where
  -- the request lock is free
  abbrev pub NotRunning : Keyspace → Type 0
  NotRunning = Stays r (thread_running_key thread) none

  module _
      (del_answered : (d : r.Db)
        → (r.send (del (str_key (thread_running_key thread) ∷ []) ∷ []) d).0 ≡ true) where
    give_up_lock-NotRunning :
        {E : Error → Keyspace → Type 0}
        → Triple r Anything (give_up_lock r h cfg thread) (λ _. NotRunning) E
    unfolding give_up_lock release_request_lock update_thread_last_activity do_all
    give_up_lock-NotRunning =
        Triple-bind r (λ _. NotRunning) _ _
          (Triple-attempt r _ _
            (Triple-answered r _ _ del_answered (λ s p. rw (eq_refl thread) refl)))
          (λ _. Triple-attempt r _ _ (
            Triple-Leaves r (thread_running_key thread) none
              (set (thread_last_activity_key thread) h.now (some ttl_thread) ∷ []) _
              ((λ s. refl), tt)))

    -- Whatever else fails, and however the process ends, runSubprocess gives back one slot of the
    -- semaphore, leaves no cancel function of its thread, and leaves the request lock of the thread
    -- free, if the DEL of the lock is answered.
    pub run_subprocess-releases :
        (p : Process) (s : Service r.Db)
        → let s' = (run_subprocess r h cfg thread p s).1 in
          (s'.in_use ≡ s.in_use - 1)
          × (any (λ t. t == thread) s'.cancels ≡ false)
          × NotRunning (r.view s'.db)
    unfolding run_subprocess lift free_slot unregister give_up_lock
    run_subprocess-releases p s = (
      refl,
      any-filter thread s.cancels,
      (give_up_lock-NotRunning {E = λ _. Anything}).at (subprocess_body r h cfg thread p s.db).1 tt,
    )

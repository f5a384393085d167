-- ===== src/Enqueue/Outcome.antt =====
-- The theorems about `Enqueue`.
use mathlib.Core.Path.{subst}
use ai_agents.Prelude.{String, ◌≡◌, true, [], ◌∷◌, ◌⊎◌}
use ai_agents.Redis.Keys.{str_key, thread_lock_key, thread_locked_at_key}
use ai_agents.Redis.Commands.{Redis, del}
use ai_agents.Redis.Client.{Error, ok, err}
use ai_agents.Redis.Triple.{Outcome}
use ai_agents.Types.{Host, Task}
use ai_agents.Enqueue.{enqueue}
use ai_agents.Enqueue.State.{Anything, Free, StoppedEarly}
use ai_agents.Enqueue.Lock.{release-Anything, release-Free}
use ai_agents.Enqueue.Holds.{Enqueued, enqueue-Enqueued}

module _ (r : Redis) (h : Host) (worker thread instruction : String) (d : r.Db) where
  -- If Enqueue returns a task, whatever requests failed on the way, then the task is the pending
  -- one of the call, it holds the thread lock since the call's time with the lock's time to live,
  -- its instruction is the last message of the thread, its payload is the newest entry of the
  -- worker's queue, and its five keys are set.
  pub enqueue_success :
      {task : Task}
      → (enqueue r h worker thread instruction d).0 ≡ ok task
      → Enqueued r h worker thread instruction task
          (r.view (enqueue r h worker thread instruction d).1)
  enqueue_success e =
      subst
        (λ a.
          Outcome (Enqueued r h worker thread instruction) (λ e s. StoppedEarly e ⊎ Anything s) a
            (r.view (enqueue r h worker thread instruction d).1))
        e
        ((enqueue-Enqueued r h worker thread instruction Anything (release-Anything r thread)).at d
          tt)

  -- If the DEL of the lock's two keys is always answered, then an error of Enqueue is one that it
  -- returns before it knows that it has the lock, or the lock is free when it returns.
  pub enqueue_error :
      ((d : r.Db)
        → (r.send
            (del (str_key (thread_lock_key thread) ∷ str_key (thread_locked_at_key thread) ∷ [])
              ∷ [])
            d).0
          ≡ true)
      → {e : Error} → (enqueue r h worker thread instruction d).0 ≡ err e
      → StoppedEarly e ⊎ Free thread (r.view (enqueue r h worker thread instruction d).1)
  enqueue_error del_answered e =
      subst
        (λ a.
          Outcome (Enqueued r h worker thread instruction) (λ e s. StoppedEarly e ⊎ Free thread s) a
            (r.view (enqueue r h worker thread instruction d).1))
        e
        ((enqueue-Enqueued r h worker thread instruction (Free thread)
            (release-Free r thread del_answered)).at
          d tt)

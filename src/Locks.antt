-- ===== src/Locks.antt =====
-- The thread lock: `acquireLockScript` and `isTaskActive` of tasklib/client.go, `LockThread`,
-- `IsThreadLocked`, `GetLockHolder` and `UnlockThread` of tasklib/threads.go, and the request lock.
use ai_agents.Prelude.{
  ℕ, String, Bool, false, not, ◌||◌, Option, none, some, [], ◌∷◌, ◌==◌, if◌then◌else◌,
}
use ai_agents.Redis.Keys.{
  str_key, thread_lock_key, thread_locked_at_key, thread_running_key, task_key,
}
use ai_agents.Redis.Commands.{Redis, has, acquire, del, set_nx}
use ai_agents.Redis.Client.{M, ◌>>=◌, pure, request, do_all, get, get_nil, exists_key, attempt}
use ai_agents.Types.{Host, event, lock_released, lock_holder}
use ai_agents.Events.{push_thread_event}

-- A status in which a task no longer runs.
abbrev pub is_terminal : String → Bool
is_terminal status = status == "done" || (status == "failed" || status == "cancelled")

abbrev pub active_status : Option String → Bool
active_status none = false
active_status (some status) = not (is_terminal status)

module _ (r : Redis) where
  -- true if the lock was acquired
  unfoldable pub acquire_lock : String → String → ℕ → String → M r.Db Bool
  acquire_lock thread id ttl now =
      request r (acquire (thread_lock_key thread) (thread_locked_at_key thread) id ttl now ∷ [])
        (λ s. not (has (str_key (thread_lock_key thread)) s))

  -- A missing status and an error count as stale.
  unfoldable pub is_task_active : String → M r.Db Bool
  is_task_active id =
      if id == ""
      then pure false
      else do status ← attempt none (get_nil r (task_key id "status")); pure (active_status status)

  unfoldable pub release : String → M r.Db (Unit {0})
  release thread =
      do_all r
        (del (str_key (thread_lock_key thread) ∷ str_key (thread_locked_at_key thread) ∷ []) ∷ [])

  unfoldable pub lock_thread : String → String → ℕ → M r.Db Bool
  lock_thread thread id ttl =
      request r (set_nx (thread_lock_key thread) id (some ttl) ∷ [])
        (λ s. not (has (str_key (thread_lock_key thread)) s))

  unfoldable pub is_thread_locked : String → M r.Db Bool
  is_thread_locked thread = exists_key r (str_key (thread_lock_key thread))

  unfoldable pub get_lock_holder : String → M r.Db (Option String)
  get_lock_holder thread = get_nil r (thread_lock_key thread)

  -- the result of `m`, after `n`
  abbrev pub then_always : {A : Type 0} → M r.Db A → M r.Db (Unit {0}) → M r.Db A
  then_always m n d = let (a, d') = m d in let (_, d'') = n d' in (a, d'')

  -- The error of the DEL is returned after the event.
  unfoldable pub unlock_thread : Host → String → M r.Db (Unit {0})
  unfolding release
  unlock_thread h thread = do
    holder ← get r (thread_lock_key thread)
    then_always (release thread)
        (push_thread_event r h thread (event lock_released "" "" (lock_holder holder)))

  unfoldable pub acquire_request_lock : String → String → ℕ → M r.Db Bool
  acquire_request_lock thread request_id ttl =
      request r (set_nx (thread_running_key thread) request_id (some ttl) ∷ [])
        (λ s. not (has (str_key (thread_running_key thread)) s))

  unfoldable pub release_request_lock : String → M r.Db (Unit {0})
  release_request_lock thread = do_all r (del (str_key (thread_running_key thread) ∷ []) ∷ [])

  unfoldable pub is_request_running : String → M r.Db Bool
  is_request_running thread = exists_key r (str_key (thread_running_key thread))

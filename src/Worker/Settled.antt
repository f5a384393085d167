-- ===== src/Worker/Settled.antt =====
-- A processed task is settled.
use mathlib.Core.Path.{subst}
use ai_agents.Enqueue.State.{Anything}
use ai_agents.Events.Pushed.{Triple-push_thread_event}
use ai_agents.Locks.{is_terminal}
use ai_agents.Prelude.{
  [], String, ◌≡◌, refl, sym, true, false, not, none, some, List, ◌∷◌, arith, ◌==◌, eq_refl,
  or_empty, filter, any,
}
use ai_agents.Redis.Client.{Error, do_all, best_effort}
use ai_agents.Redis.Commands.{Fields, field, drop_field, Keyspace, Redis, hdel}
use ai_agents.Redis.Keys.{task_key, processing_key, active_tasks}
use ai_agents.Redis.Reads.{Triple-get, Up, Triple-do}
use ai_agents.Redis.Triple.{
  Outcome, Triple, Triple-attempt, Triple-if, Triple-bind, Triple-best_effort, Triple-one,
  Triple-answered,
}
use ai_agents.Threads.State.{get_thread, set_active_task, remove_active_task}
use ai_agents.Types.{Host, task_started, no_detail}
use ai_agents.Waiting.Aggregate.{Triple-caught}
use ai_agents.Waiting.Either.{from_either}
use ai_agents.Waiting.Released.{Triple-Anything}
use ai_agents.Worker.{
  Job, Execution, World, agent_event, start_task, full_prompt, timeout_of, windowed, read_history,
  cancel_cmds, clean_up, append_line,
}
use ai_agents.Worker.Process.{
  report, settle, settle_cancelled, correlation_of, started_info, run_or_cancel, process_job,
  process_parsed, process_one_task,
}
use ai_agents.Worker.Status.{store-Ended, report-terminal, cancel-Ended}

field-drop_field : (k : String) (m : Fields) → field k (drop_field k m) ≡ none
field-drop_field k [] = refl
field-drop_field k ((j, v) ∷ m) = ground (arith, field-drop_field k m)

holds-filter :
    (x : String) (xs : List String) → any (λ y. y == x) (filter (λ w. not (w == x)) xs) ≡ false
holds-filter x [] = refl
holds-filter x (y ∷ xs) = ground (arith, holds-filter x xs)

module _ (r : Redis) (up : Up r) (h : Host) (w : World) (worker item : String) (job : Job) where
  abbrev Ended : Keyspace → Type 0
  Ended s = is_terminal (or_empty (s.strings (task_key job.task_id "status"))) ≡ true

  -- off the processing list, off `active_tasks`, in a terminal status
  abbrev pub Settled : Keyspace → Type 0
  Settled s =
      (any (λ y. y == item) (s.lists (processing_key worker)) ≡ false)
      × (field job.task_id (s.hashes active_tasks) ≡ none)
      × (is_terminal (or_empty (s.strings (task_key job.task_id "status"))) ≡ true)

  clean_up-Settled :
      {E : Error → Keyspace → Type 0}
      → Triple r Ended (clean_up r h w worker job item) (λ _. Settled) E
  unfolding clean_up remove_active_task do_all best_effort
  clean_up-Settled =
      Triple-bind r
        (λ _ s. Ended s × (any (λ y. y == item) (s.lists (processing_key worker)) ≡ false)) _ _
        (Triple-attempt r _ _
          (Triple-answered r _ _ (up _) (λ s e. (e, rw (eq_refl worker) (holds-filter item _)))))
        (λ _. Triple-attempt r _ _ (
          Triple-answered r (hdel active_tasks job.task_id ∷ []) _ (up _)
            (λ s e. (e.1, field-drop_field job.task_id (s.hashes active_tasks), e.0))))

  -- a write that does not touch a status
  Triple-line :
      {E : Error → Keyspace → Type 0} (text : String)
      → Triple r Ended (append_line r h w job text) (λ _. Ended) E
  unfolding append_line
  Triple-line text =
      Triple-bind r (λ _. Ended) _ _ (Triple-one r _ (λ s e. e) (λ s e. e))
        (λ _. Triple-one r _ (λ s e. e) (λ s e. e))

  settle-Settled :
      {P : Keyspace → Type 0} {E : Error → Keyspace → Type 0} (correlation : String) (e : Execution)
      → Triple r P (settle r h w worker item job correlation e) (λ _. Settled) E
  unfolding settle
  settle-Settled correlation e =
      Triple-bind r (λ _. Ended) _ _
        (Triple-do r up _ Ended (λ s p.
          store-Ended r h w job (report w (timeout_of r h w job) e) e.stderr s
            (report-terminal r h w job (timeout_of r h w job) e)))
        (λ _.
          Triple-bind r (λ _. Ended) _ _
            (Triple-push_thread_event r h job.thread_id _ (λ text s e. e) (λ s e. e) (λ s e. e))
            (λ _.
              Triple-bind r (λ _. Ended) _ _ (Triple-line _)
                (λ _.
                  Triple-bind r (λ _. Ended) _ _ (Triple-do r up _ Ended (λ s e. e))
                    (λ _.
                      Triple-bind r (λ _. Ended) _ _ (Triple-do r up _ Ended (λ s e. e))
                        (λ _. clean_up-Settled)))))

  cancelled-Settled :
      {P : Keyspace → Type 0} {E : Error → Keyspace → Type 0} (correlation : String)
      → Triple r P (settle_cancelled r h w worker item job correlation) (λ _. Settled) E
  unfolding settle_cancelled
  cancelled-Settled {P} correlation =
      Triple-bind r (λ _. P) _ _ (Triple-get r _)
        (λ previous.
          Triple-bind r (λ _. Ended) _ _
            (Triple-do r up (cancel_cmds r h w job previous) Ended
              (λ s p. cancel-Ended r h w job previous s))
            (λ _.
              Triple-bind r (λ _. Ended) _ _
                (Triple-push_thread_event r h job.thread_id _ (λ text s e. e) (λ s e. e) (λ s e. e))
                (λ _. Triple-bind r (λ _. Ended) _ _ (Triple-line _) (λ _. clean_up-Settled))))

  history-Anything :
      {E : Error → Keyspace → Type 0} → Triple r Anything (read_history r h w job) (λ _. Anything) E
  unfolding read_history
  history-Anything =
      Triple-bind r (λ _. Anything) _ _ (Triple-get r _)
        (λ group. Triple-attempt r [] (windowed r h w job group) (Triple-Anything r _))

  run-Settled :
      {E : Error → Keyspace → Type 0} (correlation prompt flag : String)
      → Triple r Anything
          (run_or_cancel r h w worker item job correlation prompt flag)
          (λ _. Settled)
          E
  unfolding run_or_cancel
  run-Settled correlation prompt flag =
      Triple-if r (not (flag == "")) _ _ (λ _. cancelled-Settled correlation)
        (λ _. settle-Settled correlation _)

  process_job-Settled :
      {E : Error → Keyspace → Type 0}
      → Triple r Anything (process_job r h w worker item job) (λ _. Settled) E
  unfolding process_job
  process_job-Settled =
      Triple-bind r (λ _. Anything) _ _
        (Triple-caught r (get_thread r job.thread_id) (Triple-Anything r _))
        (λ known.
          Triple-bind r (λ _. Anything) _ _
            (Triple-push_thread_event r h job.thread_id
              (agent_event r h w task_started job (correlation_of r h w known) no_detail)
              (λ text s e. tt) (λ s e. tt) (λ s e. tt))
            (λ _.
              Triple-bind r (λ _. Anything) _ _
                (Triple-attempt r tt (set_active_task r h job.task_id (started_info r h w job))
                  (Triple-Anything r _))
                (λ _.
                  Triple-bind r (λ _. Anything) _ _
                    (Triple-best_effort r (start_task r h w job (correlation_of r h w known))
                      (λ s p n. tt))
                    (λ _.
                      Triple-bind r (λ _. Anything) _ _ history-Anything
                        (λ msgs.
                          Triple-bind r (λ _. Anything) _ _
                            (Triple-caught r (get_thread r job.thread_id) (Triple-Anything r _))
                            (λ thread.
                              Triple-bind r (λ _. Anything) _ _
                                (Triple-get r (task_key job.task_id "cancel"))
                                (λ flag.
                                  run-Settled (correlation_of r h w known)
                                    (full_prompt r h w msgs thread job.instruction) flag)))))))

  -- Where requests are answered, when the worker has processed an entry with a payload, the entry is
  -- off the processing list, its task is off active_tasks, and the status of the task is terminal.
  pub process_settles :
      (d : r.Db)
      → w.parse_job item ≡ some job
      → Settled (r.view (process_one_task r h w worker item d).1)
  unfolding process_one_task
  process_settles d e = from_either Settled (process_one_task r h w worker item d).0 _ (
      subst
        (λ o.
          Outcome (λ _. Settled) (λ _. Settled) (process_parsed r h w worker item o d).0
            (r.view (process_parsed r h w worker item o d).1))
        (sym e) (process_job-Settled.at d tt))

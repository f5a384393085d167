-- ===== src/Waiting/CutOff.antt =====
-- The last requests of a wait whose context is done.
use ai_agents.Waiting.Either.{Triple-then_always}
use ai_agents.Events.{push_text, push_thread_event}
use ai_agents.Locks.{release, unlock_thread}
use ai_agents.Prelude.{String, Option, none, some, List, [], ◌∷◌, not, ◌&&◌, ◌==◌}
use ai_agents.Redis.Client.{cut_off, Error, request, best_effort, get, do_all, attempt, exists_key}
use ai_agents.Redis.Commands.{Fields, Redis, Keyspace, Cmd}
use ai_agents.Redis.Keys.{StrKey, thread_events_key}
use ai_agents.Redis.Triple.{Triple, Triple-attempt, Triple-bind, Triple-if, Triple-pure}
use ai_agents.Types.{
  Host, Event, event, thread_status_change, status_change, lock_released, lock_holder,
}
use ai_agents.Waiting.{finish, update_thread, update_thread_status, thread_status_from_task}

module _ (r : Redis) {P : Keyspace → Type 0} where
  -- a request is an error, and changes nothing
  Triple-cut_off :
      {A : Type 0} {Q : A → Keyspace → Type 0} (cs : List Cmd) (reply : Keyspace → A)
      → Triple (cut_off r) P (request (cut_off r) cs reply) Q (λ _. P)
  unfolding request
  Triple-cut_off cs reply = record { at = λ d p. p }

  dropped :
      {E : Error → Keyspace → Type 0} (cs : List Cmd)
      → Triple (cut_off r) P (best_effort (cut_off r) cs) (λ _. P) E
  unfolding best_effort
  dropped cs = Triple-attempt (cut_off r) _ _ (Triple-cut_off cs _)

  get-Kept :
      {E : Error → Keyspace → Type 0} (k : StrKey)
      → Triple (cut_off r) P (get (cut_off r) k) (λ _. P) E
  unfolding get
  get-Kept k = Triple-attempt (cut_off r) _ _ (Triple-cut_off _ _)

  push-Kept :
      {E : Error → Keyspace → Type 0} (h : Host) (thread : String) (ev : Event)
      → Triple (cut_off r) P (push_thread_event (cut_off r) h thread ev) (λ _. P) E
  unfolding push_thread_event
  push-Kept {E} h thread ev =
      Triple-bind (cut_off r) (λ _. P) _ _ (go (h.codec.event_text ev))
        (λ _. Triple-bind (cut_off r) (λ _. P) _ _ (dropped _) (λ _. dropped _))
    where
      go :
          (o : Option String)
          → Triple (cut_off r) P (push_text (cut_off r) h (thread_events_key thread) o) (λ _. P) E
      go none = Triple-pure (cut_off r) tt (λ s p. p)
      go (some text) = dropped _

  release-Kept :
      {Q : Unit {0} → Keyspace → Type 0} (thread : String)
      → Triple (cut_off r) P (release (cut_off r) thread) Q (λ _. P)
  unfolding release do_all
  release-Kept thread = Triple-cut_off _ _

  -- its first request fails
  update-Kept :
      (h : Host) (thread : String) (fields : Fields)
      → Triple (cut_off r) P (update_thread (cut_off r) h thread fields) (λ _. P) (λ _. P)
  unfolding update_thread exists_key
  update-Kept h thread fields =
      Triple-bind (cut_off r) (λ _ _. ⊥) _ _ (Triple-cut_off _ _)
        (λ found. record { at = λ d p. absurd p })

  status-Kept :
      {E : Error → Keyspace → Type 0} (h : Host) (thread status : String)
      → Triple (cut_off r) P (update_thread_status (cut_off r) h thread status) (λ _. P) E
  unfolding update_thread_status
  status-Kept h thread status =
      Triple-bind (cut_off r) (λ _. P) _ _ (Triple-attempt (cut_off r) "" _ (Triple-cut_off _ _))
        (λ previous.
          Triple-bind (cut_off r) (λ _. P) _ _
            (Triple-attempt (cut_off r) _ _
              (update-Kept h thread (("status", thread_status_from_task status) ∷ [])))
            (λ _. push-Kept h thread (
              event thread_status_change "" ""
                (status_change previous (thread_status_from_task status)))))

  unlock-Kept :
      {E : Error → Keyspace → Type 0} (h : Host) (thread : String)
      → Triple (cut_off r) P (attempt tt (unlock_thread (cut_off r) h thread)) (λ _. P) E
  unfolding unlock_thread
  unlock-Kept h thread = Triple-attempt (cut_off r) _ _ (
      Triple-bind (cut_off r) (λ _. P) _ _ (get-Kept _)
        (λ holder.
          Triple-then_always (cut_off r) (release (cut_off r) thread)
            (push_thread_event (cut_off r) h thread
              (event lock_released "" "" (lock_holder holder)))
            (release-Kept thread) (push-Kept h thread _)))

  -- Nothing of it reaches the server.
  pub finish-Kept :
      {E : Error → Keyspace → Type 0} (h : Host) (id thread status : String)
      → Triple (cut_off r) P (finish (cut_off r) h id thread status) (λ _. P) E
  unfolding finish
  finish-Kept h id thread status =
      Triple-bind (cut_off r) (λ _. P) _ _ (get-Kept _)
        (λ label.
          Triple-if (cut_off r) (label == "" && not (thread == "")) _ _
            (λ _.
              Triple-bind (cut_off r) (λ _. P) _ _ (status-Kept h thread status)
                (λ _. unlock-Kept h thread))
            (λ _. Triple-pure (cut_off r) tt (λ s p. p)))

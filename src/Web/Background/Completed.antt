-- ===== src/Web/Background/Completed.antt =====
-- What writes the last message of a request marks its thread complete, and the rest keeps the mark.
use ai_agents.Enqueue.State.{Anything}
use ai_agents.History.{append_message, append_text}
use ai_agents.Locks.{is_thread_locked}
use ai_agents.Prelude.{String, Bool, ◌≡◌, refl, not, none, some, [], ◌∷◌, eq_refl, Option}
use ai_agents.Redis.Client.{Error, M, Result, ok, err, attempt, do_all, request, exists_key}
use ai_agents.Redis.Commands.{Redis, Keyspace, Cmd, Fields, apply, read, rpush, expire, hset}
use ai_agents.Redis.Keys.{
  thread_lock_key, thread_complete_key, thread_messages_key, thread_state_key, str_key, list_key,
  hash_key,
}
use ai_agents.Redis.Kept.{Stays, Triple-Leaves}
use ai_agents.Redis.Reads.{Up}
use ai_agents.Redis.Triple.{
  Triple, Triple-bind, Triple-attempt, Triple-answered, Triple-pure, Triple-raise, Triple-if,
}
use ai_agents.Types.{Host, ttl_thread}
use ai_agents.Waiting.Either.{from_either}
use ai_agents.Waiting.{mapping, update_thread}
use ai_agents.Web.Stream.{
  tried, update_unless, set_thread_complete, write_message, end_status, write_response_message,
  write_error_message, complete_thread,
}

module _ (r : Redis) (h : Host) (thread : String) where
  -- the thread is marked complete
  abbrev pub Complete : Keyspace → Type 0
  Complete = Stays r (thread_complete_key thread) (some "1")

  -- whatever it returns, the mark stays
  abbrev pub KeepsComplete : {A : Type 0} → M r.Db A → Type 0
  KeepsComplete m = Triple r Complete m (λ _. Complete) (λ _. Complete)

  Keeps-attempt :
      {A : Type 0} {E : Error → Keyspace → Type 0} (a : A) (m : M r.Db A)
      → KeepsComplete m
      → Triple r Complete (attempt a m) (λ _. Complete) E
  Keeps-attempt a m t = Triple-attempt r a m t

  Keeps-Leaves :
      {A : Type 0} (c : Cmd) (reply : Keyspace → A)
      → ((t : Keyspace)
          → (apply r.next_text c t).strings (thread_complete_key thread)
            ≡ t.strings (thread_complete_key thread))
      → KeepsComplete (request r (c ∷ []) reply)
  Keeps-Leaves c reply l =
      Triple-Leaves r (thread_complete_key thread) (some "1") (c ∷ []) reply (l, tt)

  pub Keeps-append_text : (o : Option String) → KeepsComplete (append_text r thread o)
  unfolding append_text do_all
  Keeps-append_text none = Triple-raise r _ (λ s p. p)
  Keeps-append_text (some text) =
      Triple-bind r (λ _. Complete) _ _
        (Keeps-Leaves (rpush (thread_messages_key thread) text) _ (λ t. refl))
        (λ _.
          Keeps-Leaves (expire (list_key (thread_messages_key thread)) ttl_thread) _ (λ t. refl))

  Keeps-mapping :
      (acc : Fields) (status : String)
      → KeepsComplete (mapping r thread acc (("status", status) ∷ []))
  unfolding mapping
  Keeps-mapping acc status = Triple-pure r _ (λ s p. p)

  Keeps-update_thread :
      (status : String) → KeepsComplete (update_thread r h thread (("status", status) ∷ []))
  unfolding update_thread exists_key do_all
  Keeps-update_thread status =
      Triple-bind r (λ _. Complete) _ _
        (Keeps-Leaves (read (hash_key (thread_state_key thread))) _ (λ t. refl))
        (λ found.
          Triple-if r (not found) _ _ (λ _. Triple-raise r _ (λ s p. p))
            (λ _.
              Triple-bind r (λ _. Complete) _ _ (Keeps-mapping _ status)
                (λ new.
                  Triple-bind r (λ _. Complete) _ _
                    (Keeps-Leaves (hset (thread_state_key thread) new) _ (λ t. refl))
                    (λ _.
                      Keeps-Leaves (expire (hash_key (thread_state_key thread)) ttl_thread) _
                        (λ t. refl)))))

  Keeps-write_message :
      {E : Error → Keyspace → Type 0} (kind content : String)
      → Triple r Complete (write_message r h thread kind content) (λ _. Complete) E
  unfolding write_message append_message
  Keeps-write_message kind content = Triple-attempt r _ _ (Keeps-append_text _)

  Keeps-tried :
      {A : Type 0} {E : Error → Keyspace → Type 0} (m : M r.Db A)
      → KeepsComplete m
      → Triple r Complete (tried r h m) (λ _. Complete) E
  Keeps-tried m t = record { at = λ d p. from_either Complete (m d).0 (r.view (m d).1) (t.at d p) }

  Keeps-update_unless :
      {E : Error → Keyspace → Type 0} (status : String) (locked : Result Bool)
      → Triple r Complete (update_unless r h thread status locked) (λ _. Complete) E
  Keeps-update_unless status (err e) = Triple-pure r _ (λ s p. p)
  Keeps-update_unless status (ok locked) =
      Triple-if r locked _ _ (λ _. Triple-pure r _ (λ s p. p))
        (λ _. Triple-attempt r _ _ (Keeps-update_thread status))

  Keeps-end_status :
      {E : Error → Keyspace → Type 0} (status : String)
      → Triple r Complete (end_status r h thread status) (λ _. Complete) E
  unfolding end_status is_thread_locked exists_key
  Keeps-end_status status =
      Triple-bind r (λ _. Complete) _ _
        (Keeps-tried _ (Keeps-Leaves (read (str_key (thread_lock_key thread))) _ (λ t. refl)))
        (λ locked. Keeps-update_unless status locked)

  module _ (up : Up r) where
    abbrev pub Marks : {A : Type 0} → M r.Db A → Type 0
    Marks m = Triple r Anything m (λ _. Complete) (λ _. Complete)

    Marks-set : Marks (attempt tt (set_thread_complete r h thread))
    unfolding set_thread_complete do_all
    Marks-set =
        Triple-attempt r _ _ (Triple-answered r _ _ (up _) (λ s p. rw (eq_refl thread) refl))

    pub Marks-write_error_message :
        (content : String) → Marks (write_error_message r h thread content)
    unfolding write_error_message
    Marks-write_error_message content =
        Triple-bind r (λ _. Complete) _ _ Marks-set
          (λ _.
            Triple-bind r (λ _. Complete) _ _ (Keeps-write_message "error" content)
              (λ _. Keeps-end_status "error"))

    pub Marks-write_response_message :
        (content : String) → Marks (write_response_message r h thread content)
    unfolding write_response_message
    Marks-write_response_message content =
        Triple-bind r (λ _. Complete) _ _ Marks-set
          (λ _.
            Triple-bind r (λ _. Complete) _ _ (Keeps-write_message "response" content)
              (λ _. Keeps-end_status "complete"))

    pub Marks-complete_thread : Marks (complete_thread r h thread)
    unfolding complete_thread
    Marks-complete_thread =
        Triple-bind r (λ _. Complete) _ _ Marks-set (λ _. Keeps-end_status "complete")

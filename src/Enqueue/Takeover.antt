-- ===== src/Enqueue/Takeover.antt =====
-- A lock that is free, or held by a task that has ended, is taken.
use ai_agents.Prelude.{not}
use mathlib.Core.Path.{subst}
use ai_agents.Enqueue.{Option, take_lock}
use ai_agents.Locks.{is_task_active, release}
use ai_agents.Prelude.{refl, sym, ap, Bool, none, some, ◌==◌, eq_refl}
use ai_agents.Redis.Client.{Result, do_all, get_nil, ok, err}
use ai_agents.Redis.Commands.{has}
use ai_agents.Redis.Keys.{str_key}
use ai_agents.Redis.Reads.{Triple-see}
use ai_agents.Redis.Triple.{Outcome, Triple-attempt, Triple-weaken}
use ai_agents.Enqueue.{retake}
use ai_agents.Enqueue.State.{Held, Free}
use ai_agents.Locks.{active_status, acquire_lock}
use ai_agents.Prelude.{String, ◌≡◌, true, false, arith, or_empty}
use ai_agents.Redis.Client.{Error}
use ai_agents.Redis.Commands.{Keyspace, Redis}
use ai_agents.Redis.Keys.{task_key, thread_lock_key}
use ai_agents.Redis.Reads.{Up}
use ai_agents.Redis.Triple.{
  Triple, Triple-pure, Triple-wrapped, Triple-if, Triple-bind, Triple-answered,
}
use ai_agents.Types.{Host}

un_negated : (b : Bool) → not b ≡ false → b ≡ true
un_negated true e = refl
un_negated false e = absurd (ground (arith, e))

module _ (r : Redis) (up : Up r) (h : Host) (id thread : String) where
  -- the task of that ID has ended, or is not known any more
  abbrev Ended : String → Keyspace → Type 0
  Ended other s = active_status (s.strings (task_key other "status")) ≡ false

  abbrev EndedHolder : Option String → Keyspace → Type 0
  EndedHolder none s = Unit
  EndedHolder (some other) s = Ended other s

  -- No task holds the lock, or one that has ended or is not known any more.
  abbrev pub Stale : Keyspace → Type 0
  Stale s = EndedHolder (s.strings (thread_lock_key thread)) s

  acquire_wins :
      {E : Error → Keyspace → Type 0}
      → Triple r
          (Free thread)
          (acquire_lock r thread id h.lock_ttl h.now)
          (λ won s. (won ≡ true) × Held h id thread s)
          E
  unfolding acquire_lock
  acquire_wins = Triple-answered r _ _ (up _) (λ s p.
      let missing : has (str_key (thread_lock_key thread)) s ≡ false =
        ap (λ o. elim o [ none ↦ false | some _ ↦ true ]) p.0 in
      (
        rw missing refl,
        (
          rw (missing, eq_refl thread) refl,
          rw (missing, eq_refl thread) refl,
          rw (missing, eq_refl thread) refl,
        ),
      ))

  release_frees :
      {E : Error → Keyspace → Type 0} {P : Keyspace → Type 0}
      → Triple r P (release r thread) (λ _. Free thread) E
  unfolding release do_all
  release_frees = Triple-answered r _ _ (up _) (λ s p. (simp eq_refl, simp eq_refl))

  retake_wins :
      {E : Error → Keyspace → Type 0} {P : Keyspace → Type 0}
      → Triple r P (retake r h id thread) (λ _. Held h id thread) E
  unfolding retake
  retake_wins =
      Triple-bind r (λ _. Free thread) _ _ (Triple-wrapped r _ (release r thread) release_frees)
        (λ _.
          Triple-bind r (λ won s. (won ≡ true) × Held h id thread s) _ _
            (Triple-wrapped r _ _ acquire_wins)
            (λ second.
              Triple-if r second _ _ (λ _. Triple-pure r _ (λ s p. p.1))
                (λ no. record { at = λ d p. absurd (ground (arith, no, p.0)) })))

  abbrev Tried : Bool → Keyspace → Type 0
  Tried won s =
      (won ≡ true → Held h id thread s)
      × (won ≡ false → Ended (or_empty (s.strings (thread_lock_key thread))) s)

  -- a lock that is there has a holder
  ended :
      (o : Option String) (s : Keyspace)
      → elim o [ none ↦ false | some _ ↦ true ] ≡ true
      → EndedHolder o s
      → Ended (or_empty o) s
  ended none s e p = absurd (ground (arith, e))
  ended (some other) s e p = p

  first_attempt :
      {E : Error → Keyspace → Type 0}
      → Triple r Stale (acquire_lock r thread id h.lock_ttl h.now) Tried E
  unfolding acquire_lock
  first_attempt = Triple-answered r _ _ (up _) (λ s p. (
    (λ won. ground (arith, eq_refl thread)),
    (λ lost.
        let there : has (str_key (thread_lock_key thread)) s ≡ true =
          un_negated (has (str_key (thread_lock_key thread)) s) lost in
        rw there (ended (s.strings (thread_lock_key thread)) s there p)),
  ))

  not_active :
      (other : String) {E : Error → Keyspace → Type 0}
      → Triple r (Ended other) (is_task_active r other) (λ a _. a ≡ false) E
  unfolding is_task_active get_nil
  not_active other =
      Triple-if r (other == "") _ _ (λ _. Triple-pure r _ (λ s p. refl))
        (λ _.
          Triple-bind r (λ o _. active_status o ≡ false) _ _
            (Triple-attempt r _ _ (Triple-answered r _ _ (up _) (λ s p. p)))
            (λ o. Triple-pure r _ (λ s p. p)))

  take_lock_wins : Triple r Stale (take_lock r h id thread) (λ _. Held h id thread) (λ _ _. ⊥)
  unfolding take_lock
  take_lock_wins = Triple-bind r Tried _ _ (Triple-wrapped r _ _ first_attempt) (λ first.
      Triple-if r first _ _ (λ yes_won. Triple-pure r _ (λ s p. p.0 yes_won))
        (λ no.
          Triple-bind r Ended _ _
            (Triple-weaken r _ (λ s. Ended (or_empty (s.strings (thread_lock_key thread))) s) _ _
              (λ s p. p.1 no) (λ a s q. subst (λ k. Ended k s) (sym q.1) q.0) (λ e s q. q)
              (Triple-see r up (thread_lock_key thread)))
            (λ other.
              Triple-bind r (λ a _. a ≡ false) _ _ (not_active other)
                (λ a.
                  Triple-if r a _ _
                    (λ yes_active. record { at = λ d p. absurd (ground (arith, yes_active, p)) })
                    (λ _. retake_wins)))))

  -- Where requests are answered, if the lock of the thread is free, or its holder's status is missing
  -- or terminal, then Enqueue takes the lock: take_lock returns no error and the new task holds it.
  pub take_lock-Stale :
      (d : r.Db)
      → Stale (r.view d)
      → ((take_lock r h id thread d).0 ≡ ok tt)
        × Held h id thread (r.view (take_lock r h id thread d).1)
  take_lock-Stale d stale = go _ _ (take_lock_wins.at d stale)
    where
      go :
          (a : Result (Unit {0})) (s : Keyspace)
          → Outcome (λ _. Held h id thread) (λ _ _. ⊥) a s
          → (a ≡ ok tt) × Held h id thread s
      go (ok x) s o = (refl, o)
      go (err e) s o = absurd o

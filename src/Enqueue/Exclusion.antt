-- ===== src/Enqueue/Exclusion.antt =====
-- A thread whose lock is held by a task that has not ended admits no other.
use ai_agents.Redis.Client.{Result, ok, err}
use ai_agents.Enqueue.{submit_locked, with_uuid, enqueue}
use ai_agents.Prelude.{sym, arith}
use ai_agents.Redis.Client.{◌>>◌}
use ai_agents.Redis.Triple.{Outcome, Triple-raise}
use ai_agents.Enqueue.{take_lock}
use ai_agents.Locks.{is_terminal, active_status, acquire_lock, is_task_active}
use ai_agents.Prelude.{sym, String, ◌≡◌, refl, ap, ◌∙◌, true, false, none, some, ◌==◌, or_empty}
use ai_agents.Redis.Client.{Error, get_nil, locked}
use ai_agents.Redis.Commands.{Keyspace, has, Redis}
use ai_agents.Redis.Keys.{StrKey, task_key, thread_lock_key, str_key}
use ai_agents.Redis.Reads.{Up, Triple-see}
use ai_agents.Redis.Triple.{
  Triple, Triple-pure, Triple-attempt, Triple-wrapped, Triple-weaken, Triple-if, Triple-bind,
  Triple-answered,
}
use ai_agents.Types.{Host}
use mathlib.Core.Path.{subst}

has-some :
    (k : StrKey) (s : Keyspace) (v : String) → s.strings k ≡ some v → has (str_key k) s ≡ true
has-some k s v e = ap (λ o. elim o [ none ↦ false | some _ ↦ true ]) e

module _ (r : Redis) (up : Up r) (h : Host) (id thread holder status : String) (before : Keyspace)
    (held : before.strings (thread_lock_key thread) ≡ some holder) (named : (holder == "") ≡ false)
    (running : before.strings (task_key holder "status") ≡ some status)
    (active : is_terminal status ≡ false) where
  abbrev Same : Keyspace → Type 0
  Same s = s ≡ before

  abbrev Refused : Error → Keyspace → Type 0
  Refused e s = (e ≡ locked thread holder) × (s ≡ before)

  acquire-Same :
      {E : Error → Keyspace → Type 0}
      → Triple r Same
          (acquire_lock r thread id h.lock_ttl h.now)
          (λ first s. (first ≡ false) × Same s)
          E
  unfolding acquire_lock
  acquire-Same = Triple-answered r _ _ (up _) (λ s e.
      let there : has (str_key (thread_lock_key thread)) s ≡ true =
        has-some _ s holder (ap (λ u. u.strings (thread_lock_key thread)) e ∙ held) in
      (rw there refl, rw there e))

  abbrev Known : String → Keyspace → Type 0
  Known other s = Same s × (other ≡ holder)

  active-Known :
      (other : String) {E : Error → Keyspace → Type 0}
      → Triple r (Known other) (is_task_active r other) (λ a s. (a ≡ true) × Known other s) E
  unfolding is_task_active get_nil
  active-Known other =
      Triple-if r (other == "") _ _
        (λ empty.
          Triple-pure r _ (λ s p. absurd (ground (arith, named, empty, ap (λ i. i == "") p.1))))
        (λ full.
          Triple-bind r (λ o s. (o ≡ some status) × Known other s) _ _
            (Triple-attempt r _ _ (
              Triple-answered r _ _ (up _) (λ s p. (
                ap (λ u. u.strings (task_key other "status")) p.0
                    ∙ ap (λ i. before.strings (task_key i "status")) p.1
                    ∙ running,
                p,
              ))))
            (λ o. Triple-pure r _ (λ s p. (ap active_status p.0 ∙ rw active refl, p.1))))

  take_lock-Refused : Triple r Same (take_lock r h id thread) (λ _ _. ⊥) Refused
  unfolding take_lock
  take_lock-Refused =
      Triple-bind r (λ first s. (first ≡ false) × Same s) _ _ (Triple-wrapped r _ _ acquire-Same)
        (λ first.
          Triple-if r first _ _ (λ e. Triple-pure r _ (λ s p. absurd (ground (arith, e, p.0))))
            (λ _.
              Triple-bind r (λ other s. Same s × (other ≡ holder)) _ _
                (Triple-weaken r _ _ _ _ (λ s p. p.1)
                  (λ a s q. (
                    q.0,
                    q.1
                        ∙ ap (λ u. or_empty (u.strings (thread_lock_key thread))) q.0
                        ∙ ap or_empty held,
                  ))
                  (λ e s q. q) (Triple-see r up (thread_lock_key thread)))
                (λ other.
                  Triple-bind r (λ a s. (a ≡ true) × Known other s) _ _ (active-Known other)
                    (λ a.
                      Triple-if r a _ _
                        (λ _. Triple-raise r _ (λ s p. (ap (λ i. locked thread i) p.1.1, p.1.0)))
                        (λ no. record { at = λ d p. absurd (ground (arith, no, p.0)) })))))

  enqueue-Refused :
      (worker instruction : String) (d : r.Db)
      → r.view d ≡ before
      → h.uuid ≡ some id
      → Outcome
          (λ _ _. ⊥)
          Refused
          (enqueue r h worker thread instruction d).0
          (r.view (enqueue r h worker thread instruction d).1)
  unfolding enqueue
  enqueue-Refused worker instruction d seen e =
      subst
        (λ o.
          let m =
            with_uuid r h
              (λ i. take_lock r h i thread >> submit_locked r h i worker thread instruction) o in
          Outcome (λ _ _. ⊥) Refused (m d).0 (r.view (m d).1))
        (sym e)
        ((Triple-bind r (λ _ _. ⊥) _ _ take_lock-Refused (λ _. record { at = λ _ p. absurd p })).at
          d seen)

  only_error :
      {A : Type 0} (a : Result A) (s : Keyspace)
      → Outcome (λ _ _. ⊥) Refused a s
      → (a ≡ err (locked thread holder)) × (s ≡ before)
  only_error (ok x) s o = absurd o
  only_error (err e) s o = (ap err o.0, o.1)

-- Where requests are answered, if the lock of the thread is held by a task whose status is not
-- terminal, then Enqueue returns that the thread is locked by that task, and it has changed nothing.
pub enqueue_excluded :
    (r : Redis) (up : Up r) (h : Host) (worker thread instruction : String) (d : r.Db)
    {id holder status : String}
    → h.uuid ≡ some id
    → (r.view d).strings (thread_lock_key thread) ≡ some holder
    → (holder == "") ≡ false
    → (r.view d).strings (task_key holder "status") ≡ some status
    → is_terminal status ≡ false
    → ((enqueue r h worker thread instruction d).0 ≡ err (locked thread holder))
      × (r.view (enqueue r h worker thread instruction d).1 ≡ r.view d)
enqueue_excluded r up h worker thread instruction d {id} {holder} {status} e held named running
      active =
    only_error r up h id thread holder status (r.view d) held named running active _ _ (
      enqueue-Refused r up h id thread holder status (r.view d) held named running active worker
        instruction d refl e)

-- ===== src/Waiting/Ends.antt =====
-- A wait ends.
use ai_agents.Types.{GroupResult}
use ai_agents.Redis.Client.{M, cut_off, smembers, not_found}
use ai_agents.Redis.Triple.{Triple-wrapped}
use ai_agents.Waiting.{group_wait}
use ai_agents.Enqueue.State.{Anything}
use ai_agents.Events.Pushed.{Triple-push_thread_event}
use ai_agents.Locks.{is_terminal}
use ai_agents.Prelude.{
  [], String, ◌≡◌, refl, ◌≢◌, Bool, true, false, ◌||◌, Option, none, some, List, ◌∷◌, arith,
  or_empty, any,
}
use ai_agents.Redis.Client.{Error, Result, ◌>>=◌, raise, get_nil, exists_key, ok}
use ai_agents.Redis.Commands.{Keyspace, Redis}
use ai_agents.Redis.Reads.{Triple-read, Up}
use ai_agents.Redis.Triple.{
  Outcome, Triple, Triple-pure, Triple-raise, Triple-weaken, Triple-if, Triple-bind,
  Triple-answered,
}
use ai_agents.Types.{Task, Host}
use ai_agents.Waiting.{
  Poll, finish, final_task, wait_polls, wait_task, is_waiting, group_step, group_polls,
}
use ai_agents.Waiting.Aggregate.{Triple-caught, Triple-after}
use ai_agents.Waiting.Released.{Triple-Anything}
use mathlib.Core.Path.{subst}

module _ (r : Redis) where
  abbrev is_end : Poll r.Db → Bool
  is_end p = p.late || p.context_ended

  abbrev Over : {A : Type 0} → Option A → Keyspace → Type 0
  Over none s = ⊥
  Over (some a) s = Unit {0}

  abbrev is_none : {A : Type 0} → Option A → Bool
  is_none none = true
  is_none (some a) = false

  not-Over :
      {A : Type 0} (a : Result (Option A)) (s : Keyspace)
      → Outcome Over (λ _. Anything) a s
      → a ≢ ok none
  not-Over a s o e = subst (λ b. Outcome Over (λ _. Anything) b s) e o

  module _ (h : Host) (id thread : String) where
    polls-Over :
        (polls : List (Poll r.Db))
        → any is_end polls ≡ true
        → Triple r Anything (wait_polls r h id thread polls) Over (λ _. Anything)
    unfolding wait_polls get_nil
    polls-Over [] e = absurd (ground arith)
    polls-Over (p ∷ polls) e =
        Triple-after r {P = Anything} p.meanwhile _ (λ d q. tt)
          (Triple-bind r (λ _. Anything) _ _ (Triple-read r _ _)
            (λ found.
              Triple-if r (is_terminal (or_empty found)) _ _
                (λ _.
                  Triple-bind r (λ _. Anything) _ _ (Triple-Anything r (final_task r id))
                    (λ t.
                      Triple-bind r (λ _. Anything) _ _ (Triple-Anything r _)
                        (λ _. Triple-pure r _ (λ s q. tt))))
                (λ _.
                  Triple-if r p.late _ _ (λ _. raised (finish r h id thread (or_empty found)) _)
                    (λ not_late.
                      Triple-if r p.context_ended _ _
                        (λ _. raised (finish (cut_off r) h id thread (or_empty found)) _)
                        (λ not_ended. polls-Over polls (ground arith))))))
      where
        raised :
            (last : M r.Db (Unit {0})) (e : Error)
            → Triple r Anything (last >>= (λ _. raise e)) (Over {A = Task}) (λ _. Anything)
        raised last e =
            Triple-bind r (λ _. Anything) _ _ (Triple-Anything r last)
              (λ _. Triple-raise r e (λ s q. tt))

    -- If the deadline is past at one of the polls, or the context is done there, then WaitTask does
    -- not wait beyond the polls, whatever requests fail.
    pub wait_ends :
        (polls : List (Poll r.Db)) (d : r.Db)
        → any is_end polls ≡ true
        → (wait_task r h id thread polls d).0 ≢ ok none
    unfolding wait_task exists_key
    wait_ends polls d e = not-Over _ _ (
        (Triple-bind r (λ _. Anything) _ _ (Triple-read r _ _)
            (λ found.
              Triple-if r found _ _ (λ _. polls-Over polls e)
                (λ _. Triple-raise r _ (λ s q. tt)))).at
          d tt)

  module _ (up : Up r) (h : Host) (thread label : String) where
    group-Over :
        (ids : List String) (polls : List (Poll r.Db))
        → any is_end polls ≡ true
        → Triple r Anything (group_polls r h thread label ids polls) Over (λ _. Anything)
    unfolding group_polls
    group-Over ids [] e = absurd (ground arith)
    group-Over ids (p ∷ polls) e =
        Triple-after r {P = Anything} p.meanwhile _ (λ d q. tt)
          (Triple-bind r (λ answered s. is_none answered ≡ false) _ _
            (Triple-caught r _ (Triple-answered r _ _ (up _) (λ s q. refl)))
            (λ answered. go (λ e. group-Over ids polls e) answered))
      where
        go :
            (any is_end polls ≡ true
              → Triple r Anything (group_polls r h thread label ids polls) Over (λ _. Anything))
            → (answered : Option (List (String × String)))
            → Triple r
                (λ s. is_none answered ≡ false)
                (group_step r h thread label p (group_polls r h thread label ids polls) answered)
                Over
                (λ _. Anything)
        go rest none = record { at = λ d q. absurd (ground arith) }
        go rest (some tasks) =
            Triple-weaken r _ Anything _ _ (λ s q. tt) (λ a s q. q) (λ e s q. q)
              (Triple-if r (any (λ t. is_waiting t.1) tasks) _ _
                (λ _.
                  Triple-if r p.late _ _ (λ _. Triple-pure r _ (λ s q. tt))
                    (λ not_late.
                      Triple-if r p.context_ended _ _ (λ _. Triple-raise r _ (λ s q. tt))
                        (λ not_ended. rest (ground arith))))
                (λ _.
                  Triple-bind r (λ _. Anything) _ _
                    (Triple-push_thread_event r h thread _ (λ text s q. tt) (λ s q. tt) (λ s q. tt))
                    (λ _. Triple-pure r _ (λ s q. tt))))

    -- Where requests are answered and the deadline is past at one of the polls, or the context is
    -- done there, GroupWait does not wait beyond the polls.
    pub group_wait_ends :
        (polls : List (Poll r.Db)) (d : r.Db)
        → any is_end polls ≡ true
        → (group_wait r h thread label polls d).0 ≢ ok none
    unfolding group_wait smembers
    group_wait_ends polls d e = not-Over _ _ (
        (Triple-bind r {Q = Over {A = GroupResult}} (λ _. Anything) _ _
            (Triple-wrapped r _ _ (Triple-read r _ _)) (λ ids. go ids)).at
          d tt)
      where
        go :
            (ids : List String)
            → Triple r Anything
                (elim ids [
                  | [] ↦ raise (not_found label)
                  | id ∷ rest ↦ group_polls r h thread label (id ∷ rest) polls
                ])
                (Over {A = GroupResult})
                (λ _. Anything)
        go [] = Triple-raise r _ (λ s p. tt)
        go (id ∷ ids) = group-Over (id ∷ ids) polls e

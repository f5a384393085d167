-- ===== src/Web/Submit/Slots.antt =====
-- The slots of the semaphore.
use ai_agents.Locks.{release_request_lock}
use ai_agents.Prelude.{refl, not}
use ai_agents.Redis.Client.{attempt}
use ai_agents.Web.Submit.{
  valid_thread_id, update_thread_last_activity, mark_running, choose_session, submit,
}
use ai_agents.Redis.Commands.{Redis}
use ai_agents.Types.{Host}
use ai_agents.Web.Submit.{give_back, start_request}
use ai_agents.Prelude.{if◌then◌else◌, ◌+◌, String, refl, ap, Bool, true, false, arith, ltb}
use ai_agents.Redis.Client.{err, ok, continue, ◌>>=◌, recover, on_error}
use ai_agents.Waiting.{after}
use ai_agents.Web.Submit.{take_slot, free_slot, register}
use ai_agents.Prelude.{ℕ, ◌≡◌}
use ai_agents.Redis.Client.{Error, Result, M, pure, raise, ok, err}
use ai_agents.Web.Submit.{Service, lift}

module _ {D : Type 0} where
  abbrev pub Counts : {A : Type 0} → ℕ → ℕ → Result A × Service D → Type 0
  Counts done failed (ok a, s) = s.in_use ≡ done
  Counts done failed (err e, s) = s.in_use ≡ failed

  -- From `n` slots in use, a success leaves `done` and an error `failed`.
  record Slots {A : Type 0} (n done failed : ℕ) (m : M (Service D) A) : Type 0 where
    count : (s : Service D) → s.in_use ≡ n → Counts done failed (m s)

  Slots-pure : {A : Type 0} (n failed : ℕ) (a : A) → Slots n n failed (pure a)
  Slots-pure n failed a = record { count = λ s e. e }

  Slots-raise : {A : Type 0} (n done : ℕ) (x : Error) → Slots {A = A} n done n (raise x)
  Slots-raise n done x = record { count = λ s e. e }

  Slots-lift : {A : Type 0} (n : ℕ) (m : M D A) → Slots n n n (lift m)
  unfolding lift
  Slots-lift {A} n m = record { count = λ s e. go (m s.db).0 s (m s.db).1 e }
    where
      go :
          (a : Result A) (s : Service D) (d : D)
          → s.in_use ≡ n
          → Counts n n (a, record s { db = d })
      go (ok a) s d e = e
      go (err x) s d e = e

  -- a dropped error
  Slots-attempt :
      {A : Type 0} (n failed : ℕ) (zero_value : A) (m : M D A)
      → Slots n n failed (lift (attempt zero_value m))
  unfolding lift
  Slots-attempt n failed zero_value m = record { count = λ s e. e }

  Slots-bind :
      {A B : Type 0} (n k done failed : ℕ) (m : M (Service D) A) (f : A → M (Service D) B)
      → Slots n k failed m
      → ((a : A) → Slots k done failed (f a))
      → Slots n done failed (m >>= f)
  Slots-bind {A} {B} n k done failed m f t u = record {
    count = λ s e. go (m s).0 (m s).1 (t.count s e);
  }
    where
      go :
          (a : Result A) (s : Service D)
          → Counts k failed (a, s)
          → Counts done failed (continue a f s)
      go (ok a) s e = (u a).count s e
      go (err x) s e = e

  Slots-on_error :
      {A : Type 0} (n done failed : ℕ) (m : M (Service D) A) (cleanup : M (Service D) (Unit {0}))
      → Slots n done n m
      → Slots n failed failed cleanup
      → Slots n done failed (on_error m cleanup)
  Slots-on_error {A} n done failed m cleanup t c = record {
    count = λ s e. go (m s).0 (m s).1 (t.count s e);
  }
    where
      cleaned :
          (x : Error) (u : Result (Unit {0})) (s : Service D)
          → Counts failed failed (u, s)
          → Counts {A = A} done failed (err x, s)
      cleaned x (ok u) s e = e
      cleaned x (err y) s e = e

      go :
          (a : Result A) (s : Service D)
          → Counts done n (a, s)
          → Counts done failed (recover a (λ x s'. let (_, after) = cleanup s' in (err x, after)) s)
      go (ok a) s e = e
      go (err x) s e = cleaned x (cleanup s).0 (cleanup s).1 (c.count s e)

  Slots-if :
      {A : Type 0} (n done failed : ℕ) (b : Bool) (m k : M (Service D) A)
      → Slots n done failed m
      → Slots n done failed k
      → Slots n done failed (if b then m else k)
  Slots-if n done failed true m k t u = t
  Slots-if n done failed false m k t u = u

  Slots-free : (n : ℕ) → Slots (n + 1) n n (free_slot {D = D})
  unfolding free_slot
  Slots-free n = record { count = λ s e. omega (arith, e) }

  Slots-take : (n limit : ℕ) → Slots n (n + 1) n (take_slot {D = D} limit)
  unfolding take_slot
  Slots-take n limit = record { count = λ s e. go s e (ltb s.in_use limit) refl }
    where
      go :
          (s : Service D)
          → s.in_use ≡ n
          → (b : Bool) → ltb s.in_use limit ≡ b
          → Counts (n + 1) n (take_slot limit s)
      go s e true b = rw b (ap (λ k. k + 1) e)
      go s e false b = rw b e

  Slots-register : (n failed : ℕ) (thread : String) → Slots n n failed (register {D = D} thread)
  unfolding register
  Slots-register n failed thread = record { count = λ s e. e }

module _ (r : Redis) (h : Host) where
  Slots-give_back : (n : ℕ) (thread : String) → Slots (n + 1) n n (give_back r h thread)
  unfolding give_back
  Slots-give_back n thread =
      Slots-bind (n + 1) (n + 1) n n _ _
        (Slots-attempt (n + 1) n tt (release_request_lock r thread)) (λ _. Slots-free n)

  module _ (session_file_exists : String → Bool) (limit : ℕ)
      (request_id fresh thread user_request repo : String) where
    Slots-start_request :
        (n : ℕ)
        → Slots
            (n + 1)
            (n + 1)
            n
            (start_request r h session_file_exists request_id fresh thread user_request)
    unfolding start_request
    Slots-start_request n =
        Slots-bind (n + 1) (n + 1) (n + 1) n _ _
          (Slots-on_error (n + 1) (n + 1) n _ _ (Slots-lift (n + 1) _) (Slots-give_back n thread))
          (λ _.
            Slots-bind (n + 1) (n + 1) (n + 1) n _ _
              (Slots-on_error (n + 1) (n + 1) n _ _ (Slots-lift (n + 1) _)
                (Slots-give_back n thread))
              (λ session.
                Slots-bind (n + 1) (n + 1) (n + 1) n _ _
                  (Slots-on_error (n + 1) (n + 1) n _ _
                    (Slots-lift (n + 1)
                      (choose_session r h session_file_exists fresh thread session))
                    (Slots-give_back n thread))
                  (λ _.
                    Slots-bind (n + 1) (n + 1) (n + 1) n _ _
                      (Slots-attempt (n + 1) n tt (mark_running r h thread))
                      (λ _.
                        Slots-bind (n + 1) (n + 1) (n + 1) n _ _ (Slots-register (n + 1) n thread)
                          (λ _.
                            Slots-bind (n + 1) (n + 1) (n + 1) n _ _
                              (Slots-attempt (n + 1) n tt (update_thread_last_activity r h thread))
                              (λ _. Slots-pure (n + 1) n request_id))))))

    Slots-submit :
        (n : ℕ)
        → Slots n
            (n + 1)
            n
            (submit r h session_file_exists limit request_id fresh thread user_request repo)
    unfolding submit
    Slots-submit n =
        Slots-if n (n + 1) n (not (valid_thread_id thread)) _ _ (Slots-raise n (n + 1) _) (
          Slots-bind n (n + 1) (n + 1) n _ _ (Slots-take n limit) (λ _.
            Slots-bind (n + 1) (n + 1) (n + 1) n _ _
              (Slots-on_error (n + 1) (n + 1) n _ _ (Slots-lift (n + 1) _) (Slots-free n))
              (λ _.
                Slots-bind (n + 1) (n + 1) (n + 1) n _ _
                  (Slots-on_error (n + 1) (n + 1) n _ _ (Slots-lift (n + 1) _) (Slots-free n))
                  (λ acquired. Slots-if (n + 1) (n + 1) n acquired _ _ (Slots-start_request n) (
                    Slots-bind (n + 1) n (n + 1) n _ _ (Slots-free n)
                      (λ _. Slots-raise n (n + 1) _))))))

    -- Whatever requests fail, Submit takes one slot of the semaphore if it starts a request, and on
    -- each of its errors it has given back the slot that it took.
    pub submit_slots :
        (s : Service r.Db)
        → Counts
            (s.in_use + 1)
            s.in_use
            (submit r h session_file_exists limit request_id fresh thread user_request repo s)
    submit_slots s = (Slots-submit s.in_use).count s refl

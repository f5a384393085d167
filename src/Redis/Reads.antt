-- ===== src/Redis/Reads.antt =====
-- Reads keep the keyspace; where they are answered they give its value.
use ai_agents.Prelude.{take-length, or_empty}
use ai_agents.Redis.Client.{best_effort}
use ai_agents.Redis.Triple.{Triple-answered}
use ai_agents.Prelude.{refl, true, ap, ◌∙◌, List, ◌≡◌, take, ℕ, zero, suc, [], ◌∷◌}
use ai_agents.Redis.Keys.{Key, StrKey, ListKey}
use ai_agents.Redis.Commands.{Cmd, Redis, Keyspace, read, run}
use ai_agents.Redis.Client.{◌>>=◌, ok, M, Error, request, attempt, get, llen}
use ai_agents.Redis.Triple.{Triple, Triple-request, Triple-attempt}

module _ (r : Redis) {P : Keyspace → Type 0} where
  pub Triple-read :
      {A : Type 0} (k : Key) (reply : Keyspace → A)
      → Triple r P (request r (read k ∷ []) reply) (λ _. P) (λ _. P)
  Triple-read k reply = Triple-request r _ _ (λ s p. p) go
    where
      go : (s : Keyspace) → P s → (n : ℕ) → P (run r.next_text (take n (read k ∷ [])) s)
      go s p zero = p
      go s p (suc zero) = p
      go s p (suc (suc n)) = p

  -- a read whose error is dropped, in front of anything
  pub Triple-peek :
      {A : Type 0} {E : Error → Keyspace → Type 0} (zero_value : A) (k : Key) (reply : Keyspace → A)
      → Triple r P (attempt zero_value (request r (read k ∷ []) reply)) (λ _. P) E
  Triple-peek zero_value k reply = Triple-attempt r _ _ (Triple-read k reply)

  pub Triple-get : {E : Error → Keyspace → Type 0} (k : StrKey) → Triple r P (get r k) (λ _. P) E
  unfolding get
  Triple-get k = Triple-peek _ _ _

  pub Triple-depth :
      {E : Error → Keyspace → Type 0} (k : ListKey) → Triple r P (attempt 0 (llen r k)) (λ _. P) E
  unfolding llen
  Triple-depth k = Triple-peek _ _ _

-- The server answers every request.
abbrev pub Up : Redis → Type 0
Up r = (cs : List Cmd) (d : r.Db) → (r.send cs d).0 ≡ true

module _ (r : Redis) (up : Up r) where
  view-read : (k : Key) (d : r.Db) → r.view (r.send (read k ∷ []) d).1 ≡ r.view d
  view-read k d =
      r.view-send (read k ∷ []) d
      ∙ ap (λ n. run r.next_text (take n (read k ∷ [])) (r.view d))
          (r.answered (read k ∷ []) d (up (read k ∷ []) d))

  -- An answered read gives the value, and leaves the keyspace.
  pub read_up :
      {A : Type 0} (k : Key) (reply : Keyspace → A) (d : r.Db)
      → ((request r (read k ∷ []) reply d).0 ≡ ok (reply (r.view d)))
        × (r.view (request r (read k ∷ []) reply d).1 ≡ r.view d)
  unfolding request
  read_up k reply d = (rw (up (read k ∷ []) d) refl, view-read k d)

  -- an answered request executes all its commands
  pub write_up :
      {A : Type 0} (cs : List Cmd) (reply : Keyspace → A) (d : r.Db)
      → r.view (request r cs reply d).1 ≡ run r.next_text cs (r.view d)
  unfolding request
  write_up cs reply d =
      r.view-send cs d
      ∙ ap (λ n. run r.next_text (take n cs) (r.view d)) (r.answered cs d (up cs d))
      ∙ ap (λ l. run r.next_text l (r.view d)) (take-length cs)

  -- and what follows runs on the value
  pub read_then :
      {A B : Type 0} (k : Key) (reply : Keyspace → A) (f : A → M r.Db B) (d : r.Db)
      → (d' : r.Db) × (r.view d' ≡ r.view d)
        × ((request r (read k ∷ []) reply >>= f) d ≡ f (reply (r.view d)) d')
  unfolding request
  read_then k reply f d = ((r.send (read k ∷ []) d).1, view-read k d, rw (up (read k ∷ []) d) refl)

  -- an answered write whose error is dropped
  pub Triple-do :
      {P : Keyspace → Type 0} {E : Error → Keyspace → Type 0} (cs : List Cmd)
      (Q : Keyspace → Type 0)
      → ((s : Keyspace) → P s → Q (run r.next_text cs s))
      → Triple r P (best_effort r cs) (λ _. Q) E
  unfolding best_effort
  Triple-do cs Q f = Triple-attempt r _ _ (Triple-answered r cs _ (up cs) f)

  -- an answered read of a string gives its value
  pub Triple-see :
      {P : Keyspace → Type 0} {E : Error → Keyspace → Type 0} (k : StrKey)
      → Triple r P (get r k) (λ a s. P s × (a ≡ or_empty (s.strings k))) E
  unfolding get
  Triple-see k = Triple-attempt r _ _ (Triple-answered r _ _ (up _) (λ s p. (p, refl)))

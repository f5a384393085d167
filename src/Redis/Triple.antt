-- ===== src/Redis/Triple.antt =====
-- What a method guarantees of the keyspace, on its success and on each error: one rule for each way
-- to build a method. No rule assumes that a request is answered.
use mathlib.Core.Path.{subst}
use ai_agents.Prelude.{
  [], ◌∷◌, length, ℕ, zero, suc, String, if◌then◌else◌, ◌≡◌, refl, sym, ap, ◌∙◌, Bool, true, false,
  List, take, take-length,
}
use ai_agents.Redis.Commands.{Keyspace, Cmd, apply, run, Redis}
use ai_agents.Redis.Client.{
  wrap, continue, recover, or_zero, wrapped, on_error, best_effort, attempt, ◌>>=◌, during, Error,
  unavailable, Result, ok, err, M, pure, raise, request,
}

abbrev pub Outcome :
    {A : Type 0}
    → (A → Keyspace → Type 0)
    → (Error → Keyspace → Type 0)
    → Result A
    → Keyspace
    → Type 0
Outcome Q E (ok a) s = Q a s
Outcome Q E (err e) s = E e s

-- From a keyspace with `P`, success ends with `Q` and an error with `E`.
pub record Triple (r : Redis) {A : Type 0} (P : Keyspace → Type 0) (m : M r.Db A)
    (Q : A → Keyspace → Type 0) (E : Error → Keyspace → Type 0) : Type 0 where
  pub at : (d : r.Db) → P (r.view d) → Outcome Q E (m d).0 (r.view (m d).1)

module _ (r : Redis) where
  sent_all :
      (cs : List Cmd) (d : r.Db)
      → (r.send cs d).0 ≡ true
      → run r.next_text cs (r.view d) ≡ r.view (r.send cs d).1
  sent_all cs d yes_answered =
      ap (λ ys. run r.next_text ys (r.view d))
        (sym (take-length cs) ∙ ap (λ n. take n cs) (sym (r.answered cs d yes_answered)))
      ∙ sym (r.view-send cs d)

module _ (r : Redis) {A : Type 0} {P : Keyspace → Type 0} {Q : A → Keyspace → Type 0}
    {E : Error → Keyspace → Type 0} where
  pub Triple-request :
      (cs : List Cmd) (reply : Keyspace → A)
      → ((s : Keyspace) → P s → Q (reply s) (run r.next_text cs s))
      → ((s : Keyspace) → P s → (n : ℕ) → E unavailable (run r.next_text (take n cs) s))
      → Triple r P (request r cs reply) Q E
  unfolding request
  Triple-request cs reply done lost = record { at = λ d p. go d p (r.send cs d).0 refl }
    where
      go :
          (d : r.Db)
          → P (r.view d)
          → (b : Bool) → (r.send cs d).0 ≡ b
          → Outcome Q E (request r cs reply d).0 (r.view (request r cs reply d).1)
      go d p true h = rw h (subst (Q (reply (r.view d))) (sent_all r cs d h) (done (r.view d) p))
      go d p false h =
          rw h
            (subst (E unavailable) (sym (r.view-send cs d)) (lost (r.view d) p (r.executed cs d)))

  pub Triple-pure : (a : A) → ((s : Keyspace) → P s → Q a s) → Triple r P (pure a) Q E
  Triple-pure a f = record { at = λ d p. f (r.view d) p }

  pub Triple-raise : (e : Error) → ((s : Keyspace) → P s → E e s) → Triple r P (raise e) Q E
  Triple-raise e f = record { at = λ d p. f (r.view d) p }

  pub Triple-attempt :
      (zero_value : A) (m : M r.Db A)
      → Triple r P m Q (λ _. Q zero_value)
      → Triple r P (attempt zero_value m) Q E
  Triple-attempt zero_value m t = record { at = λ d p. go (m d).0 (r.view (m d).1) (t.at d p) }
    where
      go :
          (a : Result A) (s : Keyspace)
          → Outcome Q (λ _. Q zero_value) a s
          → Outcome Q E (ok (or_zero zero_value a)) s
      go (ok a) s q = q
      go (err e) s q = q

  pub Triple-wrapped :
      (context : String) (m : M r.Db A)
      → Triple r P m Q (λ e. E (during context e))
      → Triple r P (wrapped context m) Q E
  Triple-wrapped context m t = record { at = λ d p. go (m d).0 (r.view (m d).1) (t.at d p) }
    where
      go :
          (a : Result A) (s : Keyspace)
          → Outcome Q (λ e. E (during context e)) a s
          → Outcome Q E (wrap context a) s
      go (ok a) s q = q
      go (err e) s q = q

  pub Triple-on_error :
      (m : M r.Db A) (cleanup : M r.Db (Unit {0})) (R : Error → Keyspace → Type 0)
      → Triple r P m Q R
      → ((e : Error) → Triple r (R e) cleanup (λ _. E e) (λ _. E e))
      → Triple r P (on_error m cleanup) Q E
  Triple-on_error m cleanup R t c = record { at = λ d p. go (m d).0 (m d).1 (t.at d p) }
    where
      either :
          (e : Error) (u : Result (Unit {0})) (s : Keyspace)
          → Outcome (λ (_ : Unit {0}). E e) (λ _. E e) u s
          → E e s
      either e (ok a) s q = q
      either e (err f) s q = q

      go :
          (a : Result A) (d : r.Db)
          → Outcome Q R a (r.view d)
          → let (b, d') = recover a (λ e d''. let (_, after) = cleanup d'' in (err e, after)) d in
            Outcome Q E b (r.view d')
      go (ok a) d q = q
      go (err e) d q = either e (cleanup d).0 (r.view (cleanup d).1) ((c e).at d q)

  pub Triple-weaken :
      (m : M r.Db A) (P' : Keyspace → Type 0) (Q' : A → Keyspace → Type 0)
      (E' : Error → Keyspace → Type 0)
      → ((s : Keyspace) → P s → P' s)
      → ((a : A) (s : Keyspace) → Q' a s → Q a s)
      → ((e : Error) (s : Keyspace) → E' e s → E e s)
      → Triple r P' m Q' E'
      → Triple r P m Q E
  Triple-weaken m P' Q' E' pre post error t = record {
    at = λ d p. go (m d).0 (r.view (m d).1) (t.at d (pre (r.view d) p));
  }
    where
      go : (a : Result A) (s : Keyspace) → Outcome Q' E' a s → Outcome Q E a s
      go (ok a) s q = post a s q
      go (err e) s q = error e s q

  pub Triple-if :
      (b : Bool) (m n : M r.Db A)
      → (b ≡ true → Triple r P m Q E)
      → (b ≡ false → Triple r P n Q E)
      → Triple r P (if b then m else n) Q E
  Triple-if true m n tm tn = tm refl
  Triple-if false m n tm tn = tn refl

module _ (r : Redis) {A B : Type 0} {P : Keyspace → Type 0} {Q : B → Keyspace → Type 0}
    {E : Error → Keyspace → Type 0} where
  -- `R` is what holds between the two.
  pub Triple-bind :
      (R : A → Keyspace → Type 0) (m : M r.Db A) (f : A → M r.Db B)
      → Triple r P m R E
      → ((a : A) → Triple r (R a) (f a) Q E)
      → Triple r P (m >>= f) Q E
  Triple-bind R m f t u = record { at = λ d p. go (m d).0 (m d).1 (t.at d p) }
    where
      go :
          (a : Result A) (d : r.Db)
          → Outcome R E a (r.view d)
          → Outcome Q E (continue a f d).0 (r.view (continue a f d).1)
      go (ok a) d q = (u a).at d q
      go (err e) d q = q

module _ (r : Redis) {P : Keyspace → Type 0} {Q : Unit {0} → Keyspace → Type 0}
    {E : Error → Keyspace → Type 0} where
  -- A dropped error: whatever prefix was executed.
  pub Triple-best_effort :
      (cs : List Cmd)
      → ((s : Keyspace) → P s → (n : ℕ) → Q tt (run r.next_text (take n cs) s))
      → Triple r P (best_effort r cs) Q E
  unfolding best_effort
  Triple-best_effort cs f = Triple-attempt r tt (request r cs (λ _. tt)) (
      Triple-request r cs (λ _. tt)
        (λ s p. subst (λ ys. Q tt (run r.next_text ys s)) (take-length cs) (f s p (length cs))) f)

  -- One command: done, or not done.
  pub Triple-one :
      (c : Cmd)
      → ((s : Keyspace) → P s → Q tt s)
      → ((s : Keyspace) → P s → Q tt (apply r.next_text c s))
      → Triple r P (best_effort r (c ∷ [])) Q E
  Triple-one c not_done done = Triple-best_effort (c ∷ []) go
    where
      go : (s : Keyspace) → P s → (n : ℕ) → Q tt (run r.next_text (take n (c ∷ [])) s)
      go s p zero = not_done s p
      go s p (suc zero) = done s p
      go s p (suc (suc n)) = done s p

-- A request that is known to be answered has no error.
module _ (r : Redis) {A : Type 0} {P : Keyspace → Type 0} {Q : A → Keyspace → Type 0}
    {E : Error → Keyspace → Type 0} where
  pub Triple-answered :
      (cs : List Cmd) (reply : Keyspace → A)
      → ((d : r.Db) → (r.send cs d).0 ≡ true)
      → ((s : Keyspace) → P s → Q (reply s) (run r.next_text cs s))
      → Triple r P (request r cs reply) Q E
  unfolding request
  Triple-answered cs reply up done = record {
    at = λ d p.
        rw (up d) (subst (Q (reply (r.view d))) (sent_all r cs d (up d)) (done (r.view d) p));
  }

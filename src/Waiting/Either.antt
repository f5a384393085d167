-- ===== src/Waiting/Either.antt =====
-- What holds of a call on its success and on its errors.
use ai_agents.Locks.{then_always}
use ai_agents.Redis.Client.{Result, M, ok, err}
use ai_agents.Redis.Commands.{Redis, Keyspace}
use ai_agents.Redis.Triple.{Outcome, Triple}

pub from_either :
    {A : Type 0} (F : Keyspace → Type 0) (a : Result A) (s : Keyspace)
    → Outcome (λ _. F) (λ _. F) a s
    → F s
from_either F (ok a) s q = q
from_either F (err e) s q = q

to_either :
    {A : Type 0} (F : Keyspace → Type 0) (a : Result A) (s : Keyspace)
    → F s
    → Outcome (λ _. F) (λ _. F) a s
to_either F (ok a) s q = q
to_either F (err e) s q = q

module _ (r : Redis) {A : Type 0} {P F : Keyspace → Type 0} where
  pub Triple-then_always :
      (m : M r.Db A) (n : M r.Db (Unit {0}))
      → Triple r P m (λ _. F) (λ _. F)
      → Triple r F n (λ _. F) (λ _. F)
      → Triple r P (then_always r m n) (λ _. F) (λ _. F)
  Triple-then_always m n t u = record {
    at = λ d p.
        to_either F (m d).0 _
          (from_either F (n (m d).1).0 _ (u.at (m d).1 (from_either F (m d).0 _ (t.at d p))));
  }

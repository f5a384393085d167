-- ===== src/Queue/Ends.antt =====
-- The ends of a list and of its reversal.
use ai_agents.Prelude.{String, ◌≡◌, refl, ap, some, List, [], ◌∷◌, ◌++◌}
use ai_agents.Queue.{backwards}
use ai_agents.Redis.Commands.{last_of, without_last}

last_of-cons : (x : String) (xs : List String) (y : String) → last_of (x ∷ (xs ++ y ∷ [])) ≡ some y
last_of-cons x [] y = refl
last_of-cons x (z ∷ xs) y = last_of-cons z xs y

pub last_of-append : (xs : List String) (y : String) → last_of (xs ++ y ∷ []) ≡ some y
last_of-append [] y = refl
last_of-append (x ∷ xs) y = last_of-cons x xs y

without_last-cons :
    (x : String) (xs : List String) (y : String) → without_last (x ∷ (xs ++ y ∷ [])) ≡ x ∷ xs
without_last-cons x [] y = refl
without_last-cons x (z ∷ xs) y = ap (◌∷◌ x) (without_last-cons z xs y)

pub without_last-append : (xs : List String) (y : String) → without_last (xs ++ y ∷ []) ≡ xs
without_last-append [] y = refl
without_last-append (x ∷ xs) y = without_last-cons x xs y

pub backwards-append : (xs : List String) (y : String) → backwards (xs ++ y ∷ []) ≡ y ∷ backwards xs
backwards-append [] y = refl
backwards-append (x ∷ xs) y = ap (λ zs. zs ++ x ∷ []) (backwards-append xs y)

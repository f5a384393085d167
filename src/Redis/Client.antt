-- ===== src/Redis/Client.antt =====
-- Go code that talks to the server: a method returns its value or an error, and the state of the
-- server after its requests. `x, err := f(); if err != nil { return err }` is `x ← f`; a call whose
-- error the source drops is `attempt f`.
use ai_agents.Prelude.{
  ◌≡◌, refl, arith, ℕ, String, Bool, true, false, Option, List, [], ◌∷◌, or_empty, length,
}
use ai_agents.Redis.Keys.{
  StrKey, ListKey, HashKey, SetKey, Key, str_key, list_key, hash_key, set_key,
}
use ai_agents.Redis.Commands.{Fields, Keyspace, Cmd, read, has, Redis}

-- `unavailable` is an error of the client library; the others are built by `fmt.Errorf`.
pub data Error : Type 0 where
  unavailable : Error
  -- `json.Marshal` and `NewUUID`
  not_encodable : Error
  -- `json.Unmarshal`
  not_decodable : Error
  no_random : Error
  -- a context and the error that it wraps
  during : String → Error → Error
  -- thread and holder
  locked : String → String → Error
  not_found : String → Error
  invalid : String → Error
  -- task, and the group that it is in
  in_group : String → String → Error
  timed_out : String → String → Error
  context_done : Error
  -- a value that `errors.New` made
  sentinel : String → Error

pub data Result (A : Type 0) : Type 0 where
  ok : A → Result A
  err : Error → Result A

-- `fmt.Errorf("context: %w", err)`
abbrev pub wrap : {A : Type 0} → String → Result A → Result A
wrap context (ok a) = ok a
wrap context (err e) = err (during context e)

abbrev pub M : Type 0 → Type 0 → Type 0
M D A = D → Result A × D

module _ {D A B : Type 0} where
  abbrev pub continue : Result A → (A → M D B) → M D B
  continue (ok a) f d = f a d
  continue (err e) f d = (err e, d)

  infixl 10 ◌>>=◌ ◌>>◌
  abbrev pub ◌>>=◌ : M D A → (A → M D B) → M D B
  ◌>>=◌ m f d = let (a, d') = m d in continue a f d'

  abbrev pub ◌>>◌ : M D A → M D B → M D B
  m >> n = m >>= λ _. n

-- the zero value where the source drops the error
abbrev pub or_zero : {A : Type 0} → A → Result A → A
or_zero zero_value (ok a) = a
or_zero zero_value (err e) = zero_value

module _ {D A : Type 0} where
  abbrev pub pure : A → M D A
  pure a d = (ok a, d)

  abbrev pub raise : Error → M D A
  raise e d = (err e, d)

  -- `fmt.Errorf("context: %w", err)`
  abbrev pub wrapped : String → M D A → M D A
  wrapped context m d = let (a, d') = m d in (wrap context a, d')

  abbrev pub attempt : A → M D A → M D A
  attempt zero_value m d = let (a, d') = m d in (ok (or_zero zero_value a), d')

  abbrev pub recover : Result A → (Error → M D A) → M D A
  recover (ok a) f d = (ok a, d)
  recover (err e) f d = f e d

  -- `if err != nil { cleanup; return err }`
  abbrev pub on_error : M D A → M D (Unit {0}) → M D A
  on_error m cleanup d =
      let (a, d') = m d in recover a (λ e d''. let (_, after) = cleanup d'' in (err e, after)) d'

abbrev answer : {A : Type 0} → Bool → A → Result A
answer true a = ok a
answer false a = err unavailable

module _ (r : Redis) where
  -- One request; its reply is a function of what the server held before it.
  unfoldable pub request : {A : Type 0} → List Cmd → (Keyspace → A) → M r.Db A
  request cs reply d = let (answered, d') = r.send cs d in (answer answered (reply (r.view d)), d')

  unfoldable pub do_all : List Cmd → M r.Db (Unit {0})
  do_all cs = request cs (λ _. tt)

  -- A write whose error is dropped.
  unfoldable pub best_effort : List Cmd → M r.Db (Unit {0})
  best_effort cs = attempt tt (request cs (λ _. tt))

  -- `val, _ := rdb.Get(ctx, k).Result()`: "" on a missing key and on an error.
  unfoldable pub get : StrKey → M r.Db String
  get k = attempt "" (request (read (str_key k) ∷ []) (λ s. or_empty (s.strings k)))

  -- a GET whose error is returned, with `redis.Nil` told from the other errors
  unfoldable pub get_nil : StrKey → M r.Db (Option String)
  get_nil k = request (read (str_key k) ∷ []) (λ s. s.strings k)

  unfoldable pub exists_key : Key → M r.Db Bool
  exists_key k = request (read k ∷ []) (has k)

  unfoldable pub hgetall : HashKey → M r.Db Fields
  hgetall k = request (read (hash_key k) ∷ []) (λ s. s.hashes k)

  unfoldable pub lrange_all : ListKey → M r.Db (List String)
  lrange_all k = request (read (list_key k) ∷ []) (λ s. s.lists k)

  unfoldable pub llen : ListKey → M r.Db ℕ
  llen k = request (read (list_key k) ∷ []) (λ s. length (s.lists k))

  unfoldable pub smembers : SetKey → M r.Db (List String)
  smembers k = request (read (set_key k) ∷ []) (λ s. s.sets k)

pub unanswered : ¬ (false ≡ true)
unanswered e = ground (arith, e)

-- The server to a call whose context is done: the client library returns the error of the context,
-- and sends nothing.
abbrev pub cut_off : Redis → Redis
cut_off r = record {
  Db = r.Db;
  view = r.view;
  next_text = r.next_text;
  send = λ cs d. (false, d);
  executed = λ cs d. 0;
  view-send = λ cs d. refl;
  answered = λ cs d e. absurd (unanswered e);
}

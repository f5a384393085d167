-- ===== src/Redis/Commands.antt =====
-- The commands that tasklib and cmd/worker send, and what the server documents of each.
use ai_agents.Prelude.{
  ℕ, ℤ, pos, ◌-◌, String, ◌≡◌, Bool, true, false, not, Option, none, some, List, [], ◌∷◌, ◌++◌,
  ◌==◌, length, take, drop, filter, any, if◌then◌else◌,
}
use ai_agents.Redis.Keys.{
  StrKey, ListKey, HashKey, SetKey, Key, str_key, list_key, hash_key, set_key, same_str, same_list,
  same_hash, same_set, same_key,
}

-- The fields of a hash, each once.
abbrev pub Fields : Type 0
Fields = List (String × String)

abbrev pub field : String → Fields → Option String
field k [] = none
field k ((j, v) ∷ m) = if j == k then some v else field k m

abbrev pub put_field : String → String → Fields → Fields
put_field k v [] = (k, v) ∷ []
put_field k v ((j, w) ∷ m) = if j == k then (k, v) ∷ m else (j, w) ∷ put_field k v m

abbrev pub put_fields : Fields → Fields → Fields
put_fields [] m = m
put_fields ((k, v) ∷ new) m = put_fields new (put_field k v m)

abbrev pub drop_field : String → Fields → Fields
drop_field k [] = []
drop_field k ((j, v) ∷ m) = let rest = drop_field k m in if j == k then rest else (j, v) ∷ rest

-- What is stored, and the time to live in seconds of each key that has one.
pub record Keyspace : Type 0 where
  pub strings : StrKey → Option String
  pub lists : ListKey → List String
  pub hashes : HashKey → Fields
  pub sets : SetKey → List String
  pub ttls : Key → Option ℕ

pub data Cmd : Type 0 where
  -- GET, EXISTS, TTL, LRANGE, LLEN, HGETALL, SMEMBERS: the keyspace stays as it is
  read : Key → Cmd
  -- SCAN and KEYS
  scan : Cmd
  -- SET k v, with EX seconds if given
  set : StrKey → String → Option ℕ → Cmd
  -- SET k v NX, with EX seconds if given
  set_nx : StrKey → String → Option ℕ → Cmd
  -- the Lua script of client.go: lock key, locked_at key, task ID, seconds, timestamp
  acquire : StrKey → StrKey → String → ℕ → String → Cmd
  incr : StrKey → Cmd
  del : List Key → Cmd
  expire : Key → ℕ → Cmd
  rpush lpush : ListKey → String → Cmd
  -- BLMOVE from the right end of one list to the left end of another; nothing where it times out
  blmove : ListKey → ListKey → Cmd
  -- LREM k 0 v: every occurrence
  lrem : ListKey → String → Cmd
  -- LTRIM k -n -1
  keep_last : ListKey → ℕ → Cmd
  hset : HashKey → Fields → Cmd
  hincrby : HashKey → String → ℤ → Cmd
  hdel : HashKey → String → Cmd
  sadd srem : SetKey → String → Cmd

abbrev is_some : {A : Type 0} → Option A → Bool
is_some none = false
is_some (some _) = true

abbrev pub put_str : StrKey → Option String → Keyspace → Keyspace
put_str k v s = record s { strings = λ j. if same_str k j then v else s.strings j }

abbrev pub put_list : ListKey → List String → Keyspace → Keyspace
put_list k v s = record s { lists = λ j. if same_list k j then v else s.lists j }

abbrev pub put_hash : HashKey → Fields → Keyspace → Keyspace
put_hash k v s = record s { hashes = λ j. if same_hash k j then v else s.hashes j }

abbrev pub put_set : SetKey → List String → Keyspace → Keyspace
put_set k v s = record s { sets = λ j. if same_set k j then v else s.sets j }

abbrev pub put_ttl : Key → Option ℕ → Keyspace → Keyspace
put_ttl k t s = record s { ttls = λ j. if same_key k j then t else s.ttls j }

abbrev pub del_key : Key → Keyspace → Keyspace
del_key (str_key k) s = put_ttl (str_key k) none (put_str k none s)
del_key (list_key k) s = put_ttl (list_key k) none (put_list k [] s)
del_key (hash_key k) s = put_ttl (hash_key k) none (put_hash k [] s)
del_key (set_key k) s = put_ttl (set_key k) none (put_set k [] s)

abbrev pub del_keys : List Key → Keyspace → Keyspace
del_keys [] s = s
del_keys (k ∷ ks) s = del_keys ks (del_key k s)

-- EXISTS; an empty list, hash or set does not exist.
abbrev pub has : Key → Keyspace → Bool
has (str_key k) s = elim (s.strings k) [ none ↦ false | some _ ↦ true ]
has (list_key k) s = elim (s.lists k) [ [] ↦ false | _ ∷ _ ↦ true ]
has (hash_key k) s = elim (s.hashes k) [ [] ↦ false | _ ∷ _ ↦ true ]
has (set_key k) s = elim (s.sets k) [ [] ↦ false | _ ∷ _ ↦ true ]

abbrev write : StrKey → String → Option ℕ → Keyspace → Keyspace
write k v ttl s = put_ttl (str_key k) ttl (put_str k (some v) s)

-- the right end of a list, and what is left of it
abbrev pub last_of : List String → Option String
last_of [] = none
last_of (x ∷ []) = some x
last_of (x ∷ y ∷ xs) = last_of (y ∷ xs)

abbrev pub without_last : List String → List String
without_last [] = []
without_last (x ∷ []) = []
without_last (x ∷ y ∷ xs) = x ∷ without_last (y ∷ xs)

abbrev push_left : ListKey → String → Keyspace → Keyspace
push_left k v s = put_list k (v ∷ s.lists k) s

abbrev pub move_last : ListKey → ListKey → Option String → Keyspace → Keyspace
move_last from_key to_key none s = s
move_last from_key to_key (some v) s =
    push_left to_key v (put_list from_key (without_last (s.lists from_key)) s)

-- `next_text n` is what INCR (by 1) and HINCRBY (by n) make of the text of a counter, or of none.
abbrev pub apply : (ℤ → Option String → String) → Cmd → Keyspace → Keyspace
apply next_text (read k) s = s
apply next_text scan s = s
apply next_text (set k v ttl) s = write k v ttl s
apply next_text (set_nx k v ttl) s = if has (str_key k) s then s else write k v ttl s
apply next_text (acquire lock at id ttl now) s =
    if has (str_key lock) s then s else write at now (some ttl) (write lock id (some ttl) s)
apply next_text (incr k) s = put_str k (some (next_text (pos 1) (s.strings k))) s
apply next_text (del ks) s = del_keys ks s
apply next_text (expire k ttl) s = put_ttl k (if has k s then some ttl else s.ttls k) s
apply next_text (rpush k v) s = put_list k (s.lists k ++ v ∷ []) s
apply next_text (blmove from_key to_key) s =
    move_last from_key to_key (last_of (s.lists from_key)) s
apply next_text (lpush k v) s = put_list k (v ∷ s.lists k) s
apply next_text (lrem k v) s = put_list k (filter (λ w. not (w == v)) (s.lists k)) s
apply next_text (keep_last k n) s = put_list k (drop (length (s.lists k) - n) (s.lists k)) s
apply next_text (hset k fs) s = put_hash k (put_fields fs (s.hashes k)) s
apply next_text (hincrby k f n) s =
    put_hash k (put_field f (next_text n (field f (s.hashes k))) (s.hashes k)) s
apply next_text (hdel k f) s = put_hash k (drop_field f (s.hashes k)) s
apply next_text (sadd k v) s =
    if any (λ w. w == v) (s.sets k) then s else put_set k (s.sets k ++ v ∷ []) s
apply next_text (srem k v) s = put_set k (filter (λ w. not (w == v)) (s.sets k)) s

abbrev pub run : (ℤ → Option String → String) → List Cmd → Keyspace → Keyspace
run next_text [] s = s
run next_text (c ∷ cs) s = run next_text cs (apply next_text c s)

-- The server, as the sources rely on it.
pub record Redis : Type 1 where
  pub Db : Type 0
  pub view : Db → Keyspace
  pub next_text : ℤ → Option String → String
  -- one request: whether it was answered, and the state after it
  pub send : List Cmd → Db → Bool × Db
  pub executed : List Cmd → Db → ℕ
  -- a request executes a prefix of its commands,
  pub view-send :
      (cs : List Cmd) (d : Db)
      → view (send cs d).1 ≡ run next_text (take (executed cs d) cs) (view d)
  -- and all of them if it is answered
  pub answered : (cs : List Cmd) (d : Db) → (send cs d).0 ≡ true → executed cs d ≡ length cs

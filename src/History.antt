-- ===== src/History.antt =====
-- Thread histories: `GetThreadHistory`, its tails, `parseMessages` and `AppendMessage` of
-- tasklib/threads.go, and `getEvents` of tasklib/events.go.
pub mod Slices
pub mod Batches
pub mod Tail
use ai_agents.Prelude.Int.{sub_ℕ}
use ai_agents.Prelude.{
  ℤ, pos, negsuc, pos_part, ltb_ℤ, ◌+ℤ◌, ℕ, zero, suc, ◌+◌, ◌-◌, String, Bool, true, false, ◌||◌,
  Option, none, some, List, [], ◌∷◌, ◌++◌, ◌==◌, ltb, leb, eqb, length, take, drop, take_last,
  filter, map, if◌then◌else◌, or_empty,
}
use ai_agents.Redis.Keys.{
  ListKey, list_key, thread_messages_key, thread_events_key, system_events_key,
}
use ai_agents.Redis.Commands.{Redis, Fields, field, read, rpush, expire}
use ai_agents.Redis.Client.{
  M, Result, not_encodable, ◌>>=◌, ◌>>◌, pure, raise, wrapped, request, do_all, llen, lrange_all,
}
use ai_agents.Types.{Codec, Host, Message, Event, ttl_thread}

-- A corrupt entry becomes a placeholder.
abbrev pub parsed_or_unknown : String → Option Message → Message
parsed_or_unknown raw none = record {
  role = "unknown";
  kind = "";
  content = raw;
  timestamp = "";
  metadata = [];
  source = "";
}
parsed_or_unknown raw (some m) = m

abbrev pub parse_one : Codec → String → Message
parse_one c raw = parsed_or_unknown raw (c.parse_message raw)

abbrev pub parse_messages : Codec → List String → List Message
parse_messages c raws = map (parse_one c) raws

-- Messages with no worker in their metadata pass.
abbrev pub addressed_to : String → Message → Bool
addressed_to worker m =
    let name = or_empty (field "worker" m.metadata) in name == "" || name == worker

-- a negative index of LRANGE counts from the end
abbrev from_end : ℕ → ℤ → ℤ
from_end n (pos i) = pos i
from_end n (negsuc i) = sub_ℕ n (suc i)

abbrev up_to : ℤ → ℕ → List String → List String
up_to (negsuc i) first xs = []
up_to (pos last) first xs = take (suc last - first) (drop first xs)

-- what LRANGE gives, both ends included
abbrev pub between : ℤ → ℤ → List String → List String
between start stop xs = up_to (from_end (length xs) stop) (pos_part (from_end (length xs) start)) xs

module _ (r : Redis) where
  -- LRANGE k start (start + count - 1)
  unfoldable pub lrange : ListKey → ℕ → ℕ → M r.Db (List String)
  lrange k start count =
      request r (read (list_key k) ∷ []) (λ s. take count (drop start (s.lists k)))

  -- LRANGE k start stop
  unfoldable pub lrange_between : ListKey → ℤ → ℤ → M r.Db (List String)
  lrange_between k start stop =
      request r (read (list_key k) ∷ []) (λ s. between start stop (s.lists k))

  -- LRANGE k -count -1
  unfoldable pub lrange_last : ListKey → ℕ → M r.Db (List String)
  lrange_last k count = request r (read (list_key k) ∷ []) (λ s. take_last count (s.lists k))

  unfoldable pub get_thread_history : Codec → String → ℤ → ℤ → M r.Db (List Message)
  get_thread_history c thread offset limit = do
    raws ←
        if ltb_ℤ (pos 0) limit
        then lrange_between (thread_messages_key thread) offset (offset +ℤ limit +ℤ negsuc 0)
        else if ltb_ℤ (pos 0) offset
        then lrange_between (thread_messages_key thread) offset (negsuc 0)
        else lrange_all r (thread_messages_key thread)
    pure (parse_messages c raws)

  unfoldable pub get_thread_history_tail : Codec → String → ℕ → M r.Db (List Message)
  get_thread_history_tail c thread tail =
      if eqb tail 0
      then pure []
      else do raws ← lrange_last (thread_messages_key thread) tail; pure (parse_messages c raws)

  -- The loop over batches of `size` from the end of the list: `stop` is `end + 1`, and `collected`
  -- what the later batches gave.
  unfoldable pub scan_back :
      Codec
      → String
      → String
      → (tail size : ℕ) → (fuel : ℕ) → (stop : ℕ) → List Message
      → M r.Db (List Message)
  scan_back c thread worker tail size zero stop collected = pure collected
  scan_back c thread worker tail size (suc fuel) stop collected =
      let rest = scan_back c thread worker tail size fuel (stop - size) in
      if eqb stop 0 then pure collected else do
        batch ← lrange (thread_messages_key thread) (stop - size) (stop - (stop - size))
        let found = filter (addressed_to worker) (parse_messages c batch) ++ collected
        if leb tail (length found) then pure found else rest found

  -- A round takes at least one message off `stop`, so the length of the list is fuel enough.
  unfoldable pub get_thread_history_tail_for_worker :
      Codec → String → ℕ → String → M r.Db (List Message)
  get_thread_history_tail_for_worker c thread tail worker = if eqb tail 0 then pure [] else do
    total ← llen r (thread_messages_key thread)
    if eqb total 0 then pure [] else do
      collected ← scan_back c thread worker tail 100 total total []
      pure (take_last tail collected)

  unfoldable pub append_text : String → Option String → M r.Db (Unit {0})
  append_text thread none = raise not_encodable
  append_text thread (some text) = do
    do_all r (rpush (thread_messages_key thread) text ∷ [])
    do_all r (expire (list_key (thread_messages_key thread)) ttl_thread ∷ [])

  unfoldable pub append_message : Codec → String → Message → M r.Db (Unit {0})
  unfolding append_text
  append_message c thread m = append_text thread (c.message_text m)

abbrev keep_parsed : {A : Type 0} → (String → Option A) → List String → List A
keep_parsed parse [] = []
keep_parsed parse (raw ∷ raws) =
    let rest = keep_parsed parse raws in elim (parse raw) [ none ↦ rest | some a ↦ a ∷ rest ]

module _ (r : Redis) where
  -- the newest events, 50 where the limit is not positive; unreadable ones are left out
  unfoldable pub get_events : Codec → ListKey → ℕ → M r.Db (List Event)
  get_events c k limit = do
    raws ← wrapped "lrange events" (lrange_last r k (if eqb limit 0 then 50 else limit))
    pure (keep_parsed c.parse_event raws)

  unfoldable pub get_thread_events : Codec → String → ℕ → M r.Db (List Event)
  get_thread_events c thread limit = get_events c (thread_events_key thread) limit

  unfoldable pub get_system_events : Codec → ℕ → M r.Db (List Event)
  get_system_events c limit = get_events c system_events_key limit

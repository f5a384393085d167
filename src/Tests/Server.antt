-- ===== src/Tests/Server.antt =====
-- A server whose answers follow a schedule: `false` is a request that fails and does nothing. A DEL
-- is always answered, and so is everything past the end of the schedule.
use ai_agents.Redis.Keys.{thread_messages_key}
use Prim.Native.String.{◌++◌ as append}
use ai_agents.Prelude.{
  take-length, sym, ap, ℕ, ℤ, ◌≡◌, refl, String, Bool, true, false, Option, none, some, List, [],
  ◌∷◌, take, length,
}
use ai_agents.Redis.Commands.{put_list, Redis, Keyspace, Cmd, del, run}
use ai_agents.Types.{Codec, Host}

pub record Server : Type 0 where
  pub keys : Keyspace
  pub answers : List Bool

abbrev next_text : ℤ → Option String → String
next_text n none = "1"
next_text n (some t) = append t "1"

abbrev is_del : List Cmd → Bool
is_del (del ks ∷ _) = true
is_del _ = false

abbrev tail : List Bool → List Bool
tail [] = []
tail (b ∷ bs) = bs

abbrev head : List Bool → Bool
head [] = true
head (b ∷ bs) = b

abbrev answers_to : Bool → Bool → Bool
answers_to true _ = true
answers_to false b = b

abbrev number : Bool → List Cmd → ℕ
number true cs = length cs
number false cs = 0

abbrev send : List Cmd → Server → Bool × Server
send cs d =
    let b = answers_to (is_del cs) (head d.answers) in
    (b, record { keys = run next_text (take (number b cs) cs) d.keys; answers = tail d.answers })

pub answered_lem : (b : Bool) (cs : List Cmd) → b ≡ true → number b cs ≡ length cs
answered_lem true cs e = refl
answered_lem false cs e = cc

abbrev pub server : Redis
server = record {
  Db = Server;
  view = λ d. d.keys;
  next_text = next_text;
  send = send;
  executed = λ cs d. number (answers_to (is_del cs) (head d.answers)) cs;
  view-send = λ cs d. refl;
  answered = λ cs d. answered_lem (answers_to (is_del cs) (head d.answers)) cs;
}

abbrev pub nothing : Keyspace
nothing = record {
  strings = λ _. none;
  lists = λ _. [];
  hashes = λ _. [];
  sets = λ _. [];
  ttls = λ _. none;
}

abbrev pub fresh : List Bool → Server
fresh answers = record { keys = nothing; answers = answers }

-- texts that stand for the entities of the tests
abbrev codec : Codec
codec = record {
  event_text = λ _. some "event";
  message_text = λ m. some m.content;
  payload_text = λ p. some p.task_id;
  info_text = λ i. some i.worker;
  parse_payload = λ s. some (record { task_id = s; thread_id = "th"; instruction = "do it" });
  parse_message = λ s. none;
  parse_info = λ s. none;
  partial_info =
      λ s. record { status = ""; worker = ""; thread_id = ""; started_at = ""; worker_host = "" };
  parse_event = λ s. none;
}

abbrev pub host : String → Host
host id = record {
  codec = codec;
  agent_name = "master";
  agent_role = "";
  lock_ttl = 9300;
  uuid = some id;
  now = "2026-01-01T00:00:00Z";
}

-- the server that answers everything
abbrev pub reliable : Redis
reliable = record {
  Db = Keyspace;
  view = λ d. d;
  next_text = next_text;
  send = λ cs d. (true, run next_text cs d);
  executed = λ cs d. length cs;
  view-send = λ cs d. ap (λ ys. run next_text ys d) (sym (take-length cs));
  answered = λ cs d e. refl;
}

abbrev pub two_messages : Keyspace
two_messages = put_list (thread_messages_key "th") ("first" ∷ "second" ∷ []) nothing

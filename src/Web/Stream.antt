-- ===== src/Web/Stream.antt =====
-- cmd/webui/internal/request/stream.go, and the messages of handler.go at the end of a request. The
-- output of the process is a list of reads, each with what the loop sees before and after it; the
-- errors of the calls in here are only logged.
use ai_agents.History.{append_message}
use ai_agents.Locks.{is_thread_locked}
use ai_agents.Prelude.{
  String, Bool, true, false, not, ◌==◌, ◌+ℤ◌, Option, none, some, List, [], ◌∷◌, any, if◌then◌else◌,
  ◌+s◌,
}
use ai_agents.Redis.Client.{M, ◌>>=◌, ◌>>◌, pure, attempt, do_all, Result, ok, err}
use ai_agents.Redis.Commands.{Redis, set}
use ai_agents.Redis.Keys.{thread_complete_key}
use ai_agents.Tokens.Agents.{ClaudeUsage, Block}
use ai_agents.Tokens.Lines.{join_content_lines}
use ai_agents.Types.{Message, Host, TokenStats, no_tokens, ttl_thread}
use ai_agents.Waiting.{update_thread}

-- `ctx.Err() != nil` before the read, the line without its end, and whether the read had an error
pub record Read : Type 0 where
  pub cancelled : Bool
  pub text : String
  pub ended : Bool

-- `streamAssistant` is its list of blocks
pub record StreamMessage : Type 0 where
  pub kind : String
  pub subtype : String
  pub is_error : Bool
  pub result : String
  pub message : Option (List Block)
  pub usage : Option ClaudeUsage

-- `completed`, `lastWritten` and `masterStats`
pub record Stream : Type 0 where
  pub completed : Bool
  pub last_written : String
  pub master_stats : TokenStats

abbrev pub new_stream : Stream
new_stream = record { completed = false; last_written = ""; master_stats = no_tokens }

abbrev pub has_tool_use : List Block → Bool
has_tool_use = any (λ b. b.kind == "tool_use")

abbrev text_parts : List Block → List String
text_parts [] = []
text_parts (b ∷ bs) =
    let rest = text_parts bs in
    if b.kind == "text" then (if not (b.text == "") then b.text ∷ rest else rest) else rest

-- `strings.Join(parts, "\n")` is `join_content_lines`
unfoldable pub extract_text : Option (List Block) → String
extract_text none = ""
extract_text (some blocks) = join_content_lines (text_parts blocks)

abbrev kind_of : Option (List Block) → String
kind_of none = "plan"
kind_of (some blocks) = if has_tool_use blocks then "tool_call" else "plan"

abbrev pub add_claude : Option ClaudeUsage → TokenStats → TokenStats
add_claude none stats = stats
add_claude (some u) stats = record stats {
  input_tokens = stats.input_tokens +ℤ u.input_tokens;
  output_tokens = stats.output_tokens +ℤ u.output_tokens;
  cache_read_tokens = stats.cache_read_tokens +ℤ u.cache_read_tokens;
  cache_write_tokens = stats.cache_write_tokens +ℤ u.cache_creation_tokens;
}

abbrev orchestrator_meta : String → List (String × String)
orchestrator_meta role = if role == "" then [] else ("orchestrator_role", role) ∷ []

module _ (r : Redis) (h : Host) where
  abbrev pub agent_message : String → String → Message
  agent_message kind content = record {
    role = h.agent_name;
    kind = kind;
    content = content;
    timestamp = h.now;
    metadata = orchestrator_meta h.agent_role;
    source = "";
  }

  unfoldable pub set_thread_complete : String → M r.Db (Unit {0})
  set_thread_complete thread =
      do_all r (set (thread_complete_key thread) "1" (some ttl_thread) ∷ [])

  -- `if err == nil && !locked`
  abbrev pub update_unless : String → String → Result Bool → M r.Db (Unit {0})
  update_unless thread status (err e) = pure tt
  update_unless thread status (ok locked) =
      if locked then pure tt else attempt tt (update_thread r h thread (("status", status) ∷ []))

  -- the result with its error, as a value
  abbrev pub tried : {A : Type 0} → M r.Db A → M r.Db (Result A)
  tried m d = let (a, d') = m d in (ok a, d')

  unfoldable pub end_status : String → String → M r.Db (Unit {0})
  end_status thread status = do
    locked ← tried (is_thread_locked r thread)
    update_unless thread status locked

  unfoldable pub write_message : String → String → String → M r.Db (Unit {0})
  write_message thread kind content =
      attempt tt (append_message r h.codec thread (agent_message kind content))

  unfoldable pub write_response_message : String → String → M r.Db (Unit {0})
  write_response_message thread content = do
    attempt tt (set_thread_complete thread)
    write_message thread "response" content
    end_status thread "complete"

  unfoldable pub write_error_message : String → String → M r.Db (Unit {0})
  write_error_message thread content = do
    attempt tt (set_thread_complete thread)
    write_message thread "error" content
    end_status thread "error"

  unfoldable pub complete_thread : String → M r.Db (Unit {0})
  complete_thread thread = do attempt tt (set_thread_complete thread); end_status thread "complete"

  -- the text that was written, or ""
  unfoldable pub handle_assistant_message : String → Option (List Block) → M r.Db String
  handle_assistant_message thread message = if extract_text message == "" then pure "" else do
    write_message thread (kind_of message) (extract_text message)
    pure (extract_text message)

  unfoldable pub write_result : String → StreamMessage → String → M r.Db (Unit {0})
  write_result thread msg last_written =
      if msg.is_error
      then write_error_message thread
          (if msg.result == "" then "claude error: subtype=" +s msg.subtype else msg.result)
      else if msg.result == last_written
      then complete_thread thread
      else write_response_message thread msg.result

  abbrev counted_usage : StreamMessage → Stream → Stream
  counted_usage msg st = record st { master_stats = add_claude msg.usage st.master_stats }

  unfoldable pub stream_message : String → StreamMessage → Stream → M r.Db Stream
  stream_message thread msg st =
      if msg.kind == "assistant"
      then (do
        content ← handle_assistant_message thread msg.message
        pure (if content == "" then st else record st { last_written = content }))
      else if msg.kind == "result"
      then (do
        write_result thread msg st.last_written
        pure (record (counted_usage msg st) { completed = true }))
      else if msg.kind == "usage"
      then pure (counted_usage msg st)
      else pure st

  abbrev pub stream_line : String → Option StreamMessage → Stream → M r.Db Stream
  stream_line thread none st = pure st
  stream_line thread (some msg) st = stream_message thread msg st

  unfoldable pub process_stream_json :
      (String → Option StreamMessage) → String → List Read → Stream → M r.Db Stream
  process_stream_json parse thread [] st = pure st
  process_stream_json parse thread (l ∷ ls) st =
      let rest = process_stream_json parse thread ls in
      if l.cancelled
      then pure st
      else if l.text == ""
      then (if l.ended then pure st else rest st)
      else (do next ← stream_line thread (parse l.text) st; rest next)

  -- the output so far is the last argument
  unfoldable pub process_plain_text : String → List Read → String → M r.Db String
  process_plain_text thread [] full = pure full
  process_plain_text thread (l ∷ ls) full =
      let rest = process_plain_text thread ls in
      let grown = if l.text == "" then full else full +s l.text +s "\n" in
      if l.cancelled then pure full else do
        if l.text == "" then pure tt else write_message thread "plan" l.text
        if l.ended then pure grown else rest grown

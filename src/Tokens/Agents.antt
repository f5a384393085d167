-- ===== src/Tokens/Agents.antt =====
-- The parsers of the agents' output in tasklib/tokens.go. A line is decoded by `encoding/json`, the
-- parameter `Decoder`: `none` is its error, and a pointer is an `Option`.
use ai_agents.Prelude.{
  [], ◌∷◌, ◌++◌, List, String, ℤ, ◌+ℤ◌, Option, none, some, ◌==◌, if◌then◌else◌,
}
use ai_agents.Tokens.Lines.{split_generic_lines, join_content_lines}
use ai_agents.Types.{TokenStats, no_tokens}

pub record ClaudeUsage : Type 0 where
  pub input_tokens : ℤ
  pub output_tokens : ℤ
  pub cache_creation_tokens : ℤ
  pub cache_read_tokens : ℤ

pub record ClaudeStreamEvent : Type 0 where
  pub kind : String
  pub usage : Option ClaudeUsage

-- an entry of `message.content`
pub record Block : Type 0 where
  pub kind : String
  pub text : String

pub record ClaudeResult : Type 0 where
  pub result : String
  pub usage : Option ClaudeUsage

pub record CodexUsage : Type 0 where
  pub input_tokens : ℤ
  pub cache_read_input_tokens : ℤ
  pub output_tokens : ℤ
  pub reasoning_output_tokens : ℤ

pub record CodexItem : Type 0 where
  pub kind : String
  pub text : String

pub record CodexStreamEvent : Type 0 where
  pub kind : String
  pub item : Option CodexItem
  pub usage : Option CodexUsage

pub record OpencodeCache : Type 0 where
  pub read_tokens : ℤ
  pub write_tokens : ℤ

pub record OpencodeTokens : Type 0 where
  pub input : ℤ
  pub output : ℤ
  pub reasoning : ℤ
  pub cache : OpencodeCache

pub record OpencodePart : Type 0 where
  pub text : String
  pub tokens : Option OpencodeTokens
  -- `State.Output`
  pub output : Option String

pub record OpencodeStreamEvent : Type 0 where
  pub kind : String
  pub part : Option OpencodePart

pub record Decoder : Type 0 where
  pub claude_event : String → Option ClaudeStreamEvent
  pub claude_blocks : String → Option (List Block)
  pub claude_result : String → Option ClaudeResult
  pub codex_event : String → Option CodexStreamEvent
  pub opencode_event : String → Option OpencodeStreamEvent

-- `contentLines` and `stats` of an extraction
pub record Extract : Type 0 where
  pub content_lines : List String
  pub stats : TokenStats

abbrev pub no_extract : Extract
no_extract = record { content_lines = []; stats = no_tokens }

-- `contentLines = append(contentLines, line)`
abbrev pub keep_line : String → Extract → Extract
keep_line line x = record x { content_lines = x.content_lines ++ line ∷ [] }

-- the same under `if line != ""`
abbrev pub keep_text : String → Extract → Extract
keep_text line x = if line == "" then x else keep_line line x

-- the loop over the lines
abbrev pub each_line : (String → Extract → Extract) → List String → Extract → Extract
each_line f [] x = x
each_line f (line ∷ lines) x = each_line f lines (f line x)

abbrev pub extract : (String → Extract → Extract) → String → String × TokenStats
extract f stdout =
    let x = each_line f (split_generic_lines stdout) no_extract in
    (join_content_lines x.content_lines, x.stats)

abbrev pub set_usage : Option ClaudeUsage → TokenStats → TokenStats
set_usage none stats = stats
set_usage (some u) stats = record stats {
  input_tokens = u.input_tokens;
  output_tokens = u.output_tokens;
  cache_read_tokens = u.cache_read_tokens;
  cache_write_tokens = u.cache_creation_tokens;
}

abbrev pub keep_blocks : List Block → Extract → Extract
keep_blocks [] x = x
keep_blocks (b ∷ bs) x = keep_blocks bs (if b.kind == "text" then keep_text b.text x else x)

abbrev pub add_codex : Option CodexUsage → TokenStats → TokenStats
add_codex none stats = stats
add_codex (some u) stats = record stats {
  input_tokens = stats.input_tokens +ℤ u.input_tokens;
  output_tokens = stats.output_tokens +ℤ u.output_tokens;
  cache_read_tokens = stats.cache_read_tokens +ℤ u.cache_read_input_tokens;
  reasoning_tokens = stats.reasoning_tokens +ℤ u.reasoning_output_tokens;
}

abbrev pub keep_item : Option CodexItem → Extract → Extract
keep_item none x = x
keep_item (some i) x = if i.kind == "agent_message" then keep_text i.text x else x

abbrev pub add_opencode : Option OpencodeTokens → TokenStats → TokenStats
add_opencode none stats = stats
add_opencode (some t) stats = record {
  input_tokens = stats.input_tokens +ℤ t.input;
  output_tokens = stats.output_tokens +ℤ t.output;
  cache_read_tokens = stats.cache_read_tokens +ℤ t.cache.read_tokens;
  cache_write_tokens = stats.cache_write_tokens +ℤ t.cache.write_tokens;
  reasoning_tokens = stats.reasoning_tokens +ℤ t.reasoning;
}

abbrev pub keep_output : Option String → Extract → Extract
keep_output none x = x
keep_output (some output) x = keep_text output x

abbrev pub with_stats : (TokenStats → TokenStats) → Extract → Extract
with_stats f x = record x { stats = f x.stats }

module _ (j : Decoder) where
  abbrev pub claude_message : Option (List Block) → Extract → Extract
  claude_message none x = x
  claude_message (some blocks) x = keep_blocks blocks x

  abbrev pub claude_end : Option ClaudeResult → Extract → Extract
  claude_end none x = x
  claude_end (some res) x = with_stats (set_usage res.usage) (keep_text res.result x)

  abbrev pub claude_switch : String → ClaudeStreamEvent → Extract → Extract
  claude_switch line ev x =
      if ev.kind == "assistant"
      then claude_message (j.claude_blocks line) x
      else if ev.kind == "result"
      then claude_end (j.claude_result line) x
      else if ev.kind == "usage"
      then with_stats (set_usage ev.usage) x
      else x

  abbrev pub claude_step : Option ClaudeStreamEvent → String → Extract → Extract
  claude_step none line x = keep_line line x
  claude_step (some ev) line x = claude_switch line ev x

  unfoldable pub claude_line : String → Extract → Extract
  claude_line line x = claude_step (j.claude_event line) line x

  unfoldable pub extract_claude_tokens : String → String × TokenStats
  extract_claude_tokens = extract claude_line

  abbrev pub codex_step : Option CodexStreamEvent → String → Extract → Extract
  codex_step none line x = keep_line line x
  codex_step (some ev) line x =
      let kept = if ev.kind == "item.completed" then keep_item ev.item x else x in
      if ev.kind == "turn.completed" then with_stats (add_codex ev.usage) kept else kept

  unfoldable pub codex_line : String → Extract → Extract
  codex_line line x = codex_step (j.codex_event line) line x

  unfoldable pub extract_codex_tokens : String → String × TokenStats
  extract_codex_tokens = extract codex_line

  abbrev pub opencode_part : String → Option OpencodePart → Extract → Extract
  opencode_part kind none x = x
  opencode_part kind (some p) x =
      if kind == "text"
      then keep_text p.text x
      else if kind == "tool_use"
      then keep_output p.output x
      else if kind == "step_finish"
      then with_stats (add_opencode p.tokens) x
      else x

  abbrev pub opencode_step : Option OpencodeStreamEvent → String → Extract → Extract
  opencode_step none line x = keep_line line x
  opencode_step (some ev) line x = opencode_part ev.kind ev.part x

  unfoldable pub opencode_line : String → Extract → Extract
  opencode_line line x = opencode_step (j.opencode_event line) line x

  unfoldable pub extract_opencode_tokens : String → String × TokenStats
  extract_opencode_tokens = extract opencode_line

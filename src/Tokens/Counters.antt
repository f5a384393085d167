-- ===== src/Tokens/Counters.antt =====
-- The counters of tasklib/tokens.go. `parse_int` is `strconv.ParseInt(s, 10, 64)`, with the number
-- that it returns next to an error, and `number` is `StringCmd.Int64`, with `none` for its error.
use ai_agents.Prelude.{[], ◌∷◌, ◌++◌, List, String, ℤ, pos, Option, none, some, map}
use ai_agents.Redis.Client.{M, request, attempt, hgetall, ◌>>=◌, pure}
use ai_agents.Redis.Commands.{Fields, Cmd, Redis, read, field, hincrby}
use ai_agents.Redis.Keys.{
  HashKey, stats_total_key, stats_agent_key, thread_state_key, task_key, str_key, hash_key,
}
use ai_agents.Types.{TokenStats, no_tokens}
use ai_agents.Worker.{counters}

abbrev pub parsed_or_zero : (String → ℤ) → Option String → ℤ
parsed_or_zero parse_int none = pos 0
parsed_or_zero parse_int (some v) = parse_int v

abbrev pub parse_field_int : (String → ℤ) → Fields → String → ℤ
parse_field_int parse_int fields name = parsed_or_zero parse_int (field name fields)

unfoldable pub persist_master_token_stats : String → TokenStats → String → List Cmd
persist_master_token_stats thread ts agent =
    counters stats_total_key ts
    ++ (counters (stats_agent_key agent) ts
        ++ (hincrby (thread_state_key thread) "master_input_tokens" ts.input_tokens
            ∷ hincrby (thread_state_key thread) "master_output_tokens" ts.output_tokens
            ∷ hincrby (thread_state_key thread) "master_cache_read_tokens" ts.cache_read_tokens
            ∷ hincrby (thread_state_key thread) "master_cache_write_tokens" ts.cache_write_tokens
            ∷ hincrby (thread_state_key thread) "master_reasoning_tokens" ts.reasoning_tokens
            ∷ []))

abbrev pub token_stats_of : (String → ℤ) → Fields → TokenStats
token_stats_of parse_int fields = record {
  input_tokens = parse_field_int parse_int fields "input_tokens";
  output_tokens = parse_field_int parse_int fields "output_tokens";
  cache_read_tokens = parse_field_int parse_int fields "cache_read";
  cache_write_tokens = parse_field_int parse_int fields "cache_write";
  reasoning_tokens = parse_field_int parse_int fields "reasoning";
}

abbrev pub master_stats_of : (String → ℤ) → Fields → TokenStats
master_stats_of parse_int fields = record {
  input_tokens = parse_field_int parse_int fields "master_input_tokens";
  output_tokens = parse_field_int parse_int fields "master_output_tokens";
  cache_read_tokens = parse_field_int parse_int fields "master_cache_read_tokens";
  cache_write_tokens = parse_field_int parse_int fields "master_cache_write_tokens";
  reasoning_tokens = parse_field_int parse_int fields "master_reasoning_tokens";
}

-- no fields: the zero value
abbrev pub stats_or_zero : (String → ℤ) → Fields → TokenStats
stats_or_zero parse_int [] = no_tokens
stats_or_zero parse_int (f ∷ fs) = token_stats_of parse_int (f ∷ fs)

abbrev pub int64_or_zero : (String → Option ℤ) → Option String → ℤ
int64_or_zero number none = pos 0
int64_or_zero number (some v) = elim (number v) [ none ↦ pos 0 | some n ↦ n ]

module _ (r : Redis) where
  unfoldable pub get_token_stats : (String → ℤ) → HashKey → M r.Db TokenStats
  get_token_stats parse_int k = do fields ← hgetall r k; pure (stats_or_zero parse_int fields)

  -- an error counts as 0
  unfoldable pub get_token_stats_task_count : (String → Option ℤ) → HashKey → M r.Db ℤ
  get_token_stats_task_count number k = attempt (pos 0) (
      request r (read (hash_key k) ∷ [])
        (λ s. int64_or_zero number (field "task_count" (s.hashes k))))

  unfoldable pub get_master_token_stats : (String → ℤ) → String → M r.Db TokenStats
  get_master_token_stats parse_int thread = do
    fields ← hgetall r (thread_state_key thread)
    pure (master_stats_of parse_int fields)

  abbrev pub task_token_fields : List String
  task_token_fields =
      "input_tokens" ∷ "output_tokens" ∷ "cache_read_tokens" ∷ "cache_write_tokens"
      ∷ "reasoning_tokens" ∷ []

  abbrev pub task_stats_of : (String → Option ℤ) → (String → Option String) → TokenStats
  task_stats_of number value = record {
    input_tokens = int64_or_zero number (value "input_tokens");
    output_tokens = int64_or_zero number (value "output_tokens");
    cache_read_tokens = int64_or_zero number (value "cache_read_tokens");
    cache_write_tokens = int64_or_zero number (value "cache_write_tokens");
    reasoning_tokens = int64_or_zero number (value "reasoning_tokens");
  }

  -- A failed pipeline leaves every command with an error.
  unfoldable pub get_task_token_stats : (String → Option ℤ) → String → M r.Db TokenStats
  get_task_token_stats number id = attempt no_tokens (
      request r (map (λ n. read (str_key (task_key id n))) task_token_fields)
        (λ s. task_stats_of number (λ n. s.strings (task_key id n))))

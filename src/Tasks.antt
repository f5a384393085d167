-- ===== src/Tasks.antt =====
-- `GetTask` and `GetTaskResult` of tasklib/tasks.go. `parse_int` is `strconv.ParseInt(s, 10, 64)`;
-- `split_lines` and `join_lines` are `strings.Split` and `strings.Join` at "\n".
pub mod RoundTrip
use ai_agents.Prelude.{
  if◌then◌else◌, ℤ, pos, negsuc, String, Option, none, some, List, ◌∷◌, map, ◌==◌, ltb, eqb,
  or_empty, length, take_last,
}
use ai_agents.Redis.Client.{M, ◌>>=◌, ◌>>◌, pure, attempt, request, get_nil}
use ai_agents.Redis.Commands.{Cmd, Redis, read}
use ai_agents.Redis.Keys.{task_key, str_key}
use ai_agents.Types.{Task, empty_task}
use ai_agents.Prelude.{[]}

abbrev number_or_zero : Option ℤ → ℤ
number_or_zero none = pos 0
number_or_zero (some n) = n

abbrev pub or_text : String → String → String
or_text default s = if s == "" then default else s

abbrev or_dash : String → String
or_dash s = or_text "-" s

-- the keys that GetTask reads, in its order
abbrev pub task_fields : List String
task_fields =
    "status" ∷ "worker" ∷ "thread_id" ∷ "description" ∷ "result" ∷ "exit_code" ∷ "enqueued_at"
    ∷ "started_at" ∷ "last_started_at" ∷ "completed_at" ∷ "created_at" ∷ "worker_hostname"
    ∷ "retry_count" ∷ "error_message" ∷ "correlation_id" ∷ "cancelled_by" ∷ "cancelled_at"
    ∷ "cancelled_previous_status" ∷ "input_tokens" ∷ "output_tokens" ∷ "cache_read_tokens"
    ∷ "cache_write_tokens" ∷ "reasoning_tokens" ∷ []

-- the task that is made of the values of its keys
abbrev pub task_of : (String → Option ℤ) → String → (String → String) → Task
task_of parse_int id value = record empty_task {
  task_id = id;
  status = value "status";
  worker = value "worker";
  thread_id = value "thread_id";
  description = value "description";
  result = value "result";
  exit_code = value "exit_code";
  enqueued_at = or_text (value "created_at") (value "enqueued_at");
  started_at = value "started_at";
  last_started_at = value "last_started_at";
  completed_at = or_dash (value "completed_at");
  worker_hostname = value "worker_hostname";
  retry_count = value "retry_count";
  error_message = value "error_message";
  correlation_id = value "correlation_id";
  cancelled_by = value "cancelled_by";
  cancelled_at = value "cancelled_at";
  cancelled_previous_status = value "cancelled_previous_status";
  tokens = record {
    input_tokens = number_or_zero (parse_int (value "input_tokens"));
    output_tokens = number_or_zero (parse_int (value "output_tokens"));
    cache_read_tokens = number_or_zero (parse_int (value "cache_read_tokens"));
    cache_write_tokens = number_or_zero (parse_int (value "cache_write_tokens"));
    reasoning_tokens = number_or_zero (parse_int (value "reasoning_tokens"));
  };
}

abbrev reads_of : String → List String → List Cmd
reads_of id names = map (λ n. read (str_key (task_key id n))) names

module _ (r : Redis) where
  -- A failed pipeline leaves every value empty.
  unfoldable pub get_task : (String → Option ℤ) → String → M r.Db Task
  get_task parse_int id = attempt (task_of parse_int id (λ n. "")) (
      request r (reads_of id task_fields)
        (λ s. task_of parse_int id (λ n. or_empty (s.strings (task_key id n)))))

  abbrev tail_of : (String → List String) → (List String → String) → ℤ → String → String
  tail_of split_lines join_lines (negsuc n) result = result
  tail_of split_lines join_lines (pos n) result =
      if eqb n 0
      then ""
      else if ltb n (length (split_lines result))
      then join_lines (take_last n (split_lines result))
      else result

  abbrev result_of : (String → List String) → (List String → String) → ℤ → Option String → String
  result_of split_lines join_lines tail none = ""
  result_of split_lines join_lines tail (some result) = tail_of split_lines join_lines tail result

  unfoldable pub get_task_result :
      (String → List String) → (List String → String) → String → ℤ → M r.Db String
  get_task_result split_lines join_lines id tail = do
    found ← get_nil r (task_key id "result")
    pure (result_of split_lines join_lines tail found)

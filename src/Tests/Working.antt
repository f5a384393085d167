-- ===== src/Tests/Working.antt =====
-- Runs of the worker and of a deletion on the concrete servers.
use ai_agents.Prelude.{pos, refl, false, some, ◌∷◌}
use ai_agents.Redis.Client.{Result, request, do_all}
use ai_agents.Redis.Commands.{Keyspace, put_list, put_hash}
use ai_agents.Redis.Keys.{processing_key, thread_state_key}
use ai_agents.Tests.Server.{nothing, host, reliable}
use ai_agents.Threads.State.{delete_single_thread_keys, delete_each, delete_thread_known}
use ai_agents.Types.{no_tokens}
use ai_agents.Worker.{Job, World}
use ai_agents.Worker.Process.{process_one_task}
use ai_agents.Worker.Settled.{Settled, process_settles}
use ai_agents.Prelude.{[]}

abbrev job : Job
job = record {
  task_id = "t1";
  thread_id = "th";
  instruction = "do it";
  history_window = pos 0;
  timeout = pos 60;
}

abbrev world : World
world = record {
  parse_job = λ s. some job;
  worker_name = "claude";
  worker_role = "";
  agent_type = "claude";
  hostname = "h";
  default_timeout = pos 1800;
  default_window = 10;
  completed_at = "2026-01-01T00:01:00Z";
  duration = pos 60000;
  exec = λ thread timeout prompt. record {
    stdout = "fine";
    stderr = "";
    exit_code = pos 0;
    failed = false;
    ended_late = false;
  };
  process = λ s. (s, no_tokens);
  copilot_stats = λ s. no_tokens;
  decimal = λ n. "0";
  capped = λ s. s;
}

abbrev taken : Keyspace
taken = put_list (processing_key "claude") ("t1" ∷ []) nothing

process_settles_example :
    Settled reliable
      (λ cs d. refl)
      (host "t1")
      world
      "claude"
      "t1"
      job
      (process_one_task reliable (host "t1") world "claude" "t1" taken).1
process_settles_example =
    process_settles reliable (λ cs d. refl) (host "t1") world "claude" "t1" job taken refl

abbrev two_threads : Keyspace
two_threads =
    put_hash (thread_state_key "a") (("status", "complete") ∷ [])
      (put_hash (thread_state_key "b") (("status", "error") ∷ []) nothing)

abbrev deleted : Result (Unit {0}) × Keyspace
unfolding delete_thread_known delete_each delete_single_thread_keys do_all request
deleted = delete_thread_known reliable "a" ("b" ∷ []) two_threads

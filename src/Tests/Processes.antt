-- ===== src/Tests/Processes.antt =====
-- The process of a request at concrete inputs.
use ai_agents.Prelude.{◌≡◌, refl, true, false, none, some, [], ◌∷◌, any, ◌==◌}
use ai_agents.Redis.Commands.{Keyspace, put_str}
use ai_agents.Redis.Keys.{thread_complete_key, thread_running_key}
use ai_agents.Tests.Server.{nothing, host, reliable}
use ai_agents.Web.Background.{Process, Settings, live, run_subprocess}
use ai_agents.Web.Background.Finished.{run_subprocess-completes}
use ai_agents.Web.Background.Released.{NotRunning, run_subprocess-releases}
use ai_agents.Web.Submit.{Service}

abbrev settings : Settings
settings = record {
  output_format = "text";
  timeout_text = "1h";
  trim_space = λ s. s;
  parse_stream = λ s. none;
}

-- a process that prints a line and fails
abbrev failing : Process
failing = record {
  mkdir_error = none;
  pipe_error = none;
  start_error = none;
  cancelled_at_start = false;
  reads = record { cancelled = false; text = "working"; ended = true } ∷ [];
  context_end = live;
  wait_error = some "exit status 1";
  stderr = "";
}

abbrev busy : Service Keyspace
busy = record {
  db = put_str (thread_running_key "th") (some "req") nothing;
  in_use = 1;
  cancels = "th" ∷ [];
}

abbrev settled : Service Keyspace
settled = (run_subprocess reliable (host "t") settings "th" failing busy).1

run_subprocess-releases_example :
    (settled.in_use ≡ 0)
    × (any (λ t. t == "th") settled.cancels ≡ false)
    × NotRunning reliable (host "t") settings "th" settled.db
run_subprocess-releases_example =
    run_subprocess-releases reliable (host "t") settings "th" (λ d. refl) failing busy

run_subprocess-completes_example : settled.db.strings (thread_complete_key "th") ≡ some "1"
run_subprocess-completes_example =
    run_subprocess-completes reliable (host "t") settings "th" (λ cs d. refl) failing busy refl

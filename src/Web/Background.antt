-- ===== src/Web/Background.antt =====
-- `runSubprocess` of cmd/webui/internal/request/subprocess.go, and `Cancel` and `Shutdown` of
-- handler.go. The process is a parameter; a panic, the environment and the logs are left out.
pub mod Released
pub mod Completed
pub mod Marked
pub mod Finished
use ai_agents.Locks.{release_request_lock}
use ai_agents.Prelude.{
  String, Bool, not, ◌==◌, Option, none, some, List, [], ◌∷◌, ◌++◌, any, filter, if◌then◌else◌,
  ◌+s◌,
}
use ai_agents.Redis.Client.{M, ◌>>=◌, ◌>>◌, pure, attempt, do_all, ok, err, sentinel, context_done}
use ai_agents.Redis.Commands.{Redis}
use ai_agents.Tokens.Counters.{persist_master_token_stats}
use ai_agents.Types.{Host}
use ai_agents.Web.Stream.{
  Read, StreamMessage, new_stream, write_response_message, write_error_message, process_stream_json,
  process_plain_text,
}
use ai_agents.Web.Submit.{Service, lift, free_slot, update_thread_last_activity}

-- `ctx.Err()` after the process has ended
pub data ContextEnd : Type 0 where
  live deadline_exceeded canceled : ContextEnd

-- what the operating system and the process do; an error is its text
pub record Process : Type 0 where
  pub mkdir_error : Option String
  pub pipe_error : Option String
  pub start_error : Option String
  pub cancelled_at_start : Bool
  pub reads : List Read
  pub context_end : ContextEnd
  pub wait_error : Option String
  -- without the space around it
  pub stderr : String

pub record Settings : Type 0 where
  pub output_format : String
  -- `%s` of the timeout
  pub timeout_text : String
  pub trim_space : String → String
  pub parse_stream : String → Option StreamMessage

-- the arguments of claude
unfoldable pub claude_args : String → Bool → String → String → List String
claude_args output_format use_resume session user_request =
    ("--dangerously-skip-permissions" ∷ [])
    ++ ((if output_format == "stream-json"
          then "--output-format" ∷ "stream-json" ∷ "--verbose" ∷ []
          else [])
        ++ ((if use_resume then "--resume" ∷ session ∷ [] else "--session-id" ∷ session ∷ [])
            ++ ("-p" ∷ user_request ∷ [])))

module _ {D : Type 0} where
  -- `delete(h.cancels, threadID)`
  unfoldable pub unregister : String → M (Service D) (Unit {0})
  unregister thread s = (ok tt, record s { cancels = filter (λ t. not (t == thread)) s.cancels })

  -- The call of the cancel function ends the context of the thread's process.
  unfoldable pub cancel : String → M (Service D) (Unit {0})
  cancel thread s =
      if any (λ t. t == thread) s.cancels
      then unregister thread s
      else (err (sentinel "no running request"), s)

  -- `drained`: the requests end before the context of the shutdown
  unfoldable pub shutdown : Bool → M (Service D) (Unit {0})
  shutdown drained s = (if drained then ok tt else err context_done, record s { cancels = [] })

module _ (r : Redis) (h : Host) (cfg : Settings) where
  abbrev timed_out_text : String
  timed_out_text = h.agent_name +s " timed out after " +s cfg.timeout_text

  -- the text of an error of `Wait`
  abbrev exit_text : Option String → String
  exit_text none = ""
  exit_text (some e) = "claude exited with error: " +s e

  abbrev failed_text : Process → String
  failed_text p = if p.stderr == "" then exit_text p.wait_error else p.stderr

  -- there was no result message
  abbrev crash_text : Process → ContextEnd → String
  crash_text p deadline_exceeded = timed_out_text
  crash_text p canceled = "Request cancelled"
  crash_text p live =
      if failed_text p == ""
      then "claude exited without emitting a result message"
      else failed_text p

  unfoldable pub conclude_stream : String → Process → Bool → M r.Db (Unit {0})
  conclude_stream thread p completed =
      if completed then pure tt else write_error_message r h thread (crash_text p p.context_end)

  abbrev no_output_text : String → String
  no_output_text stderr =
      if stderr == ""
      then "claude exited without producing output"
      else "claude exited without producing output (stderr: " +s stderr +s ")"

  abbrev conclude_exit : String → Process → String → Option String → M r.Db (Unit {0})
  conclude_exit thread p result (some e) = write_error_message r h thread (failed_text p)
  conclude_exit thread p result none =
      if result == ""
      then write_error_message r h thread (no_output_text p.stderr)
      else write_response_message r h thread result

  abbrev conclude_live : String → Process → String → ContextEnd → M r.Db (Unit {0})
  conclude_live thread p result deadline_exceeded = write_error_message r h thread timed_out_text
  conclude_live thread p result canceled = write_error_message r h thread "Request cancelled"
  conclude_live thread p result live = conclude_exit thread p result p.wait_error

  unfoldable pub conclude_text : String → Process → String → M r.Db (Unit {0})
  conclude_text thread p full = conclude_live thread p (cfg.trim_space full) p.context_end

  unfoldable pub read_stream : String → Process → M r.Db (Unit {0})
  read_stream thread p = do
    st ← process_stream_json r h cfg.parse_stream thread p.reads new_stream
    attempt tt (do_all r (persist_master_token_stats thread st.master_stats h.agent_name))
    conclude_stream thread p st.completed

  unfoldable pub read_text : String → Process → M r.Db (Unit {0})
  read_text thread p = do
    full ← process_plain_text r h thread p.reads ""
    conclude_text thread p full

  unfoldable pub read_output : String → Process → M r.Db (Unit {0})
  read_output thread p =
      if cfg.output_format == "stream-json" then read_stream thread p else read_text thread p

  -- `if err != nil { h.writeErrorMessage(…); return }`
  abbrev or_fail : String → String → Option String → M r.Db (Unit {0}) → M r.Db (Unit {0})
  or_fail thread context none next = next
  or_fail thread context (some e) next = write_error_message r h thread (context +s e)

  -- the body, without what is deferred
  unfoldable pub subprocess_body : String → Process → M r.Db (Unit {0})
  subprocess_body thread p = or_fail thread "failed to create workspace dir: " p.mkdir_error (
      or_fail thread "failed to create stdout pipe: " p.pipe_error (
        or_fail thread "failed to start claude: " p.start_error
          (if p.cancelled_at_start then pure tt else read_output thread p)))

  unfoldable pub give_up_lock : String → M r.Db (Unit {0})
  give_up_lock thread = do
    attempt tt (release_request_lock r thread)
    attempt tt (update_thread_last_activity r h thread)

  unfoldable pub run_subprocess : String → Process → M (Service r.Db) (Unit {0})
  run_subprocess thread p = do
    lift (attempt tt (subprocess_body thread p))
    free_slot
    lift (give_up_lock thread)
    unregister thread
